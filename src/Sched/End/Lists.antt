-- ===== src/Sched/End/Lists.antt =====
-- Doubly linked lists of tasks.
use hydrangea.Prelude.{ℕ, zero, ◌≡◌, ◌≢◌, refl, ◌∙◌, sym, List, [], ◌∷◌, ◌++◌}
use hydrangea.Sched.{Task}
use hydrangea.Sched.Pick.{Links}

-- From `p` on, behind `prev`, `nodes` holds the doubly linked list of the tasks `ts`.
abbrev pub Doubly : (ℕ → Task) → (prev p : ℕ) → List ℕ → Type 0
Doubly nodes prev p [] = p ≡ 0
Doubly nodes prev p (x ∷ xs) =
    (p ≡ x) × (x ≢ 0) × ((nodes x).prev ≡ prev) × Doubly nodes x (nodes x).next xs

-- `q` is none of the list.
abbrev pub Away : ℕ → List ℕ → Type 0
Away q [] = zero ≡ zero
Away q (x ∷ xs) = (x ≢ q) × Away q xs

abbrev pub Distinct : List ℕ → Type 0
Distinct [] = zero ≡ zero
Distinct (x ∷ xs) = Away x xs × Distinct xs

-- None of the first list is in the second.
abbrev pub Apart : List ℕ → List ℕ → Type 0
Apart [] ts = zero ≡ zero
Apart (q ∷ qs) ts = Away q ts × Apart qs ts

-- None of the list has the parent `pid`.
abbrev pub Childless : (ℕ → Task) → (pid : ℕ) → List ℕ → Type 0
Childless nodes pid [] = zero ≡ zero
Childless nodes pid (x ∷ xs) = ((nodes x).ppid ≢ pid) × Childless nodes pid xs

pub Away-mid :
    (q r t : ℕ) (xs ys : List ℕ)
    → Away q (xs ++ r ∷ t ∷ ys)
    → (r ≢ q) × (t ≢ q) × Away q xs × Away q ys
Away-mid q r t [] ys (a, (b, c)) = (a, b, refl, c)
Away-mid q r t (x ∷ xs) ys (a, b) = let (c, d, e, f) = Away-mid q r t xs ys b in (c, d, (a, e), f)

pub head-Away :
    (nodes : ℕ → Task) (prev p q : ℕ) (xs : List ℕ)
    → q ≢ 0
    → Away q xs
    → Doubly nodes prev p xs
    → q ≢ p
head-Away nodes prev p q [] n a l e = n (e ∙ l)
head-Away nodes prev p q (x ∷ xs) n (a, _) (h, _, _, _) e = a (sym (e ∙ h))

pub doubly_nonzero :
    (nodes : ℕ → Task) (prev p : ℕ) (xs : List ℕ) → Doubly nodes prev p xs → Away 0 xs
doubly_nonzero nodes prev p [] l = refl
doubly_nonzero nodes prev p (x ∷ xs) (a, b, c, l) = (b, doubly_nonzero nodes x (nodes x).next xs l)

pub doubly_mid :
    (nodes : ℕ → Task) (prev p r t : ℕ) (xs ys : List ℕ)
    → Doubly nodes prev p (xs ++ r ∷ t ∷ ys)
    → (r ≢ 0) × (t ≢ 0) × ((nodes t).prev ≡ r) × Doubly nodes t (nodes t).next ys
doubly_mid nodes prev p r t [] ys (a, b, c, (e, f, g, l)) = (b, f, g, l)
doubly_mid nodes prev p r t (x ∷ xs) ys (a, b, c, l) = doubly_mid nodes x (nodes x).next r t xs ys l

pub Distinct-mid : (r t : ℕ) (xs ys : List ℕ) → Distinct (xs ++ r ∷ t ∷ ys) → (t ≢ r) × Away t ys
Distinct-mid r t [] ys ((a, _), (b, _)) = (a, b)
Distinct-mid r t (x ∷ xs) ys (_, d) = Distinct-mid r t xs ys d

pub Apart-mid : (r t : ℕ) (xs ys qs : List ℕ) → Apart qs (xs ++ r ∷ t ∷ ys) → Away r qs × Away t qs
Apart-mid r t xs ys [] a = (refl, refl)
Apart-mid r t xs ys (q ∷ qs) (a, b) =
    let (c, d, _, _) = Away-mid q r t xs ys a in
    let (e, f) = Apart-mid r t xs ys qs b in ((λ h. c (sym h), e), (λ h. d (sym h), f))

pub first-Away :
    (nodes : ℕ → Task) (p : ℕ) (qs ts : List ℕ)
    → Links nodes p qs
    → Away 0 ts
    → Apart qs ts
    → Away p ts
first-Away nodes p [] ts e a ap = rw e a
first-Away nodes p (q ∷ qs) ts (e, _, _) a (b, _) = rw e b
