-- ===== src/Sched/Spawn/Numbers.antt =====
-- Which number `gen_pid` of task.c gives.
use hydrangea.Prelude.{
  ℕ, zero, suc, ◌+◌, ◌<◌, ◌≤◌, ◌≡◌, ◌≢◌, arith, ◌==◌, if◌then◌else◌, some, refl, ◌∙◌, sym, List, [],
  ◌∷◌, length, ◌%◌, ◌^◌,
}
use hydrangea.Sched.{Task, Scheduler, find_pid, mt_get_task_by_pid}
use hydrangea.Sched.Pick.{Links}
use hydrangea.Sched.Spawn.{free_pid, gen_pid, max_pid}

-- The first task of a list with the number `pid`, or 0.
abbrev pub with_pid : (ℕ → Task) → (pid : ℕ) → List ℕ → ℕ
with_pid nodes pid [] = 0
with_pid nodes pid (x ∷ xs) = if (nodes x).pid == pid then x else with_pid nodes pid xs

find_pid-with_pid :
    (nodes : ℕ → Task) (pid t fuel : ℕ) (ts : List ℕ)
    → Links nodes t ts
    → length ts < fuel
    → find_pid nodes pid t fuel ≡ some (with_pid nodes pid ts)
unfolding find_pid
find_pid-with_pid nodes pid t zero ts l f = absurd (omega (arith, f))
find_pid-with_pid nodes pid t (suc n) [] l f = ground arith
find_pid-with_pid nodes pid t (suc n) (x ∷ xs) (e, ne, l) f =
    let rest = find_pid-with_pid nodes pid (nodes x).next n xs l (omega arith) in ground arith

get-with_pid :
    (s : Scheduler) (pid walk : ℕ) (ts : List ℕ)
    → Links s.nodes s.tasks ts
    → length ts < walk
    → mt_get_task_by_pid s pid walk ≡ some (with_pid s.nodes pid ts)
unfolding mt_get_task_by_pid
get-with_pid s pid walk ts l f = find_pid-with_pid s.nodes pid s.tasks walk ts l f

-- `p` is the first number from `from` on that no task has.
pub record FirstFree (s : Scheduler) (ts : List ℕ) (from p : ℕ) : Type 0 where
  pub from_on : from ≤ p
  pub free : with_pid s.nodes p ts ≡ 0
  pub first : (q : ℕ) → from ≤ q → q < p → with_pid s.nodes q ts ≢ 0

free_pid-here :
    (s : Scheduler) (walk from n : ℕ)
    → mt_get_task_by_pid s from walk ≡ some 0
    → free_pid s walk from (suc n) ≡ some from
unfolding free_pid
free_pid-here s walk from n e = rw (e, free_pid) refl

free_pid-next :
    (s : Scheduler) (walk from n t : ℕ)
    → mt_get_task_by_pid s from walk ≡ some (suc t)
    → free_pid s walk from (suc n) ≡ free_pid s walk (from + 1) n
unfolding free_pid
free_pid-next s walk from n t e = rw (e, free_pid) (ground arith)

at_same :
    (s : Scheduler) (ts : List ℕ) (from q t : ℕ)
    → with_pid s.nodes from ts ≡ t
    → from ≡ q
    → t ≡ with_pid s.nodes q ts
at_same s ts from q t h c = rw (← c) (sym h)

first_from :
    (s : Scheduler) (ts : List ℕ) (from p t : ℕ)
    → with_pid s.nodes from ts ≡ suc t
    → FirstFree s ts (from + 1) p
    → (q : ℕ) → from ≤ q
    → q < p
    → with_pid s.nodes q ts ≢ 0
first_from s ts from p t h free q a c e =
    let ne : from ≢ q = λ i. omega (arith, at_same s ts from q (suc t) h i ∙ e) in
    free.first q (omega (arith, a, ne)) c e

-- One round of the search, with what it finds and what the next rounds do
free_pid-split :
    (s : Scheduler) (walk from n q t : ℕ) (ts : List ℕ)
    → Links s.nodes s.tasks ts
    → length ts < walk
    → from ≤ q
    → with_pid s.nodes q ts ≡ 0
    → with_pid s.nodes from ts ≡ t
    → (from + 1 ≤ q
        → (p : ℕ) × (free_pid s walk (from + 1) n ≡ some p) × FirstFree s ts (from + 1) p)
    → (p : ℕ) × (free_pid s walk from (suc n) ≡ some p) × FirstFree s ts from p
free_pid-split s walk from n q zero ts l w b e h rest = (
  from,
  free_pid-here s walk from n (rw (← h) (get-with_pid s from walk ts l w)),
  record { from_on = omega arith; free = h; first = λ r a c. absurd (omega (arith, a, c)) },
)
free_pid-split s walk from n q (suc t) ts l w b e h rest =
    let ne : from ≢ q = λ c. omega (arith, at_same s ts from q (suc t) h c ∙ e) in
    let (p, run, free) = rest (omega (arith, b, ne)) in
    (
      p,
      free_pid-next s walk from n t (rw (← h) (get-with_pid s from walk ts l w)) ∙ run,
      record {
        from_on = omega (arith, free.from_on);
        free = free.free;
        first = λ r a c. first_from s ts from p t h free r a c;
      },
    )

free_pid-FirstFree :
    (s : Scheduler) (walk from q fuel : ℕ) (ts : List ℕ)
    → Links s.nodes s.tasks ts
    → length ts < walk
    → from ≤ q
    → with_pid s.nodes q ts ≡ 0
    → q < from + fuel
    → (p : ℕ) × (free_pid s walk from fuel ≡ some p) × FirstFree s ts from p
free_pid-FirstFree s walk from q zero ts l w b e f = absurd (omega (arith, b, f))
free_pid-FirstFree s walk from q (suc n) ts l w b e f =
    free_pid-split s walk from n q (with_pid s.nodes from ts) ts l w b e refl
      λ b'. free_pid-FirstFree s walk (from + 1) q n ts l w b' e (omega (arith, f))

-- Once the numbers are used up, that is, the variable is above MAX_PID, `gen_pid` gives the lowest number that no
-- task of the list has, and the variable is the one after it. More rounds than some free number, and more
-- than there are tasks for each search, are enough fuel.
pub gen_pid-FirstFree :
    (s : Scheduler) (pid q walk fuel : ℕ) (ts : List ℕ)
    → max_pid < pid
    → Links s.nodes s.tasks ts
    → length ts < walk
    → with_pid s.nodes q ts ≡ 0
    → q < fuel
    → (p : ℕ) × (gen_pid s pid walk fuel ≡ some (p, (p + 1) % 2 ^ 32)) × FirstFree s ts 0 p
unfolding gen_pid
gen_pid-FirstFree s pid q walk fuel ts m l w e f =
    let (p, run, free) =
      free_pid-FirstFree s walk 0 q fuel ts l w (omega arith) e (omega (arith, f)) in
    (p, rw run (ground (arith, m)), free)
