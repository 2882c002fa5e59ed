-- ===== src/Sched/Spawn/Frame.antt =====
-- The first stack of a task.
use hydrangea.Prelude.{
  ℕ, zero, ◌+◌, ◌-◌, ◌*◌, ◌<◌, ◌≤◌, ◌≡◌, arith, refl, ◌∙◌, List, [], ◌∷◌, length, update,
}
use hydrangea.Sched.Spawn.{push_words, first_stack}

-- From `p` on, `m` holds the words.
abbrev pub Reads : (ℕ → ℕ) → (p : ℕ) → List ℕ → Type 0
Reads m p [] = zero ≡ zero
Reads m p (w ∷ ws) = (m p ≡ w) × Reads m (p + 4) ws

abbrev rev_onto : List ℕ → List ℕ → List ℕ
rev_onto [] acc = acc
rev_onto (w ∷ ws) acc = rev_onto ws (w ∷ acc)

push_words-above :
    (m : ℕ → ℕ) (sp q : ℕ) (ws : List ℕ) → length ws * 4 ≤ sp → sp ≤ q → push_words m sp ws q ≡ m q
unfolding push_words
push_words-above m sp q [] h b = refl
push_words-above m sp q (w ∷ ws) h b =
    push_words-above (update m (sp - 4) w) (sp - 4) q ws (omega (arith, h)) (omega (arith, b))
    ∙ ground (arith, h, b)

push_words-below :
    (m : ℕ → ℕ) (sp q : ℕ) (ws : List ℕ) → q + length ws * 4 < sp → push_words m sp ws q ≡ m q
unfolding push_words
push_words-below m sp q [] h = refl
push_words-below m sp q (w ∷ ws) h =
    push_words-below (update m (sp - 4) w) (sp - 4) q ws (omega (arith, h)) ∙ ground (arith, h)

Reads-same :
    (m m' : ℕ → ℕ) (p : ℕ) (ws : List ℕ)
    → ((q : ℕ) → p ≤ q → m' q ≡ m q)
    → Reads m p ws
    → Reads m' p ws
Reads-same m m' p [] same r = r
Reads-same m m' p (w ∷ ws) same (e, r) =
    (same p (omega arith) ∙ e, Reads-same m m' (p + 4) ws (λ q b. same q (omega (arith, b))) r)

push_words-Reads :
    (m : ℕ → ℕ) (sp p : ℕ) (ws acc : List ℕ)
    → sp ≡ p + length ws * 4
    → Reads m sp acc
    → Reads (push_words m sp ws) p (rev_onto ws acc)
unfolding push_words
push_words-Reads m sp p [] acc e r = let h : p ≡ sp = omega (arith, e) in rw h r
push_words-Reads m sp p (w ∷ ws) acc e r =
    let h : sp - 4 + 4 ≡ sp = omega (arith, e) in
    push_words-Reads (update m (sp - 4) w) (sp - 4) p ws (w ∷ acc) (omega (arith, e)) (
      ground arith,
      rw h (Reads-same m (update m (sp - 4) w) sp acc (λ q b. ground (arith, b, e)) r),
    )

-- The stack that a new task starts with, from the stack pointer on, which is 108 bytes below its end:
-- `mt_switch_task` finds the flags, seven zeros and the address that it returns to, which is that of
-- `irq_common_handler_pop_and_iret`; this finds the segments and, behind 36 bytes that keep what was in memory,
-- the entry, the code segment and the flags for `iret`; the routine finds 0 as its return address and its argument.
pub first_stack-Reads :
    (m : ℕ → ℕ) (sp args entry handler : ℕ)
    → (m' : ℕ → ℕ) × (first_stack m (108 + sp) args entry handler ≡ m')
      × Reads m' sp (0x200 ∷ 0 ∷ 0 ∷ 0 ∷ 0 ∷ 0 ∷ 0 ∷ 0 ∷ handler ∷ 0x10 ∷ 0x10 ∷ 0x10 ∷ 0x10 ∷ [])
      × ((q : ℕ) → sp + 52 ≤ q → q + 4 ≤ sp + 88 → m' q ≡ m q)
      × Reads m' (sp + 88) (entry ∷ 0x8 ∷ 0x200 ∷ 0 ∷ args ∷ [])
unfolding first_stack
first_stack-Reads m sp args entry handler =
    let top = 108 + sp in
    let upper = args ∷ 0 ∷ 0x200 ∷ 0x8 ∷ entry ∷ [] in
    let lower = 0x10 ∷ 0x10 ∷ 0x10 ∷ 0x10 ∷ handler ∷ 0 ∷ 0 ∷ 0 ∷ 0 ∷ 0 ∷ 0 ∷ 0 ∷ 0x200 ∷ [] in
    let m' = push_words m top upper in
    let m'' = push_words m' (top - 20 - 36) lower in
    (
      m'',
      refl,
      push_words-Reads m' (top - 20 - 36) sp lower [] (omega arith) refl,
      (λ q a b.
          push_words-above m' (top - 20 - 36) q lower (omega arith) (omega (arith, a))
          ∙ push_words-below m top q upper (omega (arith, b))),
      Reads-same m' m'' (sp + 88) (entry ∷ 0x8 ∷ 0x200 ∷ 0 ∷ args ∷ [])
          (λ q a. push_words-above m' (top - 20 - 36) q lower (omega arith) (omega (arith, a)))
          (push_words-Reads m top (sp + 88) upper [] (omega arith) refl),
    )
