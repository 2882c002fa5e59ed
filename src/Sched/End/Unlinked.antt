-- ===== src/Sched/End/Unlinked.antt =====
-- What moving a task to the terminated ones leaves of the lists.
use hydrangea.Prelude.{ℕ, ◌≡◌, ◌≢◌, arith, ◌∙◌, sym, List, [], ◌∷◌, ◌++◌}
use hydrangea.Sched.{Scheduler}
use hydrangea.Sched.Pick.{Links}
use hydrangea.Sched.End.{skip_forth, skip_back, move_task}
use hydrangea.Sched.End.Lists.{Doubly, Away, Distinct, Childless, Away-mid, head-Away}

module _ (s : Scheduler) (t r : ℕ) (back : (s.nodes t).prev ≡ r) (r0 : r ≢ 0) (rt : r ≢ t)
    (dt : (s.nodes t).next ≢ t) (ot : s.terminated_tasks ≢ t) where
  next_other : (q : ℕ) → q ≢ t → q ≢ r → ((move_task s t).nodes q).next ≡ (s.nodes q).next
  unfolding move_task skip_forth skip_back
  next_other q a b = ground (arith, a, b, back)

  next_before : s.terminated_tasks ≢ r → ((move_task s t).nodes r).next ≡ (s.nodes t).next
  unfolding move_task skip_forth skip_back
  next_before o = ground (arith, back, r0, rt, o)

  pub next_self : ((move_task s t).nodes t).next ≡ s.terminated_tasks
  unfolding move_task skip_forth skip_back
  next_self = ground (arith, ot)

  prev_other :
      (q : ℕ)
      → q ≢ t
      → q ≢ (s.nodes t).next
      → q ≢ s.terminated_tasks
      → ((move_task s t).nodes q).prev ≡ (s.nodes q).prev
  unfolding move_task skip_forth skip_back
  prev_other q a b c = ground (arith, a, b, c, back)

  prev_after :
      (s.nodes t).next ≢ 0
      → (s.nodes t).next ≢ s.terminated_tasks
      → ((move_task s t).nodes (s.nodes t).next).prev ≡ r
  unfolding move_task skip_forth skip_back
  prev_after a b = ground (arith, a, b, back)

  ppid_same : (q : ℕ) → ((move_task s t).nodes q).ppid ≡ (s.nodes q).ppid
  unfolding move_task skip_forth skip_back
  ppid_same q = ground (arith, back)

module _ (s : Scheduler) (t r : ℕ) (back : (s.nodes t).prev ≡ r) (r0 : r ≢ 0) (rt : r ≢ t)
    (dt : (s.nodes t).next ≢ t) (ot : s.terminated_tasks ≢ t) where
  -- The part of the list behind the neighbours of `t` stays.
  pub doubly_kept :
      (prev p : ℕ) (xs : List ℕ)
      → Away t xs
      → Away r xs
      → Away (s.nodes t).next xs
      → Away s.terminated_tasks xs
      → Doubly s.nodes prev p xs
      → Doubly (move_task s t).nodes prev p xs
  doubly_kept prev p [] at ar ad ao l = l
  doubly_kept prev p (x ∷ xs) (at, ats) (ar, ars) (ad, ads) (ao, aos) (a, b, c, l) = (
    a,
    b,
    prev_other s t r back r0 rt dt ot x at ad ao ∙ c,
    rw (next_other s t r back r0 rt dt ot x at ar)
        (doubly_kept x (s.nodes x).next xs ats ars ads aos l),
  )

  pub doubly_after :
      (ys : List ℕ)
      → Away r ys
      → Distinct (t ∷ ys)
      → Away s.terminated_tasks ys
      → Doubly s.nodes t (s.nodes t).next ys
      → Doubly (move_task s t).nodes r (s.nodes t).next ys
  doubly_after [] ar d ao l = l
  doubly_after (y ∷ ys) (ar, ars) ((at, ats), (dy, dys)) (ao, aos) (a, b, c, l) = (
    a,
    b,
    rw (← a) (prev_after s t r back r0 rt dt ot (λ e. b (sym a ∙ e)) λ e. ao (sym a ∙ e)),
    rw (next_other s t r back r0 rt dt ot y at ar)
        (doubly_kept y (s.nodes y).next ys ats ars (rw a dy) aos l),
  )

  pub doubly_moved :
      (prev p : ℕ) (xs ys : List ℕ)
      → Distinct (xs ++ r ∷ t ∷ ys)
      → Away s.terminated_tasks (xs ++ r ∷ t ∷ ys)
      → Doubly s.nodes t (s.nodes t).next ys
      → Doubly s.nodes prev p (xs ++ r ∷ t ∷ ys)
      → Doubly (move_task s t).nodes prev p (xs ++ r ∷ ys)
  doubly_moved prev p [] ys ((rt', ar), (at, dys)) (ao, (ao', aos)) behind (a, b, c, l) = (
    a,
    b,
    prev_other s t r back r0 rt dt ot r rt (head-Away s.nodes t (s.nodes t).next r ys r0 ar behind)
          ao
        ∙ c,
    rw (next_before s t r back r0 rt dt ot λ e'. ao (sym e'))
        (doubly_after ys ar (at, dys) aos behind),
  )
  doubly_moved prev p (x ∷ xs) ys (ax, d) (ao, aos) behind (a, b, c, l) =
      let (xr, xt, _, xys) = Away-mid x r t xs ys ax in
      (
        a,
        b,
        prev_other s t r back r0 rt dt ot x (λ e. xt (sym e))
              (head-Away s.nodes t (s.nodes t).next x ys b xys behind) ao
            ∙ c,
        rw (next_other s t r back r0 rt dt ot x (λ e. xt (sym e)) λ e. xr (sym e))
            (doubly_moved x (s.nodes x).next xs ys d aos behind l),
      )

  pub links_moved :
      (p : ℕ) (ts : List ℕ)
      → Away t ts
      → Away r ts
      → Links s.nodes p ts
      → Links (move_task s t).nodes p ts
  links_moved p [] at ar l = l
  links_moved p (x ∷ xs) (at, ats) (ar, ars) (a, b, l) = (
    a,
    b,
    rw (next_other s t r back r0 rt dt ot x at ar) (links_moved (s.nodes x).next xs ats ars l),
  )

  pub state_same : (q : ℕ) → ((move_task s t).nodes q).state ≡ (s.nodes q).state
  unfolding move_task skip_forth skip_back
  state_same q = ground (arith, back)

  pub Childless-moved :
      (pid : ℕ) (xs : List ℕ) → Childless s.nodes pid xs → Childless (move_task s t).nodes pid xs
  Childless-moved pid [] c = c
  Childless-moved pid (x ∷ xs) (a, c) =
      (rw (ppid_same s t r back r0 rt dt ot x) a, Childless-moved pid xs c)
