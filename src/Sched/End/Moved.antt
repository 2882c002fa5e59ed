-- ===== src/Sched/End/Moved.antt =====
-- What the end of a task without children does.
use hydrangea.Prelude.{
  ℕ, zero, suc, ◌+◌, ◌<◌, ◌≡◌, ◌≢◌, arith, some, Option, refl, ◌∙◌, sym, List, [], ◌∷◌, ◌++◌,
  length,
}
use hydrangea.Sched.{Scheduler, ts_fin, mt_pick_next_task}
use hydrangea.Sched.Pick.{Links}
use hydrangea.Sched.End.{move_task, end_children, mt_task_terminate, mt_task_self_terminate}
use hydrangea.Sched.End.Lists.{
  Doubly, Distinct, Apart, Childless, doubly_mid, Distinct-mid, Apart-mid, first-Away, Away-mid,
  head-Away, doubly_nonzero,
}
use hydrangea.Sched.End.Unlinked.{next_self, doubly_moved, links_moved, state_same, Childless-moved}

-- A round for each task, and one more, is enough where none is a child.
end_children_none :
    (f : Scheduler → ℕ → Option Scheduler) (s : Scheduler) (pid prev p fuel : ℕ) (xs : List ℕ)
    → Doubly s.nodes prev p xs
    → Childless s.nodes pid xs
    → length xs < fuel
    → end_children f s pid p fuel ≡ some s
unfolding end_children
end_children_none f s pid prev p zero xs l c h = absurd (omega (arith, h))
end_children_none f s pid prev p (suc n) [] l c h = ground arith
end_children_none f s pid prev p (suc n) (x ∷ xs) (a, b, c, l) (d, ds) h =
    let rest = end_children_none f s pid x (s.nodes x).next n xs l ds (omega arith) in ground arith

terminate-step :
    (s : Scheduler) (t n : ℕ)
    → (s.nodes t).pid ≢ 0
    → mt_task_terminate s t (suc n)
      ≡ end_children (λ s' i. mt_task_terminate s' i n) (move_task s t) (s.nodes t).pid s.tasks n
unfolding mt_task_terminate
terminate-step s t n p = ground (arith, p)

-- What `mt_task_terminate` needs of the lists: `t` has the task `r` before it in the list of tasks, and none
-- of the others is its child.
pub record Ready (s : Scheduler) (t r : ℕ) (xs ys ended : List ℕ) : Type 0 where
  pub not_first : (s.nodes t).pid ≢ 0
  pub linked : Doubly s.nodes 0 s.tasks (xs ++ r ∷ t ∷ ys)
  pub distinct : Distinct (xs ++ r ∷ t ∷ ys)
  pub terminated : Links s.nodes s.terminated_tasks ended
  pub apart : Apart ended (xs ++ r ∷ t ∷ ys)
  pub childless : Childless s.nodes (s.nodes t).pid (xs ++ r ∷ ys)

-- The task is in front of the terminated ones, and the other tasks stay in their order.
pub record Moved (s s' : Scheduler) (t : ℕ) (others ended : List ℕ) : Type 0 where
  pub rest : Doubly s'.nodes 0 s'.tasks others
  pub first : s'.terminated_tasks ≡ t
  pub old : Links s'.nodes (s'.nodes t).next ended
  pub cur : s'.cur_task ≡ s.cur_task
  pub states : (q : ℕ) → (s'.nodes q).state ≡ (s.nodes q).state

move_task-Moved :
    (s : Scheduler) (t r : ℕ) (xs ys ended : List ℕ)
    → Ready s t r xs ys ended
    → Moved s (move_task s t) t (xs ++ r ∷ ys) ended
      × Childless (move_task s t).nodes (s.nodes t).pid (xs ++ r ∷ ys)
unfolding move_task
move_task-Moved s t r xs ys ended h =
    let (r0, t0, back, behind) = doubly_mid s.nodes 0 s.tasks r t xs ys h.linked in
    let (tr, at) = Distinct-mid r t xs ys h.distinct in
    let rt = λ (e : r ≡ t). tr (sym e) in
    let dt = λ (e : (s.nodes t).next ≡ t).
      head-Away s.nodes t (s.nodes t).next t ys t0 at behind (sym e) in
    let ao =
      first-Away s.nodes s.terminated_tasks ended (xs ++ r ∷ t ∷ ys) h.terminated
        (doubly_nonzero s.nodes 0 s.tasks (xs ++ r ∷ t ∷ ys) h.linked) h.apart in
    let (_, to, _, _) = Away-mid s.terminated_tasks r t xs ys ao in
    let ot = λ (e : s.terminated_tasks ≡ t). to (sym e) in
    let (ar, at') = Apart-mid r t xs ys ended h.apart in
    (
      record {
        rest = doubly_moved s t r back r0 rt dt ot 0 s.tasks xs ys h.distinct ao behind h.linked;
        first = refl;
        old =
            rw (next_self s t r back r0 rt dt ot)
              (links_moved s t r back r0 rt dt ot s.terminated_tasks ended at' ar h.terminated);
        cur = refl;
        states = state_same s t r back r0 rt dt ot;
      },
      Childless-moved s t r back r0 rt dt ot (s.nodes t).pid (xs ++ r ∷ ys) h.childless,
    )

-- Where `t` has a task before it in the list and none of the others is its child, `mt_task_terminate`
-- takes `t` out of the list of tasks, in which the others stay in their order, and puts it in front of
-- the terminated tasks. One round for each of the others, and two more, is enough fuel.
pub mt_task_terminate-Moved :
    (s : Scheduler) (t r fuel : ℕ) (xs ys ended : List ℕ)
    → Ready s t r xs ys ended
    → length (xs ++ r ∷ ys) + 1 < fuel
    → (s' : Scheduler) × (mt_task_terminate s t fuel ≡ some s') × Moved s s' t (xs ++ r ∷ ys) ended
unfolding move_task
mt_task_terminate-Moved s t r zero xs ys ended h f = absurd (omega (arith, f))
mt_task_terminate-Moved s t r (suc n) xs ys ended h f =
    let (moved, childless) = move_task-Moved s t r xs ys ended h in
    (
      move_task s t,
      terminate-step s t n h.not_first
          ∙ end_children_none (λ s' i. mt_task_terminate s' i n) (move_task s t) (s.nodes t).pid 0
              (move_task s t).tasks n (xs ++ r ∷ ys) moved.rest childless (omega (arith, f)),
      moved,
    )

pick_behind :
    (s : Scheduler) (t fuel : ℕ)
    → (s.nodes s.cur_task).next ≡ t
    → t ≢ 0
    → (s.nodes t).state ≢ ts_fin
    → mt_pick_next_task s fuel ≡ some t
unfolding mt_pick_next_task
pick_behind s t fuel e n f = ground (arith, e, n, f)

-- Where the task that ends itself has a task before it and no children, and another has ended before, the
-- next task that `mt_pick_next_task` chooses is the one that ended last, if its state is not TS_FIN. Two
-- rounds more than there are other tasks are enough fuel.
pub mt_task_self_terminate-picked :
    (s : Scheduler) (r last fuel : ℕ) (xs ys ended : List ℕ)
    → Ready s s.cur_task r xs ys (last ∷ ended)
    → (s.nodes last).state ≢ ts_fin
    → length (xs ++ r ∷ ys) + 1 < fuel
    → (s' : Scheduler) × (mt_task_self_terminate s fuel ≡ some s')
      × (mt_pick_next_task s' fuel ≡ some last)
unfolding mt_task_self_terminate
mt_task_self_terminate-picked s r last fuel xs ys ended h n f =
    let (s', run, moved) = mt_task_terminate-Moved s s.cur_task r fuel xs ys (last ∷ ended) h f in
    let (e, l0, _) = moved.old in
    (s', run, pick_behind s' last fuel (rw moved.cur e) l0 (rw (moved.states last) n))
