-- ===== src/Sched/Switch.antt =====
-- `mt_schedule` of scheduler.c: the time slice, and the switch to the next task.
use mathlib.Core.Path.{subst}
use hydrangea.Prelude.{
  ℕ, ◌+◌, ◌-◌, ◌%◌, ◌^◌, ◌≤◌, ◌<◌, ◌≡◌, ◌≢◌, ◌⊎◌, inl, inr, refl, sym, ap, ◌∙◌, arith, ◌==◌,
  if◌then◌else◌, update, true, false, not, ◌&&◌, ◌||◌, some, List, [], ◌∷◌, length,
}
use hydrangea.Sched.{
  Task, Scheduler, ts_sus, ts_run, ts_fin, default_stack_size, mt_pick_next_task, switch_to,
  mt_schedule,
}
use hydrangea.Sched.Pick.{Links, first_alive, mt_pick_next_task-first_alive}

Links-same :
    (nodes nodes' : ℕ → Task) (t : ℕ) (ts : List ℕ)
    → ((q : ℕ) → (nodes' q).next ≡ (nodes q).next)
    → Links nodes t ts
    → Links nodes' t ts
Links-same nodes nodes' t [] h l = l
Links-same nodes nodes' t (x ∷ xs) h (e, ne, l) =
    (e, ne, rw (h x) (Links-same nodes nodes' (nodes x).next xs h l))

first_alive-same :
    (nodes nodes' : ℕ → Task) (head : ℕ) (ts : List ℕ)
    → ((q : ℕ) → (nodes' q).state ≡ (nodes q).state)
    → first_alive nodes' head ts ≡ first_alive nodes head ts
first_alive-same nodes nodes' head [] h = refl
first_alive-same nodes nodes' head (x ∷ xs) h =
    rw (h x, first_alive-same nodes nodes' head xs h) refl

-- The scheduler with the current task's remaining time set.
abbrev pub with_time : Scheduler → ℕ → Scheduler
with_time s time =
    let cur = s.nodes s.cur_task in
    record s { nodes = update s.nodes s.cur_task (record cur { time_remaining = time }) }

pick_with_time :
    (s : Scheduler) (time fuel : ℕ) (ts : List ℕ)
    → Links s.nodes (s.nodes s.cur_task).next ts
    → length ts ≤ fuel
    → 0 < fuel
    → mt_pick_next_task (with_time s time) fuel ≡ some (first_alive s.nodes s.tasks ts)
pick_with_time s time fuel ts l f f' =
    let nodes' = (with_time s time).nodes in
    let next : (q : ℕ) → (nodes' q).next ≡ (s.nodes q).next = λ q. ground arith in
    let state : (q : ℕ) → (nodes' q).state ≡ (s.nodes q).state = λ q. ground arith in
    mt_pick_next_task-first_alive (with_time s time) fuel ts
      (subst (λ t. Links nodes' t ts) (sym (next s.cur_task))
        (Links-same s.nodes nodes' (s.nodes s.cur_task).next ts next l))
      f f'
    ∙ ap some (first_alive-same s.nodes nodes' s.tasks ts state)

-- What a switch from the current task to another one, `n`, leaves.
pub record Switched (s s' : Scheduler) (n : ℕ) : Type 0 where
  pub current : s'.cur_task ≡ n
  pub running : (s'.nodes n).state ≡ ts_run
  pub stack : s'.esp0 ≡ ((s.nodes n).allocated_stack + default_stack_size) % 2 ^ 32
  pub suspended :
      (s'.nodes s.cur_task).state
      ≡ (if (s.nodes s.cur_task).state == ts_fin then ts_fin else ts_sus)
  pub refilled : (s'.nodes s.cur_task).time_remaining ≡ (s.nodes s.cur_task).time_slice
  pub others : (q : ℕ) → q ≢ n → q ≢ s.cur_task → s'.nodes q ≡ s.nodes q

switch_to-Switched :
    (s : Scheduler) (n : ℕ)
    → n ≢ s.cur_task
    → Switched s (switch_to (with_time s (s.nodes s.cur_task).time_slice) n) n
unfolding switch_to
switch_to-Switched s n ne = record {
  current = refl;
  running = ground arith;
  stack = ground arith;
  suspended = ground arith;
  refilled = ground arith;
  others = λ q a b. ground arith;
}

-- Once the current task's time is used up, or if it is not running, `mt_schedule` switches to the first
-- task behind it that has not finished, or to the head of the list if there is none, as long as that is
-- another task: it runs, with its own stack for interrupts, and the old one is suspended unless it has
-- finished, with its time refilled. No other task changes.
pub mt_schedule-Switched :
    (s : Scheduler) (fuel : ℕ) (ts : List ℕ)
    → Links s.nodes (s.nodes s.cur_task).next ts
    → length ts ≤ fuel
    → 0 < fuel
    → s.mt_enabled ≡ true
    → s.tasks_count ≢ 1
    → ((s.nodes s.cur_task).state ≢ ts_run) ⊎ ((s.nodes s.cur_task).time_remaining ≡ 1)
    → first_alive s.nodes s.tasks ts ≢ s.cur_task
    → (s' : Scheduler) × (mt_schedule s fuel ≡ some s')
      × Switched s s' (first_alive s.nodes s.tasks ts)
unfolding mt_schedule
mt_schedule-Switched s fuel ts l f f' on many due ne =
    let cur = s.nodes s.cur_task in
    let n = first_alive s.nodes s.tasks ts in
    let alone : (not s.mt_enabled || (s.tasks_count == 1)) ≡ false = ground arith in
    let over : ((cur.state == ts_run) && not ((cur.time_remaining + 2 ^ 32 - 1) % 2 ^ 32 == 0))
        ≡ false =
      elim due [ inl other ↦ ground arith | inr one ↦ ground arith ] in
    (
      switch_to (with_time s cur.time_slice) n,
      rw (alone, over, pick_with_time s cur.time_slice fuel ts l f f', mt_schedule) refl,
      switch_to-Switched s n ne,
    )

-- While multitasking is on, a running task with more than one tick left goes on: `mt_schedule` takes one
-- tick from it and changes nothing else.
pub mt_schedule_keeps :
    (s : Scheduler) (fuel : ℕ)
    → s.mt_enabled ≡ true
    → s.tasks_count ≢ 1
    → (s.nodes s.cur_task).state ≡ ts_run
    → 1 < (s.nodes s.cur_task).time_remaining
    → (s.nodes s.cur_task).time_remaining < 2 ^ 32
    → mt_schedule s fuel ≡ some (with_time s ((s.nodes s.cur_task).time_remaining - 1))
unfolding mt_schedule
mt_schedule_keeps s fuel on many runs more small =
    let cur = s.nodes s.cur_task in
    let alone : (not s.mt_enabled || (s.tasks_count == 1)) ≡ false = ground arith in
    let left : (cur.time_remaining + 2 ^ 32 - 1) % 2 ^ 32 ≡ cur.time_remaining - 1 = omega arith in
    let goes_on : ((cur.state == ts_run) && not (cur.time_remaining - 1 == 0)) ≡ true =
      ground arith in
    rw (left, alone, goes_on) refl
