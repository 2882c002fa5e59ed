-- ===== src/Tests/Sched.antt =====
-- Three tasks, the second of which has finished.
use hydrangea.Prelude.{
  ℕ, ◌+◌, ◌%◌, ◌^◌, ◌≤◌, ◌*◌, ◌≡◌, refl, arith, inr, ◌==◌, if◌then◌else◌, true, some, [], ◌∷◌,
}
use hydrangea.Sched.{Task, Scheduler, ts_sus, ts_run, ts_fin, mt_schedule, mt_pick_next_task}
use hydrangea.Sched.End.{mt_task_terminate, mt_task_self_terminate}
use hydrangea.Sched.End.Moved.{Ready, Moved, mt_task_terminate-Moved, mt_task_self_terminate-picked}
use hydrangea.Sched.Pick.{Links}
use hydrangea.Sched.Spawn.{gen_pid, first_stack}
use hydrangea.Sched.Spawn.Frame.{Reads, first_stack-Reads}
use hydrangea.Sched.Spawn.Numbers.{FirstFree, gen_pid-FirstFree}
use hydrangea.Sched.Switch.{Switched, mt_schedule-Switched}

abbrev task : (pid next prev state time : ℕ) → Task
task pid next prev state time = record {
  esp = 0;
  pid = pid;
  ppid = 0;
  cr3 = 0;
  allocated_stack = 0x1000 * pid;
  time_slice = 5;
  time_remaining = time;
  next = next;
  prev = prev;
  state = state;
}

abbrev machine : (time : ℕ) → Scheduler
machine time = record {
  nodes = λ p.
      if p == 1
      then task 0 2 0 ts_run time
      else if p == 2
      then task 1 3 1 ts_fin 5
      else task 2 0 2 ts_sus 5;
  tasks = 1;
  cur_task = 1;
  tasks_count = 3;
  terminated_tasks = 0;
  mt_enabled = true;
  esp0 = 0;
  cr3 = 0;
}

behind : (time : ℕ) → Links (machine time).nodes 2 (2 ∷ 3 ∷ [])
behind time = (refl, (λ e. omega (arith, e)), (refl, (λ e. omega (arith, e)), refl))

mt_schedule-Switched_example :
    (s' : Scheduler) × (mt_schedule (machine 1) 4 ≡ some s') × Switched (machine 1) s' 3
mt_schedule-Switched_example =
    mt_schedule-Switched (machine 1) 4 (2 ∷ 3 ∷ []) (behind 1) (omega arith) (omega arith) refl
      (λ e. omega (arith, e)) (inr refl) (λ e. omega (arith, e))

-- The tasks 1, 2 and 3, and 4, which has ended; 2 is the current one.
abbrev busy : Scheduler
busy = record (machine 1) {
  nodes = λ p.
      if p == 1
      then task 0 2 0 ts_run 1
      else if p == 2
      then task 1 3 1 ts_run 1
      else if p == 3
      then record (task 2 0 2 ts_sus 5) { ppid = 7 }
      else task 3 0 0 ts_sus 5;
  cur_task = 2;
  terminated_tasks = 4;
}

busy-Ready : Ready busy 2 1 [] (3 ∷ []) (4 ∷ [])
busy-Ready = record {
  not_first = λ e. omega (arith, e);
  linked = (
    refl,
    (λ e. omega (arith, e)),
    refl,
    (refl, (λ e. omega (arith, e)), refl, (refl, (λ e. omega (arith, e)), refl, refl)),
  );
  distinct = (
    ((λ e. omega (arith, e)), ((λ e. omega (arith, e)), refl)),
    (((λ e. omega (arith, e)), refl), (refl, refl)),
  );
  terminated = (refl, (λ e. omega (arith, e)), refl);
  apart =
      (((λ e. omega (arith, e)), ((λ e. omega (arith, e)), ((λ e. omega (arith, e)), refl))), refl);
  childless = ((λ e. omega (arith, e)), ((λ e. omega (arith, e)), refl));
}

mt_task_terminate-Moved_example :
    (s' : Scheduler) × (mt_task_terminate busy 2 9 ≡ some s')
    × Moved busy s' 2 (1 ∷ 3 ∷ []) (4 ∷ [])
mt_task_terminate-Moved_example =
    mt_task_terminate-Moved busy 2 1 9 [] (3 ∷ []) (4 ∷ []) busy-Ready (omega arith)

mt_task_self_terminate-picked_example :
    (s' : Scheduler) × (mt_task_self_terminate busy 9 ≡ some s') × (mt_pick_next_task s' 9 ≡ some 4)
mt_task_self_terminate-picked_example =
    mt_task_self_terminate-picked busy 1 4 9 [] (3 ∷ []) [] busy-Ready (λ e. omega (arith, e))
      (omega arith)

gen_pid-FirstFree_example :
    (p : ℕ) × (gen_pid busy 0x10000 9 9 ≡ some (p, (p + 1) % 2 ^ 32))
    × FirstFree busy (1 ∷ 2 ∷ 3 ∷ []) 0 p
gen_pid-FirstFree_example =
    gen_pid-FirstFree busy 0x10000 5 9 9 (1 ∷ 2 ∷ 3 ∷ []) (omega arith)
      (
        refl,
        (λ e. omega (arith, e)),
        (refl, (λ e. omega (arith, e)), (refl, (λ e. omega (arith, e)), refl)),
      )
      (omega arith) refl (omega arith)

first_stack-Reads_example :
    (m' : ℕ → ℕ) × (first_stack (λ q. q) (108 + 0x1000) 7 0x2000 0x3000 ≡ m')
    × Reads m' 0x1000 (0x200 ∷ 0 ∷ 0 ∷ 0 ∷ 0 ∷ 0 ∷ 0 ∷ 0 ∷ 0x3000 ∷ 0x10 ∷ 0x10 ∷ 0x10 ∷ 0x10 ∷ [])
    × ((q : ℕ) → 0x1000 + 52 ≤ q → q + 4 ≤ 0x1000 + 88 → m' q ≡ q)
    × Reads m' (0x1000 + 88) (0x2000 ∷ 0x8 ∷ 0x200 ∷ 0 ∷ 7 ∷ [])
first_stack-Reads_example = first_stack-Reads (λ q. q) 0x1000 7 0x2000 0x3000
