-- ===== src/Sched/End.antt =====
-- The end of a task in kernel/multitasking/scheduler.c. Messages are left out.
pub mod Lists
pub mod Moved
pub mod Unlinked
use hydrangea.Prelude.{ℕ, zero, suc, ◌==◌, if◌then◌else◌, update, Option, none, some}
use hydrangea.Sched.{Task, Scheduler, mt_get_task_by_pid}

-- `t->prev->next = t->next`, where there is a `prev`
unfoldable pub skip_forth : (ℕ → Task) → (t : ℕ) → ℕ → Task
skip_forth nodes t =
    let p = (nodes t).prev in
    if p == 0 then nodes else update nodes p (record (nodes p) { next = (nodes t).next })

-- `t->next->prev = t->prev`, where there is a `next`
unfoldable pub skip_back : (ℕ → Task) → (t : ℕ) → ℕ → Task
skip_back nodes t =
    let p = (nodes t).next in
    if p == 0 then nodes else update nodes p (record (nodes p) { prev = (nodes t).prev })

-- What `mt_task_terminate` does with `t` itself: from the list of tasks to the terminated ones
unfoldable pub move_task : Scheduler → (t : ℕ) → Scheduler
move_task s t =
    let nodes = skip_back (skip_forth s.nodes t) t in
    let forth = update nodes t (record (nodes t) { next = s.terminated_tasks }) in
    let old = s.terminated_tasks in
    record s {
      nodes =
          if old == 0
          then update nodes t (record (nodes t) { next = 0; prev = 0 })
          else update forth old (record (forth old) { prev = t });
      terminated_tasks = t;
    }

-- The loop of `mt_task_terminate` at `i`, with the recursive call `terminate`
unfoldable pub end_children :
    (Scheduler → ℕ → Option Scheduler) → Scheduler → (pid i fuel : ℕ) → Option Scheduler
end_children terminate s pid i zero = none
end_children terminate s pid i (suc n) =
    if i == 0 then some s else elim (if (s.nodes i).ppid == pid then terminate s i else some s) [
      | none ↦ none
      | some s' ↦ end_children terminate s' pid (s'.nodes i).next n
    ]

-- `mt_task_terminate`
unfoldable pub mt_task_terminate : Scheduler → (t fuel : ℕ) → Option Scheduler
mt_task_terminate s t zero = none
mt_task_terminate s t (suc n) =
    if (s.nodes t).pid == 0
    then some s
    else end_children (λ s' i. mt_task_terminate s' i n) (move_task s t) (s.nodes t).pid s.tasks n

-- `mt_task_terminate_pid`
unfoldable pub mt_task_terminate_pid : Scheduler → (pid fuel : ℕ) → Option Scheduler
mt_task_terminate_pid s pid fuel = elim (mt_get_task_by_pid s pid fuel) [
  | none ↦ none
  | some t ↦ if t == 0 then some s else mt_task_terminate s t fuel
]

-- `mt_task_self_terminate`
unfoldable pub mt_task_self_terminate : Scheduler → (fuel : ℕ) → Option Scheduler
mt_task_self_terminate s fuel = mt_task_terminate s s.cur_task fuel
