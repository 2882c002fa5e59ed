-- ===== src/Sched.antt =====
-- kernel/multitasking/scheduler.c: the list of tasks and the choice of the next one. `nodes p` is the
-- task control block at the address `p`, 0 is NULL. A traversal takes `fuel` rounds at most, and `none`
-- says that they are used up. Registers and stacks are not modelled: `mt_switch_task` makes a task the
-- current one.
pub mod End
pub mod Pick
pub mod Spawn
pub mod Switch
use hydrangea.Prelude.{
  ℕ, zero, suc, ◌+◌, ◌-◌, ◌%◌, ◌^◌, Bool, true, false, not, ◌&&◌, ◌||◌, ◌==◌, if◌then◌else◌, update,
  Option, none, some,
}

abbrev pub ts_sus : ℕ
ts_sus = 0

abbrev pub ts_run : ℕ
ts_run = 2

abbrev pub ts_fin : ℕ
ts_fin = 3

abbrev pub default_stack_size : ℕ
default_stack_size = 0x4000

-- The fields of `task_t` that the scheduler uses.
pub record Task : Type 0 where
  pub esp : ℕ
  pub pid : ℕ
  pub ppid : ℕ
  pub cr3 : ℕ
  pub allocated_stack : ℕ
  pub time_slice : ℕ
  pub time_remaining : ℕ
  pub next : ℕ
  pub prev : ℕ
  pub state : ℕ

-- The scheduler's variables, with the stack pointer that the processor takes in an interrupt (esp0)
-- and its page directory (cr3).
pub record Scheduler : Type 0 where
  pub nodes : ℕ → Task
  pub tasks : ℕ
  pub cur_task : ℕ
  pub tasks_count : ℕ
  pub terminated_tasks : ℕ
  pub mt_enabled : Bool
  pub esp0 : ℕ
  pub cr3 : ℕ

-- The last node of a list, from `t` on, the loop of `mt_push_task`.
unfoldable pub last_task : (ℕ → Task) → (t fuel : ℕ) → Option ℕ
last_task nodes t zero = none
last_task nodes t (suc n) =
    let rest = last_task nodes (nodes t).next n in if (nodes t).next == 0 then some t else rest

unfoldable pub mt_push_task : Scheduler → (new_task fuel : ℕ) → Option Scheduler
mt_push_task s new_task fuel = elim (s.tasks == 0) [
  | true ↦ some (record s { tasks = new_task })
  | false ↦ elim (last_task s.nodes s.tasks fuel) [
    | none ↦ none
    | some t ↦
        let forth = update s.nodes t (record (s.nodes t) { next = new_task }) in
        some (record s { nodes = update forth new_task (record (forth new_task) { prev = t }) })
  ]
]

-- The search of `mt_get_task_by_pid`, at `t`.
unfoldable pub find_pid : (ℕ → Task) → (pid t fuel : ℕ) → Option ℕ
find_pid nodes pid t zero = none
find_pid nodes pid t (suc n) =
    let rest = find_pid nodes pid (nodes t).next n in
    if not (t == 0) && not ((nodes t).pid == pid) then rest else some t

unfoldable pub mt_get_task_by_pid : Scheduler → (pid fuel : ℕ) → Option ℕ
mt_get_task_by_pid s pid fuel = find_pid s.nodes pid s.tasks fuel

-- The loop of `mt_pick_next_task`, at `t`; `tasks` is the head of the list.
unfoldable pub pick_from : (ℕ → Task) → (tasks t fuel : ℕ) → Option ℕ
pick_from nodes tasks t zero = none
pick_from nodes tasks t (suc n) =
    let rest = pick_from nodes tasks (nodes t).next n in
    if t == 0 then some tasks else if (nodes t).state == ts_fin then rest else some t

unfoldable pub mt_pick_next_task : Scheduler → (fuel : ℕ) → Option ℕ
mt_pick_next_task s fuel =
    let t = (s.nodes s.cur_task).next in
    let rest = pick_from s.nodes s.tasks (s.nodes t).next fuel in
    if t == 0 then some s.tasks else if (s.nodes t).state == ts_fin then rest else some t

-- The end of `mt_schedule`, with the next task chosen.
unfoldable pub switch_to : Scheduler → (next_task : ℕ) → Scheduler
switch_to s next_task =
    let next = s.nodes next_task in
    let started = update s.nodes next_task (record next { state = ts_run }) in
    let cur = started s.cur_task in
    record s {
      nodes =
          if cur.state == ts_fin
          then started
          else update started s.cur_task (record cur { state = ts_sus });
      cur_task = next_task;
      esp0 = (next.allocated_stack + default_stack_size) % 2 ^ 32;
      cr3 = if (s.nodes s.cur_task).cr3 == next.cr3 then s.cr3 else next.cr3;
    }

-- `mt_schedule`
unfoldable pub mt_schedule : Scheduler → (fuel : ℕ) → Option Scheduler
mt_schedule s fuel =
    let cur = s.nodes s.cur_task in
    let left = (cur.time_remaining + 2 ^ 32 - 1) % 2 ^ 32 in
    let set_time = λ (time : ℕ). record s {
      nodes = update s.nodes s.cur_task (record cur { time_remaining = time });
    } in
    if not s.mt_enabled || (s.tasks_count == 1)
    then some s
    else if (cur.state == ts_run) && not (left == 0)
    then some (set_time left)
    else elim (mt_pick_next_task (set_time cur.time_slice) fuel) [
      | none ↦ none
      | some next_task ↦ some (switch_to (set_time cur.time_slice) next_task)
    ]
