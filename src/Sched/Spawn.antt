-- ===== src/Sched/Spawn.antt =====
-- kernel/multitasking/task.c: the number and the first stack of a kernel task, and `mt_spawn_ktask`. Memory
-- is words at their addresses, and `task` and `stack` are what kmalloc returns. The name, the directory and
-- the open files of a task are left out.
pub mod Frame
pub mod Numbers
use hydrangea.Prelude.{
  ℕ, zero, suc, ◌+◌, ◌-◌, ◌%◌, ◌^◌, not, ltb, ◌&&◌, ◌==◌, if◌then◌else◌, update, Option, none, some,
  List, [], ◌∷◌,
}
use hydrangea.Sched.{Task, Scheduler, default_stack_size, mt_get_task_by_pid, mt_push_task}

abbrev pub max_pid : ℕ
max_pid = 0xFFFF

abbrev pub ts_rdy : ℕ
ts_rdy = 1

-- The loop of `gen_pid`: the first number from `pid` on that no task has; a search takes `walk` rounds.
unfoldable pub free_pid : Scheduler → (walk pid fuel : ℕ) → Option ℕ
free_pid s walk pid zero = none
free_pid s walk pid (suc n) =
    let rest = free_pid s walk (pid + 1) n in
    elim (mt_get_task_by_pid s pid walk) [
      | none ↦ none
      | some t ↦ if t == 0 then some pid else rest
    ]

-- `gen_pid` with its static variable `pid`: the number, and the variable afterwards
unfoldable pub gen_pid : Scheduler → (pid walk fuel : ℕ) → Option (ℕ × ℕ)
gen_pid s pid walk fuel =
    if ltb max_pid pid
    then (elim (free_pid s walk 0 fuel) [ none ↦ none | some p ↦ some (p, (p + 1) % 2 ^ 32) ])
    else some (pid, (pid + 1) % 2 ^ 32)

-- `*(--stack) = w` for each of the words
unfoldable pub push_words : (ℕ → ℕ) → (stack : ℕ) → List ℕ → ℕ → ℕ
push_words m stack [] = m
push_words m stack (w ∷ ws) = push_words (update m (stack - 4) w) (stack - 4) ws

-- The stack of a new task, whose end is `top`: the words for `irq_common_handler_pop_and_iret`, which is at
-- `handler`, and under them, where nothing is written for 9 words, those for `mt_switch_task`
unfoldable pub first_stack : (ℕ → ℕ) → (top args entry handler : ℕ) → ℕ → ℕ
first_stack m top args entry handler =
    let m' = push_words m top (args ∷ 0 ∷ 0x200 ∷ 0x8 ∷ entry ∷ []) in
    push_words m' (top - 20 - 36)
      (0x10 ∷ 0x10 ∷ 0x10 ∷ 0x10 ∷ handler ∷ 0 ∷ 0 ∷ 0 ∷ 0 ∷ 0 ∷ 0 ∷ 0 ∷ 0x200 ∷ [])

-- The fields that `ktask_create` sets; the others stay as they are in the memory that it gets
unfoldable pub new_task : Task → (pid ppid stack cr3 : ℕ) → Task
new_task old pid ppid stack cr3 = record old {
  pid = pid;
  ppid = ppid;
  state = ts_rdy;
  next = 0;
  esp = stack + default_stack_size - 108;
  allocated_stack = stack;
  cr3 = cr3;
  time_slice = 1;
  time_remaining = 1;
}

-- What a call of `ktask_create` leaves, with the pointer that it returns, or 0
pub record Creation : Type 0 where
  pub scheduler : Scheduler
  pub memory : ℕ → ℕ
  pub next_pid : ℕ
  pub created : ℕ

-- The body of `ktask_create`, with the number and the parent found; `cr3` is the kernel's page directory.
unfoldable pub create_with :
    Scheduler
    → (ℕ → ℕ)
    → (pid next_pid parent task stack cr3 handler ppid entry args : ℕ) → Creation
create_with s m pid next_pid parent task stack cr3 handler ppid entry args =
    if not (pid == 0) && (parent == 0)
    then record { scheduler = s; memory = m; next_pid = next_pid; created = 0 }
    else record {
      scheduler = record s {
        nodes = update s.nodes task (new_task (s.nodes task) pid ppid stack cr3);
      };
      memory = first_stack m (stack + default_stack_size) args entry handler;
      next_pid = next_pid;
      created = task;
    }

-- `ktask_create`
unfoldable pub ktask_create :
    Scheduler
    → (ℕ → ℕ)
    → (static_pid task stack cr3 handler ppid entry args fuel : ℕ) → Option Creation
ktask_create s m static_pid task stack cr3 handler ppid entry args fuel =
    elim (gen_pid s static_pid fuel fuel) [
      | none ↦ none
      | some (pid, next_pid) ↦ elim (mt_get_task_by_pid s ppid fuel) [
        | none ↦ none
        | some parent ↦
            some (create_with s m pid next_pid parent task stack cr3 handler ppid entry args)
      ]
    ]

-- `mt_spawn_ktask`: what is left, and the number returned
unfoldable pub mt_spawn_ktask :
    Scheduler
    → (ℕ → ℕ)
    → (static_pid task stack cr3 handler ppid entry args fuel : ℕ) → Option (ℕ × Creation)
mt_spawn_ktask s m static_pid task stack cr3 handler ppid entry args fuel =
    elim (ktask_create s m static_pid task stack cr3 handler ppid entry args fuel) [
      | none ↦ none
      | some c ↦ elim (mt_push_task c.scheduler c.created fuel) [
        | none ↦ none
        | some s' ↦ some ((s'.nodes c.created).pid, record c { scheduler = s' })
      ]
    ]
