-- ===== src/Sched/Pick.antt =====
-- Which task `mt_pick_next_task` of scheduler.c chooses.
use hydrangea.Prelude.{
  ℕ, zero, suc, ◌≤◌, ◌<◌, ◌≡◌, ◌≢◌, arith, ◌==◌, if◌then◌else◌, some, List, [], ◌∷◌, length,
}
use hydrangea.Sched.{Task, Scheduler, ts_fin, pick_from, mt_pick_next_task}

-- From `t` on, `nodes` holds the list of the tasks `ts`.
abbrev pub Links : (ℕ → Task) → ℕ → List ℕ → Type 0
Links nodes t [] = t ≡ 0
Links nodes t (x ∷ xs) = (t ≡ x) × (x ≢ 0) × Links nodes (nodes x).next xs

-- The first task of a list that has not finished, or `head`.
abbrev pub first_alive : (ℕ → Task) → (head : ℕ) → List ℕ → ℕ
first_alive nodes head [] = head
first_alive nodes head (x ∷ xs) = if (nodes x).state == ts_fin then first_alive nodes head xs else x

pick_from-first_alive :
    (nodes : ℕ → Task) (head t fuel : ℕ) (ts : List ℕ)
    → Links nodes t ts
    → length ts < fuel
    → pick_from nodes head t fuel ≡ some (first_alive nodes head ts)
unfolding pick_from
pick_from-first_alive nodes head t zero ts l f = absurd (omega (arith, f))
pick_from-first_alive nodes head t (suc n) [] l f = ground arith
pick_from-first_alive nodes head t (suc n) (x ∷ xs) (e, ne, l) f =
    let rest = pick_from-first_alive nodes head (nodes x).next n xs l (omega arith) in ground arith

-- `mt_pick_next_task` chooses the first task behind the current one that has not finished, and the head
-- of the list of tasks if there is none; a round for each task behind the current one is enough fuel.
pub mt_pick_next_task-first_alive :
    (s : Scheduler) (fuel : ℕ) (ts : List ℕ)
    → Links s.nodes (s.nodes s.cur_task).next ts
    → length ts ≤ fuel
    → 0 < fuel
    → mt_pick_next_task s fuel ≡ some (first_alive s.nodes s.tasks ts)
unfolding mt_pick_next_task
mt_pick_next_task-first_alive s fuel [] l f f' = ground arith
mt_pick_next_task-first_alive s fuel (x ∷ xs) (e, ne, l) f f' =
    let rest = pick_from-first_alive s.nodes s.tasks (s.nodes x).next fuel xs l (omega arith) in
    ground arith
