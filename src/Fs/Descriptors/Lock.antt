-- ===== src/Fs/Descriptors/Lock.antt =====
-- The locks on open files.
use hydrangea.Prelude.{ℕ, ◌≡◌, ◌≢◌, arith}
use hydrangea.Ds.DynList.{Grow}
use hydrangea.Fs.Descriptors.{OpenFiles, gft_lock, gft_unlock, fd_lock, fd_unlock, fd_locked_by}

module _ (beyond : ℕ → ℕ) (grow : Grow) (kmalloc : ℕ → ℕ) where
  -- After `fd_lock` the file of the descriptor is locked by the current task. From then on `fd_unlock`
  -- by a task takes the lock off exactly if that task holds it, and otherwise leaves it.
  pub fd_unlock-fd_lock :
      (s : OpenFiles) (fd other : ℕ)
      → let locked = (fd_lock beyond grow kmalloc s fd).1 in
        let unlocked = (fd_unlock beyond grow kmalloc (record locked { pid = other }) fd).1 in
        (fd_locked_by beyond grow kmalloc locked fd ≡ s.pid)
        × (other ≡ s.pid → fd_locked_by beyond grow kmalloc unlocked fd ≡ 0)
        × (other ≢ s.pid → fd_locked_by beyond grow kmalloc unlocked fd ≡ s.pid)
  unfolding fd_lock fd_unlock fd_locked_by gft_lock gft_unlock
  fd_unlock-fd_lock s fd other = (ground arith, (λ same. ground arith), (λ differ. ground arith))
