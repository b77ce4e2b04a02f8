-- ===== src/Kernel/Acquire.antt =====
-- `lock_acquire` of src/threads/synch.c, where it does not sleep.
use project_os.Base.{
  ℕ, ◌-◌, ◌<◌, ◌≡◌, ◌∙◌, ap, true, false, some, ◌∷◌, arith, ◌==◌, if-true, if-false, assert-not,
  some->>=, ◌>>=◌,
}
use project_os.LinkedList.{Heap, list_push_back}
use project_os.Kernel.{Kernel, Status, Frame, status_of, points_to}
use project_os.Kernel.Sched.{push_frame}
use project_os.Kernel.Sync.{
  lock_acquire, acquire_free, push_lock, sema_down, down_round, continue_frame, run_frame,
  pop_frame, set_sema, set_lock,
}
use project_os.Kernel.Invariant.{Place, Inv}
use project_os.Kernel.Block.{thread_current-some}
use project_os.Kernel.Locks.{held-points_to}

-- The state in which `lock_acquire` calls `sema_down`, with the links `h`, and those after that call and at the end.
abbrev asking : Kernel → Heap → ℕ → Kernel
asking k h l = push_frame (record k { elems = h }) k.current (Frame.own l)

abbrev counted : Kernel → ℕ → Kernel
counted k s = set_sema k s (record (k.semas s) { value = (k.semas s).value - 1 })

abbrev pub owning : Kernel → Heap → ℕ → Kernel
owning k h l =
    set_lock
      (pop_frame (counted (asking k h l) (k.locks l).semaphore) k.current (k.frames k.current)) l
      (record (k.locks l) { holder = some k.current })

module _ (k : Kernel) (place : ℕ → Place) (l : ℕ) (h : Heap) (v : Inv k place) where
  pushed :
      list_push_back k.elems (k.threads k.current).locks (k.locks l).lock_elem ≡ some h
      → push_lock k k.current l ≡ some (record k { elems = h })
  unfolding push_lock
  pushed e = some->>= _ h _ e

  owning-Inv : Inv (owning k h l) place
  unfolding push_frame pop_frame
  owning-Inv =
      let f = v.filed in
      record {
        filed = record {
          on_ready = f.on_ready;
          on_sleep = f.on_sleep;
          on_sema = λ r u. ground (arith, f.on_sema r u);
          fits = λ u. ground (arith, f.fits u);
          real = λ u. ground (arith, f.real u);
          idle_free = f.idle_free;
          idle_real = λ u. ground (arith, f.idle_real u);
        };
        current_runs = ground (arith, v.current_runs);
        current_real = ground (arith, v.current_real);
        one_runs = λ u. ground (arith, v.one_runs u);
      }

  asking-down :
      k.intr_context ≡ false
      → 0 < (k.semas (k.locks l).semaphore).value
      → sema_down (asking k h l) (k.locks l).semaphore
        ≡ some (counted (asking k h l) (k.locks l).semaphore)
  unfolding sema_down down_round push_frame
  asking-down outside pos =
      assert-not k.intr_context _ outside
      ∙ if-false ((k.semas (k.locks l).semaphore).value == 0) _ _ (ground arith)

  counted-own : continue_frame (counted (asking k h l) (k.locks l).semaphore) ≡ some (owning k h l)
  unfolding continue_frame run_frame push_frame pop_frame
  counted-own =
      let k2 : Kernel = counted (asking k h l) (k.locks l).semaphore in
      let real : (k2.threads k.current).is_thread ≡ true = ground (arith, v.current_real) in
      let runs : status_of k2 k.current ≡ Status.running = ground (arith, v.current_runs) in
      ap (run_frame k2) (
        if-true (k.current == k.current) (Frame.own l ∷ k.frames k.current) (k.frames k.current)
          (ground arith))
      ∙ some->>= _ k.current _
          (thread_current-some (pop_frame k2 k.current (k.frames k.current)) real runs)

  -- Where the invariant holds, `lock_acquire` outside interrupts, where the running thread does
  -- not hold the lock, the semaphore of the lock is not 0 and its element can be pushed on the
  -- thread's list, does not panic and does not block: it goes on to set the holder.
  pub lock_acquire-owning :
      k.intr_context ≡ false
      → points_to (k.locks l).holder k.current ≡ false
      → 0 < (k.semas (k.locks l).semaphore).value
      → list_push_back k.elems (k.threads k.current).locks (k.locks l).lock_elem ≡ some h
      → ((lock_acquire k l >>= continue_frame) ≡ some (owning k h l)) × Inv (owning k h l) place
  unfolding lock_acquire acquire_free
  lock_acquire-owning outside other pos on_list =
      let held = held-points_to k place l v in
      let runs = thread_current-some k v.current_real v.current_runs in
      let asked : lock_acquire k l ≡ some (counted (asking k h l) (k.locks l).semaphore) =
        assert-not k.intr_context _ outside
        ∙ some->>= _ (points_to (k.locks l).holder k.current) _ held
        ∙ some->>= _ k.current _ runs
        ∙ if-false (points_to (k.locks l).holder k.current) _ _ other
        ∙ some->>= (push_lock k k.current l) _ _ (pushed on_list)
        ∙ asking-down outside pos in
      (some->>= _ (counted (asking k h l) (k.locks l).semaphore) _ asked ∙ counted-own, owning-Inv)
