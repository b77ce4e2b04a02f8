-- ===== src/Kernel/Race.antt =====
-- An interrupt between the two parts of `timer_sleep`, where interrupts are still on.
use project_os.Base.{ℕ, ◌+◌, ◌≤◌, ◌≡◌, sym, ◌∙◌, true, false, none, some, [], ◌∷◌, arith}
use project_os.Kernel.{Kernel, points_to}
use project_os.Kernel.Sched.{yielding, push_frame, thread_unblock}
use project_os.Kernel.Timer.{
  set_thread_blocked_ticks, insert_ordered, sleep_enqueue, unblock_thread_with_enough_ticks,
}
use project_os.Kernel.Invariant.{
  Place, nowhere, count, count-append, is_queued, is_asleep, Filed, Inv,
}
use project_os.Kernel.Order.{count-insert_ordered}
use project_os.Kernel.Sleep.{enqueued, sleep_enqueue-enqueued}
use project_os.Kernel.Block.{current-nowhere}

not_twice : (p : Place) → is_queued p ≡ 1 → is_asleep p ≡ 1 → ⊥
not_twice nowhere a b = ground arith
not_twice _ a b = ground arith

module _ (k : Kernel) (place : ℕ → Place) (v : Inv k place) (n : ℕ) (on : k.intr_on ≡ true) where
  -- Where the invariant holds and interrupts are on: if the running thread, which is not the idle
  -- thread, is preempted between its insertion into the sleep queue and the disabling of
  -- interrupts, its `elem` is put on the run queue too: the thread stands on both lists, which no
  -- state that satisfies the invariant allows.
  pub sleep_preempted :
      points_to k.idle_thread k.current ≡ false
      → (k1 : Kernel) × (sleep_enqueue k n ≡ some k1)
        × (count k.current (yielding k1 k.current).ready_list ≡ 1)
        × (count k.current (yielding k1 k.current).blocked_list ≡ 1)
        × ((p : ℕ → Place) → ¬ Filed (yielding k1 k.current) p)
  unfolding yielding push_frame
  sleep_preempted busy =
      let free = current-nowhere k place v in
      let k1 = enqueued k n in
      let queued_once : count k.current (yielding k1 k.current).ready_list ≡ 1 =
        ground (
          arith,
          v.filed.on_ready k.current,
          count-append k.current k.ready_list (k.current ∷ []),
        ) in
      let asleep_once : count k.current (yielding k1 k.current).blocked_list ≡ 1 = ground (
        arith,
        v.filed.on_sleep k.current,
        count-insert_ordered (set_thread_blocked_ticks k k.current (n + k.ticks)) k.current
            k.current k.blocked_list,
      ) in
      (
        k1,
        sleep_enqueue-enqueued k n on v.current_real v.current_runs,
        queued_once,
        asleep_once,
        λ p f.
            not_twice (p k.current) (sym (f.on_ready k.current) ∙ queued_once)
              (sym (f.on_sleep k.current) ∙ asleep_once),
      )

  -- Where the invariant holds and interrupts are on: if a timer interrupt checks the sleepers after
  -- the running thread's insertion into the sleep queue and before interrupts are disabled, and the
  -- thread is due and alone on the queue, the kernel panics.
  pub sleep_interrupted :
      (now : ℕ)
      → k.blocked_list ≡ []
      → n + k.ticks ≤ now
      → (k1 : Kernel) × (sleep_enqueue k n ≡ some k1)
        × (unblock_thread_with_enough_ticks k1 now ≡ none)
  unfolding unblock_thread_with_enough_ticks insert_ordered thread_unblock
  sleep_interrupted now alone due = (
    enqueued k n,
    sleep_enqueue-enqueued k n on v.current_real v.current_runs,
    ground (arith, v.current_runs, v.current_real),
  )
