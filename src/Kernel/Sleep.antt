-- ===== src/Kernel/Sleep.antt =====
-- `timer_sleep` of src/devices/timer.c.
use project_os.Base.{
  ℕ, ◌+◌, ◌≡◌, ◌≢◌, refl, ◌∙◌, true, false, some, List, [], ◌∷◌, arith, count, update, assert-true,
  some->>=,
}
use project_os.Kernel.{Kernel, Status, Frame, update, status_of, set_status, points_to}
use project_os.Kernel.Sched.{push_frame}
use project_os.Kernel.Timer.{
  wake_time, set_thread_blocked_ticks, insert_ordered, sleep_enqueue, timer_sleep,
}
use project_os.Kernel.Invariant.{Place, asleep, count, Inv, IsOff, HasNext}
use project_os.Kernel.Order.{
  NotBefore, InOrder, InOrder-same, count-insert_ordered, insert_ordered-InOrder,
}
use project_os.Kernel.Keep.{Turns, schedule-Inv}
use project_os.Kernel.Block.{current-nowhere, thread_current-some, thread_block-schedule}

-- The state after the first part of `timer_sleep`.
abbrev pub enqueued : Kernel → ℕ → Kernel
enqueued k n =
    let k' = set_thread_blocked_ticks k k.current (n + k.ticks) in
    record k' { blocked_list = insert_ordered k' k.current k'.blocked_list }

pub sleep_enqueue-enqueued :
    (k : Kernel) (n : ℕ)
    → k.intr_on ≡ true
    → (k.threads k.current).is_thread ≡ true
    → status_of k k.current ≡ Status.running
    → sleep_enqueue k n ≡ some (enqueued k n)
unfolding sleep_enqueue
sleep_enqueue-enqueued k n on real runs =
    assert-true k.intr_on _ on ∙ some->>= _ k.current _ (thread_current-some k real runs)

-- The state in which `sleep_block` calls `schedule`.
abbrev pub dozing : Kernel → Kernel
dozing k =
    set_status (push_frame (record k { intr_on = false }) k.current (Frame.set_level k.intr_on))
      k.current Status.blocked

module _ (k : Kernel) (place : ℕ → Place) (v : Inv k place) (n : ℕ) where
  dozing-IsOff :
      points_to k.idle_thread k.current ≡ false
      → IsOff (dozing (enqueued k n)) (update place k.current asleep)
  unfolding push_frame
  dozing-IsOff busy =
      let free = current-nowhere k place v in
      let f = v.filed in
      record {
        filed = record {
          on_ready = λ u. ground (arith, f.on_ready u);
          on_sleep = λ u. ground (
            arith,
            f.on_sleep u,
            count-insert_ordered (set_thread_blocked_ticks k k.current (n + k.ticks)) k.current u
                k.blocked_list,
          );
          on_sema = λ r u. ground (arith, f.on_sema r u);
          fits = λ u. ground (arith, f.fits u);
          real = λ u. ground (arith, f.real u, v.current_real);
          idle_free = λ u. ground (arith, f.idle_free u);
          idle_real = λ u. ground (arith, f.idle_real u);
        };
        none_runs = λ u. ground (arith, v.one_runs u);
        off = refl;
        alive = ground arith;
      }

  -- The queue of the others is in order still when the running thread has its time to wake.
  InOrder-away :
      (m : ℕ) (xs : List ℕ)
      → count k.current xs ≡ 0
      → InOrder k xs
      → InOrder (set_thread_blocked_ticks k k.current m) xs
  InOrder-away m [] c o = tt
  InOrder-away m (x ∷ xs) c (p, o) =
      let away : x ≢ k.current = λ e. ground arith in
      (NotBefore-away m x xs away (ground arith) p, InOrder-away m xs (ground arith) o)
    where
      NotBefore-away :
          (m x : ℕ) (xs : List ℕ)
          → x ≢ k.current
          → count k.current xs ≡ 0
          → NotBefore k (wake_time k x) xs
          → NotBefore
              (set_thread_blocked_ticks k k.current m)
              (wake_time (set_thread_blocked_ticks k k.current m) x)
              xs
      NotBefore-away m x [] away c a = tt
      NotBefore-away m x (y ∷ ys) away c (q, a) =
          (ground arith, NotBefore-away m x ys away (ground arith) a)

  enqueued-InOrder : InOrder k k.blocked_list → InOrder (enqueued k n) (enqueued k n).blocked_list
  enqueued-InOrder o =
      insert_ordered-InOrder (set_thread_blocked_ticks k k.current (n + k.ticks)) k.current
        k.blocked_list
        (InOrder-away (n + k.ticks) k.blocked_list
          (ground (arith, v.filed.on_sleep k.current, current-nowhere k place v)) o)

  -- Where the invariant holds, `timer_sleep`, of a thread that is not the idle thread, with
  -- interrupts on, another thread to run and no interrupt before they are disabled, does not
  -- panic: it puts the running thread in its place on the sleep queue and blocks it, the head of
  -- the run queue or the idle thread runs, and the invariant and the order of the sleep queue are
  -- kept.
  pub timer_sleep-Inv :
      k.intr_on ≡ true
      → k.intr_context ≡ false
      → points_to k.idle_thread k.current ≡ false
      → HasNext k
      → InOrder k k.blocked_list
      → (k' : Kernel) × (timer_sleep k n ≡ some k')
        × ((p : ℕ → Place) × Inv k' p)
        × Turns (dozing (enqueued k n)) k'
        × InOrder k' k'.blocked_list
  unfolding timer_sleep push_frame
  timer_sleep-Inv on outside busy next o =
      let e1 = sleep_enqueue-enqueued k n on v.current_real v.current_runs in
      let (k', e, i, t) = schedule-Inv (dozing (enqueued k n)) _ (dozing-IsOff busy) next in
      (
        k',
        some->>= _ (enqueued k n) _ e1
            ∙ thread_block-schedule
                (push_frame (record (enqueued k n) { intr_on = false }) k.current
                  (Frame.set_level k.intr_on))
                outside refl (ground (arith, v.current_real)) (ground (arith, v.current_runs))
            ∙ e,
        i,
        t,
        rw (t.sleepers) (
            InOrder-same (enqueued k n) k' (λ u. t.times u ∙ doze u) (enqueued k n).blocked_list
              (enqueued-InOrder o)),
      )
    where
      doze : (u : ℕ) → wake_time (dozing (enqueued k n)) u ≡ wake_time (enqueued k n) u
      doze u = ground arith
