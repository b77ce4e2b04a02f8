-- ===== src/Kernel/Timer.antt =====
-- src/devices/timer.c: the sleep queue and the timer interrupt, with the functions of
-- src/threads/thread.c that wake the sleepers. Tick counts are nonnegative here.
use project_os.Base.{
  ℕ, ◌+◌, ◌%◌, ◌^◌, Bool, false, Option, some, List, [], ◌∷◌, leb, ltb, if◌then◌else◌, assert,
  ◌>>=◌, ◌>>◌,
}
use project_os.Kernel.{Kernel, Frame, update, status_of, is_running}
use project_os.Kernel.Sched.{thread_current, thread_block, thread_unblock, push_frame, thread_tick}

abbrev pub wake_time : Kernel → ℕ → ℕ
wake_time k t = (k.threads t).blocked_ticks

unfoldable pub compare_thread : Kernel → ℕ → ℕ → Bool
compare_thread k t1 t2 = ltb (wake_time k t1) (wake_time k t2)

abbrev pub set_thread_blocked_ticks : Kernel → ℕ → ℕ → Kernel
set_thread_blocked_ticks k t n = record k {
  threads = update k.threads t (record (k.threads t) { blocked_ticks = n });
}

-- `list_insert_ordered` by `compare_thread`: before the first element that `t` is less than.
unfoldable pub insert_ordered : Kernel → ℕ → List ℕ → List ℕ
unfolding compare_thread
insert_ordered k t [] = t ∷ []
insert_ordered k t (x ∷ xs) =
    if compare_thread k t x then t ∷ (x ∷ xs) else x ∷ insert_ordered k t xs

-- `timer_sleep` up to the insertion, with interrupts on.
unfoldable pub sleep_enqueue : Kernel → ℕ → Option Kernel
unfolding insert_ordered thread_current
sleep_enqueue k n = do
  assert k.intr_on
  cur ← thread_current k
  let k' = set_thread_blocked_ticks k cur (n + k.ticks)
  some (record k' { blocked_list = insert_ordered k' cur k'.blocked_list })

-- The rest of `timer_sleep`, which blocks with interrupts off.
unfoldable pub sleep_block : Kernel → Option Kernel
sleep_block k =
    thread_block (push_frame (record k { intr_on = false }) k.current (Frame.set_level k.intr_on))

-- `timer_sleep` where no interrupt comes between its two parts, in which interrupts can be on.
unfoldable pub timer_sleep : Kernel → ℕ → Option Kernel
unfolding sleep_enqueue sleep_block
timer_sleep k n = sleep_enqueue k n >>= λ k'. sleep_block k'

-- The loop of `repeated_check_blocked_list` over the list that is left.
unfoldable pub check_loop : Kernel → List ℕ → (ticks : ℕ) → Option Kernel
check_loop k [] ticks = some k
check_loop k (t ∷ rest) ticks =
    let wake =
      thread_unblock (record k { blocked_list = rest }) t >>= λ k'. check_loop k' rest ticks in
    if leb (wake_time k t) ticks then wake else some k

unfoldable pub unblock_thread_with_enough_ticks : Kernel → ℕ → Option Kernel
unfolding check_loop
unblock_thread_with_enough_ticks k ticks = check_loop k k.blocked_list ticks

-- `fp_add_fp_and_int (recent_cpu, 1)`
unfoldable pub count_cpu : Kernel → ℕ → Kernel
count_cpu k t =
    if is_running (status_of k t)
    then record k {
      threads =
          update k.threads t
            (record (k.threads t) { recent_cpu = ((k.threads t).recent_cpu + 2 ^ 14) % 2 ^ 32 });
    }
    else k

unfoldable pub timer_interrupt : Kernel → Option Kernel
unfolding unblock_thread_with_enough_ticks count_cpu thread_current
timer_interrupt k = do
  k' ← unblock_thread_with_enough_ticks (record k { ticks = k.ticks + 1 }) (k.ticks + 1)
  curr ← thread_current k'
  thread_tick (count_cpu k' curr)
