-- ===== src/Intq.antt =====
-- devices/intq.c: a circular buffer between threads and interrupt handlers. A thread that has to wait
-- for room or for a byte goes into a loop: it takes the lock of the queue, calls `wait`, which blocks it,
-- and gives the lock back. A call ends here with `waits` where it has called `lock_acquire` in the loop;
-- `wait_full` and `wait_empty` are the calls of `wait`. `none` is a panic.
pub mod Fifo
mod Tests
use project_os.Base.{
  ℕ, ◌+◌, ◌%◌, Bool, true, false, not, Option, none, some, ltb, ◌==◌, if◌then◌else◌, update, assert,
  ◌>>=◌, ◌>>◌,
}
use project_os.Kernel.{Kernel}
use project_os.Kernel.Sched.{thread_unblock, thread_current, thread_block}
use project_os.Kernel.Sync.{lock_acquire, lock_init}

-- `INTQ_BUFSIZE`
abbrev pub intq_bufsize : ℕ
intq_bufsize = 64

-- `struct intq`
pub record Intq : Type 0 where
  pub lock : ℕ
  pub not_full : Option ℕ
  pub not_empty : Option ℕ
  pub buf : ℕ → ℕ
  pub head : ℕ
  pub tail : ℕ

abbrev pub next_pos : ℕ → ℕ
next_pos pos = (pos + 1) % intq_bufsize

unfoldable pub intq_init : Intq → Kernel → Intq × Kernel
unfolding lock_init
intq_init q k =
    (record q { not_full = none; not_empty = none; head = 0; tail = 0 }, lock_init k q.lock)

-- After the assertion that interrupts are off
abbrev pub intq_empty : Intq → Bool
intq_empty q = q.head == q.tail

abbrev pub intq_full : Intq → Bool
intq_full q = next_pos q.head == q.tail

-- A waiting thread is made ready.
abbrev pub wake_waiter : Kernel → (waiter : Option ℕ) → Option Kernel
wake_waiter k none = some k
wake_waiter k (some t) = thread_unblock k t

abbrev pub signal_not_empty : Intq → Kernel → Option (Intq × Kernel)
signal_not_empty q k = do
  assert (not k.intr_on)
  assert (not (intq_empty q))
  k' ← wake_waiter k q.not_empty
  some (record q { not_empty = none }, k')

abbrev pub signal_not_full : Intq → Kernel → Option (Intq × Kernel)
signal_not_full q k = do
  assert (not k.intr_on)
  assert (not (intq_full q))
  k' ← wake_waiter k q.not_full
  some (record q { not_full = none }, k')

-- What a call has led to: it has returned, or it is in `lock_acquire` in the body of its loop.
pub data Outcome (A : Type 0) : Type 0 where
  done : A → Kernel → Outcome A
  waits : Kernel → Outcome A

-- The first two calls in the body of the loop.
unfoldable pub begin_wait : {A : Type 0} → Intq → Kernel → Option (Outcome A)
begin_wait q k = do assert (not k.intr_context); k' ← lock_acquire k q.lock; some (waits k')

-- `wait (q, &q->not_full)`, up to where another thread runs.
unfoldable pub wait_full : Intq → Kernel → Option (Intq × Kernel)
unfolding thread_current
wait_full q k = do
  assert (not k.intr_context)
  assert (not k.intr_on)
  assert (intq_full q)
  cur ← thread_current k
  k' ← thread_block k
  some (record q { not_full = some cur }, k')

-- `wait (q, &q->not_empty)`, up to where another thread runs.
unfoldable pub wait_empty : Intq → Kernel → Option (Intq × Kernel)
unfolding thread_current
wait_empty q k = do
  assert (not k.intr_context)
  assert (not k.intr_on)
  assert (intq_empty q)
  cur ← thread_current k
  k' ← thread_block k
  some (record q { not_empty = some cur }, k')

-- After the loop.
abbrev pub put_byte : Intq → Kernel → (byte : ℕ) → Option (Outcome Intq)
put_byte q k byte = do
  (q', k') ←
      signal_not_empty (record q { buf = update q.buf q.head byte; head = next_pos q.head }) k
  some (done q' k')

unfoldable pub intq_putc : Intq → Kernel → (byte : ℕ) → Option (Outcome Intq)
unfolding begin_wait
intq_putc q k byte = do
  assert (not k.intr_on)
  if intq_full q then begin_wait q k else put_byte q k byte

abbrev pub get_byte : Intq → Kernel → Option (Outcome (ℕ × Intq))
get_byte q k = do
  (q', k') ← signal_not_full (record q { tail = next_pos q.tail }) k
  some (done (q.buf q.tail, q') k')

unfoldable pub intq_getc : Intq → Kernel → Option (Outcome (ℕ × Intq))
unfolding begin_wait
intq_getc q k = do assert (not k.intr_on); if intq_empty q then begin_wait q k else get_byte q k
