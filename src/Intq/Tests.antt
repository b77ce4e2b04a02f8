-- ===== src/Intq/Tests.antt =====
-- A queue of two bytes around the end of the buffer, with a thread that waits.
use project_os.Base.{
  ℕ, ◌≤◌, ◌<◌, ◌≡◌, refl, true, false, ◌>>=◌, none, some, List, [], ◌∷◌, ◌++◌, arith, length,
}
use project_os.Kernel.{Kernel, Status, set_status}
use project_os.Kernel.Sched.{thread_unblock}
use project_os.Kernel.Sync.{lock_acquire}
use project_os.Kernel.Tests.{sample}
use project_os.Intq.{Intq, done, waits, wake_waiter, intq_putc, intq_getc}
use project_os.Intq.Fifo.{queue, InBuffer, intq_putc-queue, intq_getc-queue}

abbrev two_bytes : Intq
two_bytes = record {
  lock = 8;
  not_full = some 4;
  not_empty = some 4;
  buf = λ i. i;
  head = 1;
  tail = 63;
}

two_bytes-InBuffer : InBuffer two_bytes
two_bytes-InBuffer = record { head = omega arith; tail = omega arith }

abbrev off : Kernel
off = record sample { intr_on = false }

-- The sample after thread 4 is made ready.
abbrev woken : Kernel
woken = record (set_status off 4 Status.ready) { ready_list = 3 ∷ 4 ∷ [] }

wake_waiter-woken : wake_waiter off (some 4) ≡ some woken
unfolding thread_unblock
wake_waiter-woken = refl

intq_putc-queue_example :
    (length (queue two_bytes) < 63
      → (q' : Intq) × (intq_putc two_bytes off 7 ≡ some (done q' woken))
        × (queue q' ≡ queue two_bytes ++ (7 ∷ []))
        × (q'.not_empty ≡ none)
        × InBuffer q')
    × (length (queue two_bytes) ≡ 63 → off.intr_context ≡ true → intq_putc two_bytes off 7 ≡ none)
    × (length (queue two_bytes) ≡ 63
        → off.intr_context ≡ false
        → intq_putc two_bytes off 7 ≡ (lock_acquire off 8 >>= λ k1. some (waits k1)))
    × (length (queue two_bytes) ≤ 63)
intq_putc-queue_example =
    intq_putc-queue two_bytes off two_bytes-InBuffer refl 7 woken wake_waiter-woken

intq_getc-queue_example :
    ((byte : ℕ) (rest : List ℕ)
      → queue two_bytes ≡ byte ∷ rest
      → (q' : Intq) × (intq_getc two_bytes off ≡ some (done (byte, q') woken))
        × (queue q' ≡ rest)
        × (q'.not_full ≡ none)
        × InBuffer q')
    × (queue two_bytes ≡ [] → off.intr_context ≡ true → intq_getc two_bytes off ≡ none)
    × (queue two_bytes ≡ []
        → off.intr_context ≡ false
        → intq_getc two_bytes off ≡ (lock_acquire off 8 >>= λ k1. some (waits k1)))
intq_getc-queue_example =
    intq_getc-queue two_bytes off two_bytes-InBuffer refl woken wake_waiter-woken
