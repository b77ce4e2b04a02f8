-- ===== src/Kernel/System.antt =====
-- The kernel as a system: the calls that the threads make, in any order, and the states that they
-- lead to. A thread can be preempted between any two steps that leave interrupts on. `timer_sleep` is
-- one step here; Kernel/Race.antt is about an interrupt inside it.
pub mod Owners
pub mod Down
pub mod Steps
pub mod Wakes
pub mod Leaves
pub mod Resume
pub mod Continue
pub mod Safety
mod Tests
use project_os.Base.{
  ℕ, zero, suc, ◌+◌, ◌-◌, ◌*◌, ◌/◌, ◌%◌, ◌^◌, ◌≤◌, ◌<◌, min, ◌≡◌, ◌≢◌, ◌⊎◌, refl, sym, ◌∙◌, ap, inl,
  inr, Bool, true, false, not, ◌&&◌, ◌||◌, Option, none, some, List, [], ◌∷◌, ◌++◌, arith, ltb, leb,
  ◌==◌, if◌then◌else◌, Bool-cases, if-true, if-false, lt→ltb, le→leb, leb→le, length, take, drop,
  replicate, get_elem?, get_or, set, count, count-append, update, assert, assert-true, assert-not,
  some->>=, ◌>>=◌, ◌>>◌,
}
use project_os.Kernel.{Kernel, Lock, Frame, status_of, points_to}
use project_os.Kernel.Sched.{thread_yield}
use project_os.Kernel.Sync.{lock_acquire, lock_release, sema_up, sema_down, continue_frame}
use project_os.Kernel.Timer.{timer_sleep, timer_interrupt}
use project_os.Kernel.Invariant.{Place, Inv}
use project_os.Kernel.Order.{InOrder}
use project_os.Kernel.System.Owners.{Excl}

abbrev pub sem_of : Kernel → ℕ → ℕ
sem_of k l = (k.locks l).semaphore

-- The thread has taken the semaphore of the lock, and has still to set the holder.
abbrev pub claims : ℕ → List Frame → Bool
claims l [] = false
claims l (Frame.set_level old ∷ fs) = claims l fs
claims l (Frame.down s old ∷ fs) = false
claims l (Frame.own m ∷ fs) = l == m

abbrev pub is_down : List Frame → Bool
is_down [] = false
is_down (Frame.set_level old ∷ fs) = false
is_down (Frame.down s old ∷ fs) = true
is_down (Frame.own m ∷ fs) = false

-- The calls that a thread can be left in: preemptions over nothing, or over the end of
-- `lock_acquire`.
abbrev pub IsRested : List Frame → Type 0
IsRested [] = Unit
IsRested (Frame.set_level old ∷ fs) = IsRested fs
IsRested (Frame.down s old ∷ fs) = ⊥
IsRested (Frame.own l ∷ fs) = fs ≡ []

-- The idle thread waits for nothing.
abbrev pub IsIdle : List Frame → Type 0
IsIdle [] = Unit
IsIdle (Frame.set_level old ∷ fs) = IsIdle fs
IsIdle (Frame.down s old ∷ fs) = ⊥
IsIdle (Frame.own l ∷ fs) = ⊥

-- A semaphore that belongs to no lock; `sem` tells the semaphore of each lock.
abbrev pub IsFree : (sem : ℕ → ℕ) → ℕ → Type 0
IsFree sem s = (l : ℕ) → sem l ≢ s

-- What follows a `sema_down`: the end of `lock_acquire` for the semaphore of a lock.
abbrev pub Follows : (sem : ℕ → ℕ) → (s : ℕ) → List Frame → Type 0
Follows sem s [] = IsFree sem s
Follows sem s (Frame.set_level old ∷ fs) = ⊥
Follows sem s (Frame.down r old ∷ fs) = ⊥
Follows sem s (Frame.own l ∷ fs) = (sem l ≡ s) × (fs ≡ [])

abbrev pub Shape : (sem : ℕ → ℕ) → List Frame → Type 0
Shape sem [] = Unit
Shape sem (Frame.set_level old ∷ fs) = IsRested fs
Shape sem (Frame.down s old ∷ fs) = Follows sem s fs
Shape sem (Frame.own l ∷ fs) = fs ≡ []

abbrev pub holders : Kernel → ℕ → Option ℕ
holders k l = (k.locks l).holder

abbrev pub values : Kernel → ℕ → ℕ
values k l = (k.semas (sem_of k l)).value

abbrev pub claimers : Kernel → ℕ → ℕ → Bool
claimers k l t = claims l (k.frames t)

-- The invariant of the system.
pub record Sys (k : Kernel) : Type 0 where
  pub place : ℕ → Place
  pub inv : Inv k place
  pub order : InOrder k k.blocked_list
  pub idle : ℕ
  pub is_idle : k.idle_thread ≡ some idle
  pub outside : k.intr_context ≡ false
  pub apart : (l m : ℕ) → sem_of k l ≡ sem_of k m → l ≡ m
  pub shapes : (t : ℕ) → Shape (sem_of k) (k.frames t)
  pub idles : IsIdle (k.frames idle)
  pub level : is_down (k.frames k.current) ≡ true → k.intr_on ≡ false
  pub excl : Excl (holders k) (values k) (claimers k)

-- What the running thread can do next, or the timer.
pub data Action : Type 0 where
  acquire release up down sleep : ℕ → Action
  resume yield tick : Action

-- The state in which the handler of an external interrupt is called, by `intr_handler`. The processor
-- has turned interrupts off.
abbrev pub entered : Kernel → Kernel
entered k = record k { intr_on = false; intr_context = true; yield_on_return = false }

-- A timer interrupt. The processor restores whether interrupts are on. The yield that the handler
-- may ask for is an action of its own.
pub interrupt : Kernel → Option Kernel
interrupt k = do
  k' ← timer_interrupt (entered k)
  some (record k' { intr_context = false; intr_on = k.intr_on })

pub run : Action → Kernel → Option Kernel
unfolding interrupt
run (acquire l) k = lock_acquire k l
run (release l) k = lock_release k l
run (up s) k = sema_up k s
run (down s) k = sema_down k s
run (sleep n) k = timer_sleep k n
run resume k = continue_frame k
run yield k = thread_yield k
run tick k = interrupt k

-- The running thread is in no call of the kernel.
abbrev pub AtRest : Kernel → Type 0
AtRest k = k.frames k.current ≡ []

abbrev pub NotIdle : Kernel → Type 0
NotIdle k = points_to k.idle_thread k.current ≡ false

-- The rules that the threads keep: a lock is released by its holder, the semaphore of a lock is not
-- used by itself, and the idle thread does not wait. Preemption and interrupts need interrupts on.
abbrev pub IsAllowed : Kernel → Action → Type 0
IsAllowed k (acquire l) = AtRest k × NotIdle k
IsAllowed k (release l) = AtRest k × (points_to (k.locks l).holder k.current ≡ true)
IsAllowed k (up s) = AtRest k × IsFree (sem_of k) s
IsAllowed k (down s) = AtRest k × NotIdle k × IsFree (sem_of k) s
IsAllowed k (sleep n) = AtRest k × NotIdle k × (k.intr_on ≡ true)
IsAllowed k resume = Unit
IsAllowed k yield = (k.intr_on ≡ true) ⊎ AtRest k
IsAllowed k tick = k.intr_on ≡ true

-- The states that a run of allowed steps leads to.
pub data Reach (s : Kernel) : Kernel → Type 0 where
  here : Reach s s
  next : {k k' : Kernel} (a : Action) → Reach s k → IsAllowed k a → run a k ≡ some k' → Reach s k'
