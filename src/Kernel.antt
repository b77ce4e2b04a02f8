-- ===== src/Kernel.antt =====
-- The state of the scheduler: `struct thread` of src/threads/thread.h, the static variables of
-- src/threads/thread.c and src/devices/timer.c, and the semaphores and locks of src/threads/synch.h.
-- Threads, semaphores and locks are named by their addresses. A list of `elem` or `allelem` members
-- is the list of the threads that they stand in; the lists of locks, whose elements two threads can
-- push, are a heap of links. A step of the kernel returns `none` where an ASSERT
-- fails.
pub mod Sched
pub mod Sync
pub mod Timer
pub mod Invariant
pub mod Keep
pub mod Wake
pub mod Block
pub mod Order
pub mod Sleep
pub mod Due
pub mod Tick
pub mod Race
pub mod Queue
pub mod Locks
pub mod Acquire
pub mod System
pub mod Create
pub mod Exit
mod Runs
pub mod Tests
pub use project_os.Base.{update}
use project_os.LinkedList.{Heap}
use project_os.Base.{ℕ, Bool, true, false, Option, none, some, List, [], ◌∷◌, ◌==◌, if◌then◌else◌}

-- `enum thread_status`
pub data Status : Type 0 where
  running ready blocked dying : Status

pub record Thread : Type 0 where
  pub tid : ℕ
  pub status : Status
  pub name : List ℕ
  pub priority : ℕ
  pub blocked_ticks : ℕ
  pub recent_cpu : ℕ  -- the bits of an `int32_t`
  pub has_pagedir : Bool  -- `pagedir != NULL`
  pub locks : ℕ  -- `&t->locks`, the address of the list
  pub parent : Option ℕ
  pub in_syscall : Bool
  pub is_thread : Bool  -- `magic == THREAD_MAGIC`

pub record Semaphore : Type 0 where
  pub value : ℕ
  pub waiters : List ℕ

pub record Lock : Type 0 where
  pub holder : Option ℕ
  pub semaphore : ℕ
  pub lock_elem : ℕ  -- `&lock->lockElem`

-- What a suspended call has still to do when its thread runs again.
pub data Frame : Type 0 where
  set_level : (old : Bool) → Frame  -- `intr_set_level (old_level);`
  down : (sema : ℕ) (old : Bool) → Frame  -- the loop of `sema_down`
  own : (lock : ℕ) → Frame  -- `lock->holder = thread_current ();`

pub record Kernel : Type 0 where
  pub threads : ℕ → Thread
  pub frames : ℕ → List Frame
  pub current : ℕ  -- `running_thread ()`
  pub initial_thread : ℕ
  pub idle_thread : Option ℕ
  pub all_list : List ℕ
  pub ready_list : List ℕ
  pub blocked_list : List ℕ
  pub semas : ℕ → Semaphore
  pub locks : ℕ → Lock
  pub elems : Heap  -- the links of the locks' elements and of the threads' lists of locks
  pub next_tid : ℕ
  pub ticks : ℕ
  pub thread_ticks : ℕ
  pub idle_ticks : ℕ
  pub kernel_ticks : ℕ
  pub user_ticks : ℕ
  pub intr_on : Bool  -- `intr_get_level () == INTR_ON`
  pub intr_context : Bool
  pub yield_on_return : Bool

abbrev pub status_of : Kernel → ℕ → Status
status_of k t = (k.threads t).status

abbrev pub set_status : Kernel → ℕ → Status → Kernel
set_status k t s = record k { threads = update k.threads t (record (k.threads t) { status = s }) }

-- Equality of statuses and of optional addresses.
abbrev pub is_running : Status → Bool
is_running Status.running = true
is_running _ = false

abbrev pub is_blocked : Status → Bool
is_blocked Status.blocked = true
is_blocked _ = false

abbrev pub is_dying : Status → Bool
is_dying Status.dying = true
is_dying _ = false

abbrev pub points_to : Option ℕ → ℕ → Bool
points_to none t = false
points_to (some a) t = a == t
