-- ===== src/Kernel/Create.antt =====
-- `thread_create` of src/threads/thread.c, from where its page is got, and the scheduler's invariant.
-- It takes the lock of `allocate_tid` on its way, so that it is a call of `lock_acquire` with what comes
-- before it and what comes after it. The stack frames for the first run of the thread are not part of
-- this state.
pub mod Finish
pub mod Call
use mathlib.Core.Path.{subst}
use project_os.Base.{
  ℕ, ◌+◌, ◌<◌, ◌≤◌, ◌≡◌, ◌≢◌, refl, sym, ◌∙◌, ap, true, false, Option, none, some, List, [], ◌∷◌,
  ◌++◌, arith, take, count, count-append, Bool-cases, inl, inr, ◌==◌, leb, le→leb, assert-true,
  assert-not, some->>=, ◌>>=◌,
}
use project_os.LinkedList.{
  Heap, list_init, list_push_back, list_insert, list_tail, is_tail, is_interior, link,
}
use project_os.Kernel.{Kernel, Status, update, status_of, points_to}
use project_os.Kernel.Sched.{
  thread_current, thread_unblock, init_thread, new_thread, parent_of, pri_max, push_frame,
}
use project_os.Kernel.Sync.{lock_acquire, lock_release, continue_frame, pop_frame}
use project_os.Kernel.Invariant.{
  Place, nowhere, queued, asleep, waits, is_queued, is_asleep, is_waiting, Inv,
}
use project_os.Kernel.Wake.{Ups, first_of, woken, woken-Inv, thread_unblock-woken}
use project_os.Kernel.Keep.{rest_of}
use project_os.Kernel.Block.{thread_current-some}
use project_os.Kernel.Locks.{Releases, given_up, linked, lock_release-Releases}
use project_os.Kernel.Acquire.{owning, lock_acquire-owning}

-- From `init_thread` to the call of `lock_acquire (&tid_lock)` in `allocate_tid`.
unfoldable pub begin_create :
    Kernel → (tid_lock t : ℕ) → (name : List ℕ) → (priority : ℕ) → Option Kernel
begin_create k tid_lock t name priority = do
  fresh ← init_thread k t name priority
  lock_acquire fresh tid_lock

-- `t->tid = tid`
abbrev pub assign_tid : Kernel → (t tid : ℕ) → Kernel
assign_tid k t tid = record k { threads = update k.threads t (record (k.threads t) { tid = tid }) }

-- From `tid = next_tid++;` to the end of `thread_create`, with the new tid.
unfoldable pub finish_create : Kernel → (tid_lock t : ℕ) → Option (ℕ × Kernel)
finish_create k tid_lock t = do
  k' ← lock_release (record k { next_tid = k.next_tid + 1 }) tid_lock
  started ← thread_unblock (assign_tid k' t k.next_tid) t
  some (k.next_tid, started)

-- The address of a new thread belongs to no thread that the scheduler knows.
pub record IsFresh (k : Kernel) (place : ℕ → Place) (t : ℕ) : Type 0 where
  pub free : place t ≡ nowhere
  pub other : t ≢ k.current
  pub busy : points_to k.idle_thread t ≡ false
  pub real : t ≢ 0

-- The lock is free, and the running thread has a list of locks apart from that of the thread `t`.
pub record IsOpen (k : Kernel) (l t : ℕ) : Type 0 where
  pub outside : k.intr_context ≡ false
  pub unheld : points_to (k.locks l).holder k.current ≡ false
  pub free : 0 < (k.semas (k.locks l).semaphore).value
  pub elem : (k.locks l).lock_elem ≢ 0
  pub end : is_tail k.elems (list_tail (k.threads k.current).locks) ≡ true
  pub apart_head : list_tail (k.threads k.current).locks ≢ (k.threads t).locks
  pub apart_tail : list_tail (k.threads k.current).locks ≢ list_tail (k.threads t).locks
