-- ===== src/Kernel/Sync.antt =====
-- src/threads/synch.c: semaphores and locks. A call that sleeps leaves its frame on the stack of
-- its thread, and `continue_frame` goes on with it when that thread runs again.
use project_os.Base.{
  ℕ, ◌+◌, ◌-◌, ◌%◌, ◌^◌, Bool, true, false, not, Option, none, some, List, [], ◌∷◌, ◌++◌, ltb, ◌==◌,
  if◌then◌else◌, assert, ◌>>=◌, ◌>>◌,
}
use project_os.LinkedList.{list_push_back, list_remove}
use project_os.Kernel.{Kernel, Semaphore, Lock, Frame, update, points_to}
use project_os.Kernel.Sched.{thread_current, thread_block, thread_unblock, push_frame}

abbrev pub set_sema : Kernel → ℕ → Semaphore → Kernel
set_sema k s v = record k { semas = update k.semas s v }

abbrev pub set_lock : Kernel → ℕ → Lock → Kernel
set_lock k l v = record k { locks = update k.locks l v }

unfoldable pub sema_init : Kernel → (sema value : ℕ) → Kernel
sema_init k s value = set_sema k s (record { value = value; waiters = [] })

-- The state in which the loop of `sema_down` calls `thread_block`.
unfoldable pub waiting : Kernel → (s : ℕ) → Bool → (cur : ℕ) → Kernel
waiting k s old cur =
    push_frame (set_sema k s (record (k.semas s) { waiters = (k.semas s).waiters ++ (cur ∷ []) }))
      cur (Frame.down s old)

-- One evaluation of the test of the loop in `sema_down`, and what follows it.
unfoldable pub down_round : Kernel → (s : ℕ) → Bool → Option Kernel
unfolding waiting push_frame thread_current
down_round k s old =
    if (k.semas s).value == 0
    then (thread_current k >>= λ cur. thread_block (waiting k s old cur))
    else some (record (set_sema k s (record (k.semas s) { value = (k.semas s).value - 1 })) {
      intr_on = old;
    })

unfoldable pub sema_down : Kernel → ℕ → Option Kernel
unfolding down_round
sema_down k s = do
  assert (not k.intr_context)
  down_round (record k { intr_on = false }) s k.intr_on

unfoldable pub sema_try_down : Kernel → ℕ → Bool × Kernel
sema_try_down k s =
    if ltb 0 (k.semas s).value
    then (true, set_sema k s (record (k.semas s) { value = (k.semas s).value - 1 }))
    else (false, k)

-- The first waiter is taken off the list and made ready.
unfoldable pub wake_first : Kernel → (s : ℕ) → List ℕ → Option Kernel
wake_first k s [] = some k
wake_first k s (t ∷ rest) = thread_unblock (set_sema k s (record (k.semas s) { waiters = rest })) t

-- The value, an `unsigned`, is incremented after the waiter is made ready.
unfoldable pub count_up : Kernel → ℕ → Kernel
count_up k s = set_sema k s (record (k.semas s) { value = ((k.semas s).value + 1) % 2 ^ 32 })

unfoldable pub sema_up : Kernel → ℕ → Option Kernel
unfolding wake_first count_up
sema_up k s = do k' ← wake_first k s (k.semas s).waiters; some (count_up k' s)

unfoldable pub lock_init : Kernel → ℕ → Kernel
unfolding sema_init
lock_init k l =
    sema_init (set_lock k l (record (k.locks l) { holder = none })) (k.locks l).semaphore 1

unfoldable pub lock_held_by_current_thread : Kernel → ℕ → Option Bool
unfolding thread_current
lock_held_by_current_thread k l = do cur ← thread_current k; some (points_to (k.locks l).holder cur)

-- `list_push_back (&thread_current ()->locks, &lock->lockElem);`
unfoldable pub push_lock : Kernel → (cur l : ℕ) → Option Kernel
unfolding list_push_back
push_lock k cur l = do
  h ← list_push_back k.elems (k.threads cur).locks (k.locks l).lock_elem
  some (record k { elems = h })

-- The frame `own` is `lock->holder = thread_current ();`, which runs when `sema_down` returns.
unfoldable pub acquire_free : Kernel → (cur l : ℕ) → Option Kernel
unfolding push_frame sema_down
acquire_free k cur l = do
  k' ← push_lock k cur l
  sema_down (push_frame k' cur (Frame.own l)) (k.locks l).semaphore

unfoldable pub lock_acquire : Kernel → ℕ → Option Kernel
unfolding lock_held_by_current_thread acquire_free
lock_acquire k l = do
  assert (not k.intr_context)
  held ← lock_held_by_current_thread k l
  cur ← thread_current k
  if held then some k else acquire_free k cur l

unfoldable pub lock_try_acquire : Kernel → ℕ → Option (Bool × Kernel)
unfolding lock_held_by_current_thread sema_try_down
lock_try_acquire k l = do
  held ← lock_held_by_current_thread k l
  assert (not held)
  cur ← thread_current k
  let (success, k') = sema_try_down k (k.locks l).semaphore
  if success
      then some (true, set_lock k' l (record (k'.locks l) { holder = some cur }))
      else some (false, k')

-- `list_remove (&lock->lockElem); lock->holder = NULL;`
unfoldable pub disown : Kernel → (l : ℕ) → Option Kernel
unfolding list_remove
disown k l = do
  (_, h) ← list_remove k.elems (k.locks l).lock_elem
  some (record (set_lock k l (record (k.locks l) { holder = none })) { elems = h })

unfoldable pub lock_release : Kernel → ℕ → Option Kernel
unfolding lock_held_by_current_thread sema_up
lock_release k l = do
  held ← lock_held_by_current_thread k l
  assert held
  k' ← disown k l
  sema_up k' (k.locks l).semaphore

unfoldable pub pop_frame : Kernel → ℕ → List Frame → Kernel
pop_frame k t rest = record k { frames = update k.frames t rest }

-- The running thread goes on with the innermost call that it left.
unfoldable pub run_frame : Kernel → List Frame → Option Kernel
unfolding pop_frame down_round thread_current
run_frame k [] = some k
run_frame k (Frame.set_level old ∷ rest) =
    some (record (pop_frame k k.current rest) { intr_on = old })
run_frame k (Frame.down s old ∷ rest) = down_round (pop_frame k k.current rest) s old
run_frame k (Frame.own l ∷ rest) = do
  cur ← thread_current k
  some (set_lock (pop_frame k k.current rest) l (record (k.locks l) { holder = some cur }))

unfoldable pub continue_frame : Kernel → Option Kernel
unfolding run_frame
continue_frame k = run_frame k (k.frames k.current)
