-- ===== src/Kernel/Sched.antt =====
-- src/threads/thread.c: the life of a thread and the scheduler.
use project_os.Base.{
  remove_elem, count, ltb, ℕ, ◌+◌, ◌%◌, ◌^◌, Bool, true, false, not, ◌&&◌, Option, none, some, List,
  [], ◌∷◌, ◌++◌, leb, take, ◌==◌, if◌then◌else◌, assert, ◌>>=◌, ◌>>◌,
}
use project_os.LinkedList.{list_init}
use project_os.Kernel.{
  Kernel, Thread, Status, Frame, update, status_of, set_status, is_running, is_blocked, is_dying,
  points_to,
}

abbrev pub time_slice : ℕ
time_slice = 4

unfoldable pub thread_current : Kernel → Option ℕ
thread_current k = do
  assert ((k.threads k.current).is_thread)
  assert (is_running (status_of k k.current))
  some k.current

-- The rest of the list goes on as `ready_list`.
unfoldable pub next_of : List ℕ → Kernel → Option ℕ × Kernel
next_of [] k = (k.idle_thread, k)
next_of (t ∷ rest) k = (some t, record k { ready_list = rest })

unfoldable pub next_thread_to_run : Kernel → Option ℕ × Kernel
unfolding next_of
next_thread_to_run k = next_of k.ready_list k

-- `palloc_free_page (prev)` fills the page with 0xcc, so it is no thread any more.
unfoldable pub free_thread : Kernel → ℕ → Kernel
free_thread k t = record k {
  threads = update k.threads t (record (k.threads t) { is_thread = false });
}

unfoldable pub must_free : Kernel → ℕ → Bool
must_free k t = is_dying (status_of k t) && not (t == k.initial_thread)

-- `prev` is `none` where the same thread goes on. `process_activate` loads hardware registers only.
unfoldable pub thread_schedule_tail : Kernel → Option ℕ → Option Kernel
unfolding free_thread must_free
thread_schedule_tail k none = do
  assert (not k.intr_on)
  some (record (set_status k k.current Status.running) { thread_ticks = 0 })
thread_schedule_tail k (some prev) = do
  assert (not k.intr_on)
  let k' = record (set_status k k.current Status.running) { thread_ticks = 0 }
  if must_free k' prev
      then (assert (not (prev == k'.current)) >> some (free_thread k' prev))
      else some k'

-- `switch_threads` makes `next` the running thread.
unfoldable pub switch_to : Kernel → (cur : ℕ) → Option ℕ → Option Kernel
switch_to k cur none = none
switch_to k cur (some next) = do
  assert ((k.threads next).is_thread)
  if cur == next
      then thread_schedule_tail k none
      else thread_schedule_tail (record k { current = next }) (some cur)

unfoldable pub schedule : Kernel → Option Kernel
unfolding next_thread_to_run
schedule k =
    let (next, k') = next_thread_to_run k in
    do
      assert (not k'.intr_on)
      assert (not (is_running (status_of k' k.current)))
      switch_to k' k.current next

unfoldable pub thread_block : Kernel → Option Kernel
unfolding thread_current
thread_block k = do
  assert (not k.intr_context)
  assert (not k.intr_on)
  cur ← thread_current k
  schedule (set_status k cur Status.blocked)

unfoldable pub thread_unblock : Kernel → ℕ → Option Kernel
thread_unblock k t = do
  assert ((k.threads t).is_thread)
  assert (is_blocked (status_of k t))
  some (record (set_status k t Status.ready) { ready_list = k.ready_list ++ (t ∷ []) })

-- The frame that is left for when the thread runs again restores the interrupt level.
unfoldable pub push_frame : Kernel → ℕ → Frame → Kernel
push_frame k t f = record k { frames = update k.frames t (f ∷ k.frames t) }

-- The state in which `thread_yield` calls `schedule`.
unfoldable pub yielding : Kernel → ℕ → Kernel
unfolding push_frame
yielding k cur =
    record (set_status (push_frame k cur (Frame.set_level k.intr_on)) cur Status.ready) {
      intr_on = false;
      ready_list = if points_to k.idle_thread cur then k.ready_list else k.ready_list ++ (cur ∷ []);
    }

unfoldable pub thread_yield : Kernel → Option Kernel
unfolding thread_current yielding
thread_yield k = do cur ← thread_current k; assert (not k.intr_context); schedule (yielding k cur)

-- What `thread_exit` does once `process_exit ()` has returned. `list_remove` asserts that the element
-- is in a list; `allelem` is in no list but `all_list`.
unfoldable pub finish_exit : Kernel → Option Kernel
unfolding thread_current remove_elem
finish_exit k = do
  cur ← thread_current k
  assert (ltb 0 (count cur k.all_list))
  schedule (record (set_status k cur Status.dying) {
    intr_on = false;
    all_list = remove_elem cur k.all_list;
  })

-- `thread_tick`; `intr_yield_on_return` asserts that it is called by an interrupt handler.
unfoldable pub count_tick : Kernel → ℕ → Kernel
count_tick k t =
    if points_to k.idle_thread t
    then record k { idle_ticks = k.idle_ticks + 1 }
    else if (k.threads t).has_pagedir
    then record k { user_ticks = k.user_ticks + 1 }
    else record k { kernel_ticks = k.kernel_ticks + 1 }

unfoldable pub end_slice : Kernel → Option Kernel
end_slice k = do assert k.intr_context; some (record k { yield_on_return = true })

unfoldable pub thread_tick : Kernel → Option Kernel
unfolding thread_current count_tick end_slice
thread_tick k = do
  t ← thread_current k
  let k' = record (count_tick k t) { thread_ticks = ((count_tick k t).thread_ticks + 1) % 2 ^ 32 }
  if leb time_slice k'.thread_ticks then end_slice k' else some k'

abbrev pub pri_max : ℕ
pri_max = 63

-- `list_size (&all_list) > 0 ? thread_current () : NULL`
unfoldable pub parent_of : Kernel → Option (Option ℕ)
unfolding thread_current
parent_of k = elim k.all_list [
  | [] ↦ some none
  | t ∷ rest ↦ (thread_current k >>= λ cur. some (some cur))
]

-- `locks` is the address of the thread's list of locks.
abbrev pub new_thread : (name : List ℕ) → (priority locks : ℕ) → (parent : Option ℕ) → Thread
new_thread name priority locks parent = record {
  tid = 0;
  status = Status.blocked;
  name = name;
  priority = priority;
  blocked_ticks = 0;
  recent_cpu = 0;
  has_pagedir = false;
  locks = locks;
  parent = parent;
  in_syscall = false;
  is_thread = true;
}

-- `strlcpy` into the 16 bytes of `name` keeps 15 characters.
unfoldable pub init_thread : Kernel → (t : ℕ) → (name : List ℕ) → (priority : ℕ) → Option Kernel
unfolding parent_of list_init
init_thread k t name priority = do
  assert (not (t == 0))
  assert (leb priority pri_max)
  parent ← parent_of k
  some (record k {
    threads = update k.threads t (new_thread (take 15 name) priority (k.threads t).locks parent);
    elems = list_init k.elems (k.threads t).locks;
    all_list = k.all_list ++ (t ∷ []);
  })

-- The first thread of the list with the tid.
unfoldable pub find_tid : Kernel → List ℕ → ℕ → Option ℕ
find_tid k [] tid = none
find_tid k (t ∷ rest) tid = if (k.threads t).tid == tid then some t else find_tid k rest tid

unfoldable pub lookup_tid : Kernel → ℕ → Option ℕ
unfolding find_tid
lookup_tid k tid = find_tid k k.all_list tid
