-- ===== src/Kernel/Runs.antt =====
-- Runs of the scheduler, the locks and the life of a thread on the state of Kernel/Tests.antt.
use project_os.Base.{
  ℕ, count, ◌<◌, ◌≡◌, refl, Bool, true, false, Option, none, some, List, [], ◌∷◌, ◌>>=◌, ◌==◌, ◌+◌,
  ◌++◌, if◌then◌else◌, arith,
}
use project_os.Kernel.{Kernel}
use project_os.Kernel.Sched.{
  finish_exit, lookup_tid, thread_current, schedule, init_thread, thread_unblock,
  thread_schedule_tail, switch_to, next_thread_to_run,
}
use project_os.Kernel.Sync.{
  push_lock, disown, sema_init, sema_try_down, sema_down, sema_up, lock_init, lock_acquire,
  lock_try_acquire, lock_release, continue_frame, lock_held_by_current_thread,
}
use project_os.LinkedList.{Heap, list_init, list_push_back, list_remove, list_insert_ordered}
use project_os.LinkedList.Links.{IsList}
use project_os.Kernel.Timer.{compare_thread, insert_ordered}
use project_os.Kernel.Queue.{list_insert_ordered-insert_ordered}
use project_os.Kernel.Invariant.{Place, Inv}
use project_os.Kernel.Keep.{Picks}
use project_os.Kernel.Locks.{Releases, lock_release-Releases}
use project_os.Kernel.Create.{begin_create, finish_create}
use project_os.Kernel.Create.Call.{thread_create-Inv}
use project_os.Kernel.Exit.{Reaps, finish_exit-Inv}
use project_os.Kernel.Tests.{sample, place, sample-Inv, sample-HasNext}

abbrev holder_of : ℕ → Kernel → Option (Option ℕ × ℕ)
holder_of l k = some ((k.locks l).holder, (k.semas l).value)

abbrev acquired : Option Kernel
acquired = lock_acquire (lock_init sample 8) 8 >>= continue_frame

-- A lock is taken, taken again without effect, and given back.
lock_runs :
    ((acquired >>= holder_of 8) ≡ some (some 2, 0))
    × ((acquired >>= λ k. lock_acquire k 8) ≡ acquired)
    × (((acquired >>= λ k. lock_release k 8) >>= holder_of 8) ≡ some (none, 1))
    × (lock_release (lock_init sample 8) 8 ≡ none)
    × (((lock_try_acquire (lock_init sample 8) 8) >>= λ r. holder_of 8 r.1) ≡ some (some 2, 0))
unfolding lock_acquire push_lock list_push_back disown list_remove lock_init continue_frame
    lock_release lock_try_acquire sema_down sema_up sema_init sema_try_down thread_current
    lock_held_by_current_thread
lock_runs = (refl, refl, refl, refl, refl)

abbrev exit_view : Kernel → Option (ℕ × Bool × List ℕ)
exit_view k = some (k.current, (k.threads 2).is_thread, k.all_list)

abbrev create_view : ℕ × Kernel → Option (ℕ × List ℕ × Option ℕ)
create_view (tid, k) = some (tid, k.ready_list, lookup_tid k 5)

-- The running thread exits: thread 3 runs and the page of thread 2 is freed.
exit_run : (finish_exit sample >>= exit_view) ≡ some (3, false, 1 ∷ 3 ∷ 4 ∷ [])
unfolding finish_exit thread_current schedule thread_schedule_tail switch_to next_thread_to_run
exit_run = refl

-- Every semaphore has the value 1.
abbrev open_locks : Kernel
open_locks = record sample { semas = λ s. record { value = 1; waiters = (sample.semas s).waiters } }

abbrev new_thread_run : Option (ℕ × Kernel)
new_thread_run =
    (begin_create open_locks 8 6 [] 31 >>= continue_frame) >>= λ k2. finish_create k2 8 6

-- A new thread gets the next tid, is ready last, and can be looked up.
create_run : (new_thread_run >>= create_view) ≡ some (5, 3 ∷ 6 ∷ [], some 6)
unfolding begin_create finish_create init_thread thread_unblock lookup_tid thread_current
    lock_acquire push_lock list_push_back list_init sema_down continue_frame lock_release disown
    list_remove sema_up lock_held_by_current_thread
create_run = refl

-- Threads 100 and 200 sleep until ticks 150 and 250, on the list at 10.
abbrev sleepers : Kernel
sleepers = record sample {
  threads = λ t. record (sample.threads t) {
    blocked_ticks = if t == 100 then 150 else if t == 200 then 250 else 180;
  };
}

abbrev links : Heap
links = record {
  prev = λ e. if e == 100 then 10 else if e == 200 then 100 else if e == 18 then 200 else 0;
  next = λ e. if e == 10 then 100 else if e == 100 then 200 else if e == 200 then 18 else 0;
}

links-IsList : IsList links 10 (100 ∷ (200 ∷ []))
links-IsList = record {
  links = (refl, refl, (refl, refl, (refl, refl, tt)));
  front = refl;
  back = refl;
  distinct = λ u. ground arith;
  real = refl;
}

list_insert_ordered-insert_ordered_example :
    (h' : Heap) × (list_insert_ordered (compare_thread sleepers) 3 links 10 300 ≡ some h')
    × IsList h' 10 (insert_ordered sleepers 300 (100 ∷ (200 ∷ [])))
list_insert_ordered-insert_ordered_example =
    list_insert_ordered-insert_ordered sleepers 300 3 links 10 (100 ∷ (200 ∷ [])) links-IsList
      (λ e. absurd (omega arith)) refl (omega arith)

finish_exit-Inv_example :
    (0 < count sample.current sample.all_list
      → (k' : Kernel) × (finish_exit sample ≡ some k')
        × ((p : ℕ → Place) × Inv k' p)
        × Picks sample k'
        × Reaps sample k')
    × (count sample.current sample.all_list ≡ 0 → finish_exit sample ≡ none)
finish_exit-Inv_example = finish_exit-Inv sample place sample-Inv refl sample-HasNext

-- The running thread holds every lock, its list of locks has the element of lock 7, and thread 4 waits for lock 7.
abbrev owner : Kernel
owner = record sample {
  locks = λ l. record { holder = some 2; semaphore = l; lock_elem = 5000 + l };
  elems = record {
    prev = λ e. if e == 5007 then 1040 else if e == 1048 then 5007 else 0;
    next = λ e. if e == 1040 then 5007 else if e == 5007 then 1048 else 0;
  };
}

owner-Inv : Inv owner place
owner-Inv = record {
  filed = record {
    on_ready = sample-Inv.filed.on_ready;
    on_sleep = sample-Inv.filed.on_sleep;
    on_sema = sample-Inv.filed.on_sema;
    fits = sample-Inv.filed.fits;
    real = sample-Inv.filed.real;
    idle_free = sample-Inv.filed.idle_free;
    idle_real = sample-Inv.filed.idle_real;
  };
  current_runs = refl;
  current_real = refl;
  one_runs = sample-Inv.one_runs;
}

open_locks-Inv : Inv open_locks place
open_locks-Inv = record {
  filed = record {
    on_ready = sample-Inv.filed.on_ready;
    on_sleep = sample-Inv.filed.on_sleep;
    on_sema = sample-Inv.filed.on_sema;
    fits = sample-Inv.filed.fits;
    real = sample-Inv.filed.real;
    idle_free = sample-Inv.filed.idle_free;
    idle_real = sample-Inv.filed.idle_real;
  };
  current_runs = refl;
  current_real = refl;
  one_runs = sample-Inv.one_runs;
}

lock_release-Releases_example : Releases true true owner 7 (lock_release owner 7)
lock_release-Releases_example = lock_release-Releases owner place 7 owner-Inv

thread_create-Inv_example :
    (k' : Kernel) × (((begin_create open_locks 8 6 [] 31 >>= continue_frame) >>= λ k2.
    finish_create k2 8 6)
      ≡ some (5, k'))
    × ((p : ℕ → Place) × Inv k' p)
    × (k'.ready_list ≡ ((3 ∷ []) ++ []) ++ (6 ∷ []))
    × (k'.all_list ≡ sample.all_list ++ (6 ∷ []))
    × ((k'.threads 6).tid ≡ 5)
    × (k'.next_tid ≡ 5 + 1)
    × (k'.current ≡ 2)
    × ((k'.locks 8).holder ≡ none)
thread_create-Inv_example =
    thread_create-Inv open_locks place open_locks-Inv 6 [] 31
      (record {
        free = refl;
        other = λ e. absurd (omega arith);
        busy = refl;
        real = λ e. absurd (omega arith);
      })
      8
      (record {
        outside = refl;
        unheld = refl;
        free = omega arith;
        elem = λ e. absurd (omega arith);
        end = refl;
        apart_head = λ e. absurd (omega arith);
        apart_tail = λ e. absurd (omega arith);
      })
      (omega arith)
