-- ===== src/Kernel/Tests.antt =====
-- Four threads: 1 is the idle thread, 2 runs, 3 is ready, and 4 waits for semaphore 7.
use project_os.Base.{
  ℕ, ◌%◌, ◌^◌, ◌*◌, ◌+◌, ◌≡◌, ◌⊎◌, refl, true, false, none, some, [], ◌∷◌, arith, ◌==◌, leb,
  if◌then◌else◌,
}
use project_os.Kernel.{Kernel, Thread, Status, set_status, update}
use project_os.Kernel.Sched.{new_thread, schedule, yielding, time_slice}
use project_os.Kernel.Sync.{sema_down, sema_up}
use project_os.Kernel.Timer.{sleep_enqueue, unblock_thread_with_enough_ticks, timer_interrupt}
use project_os.Kernel.Invariant.{
  Place, nowhere, queued, asleep, waits, count, Filed, Inv, IsOff, HasNext,
}
use project_os.Kernel.Keep.{Turns, schedule-Inv}
use project_os.Kernel.Wake.{Ups, sema_up-Ups}
use project_os.Kernel.Block.{Passes, Waits, sema_down-Downs}
use project_os.Kernel.Due.{Wakes}
use project_os.Kernel.Tick.{timer_interrupt-Wakes}
use project_os.Kernel.Race.{sleep_preempted, sleep_interrupted}

abbrev thread_at : ℕ → Status → Thread
thread_at t s = record (new_thread [] 31 (1000 + 20 * t) none) { tid = t; status = s }

abbrev status_at : ℕ → Status
status_at t = if t == 2 then Status.running else if t == 3 then Status.ready else Status.blocked

abbrev pub sample : Kernel
sample = record {
  threads = λ t. thread_at t (status_at t);
  frames = λ _. [];
  current = 2;
  initial_thread = 9;
  idle_thread = some 1;
  all_list = 1 ∷ 2 ∷ 3 ∷ 4 ∷ [];
  ready_list = 3 ∷ [];
  blocked_list = [];
  semas = λ s. record { value = 0; waiters = if s == 7 then 4 ∷ [] else [] };
  locks = λ l. record { holder = none; semaphore = l; lock_elem = 5000 + l };
  elems = record {
    prev = λ e. if e == 1048 then 1040 else 0;
    next = λ e. if e == 1040 then 1048 else 0;
  };
  next_tid = 5;
  ticks = 100;
  thread_ticks = 3;
  idle_ticks = 0;
  kernel_ticks = 100;
  user_ticks = 0;
  intr_on = true;
  intr_context = false;
  yield_on_return = false;
}

abbrev pub place : ℕ → Place
place t = if t == 3 then queued else if t == 4 then waits 7 else nowhere

sample-Filed : Filed sample place
sample-Filed = record {
  on_ready = λ t. ground arith;
  on_sleep = λ t. ground arith;
  on_sema = λ s t. ground arith;
  fits = λ t. ground arith;
  real = λ t _. refl;
  idle_free = λ t. ground arith;
  idle_real = λ t _. refl;
}

pub sample-Inv : Inv sample place
sample-Inv = record {
  filed = sample-Filed;
  current_runs = refl;
  current_real = refl;
  one_runs = λ t. ground arith;
}

pub sample-HasNext : HasNext sample
sample-HasNext e = (1, refl)

-- Thread 2 is about to wait.
abbrev stopped : Kernel
stopped = record (set_status sample 2 Status.blocked) { intr_on = false }

stopped-IsOff : IsOff stopped place
stopped-IsOff = record {
  filed = record {
    on_ready = λ t. ground arith;
    on_sleep = λ t. ground arith;
    on_sema = λ s t. ground arith;
    fits = λ t. ground arith;
    real = λ t _. ground arith;
    idle_free = λ t. ground arith;
    idle_real = λ t _. ground arith;
  };
  none_runs = λ t. ground arith;
  off = refl;
  alive = λ e. ground arith;
}

-- The same threads inside an interrupt handler, with the end of the time slice near.
abbrev interrupted : Kernel
interrupted = record sample { intr_on = false; intr_context = true }

interrupted-Inv : Inv interrupted place
interrupted-Inv = record {
  filed = record {
    on_ready = sample-Filed.on_ready;
    on_sleep = sample-Filed.on_sleep;
    on_sema = sample-Filed.on_sema;
    fits = sample-Filed.fits;
    real = sample-Filed.real;
    idle_free = sample-Filed.idle_free;
    idle_real = sample-Filed.idle_real;
  };
  current_runs = refl;
  current_real = refl;
  one_runs = sample-Inv.one_runs;
}

-- Thread 5 sleeps until tick 101.
abbrev sleepy : Kernel
sleepy = record interrupted {
  threads =
      update interrupted.threads 5 (record (thread_at 5 Status.blocked) { blocked_ticks = 101 });
  blocked_list = 5 ∷ [];
}

abbrev sleepy_place : ℕ → Place
sleepy_place t = if t == 5 then asleep else place t

sleepy-Inv : Inv sleepy sleepy_place
sleepy-Inv = record {
  filed = record {
    on_ready = λ t. ground arith;
    on_sleep = λ t. ground arith;
    on_sema = λ s t. ground arith;
    fits = λ t. ground arith;
    real = λ t _. ground arith;
    idle_free = λ t. ground arith;
    idle_real = λ t _. ground arith;
  };
  current_runs = refl;
  current_real = refl;
  one_runs = λ t. ground arith;
}

schedule-Inv_example :
    (k' : Kernel) × (schedule stopped ≡ some k') × ((p : ℕ → Place) × Inv k' p) × Turns stopped k'
schedule-Inv_example = schedule-Inv stopped place stopped-IsOff (λ e. (1, refl))

sema_up-Ups_example :
    (k' : Kernel) × (sema_up sample 7 ≡ some k') × ((p : ℕ → Place) × Inv k' p) × Ups sample 7 k'
sema_up-Ups_example = sema_up-Ups sample place 7 sample-Inv

sema_down-Downs_example :
    (k' : Kernel) × (sema_down sample 7 ≡ some k')
    × ((p : ℕ → Place) × Inv k' p)
    × (Passes sample 7 k' ⊎ Waits sample 7 k')
sema_down-Downs_example = sema_down-Downs sample place 7 sample-Inv refl refl sample-HasNext

timer_interrupt-Wakes_example :
    (k' : Kernel) × (timer_interrupt sleepy ≡ some k')
    × ((p : ℕ → Place) × Inv k' p)
    × Wakes sleepy (100 + 1) k'
    × (k'.ticks ≡ 100 + 1)
    × (k'.yield_on_return ≡ (if leb time_slice ((3 + 1) % 2 ^ 32) then true else false))
timer_interrupt-Wakes_example = timer_interrupt-Wakes sleepy sleepy_place sleepy-Inv refl (tt, tt)

sleep_preempted_example :
    (k1 : Kernel) × (sleep_enqueue sample 9 ≡ some k1)
    × (count 2 (yielding k1 2).ready_list ≡ 1)
    × (count 2 (yielding k1 2).blocked_list ≡ 1)
    × ((p : ℕ → Place) → ¬ Filed (yielding k1 2) p)
sleep_preempted_example = sleep_preempted sample place sample-Inv 9 refl refl

sleep_interrupted_example :
    (k1 : Kernel) × (sleep_enqueue sample 1 ≡ some k1)
    × (unblock_thread_with_enough_ticks k1 101 ≡ none)
sleep_interrupted_example = sleep_interrupted sample place sample-Inv 1 refl 101 refl (omega arith)
