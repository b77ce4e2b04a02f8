-- ===== src/Kernel/System/Tests.antt =====
-- A system of four threads in which thread 2 takes lock 8, is preempted, and runs on.
use project_os.Base.{ℕ, ◌≡◌, refl, true, none, some, arith, ◌==◌, ◌||◌, if◌then◌else◌, Option}
use project_os.LinkedList.{list_push_back}
use project_os.Kernel.{Kernel, points_to}
use project_os.Kernel.Tests.{sample, place, sample-Inv}
use project_os.Kernel.Invariant.{Inv}
use project_os.Kernel.Sync.{lock_acquire, push_lock, sema_down, continue_frame}
use project_os.Kernel.System.{sem_of, claims, Sys, Action, run, Reach}
use project_os.Kernel.System.Safety.{lock_exclusion}

-- The sample with every lock free.
abbrev start : Kernel
start = record sample { semas = λ s. record (sample.semas s) { value = if s == 7 then 0 else 1 } }

start-Inv : Inv start place
start-Inv = record {
  filed = record {
    on_ready = sample-Inv.filed.on_ready;
    on_sleep = sample-Inv.filed.on_sleep;
    on_sema = λ s t. ground arith;
    fits = sample-Inv.filed.fits;
    real = sample-Inv.filed.real;
    idle_free = sample-Inv.filed.idle_free;
    idle_real = sample-Inv.filed.idle_real;
  };
  current_runs = refl;
  current_real = refl;
  one_runs = sample-Inv.one_runs;
}

start-Sys : Sys start
start-Sys = record {
  place = place;
  inv = start-Inv;
  order = tt;
  idle = 1;
  is_idle = refl;
  outside = refl;
  apart = λ l m e. e;
  shapes = λ t. tt;
  idles = tt;
  level = λ e. ground arith;
  excl = record {
    one = λ l t u. ground arith;
    free = λ l t p. ground arith;
    low = λ l. ground arith;
  };
}

-- The state that a call leads to.
abbrev outcome : Option Kernel → Kernel
outcome none = start
outcome (some k) = k

taken : Kernel
unfolding lock_acquire push_lock list_push_back sema_down
taken = outcome (lock_acquire start 8)

taken_lem : run (Action.acquire 8) start ≡ some taken
unfolding run lock_acquire push_lock list_push_back taken sema_down
taken_lem = refl

held : Kernel
unfolding continue_frame taken lock_acquire push_lock list_push_back sema_down
held = outcome (continue_frame taken)

held_lem : run Action.resume taken ≡ some held
unfolding run continue_frame held taken lock_acquire push_lock list_push_back sema_down
held_lem = refl

held-Reach : Reach start held
held-Reach =
    Reach.next Action.resume (Reach.next (Action.acquire 8) Reach.here (refl, refl) taken_lem) tt
      held_lem

has_holder : (points_to (held.locks 8).holder 2 || claims 8 (held.frames 2)) ≡ true
unfolding held continue_frame taken lock_acquire push_lock list_push_back sema_down
has_holder = refl

lock_exclusion_example : (◌≡◌ {A = ℕ} 2 2) × ((held.semas (sem_of held 8)).value ≡ 0)
lock_exclusion_example = lock_exclusion start held 8 2 2 start-Sys held-Reach has_holder has_holder
