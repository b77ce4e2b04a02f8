-- ===== src/Kernel/Keep.antt =====
-- `schedule` of src/threads/thread.c and the scheduler's invariant.
use project_os.Base.{
  ℕ, ◌≡◌, ◌≢◌, refl, inl, inr, true, false, Option, some, List, [], ◌∷◌, arith, ◌==◌, Bool-cases,
  count, update,
}
use project_os.Kernel.{
  Kernel, Status, update, status_of, set_status, is_running, is_dying, points_to,
}
use project_os.Kernel.Sched.{
  next_of, next_thread_to_run, thread_schedule_tail, must_free, switch_to, schedule,
}
use project_os.Kernel.Invariant.{
  Place, nowhere, queued, Filed, Calm, count, is_queued, is_asleep, is_waiting, Fits, Inv, IsOff,
  HasNext,
}

-- The state after a switch to `next`.
abbrev pub switched : Kernel → ℕ → Kernel
switched k next = record (set_status (record k { current = next }) next Status.running) {
  thread_ticks = 0;
}

==-refl : (a : ℕ) → (a == a) ≡ true
==-refl a = ground arith

is_running-false : (s : Status) → s ≢ Status.running → is_running s ≡ false
is_running-false Status.running h = absurd (h refl)
is_running-false _ h = refl

is_dying-false : (s : Status) → s ≢ Status.dying → is_dying s ≡ false
is_dying-false Status.dying h = absurd (h refl)
is_dying-false _ h = refl

-- The switch from a thread that is not dying goes through.
switch_to-switched :
    (k : Kernel) (next : ℕ)
    → (k.threads next).is_thread ≡ true
    → k.intr_on ≡ false
    → status_of k k.current ≢ Status.dying
    → switch_to k k.current (some next) ≡ some (switched k next)
unfolding switch_to thread_schedule_tail must_free
switch_to-switched k next real off alive = elim (Bool-cases (k.current == next)) [
  | inl here ↦
      let at : next ≡ k.current = ground arith in
      let real' : (k.threads k.current).is_thread ≡ true = rw at at real in
      rw at (rw (real', ==-refl k.current, off) refl)
  | inr away ↦ ground (arith, not_dying)
]
  where
    not_dying : is_dying (status_of k k.current) ≡ false
    not_dying = is_dying-false _ alive

-- What a kernel is just before the switch to `next`, which is off every list by now.
pub record Chosen (k : Kernel) (place : ℕ → Place) (next : ℕ) : Type 0 where
  pub on_ready : (t : ℕ) → count t k.ready_list ≡ is_queued (place t)
  pub on_sleep : (t : ℕ) → count t k.blocked_list ≡ is_asleep (place t)
  pub on_sema : (s t : ℕ) → count t (k.semas s).waiters ≡ is_waiting s (place t)
  pub others_fit : (t : ℕ) → t ≢ next → Fits (place t) (status_of k t) (points_to k.idle_thread t)
  pub real : (t : ℕ) → place t ≢ nowhere → (k.threads t).is_thread ≡ true
  pub idle_free : (t : ℕ) → points_to k.idle_thread t ≡ true → place t ≡ nowhere
  pub idle_real : (t : ℕ) → points_to k.idle_thread t ≡ true → (k.threads t).is_thread ≡ true
  pub free : place next ≡ nowhere
  pub next_real : (k.threads next).is_thread ≡ true

pub switched-Inv :
    (k : Kernel) (place : ℕ → Place) (next : ℕ)
    → Chosen k place next
    → ((t : ℕ) → status_of k t ≢ Status.running)
    → Inv (switched k next) place
switched-Inv k place next f still =
    let free = f.free in
    let next_real = f.next_real in
    record {
      filed = record {
        on_ready = f.on_ready;
        on_sleep = f.on_sleep;
        on_sema = f.on_sema;
        fits = λ t. ground (arith, f.others_fit t);
        real = λ t. ground (arith, f.real t);
        idle_free = f.idle_free;
        idle_real = λ t. ground (arith, f.idle_real t);
      };
      current_runs = ground arith;
      current_real = ground arith;
      one_runs = λ t. ground (arith, still t);
    }

-- The head of a run queue or else the idle thread, and what is left of the queue.
abbrev pub first_or : List ℕ → (idle : Option ℕ) → Option ℕ
first_or [] idle = idle
first_or (t ∷ rest) idle = some t

abbrev pub rest_of : List ℕ → List ℕ
rest_of [] = []
rest_of (t ∷ rest) = rest

-- The head of the run queue, or else the idle thread, has come to run.
abbrev pub Picks : Kernel → Kernel → Type 0
Picks k k' =
    (some k'.current ≡ first_or k.ready_list k.idle_thread) × (k'.ready_list ≡ rest_of k.ready_list)

-- `schedule` in `k` has switched, and changed nothing but the run queue and what tells which thread
-- runs.
pub record Turns (k k' : Kernel) : Type 0 where
  pub picks : Picks k k'
  pub sleepers : k'.blocked_list ≡ k.blocked_list
  pub semas : k'.semas ≡ k.semas
  pub calm : Calm k k'
  pub stay : (t : ℕ) → t ≢ k'.current → status_of k' t ≡ status_of k t
  pub times : (t : ℕ) → (k'.threads t).blocked_ticks ≡ (k.threads t).blocked_ticks

module _ (k : Kernel) (place : ℕ → Place) (f : Filed k place) where
  take_head : (t : ℕ) (rest : List ℕ) → k.ready_list ≡ t ∷ rest → place t ≡ queued
  take_head t rest e = ground (arith, f.on_ready t)

  pub head-Chosen :
      (t : ℕ) (rest : List ℕ)
      → k.ready_list ≡ t ∷ rest
      → Chosen (record k { ready_list = rest }) (update place t nowhere) t
  head-Chosen t rest e =
      let at : place t ≡ queued = take_head t rest e in
      record {
        on_ready = λ u. ground (arith, f.on_ready u);
        on_sleep = λ u. ground (arith, f.on_sleep u);
        on_sema = λ s u. ground (arith, f.on_sema s u);
        others_fit = λ u. ground (arith, f.fits u);
        real = λ u. ground (arith, f.real u);
        idle_free = λ u. ground (arith, f.idle_free u);
        idle_real = λ u. ground (arith, f.idle_real u);
        free = ground arith;
        next_real = ground (arith, f.real t);
      }

  pub idle-Chosen : (i : ℕ) → k.idle_thread ≡ some i → Chosen k place i
  idle-Chosen i e = record {
    on_ready = f.on_ready;
    on_sleep = f.on_sleep;
    on_sema = f.on_sema;
    others_fit = λ u _. f.fits u;
    real = f.real;
    idle_free = f.idle_free;
    idle_real = f.idle_real;
    free = ground (arith, f.idle_free i);
    next_real = ground (arith, f.idle_real i);
  }

module _ (k : Kernel) (place : ℕ → Place) (o : IsOff k place) where
  schedule_to :
      (next : ℕ) (k' : Kernel)
      → next_thread_to_run k ≡ (some next, k')
      → (k'.threads next).is_thread ≡ true
      → k'.threads ≡ k.threads
      → k'.current ≡ k.current
      → k'.intr_on ≡ k.intr_on
      → schedule k ≡ some (switched k' next)
  unfolding schedule
  schedule_to next k' e real same cur level = ground (
    arith,
    is_running-false (status_of k k.current) (o.none_runs k.current),
    o.off,
    o.alive,
    switch_to-switched k' next,
  )

  schedule_of :
      (xs : List ℕ)
      → k.ready_list ≡ xs
      → HasNext k
      → (k' : Kernel) × (schedule k ≡ some k') × ((p : ℕ → Place) × Inv k' p) × Turns k k'
  unfolding next_thread_to_run next_of
  schedule_of [] e h =
      let (i, idle) = h e in
      let c = idle-Chosen k place o.filed i idle in
      (
        switched k i,
        schedule_to i k (ground arith) c.next_real refl refl refl,
        (place, switched-Inv k place i c o.none_runs),
        record {
          picks = (ground arith, ground arith);
          sleepers = refl;
          semas = refl;
          calm = record {
            frames = refl;
            locks = refl;
            elems = refl;
            idle = refl;
            level = refl;
            context = refl;
          };
          stay = λ u ne. ground arith;
          times = λ u. ground arith;
        },
      )
  schedule_of (t ∷ rest) e h =
      let k' : Kernel = record k { ready_list = rest } in
      let c = head-Chosen k place o.filed t rest e in
      (
        switched k' t,
        schedule_to t k' (ground arith) c.next_real refl refl refl,
        (update place t nowhere, switched-Inv k' (update place t nowhere) t c o.none_runs),
        record {
          picks = (ground arith, ground arith);
          sleepers = refl;
          semas = refl;
          calm = record {
            frames = refl;
            locks = refl;
            elems = refl;
            idle = refl;
            level = refl;
            context = refl;
          };
          stay = λ u ne. ground arith;
          times = λ u. ground arith;
        },
      )

  -- From a state in which nothing runs, interrupts are off, the running thread is not dying, the
  -- lists are as the invariant says and some thread can be scheduled, `schedule` does not panic: it switches to the head of the run queue, or to the
  -- idle thread if there is none, changes the state of no other thread, and the scheduler's
  -- invariant holds then.
  pub schedule-Inv :
      HasNext k → (k' : Kernel) × (schedule k ≡ some k') × ((p : ℕ → Place) × Inv k' p) × Turns k k'
  schedule-Inv = schedule_of k.ready_list refl
