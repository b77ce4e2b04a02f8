-- ===== src/Kernel/Tick.antt =====
-- `timer_interrupt` of src/devices/timer.c and `thread_tick` of src/threads/thread.c.
use project_os.Base.{
  ◌%◌, ◌^◌, ℕ, ◌+◌, ◌≡◌, refl, sym, ◌∙◌, ap, true, some, arith, leb, if◌then◌else◌, count, some->>=,
}
use project_os.Kernel.{Kernel, Status, status_of, points_to}
use project_os.Kernel.Sched.{thread_tick, count_tick, time_slice}
use project_os.Kernel.Timer.{wake_time, count_cpu, timer_interrupt}
use project_os.Kernel.Invariant.{Place, count, Inv, Calm, Calm-trans}
use project_os.Kernel.Order.{InOrder, InOrder-same}
use project_os.Kernel.Due.{Wakes, Quiet, unblock_thread_with_enough_ticks-Wakes}
use project_os.Kernel.Block.{thread_current-some}

-- What the rest of the interrupt handler leaves alone.
pub record Same (k k' : Kernel) : Type 0 where
  pub ready_list : k'.ready_list ≡ k.ready_list
  pub blocked_list : k'.blocked_list ≡ k.blocked_list
  pub semas : k'.semas ≡ k.semas
  pub idle_thread : k'.idle_thread ≡ k.idle_thread
  pub current : k'.current ≡ k.current
  pub status : (t : ℕ) → status_of k' t ≡ status_of k t
  pub real : (t : ℕ) → (k'.threads t).is_thread ≡ (k.threads t).is_thread
  pub time : (t : ℕ) → wake_time k' t ≡ wake_time k t
  pub calm : Calm k k'

Same-Inv : (k k' : Kernel) (place : ℕ → Place) → Same k k' → Inv k place → Inv k' place
Same-Inv k k' place s v =
    let f = v.filed in
    record {
      filed = record {
        on_ready = λ u. ap (count u) s.ready_list ∙ f.on_ready u;
        on_sleep = λ u. ap (count u) s.blocked_list ∙ f.on_sleep u;
        on_sema = λ r u. ap (λ g. count u (g r).waiters) s.semas ∙ f.on_sema r u;
        fits = λ u. rw (s.status u, s.idle_thread) (f.fits u);
        real = λ u ne. s.real u ∙ f.real u ne;
        idle_free = λ u e. f.idle_free u (ap (λ o. points_to o u) (sym s.idle_thread) ∙ e);
        idle_real =
            λ u e. s.real u ∙ f.idle_real u (ap (λ o. points_to o u) (sym s.idle_thread) ∙ e);
      };
      current_runs = s.status k'.current ∙ ap (status_of k) s.current ∙ v.current_runs;
      current_real =
          s.real k'.current ∙ ap (λ t. (k.threads t).is_thread) s.current ∙ v.current_real;
      one_runs = λ u e. v.one_runs u (sym (s.status u) ∙ e) ∙ sym s.current;
    }

count_cpu-Same : (k : Kernel) (t : ℕ) → Same k (count_cpu k t)
unfolding count_cpu
count_cpu-Same k t = record {
  ready_list = ground arith;
  blocked_list = ground arith;
  semas = ground arith;
  idle_thread = ground arith;
  current = ground arith;
  status = λ u. ground arith;
  real = λ u. ground arith;
  time = λ u. ground arith;
  calm = record {
    frames = ground arith;
    locks = ground arith;
    elems = ground arith;
    idle = ground arith;
    level = ground arith;
    context = ground arith;
  };
}

count_cpu-Quiet : (k : Kernel) (t : ℕ) → Quiet k (count_cpu k t)
unfolding count_cpu
count_cpu-Quiet k t = record {
  context = ground arith;
  slice = ground arith;
  ticks = ground arith;
  yield = ground arith;
}

clock-Same : (k : Kernel) → Same k (record k { ticks = k.ticks + 1 })
clock-Same k = record {
  ready_list = refl;
  blocked_list = refl;
  semas = refl;
  idle_thread = refl;
  current = refl;
  status = λ _. refl;
  real = λ _. refl;
  time = λ _. refl;
  calm = record {
    frames = refl;
    locks = refl;
    elems = refl;
    idle = refl;
    level = refl;
    context = refl;
  };
}

-- What `thread_tick` counts: one tick of the time slice, and one tick for the idle thread, a user
-- process or the kernel; at the end of the slice a yield is asked for.
pub record Ticks (k k' : Kernel) : Type 0 where
  pub same : Same k k'
  pub clock : k'.ticks ≡ k.ticks
  pub slice : k'.thread_ticks ≡ (k.thread_ticks + 1) % 2 ^ 32
  pub total :
      k'.idle_ticks + k'.user_ticks + k'.kernel_ticks
      ≡ k.idle_ticks + k.user_ticks + k.kernel_ticks + 1
  pub asks :
      k'.yield_on_return
      ≡ (if leb time_slice ((k.thread_ticks + 1) % 2 ^ 32) then true else k.yield_on_return)

abbrev ticked : Kernel → Kernel
ticked k = record (count_tick k k.current) { thread_ticks = (k.thread_ticks + 1) % 2 ^ 32 }

abbrev ended : Kernel → Kernel
ended k =
    if leb time_slice ((k.thread_ticks + 1) % 2 ^ 32)
    then record (ticked k) { yield_on_return = true }
    else ticked k

thread_tick-ended :
    (k : Kernel)
    → k.intr_context ≡ true
    → (k.threads k.current).is_thread ≡ true
    → status_of k k.current ≡ Status.running
    → thread_tick k ≡ some (ended k)
unfolding thread_tick
thread_tick-ended k inside real runs =
    some->>= _ k.current _ (thread_current-some k real runs) ∙ ground arith

ended-Ticks : (k : Kernel) → Ticks k (ended k)
unfolding count_tick
ended-Ticks k = record {
  same = record {
    ready_list = ground arith;
    blocked_list = ground arith;
    semas = ground arith;
    idle_thread = ground arith;
    current = ground arith;
    status = λ u. ground arith;
    real = λ u. ground arith;
    time = λ u. ground arith;
    calm = record {
      frames = ground arith;
      locks = ground arith;
      elems = ground arith;
      idle = ground arith;
      level = ground arith;
      context = ground arith;
    };
  };
  clock = ground arith;
  slice = ground arith;
  total = ground arith;
  asks = ground arith;
}

pub thread_tick-Ticks :
    (k : Kernel) (place : ℕ → Place)
    → Inv k place
    → k.intr_context ≡ true
    → (k' : Kernel) × (thread_tick k ≡ some k') × Ticks k k' × Inv k' place
thread_tick-Ticks k place v inside =
    let t = ended-Ticks k in
    (
      ended k,
      thread_tick-ended k inside v.current_real v.current_runs,
      t,
      Same-Inv k (ended k) place t.same v,
    )

Wakes-Same : (k k1 k' : Kernel) (n : ℕ) → Wakes k n k1 → Same k1 k' → Wakes k n k'
Wakes-Same k k1 k' n w s = record {
  sleeps_on = λ t. ap (count t) s.blocked_list ∙ w.sleeps_on t;
  runs_soon = λ t. ap (count t) s.ready_list ∙ w.runs_soon t;
  order = rw (s.blocked_list) (InOrder-same k1 k' s.time k1.blocked_list w.order);
  same_time = λ t. s.time t ∙ w.same_time t;
  same_current = s.current ∙ w.same_current;
  calm = Calm-trans k k1 k' w.calm s.calm;
  semas = s.semas ∙ w.semas;
}

Same-trans : (a b c : Kernel) → Same a b → Same b c → Same a c
Same-trans a b c s t = record {
  ready_list = t.ready_list ∙ s.ready_list;
  blocked_list = t.blocked_list ∙ s.blocked_list;
  semas = t.semas ∙ s.semas;
  idle_thread = t.idle_thread ∙ s.idle_thread;
  current = t.current ∙ s.current;
  status = λ u. t.status u ∙ s.status u;
  real = λ u. t.real u ∙ s.real u;
  time = λ u. t.time u ∙ s.time u;
  calm = Calm-trans a b c s.calm t.calm;
}

-- The clock has no part in the lists.
Wakes-clock : {k k' : Kernel} {n : ℕ} → Wakes (record k { ticks = k.ticks + 1 }) n k' → Wakes k n k'
Wakes-clock w = record {
  sleeps_on = w.sleeps_on;
  runs_soon = w.runs_soon;
  order = w.order;
  same_time = w.same_time;
  same_current = w.same_current;
  calm = record {
    frames = w.calm.frames;
    locks = w.calm.locks;
    elems = w.calm.elems;
    idle = w.calm.idle;
    level = w.calm.level;
    context = w.calm.context;
  };
  semas = w.semas;
}

-- Where the invariant holds, `timer_interrupt`, as an interrupt handler and with the sleep queue
-- in order, does not panic: it advances the clock by one tick, wakes exactly the sleepers due at
-- the new time, goes on with the same thread, asks for a yield at the end of the time slice, and
-- keeps the invariant and the order.
pub timer_interrupt-Wakes :
    (k : Kernel) (place : ℕ → Place)
    → Inv k place
    → k.intr_context ≡ true
    → InOrder k k.blocked_list
    → (k' : Kernel) × (timer_interrupt k ≡ some k')
      × ((p : ℕ → Place) × Inv k' p)
      × Wakes k (k.ticks + 1) k'
      × (k'.ticks ≡ k.ticks + 1)
      × (k'.yield_on_return
          ≡ (if leb time_slice ((k.thread_ticks + 1) % 2 ^ 32) then true else k.yield_on_return))
unfolding timer_interrupt
timer_interrupt-Wakes k place v inside o =
    let k0 : Kernel = record k { ticks = k.ticks + 1 } in
    let (k1, e1, (p1, v1), w, q) =
      unblock_thread_with_enough_ticks-Wakes k0 place (k.ticks + 1)
        (Same-Inv k k0 place (clock-Same k) v) o in
    let c = count_cpu-Same k1 k1.current in
    let cq = count_cpu-Quiet k1 k1.current in
    let v2 = Same-Inv k1 (count_cpu k1 k1.current) p1 c v1 in
    let (k', e2, t, v3) =
      thread_tick-Ticks (count_cpu k1 k1.current) p1 v2 (cq.context ∙ q.context ∙ inside) in
    (
      k',
      some->>= _ k1 _ e1
          ∙ some->>= _ k1.current _ (thread_current-some k1 v1.current_real v1.current_runs)
          ∙ e2,
      (p1, v3),
      Wakes-clock (Wakes-Same k0 k1 k' (k.ticks + 1) w (Same-trans _ _ _ c t.same)),
      t.clock ∙ cq.ticks ∙ q.ticks,
      ground (arith, t.asks, cq.slice, cq.yield, q.slice, q.yield),
    )
