-- ===== src/Kernel/Due.antt =====
-- `unblock_thread_with_enough_ticks` of src/threads/thread.c: which sleepers it wakes.
use project_os.Base.{
  ℕ, ◌+◌, ◌≤◌, ◌<◌, ◌≡◌, refl, ◌∙◌, inl, inr, true, some, List, [], ◌∷◌, arith, leb, if◌then◌else◌,
  Bool-cases, if-true, if-false, count, count-append, update, some->>=,
}
use project_os.Kernel.{Kernel, update}
use project_os.Kernel.Timer.{wake_time, check_loop, unblock_thread_with_enough_ticks}
use project_os.Kernel.Invariant.{Place, queued, asleep, count, count-append, Inv, Calm, Calm-refl}
use project_os.Kernel.Wake.{woken, thread_unblock-woken}
use project_os.Kernel.Order.{NotBefore, InOrder, InOrder-same}

NotBefore-count :
    (k : Kernel) (n t : ℕ) (xs : List ℕ) → NotBefore k n xs → 0 < count t xs → n ≤ wake_time k t
NotBefore-count k n t [] a h = elim h [ ]
NotBefore-count k n t (x ∷ xs) (p, a) h = ground (arith, NotBefore-count k n t xs a)

-- Of the sleepers those due at `n` have gone to the run queue, and the others have stayed.
pub record Wakes (k : Kernel) (n : ℕ) (k' : Kernel) : Type 0 where
  pub sleeps_on :
      (t : ℕ)
      → count t k'.blocked_list ≡ (if leb (wake_time k t) n then 0 else count t k.blocked_list)
  pub runs_soon :
      (t : ℕ)
      → count t k'.ready_list
        ≡ count t k.ready_list + (if leb (wake_time k t) n then count t k.blocked_list else 0)
  pub order : InOrder k' k'.blocked_list
  pub same_time : (t : ℕ) → wake_time k' t ≡ wake_time k t
  pub same_current : k'.current ≡ k.current
  pub calm : Calm k k'
  pub semas : k'.semas ≡ k.semas

-- The interrupt's own state is left alone.
pub record Quiet (k k' : Kernel) : Type 0 where
  pub context : k'.intr_context ≡ k.intr_context
  pub slice : k'.thread_ticks ≡ k.thread_ticks
  pub ticks : k'.ticks ≡ k.ticks
  pub yield : k'.yield_on_return ≡ k.yield_on_return

-- The head of the sleep queue has been woken.
abbrev roused : Kernel → ℕ → List ℕ → Kernel
roused k x rest = woken (record k { blocked_list = rest }) x

module _ (k : Kernel) (place : ℕ → Place) (v : Inv k place) (x : ℕ) (rest : List ℕ) where
  sleeper_place : k.blocked_list ≡ x ∷ rest → place x ≡ asleep
  sleeper_place e = ground (arith, v.filed.on_sleep x)

  roused-Inv : k.blocked_list ≡ x ∷ rest → Inv (roused k x rest) (update place x queued)
  roused-Inv e =
      let at = sleeper_place e in
      let f = v.filed in
      record {
        filed = record {
          on_ready = λ u. ground (arith, f.on_ready u, count-append u k.ready_list (x ∷ []));
          on_sleep = λ u. ground (arith, f.on_sleep u);
          on_sema = λ r u. ground (arith, f.on_sema r u);
          fits = λ u. ground (arith, f.fits u, f.idle_free u);
          real = λ u. ground (arith, f.real u);
          idle_free = λ u. ground (arith, f.idle_free u);
          idle_real = λ u. ground (arith, f.idle_real u);
        };
        current_runs = ground (arith, v.current_runs, f.fits x);
        current_real = ground (arith, v.current_real);
        one_runs = λ u. ground (arith, v.one_runs u);
      }

  roused-step :
      (n : ℕ)
      → k.blocked_list ≡ x ∷ rest
      → leb (wake_time k x) n ≡ true
      → check_loop k (x ∷ rest) n ≡ check_loop (roused k x rest) rest n
  unfolding check_loop
  roused-step n e due =
      let at = sleeper_place e in
      if-true (leb (wake_time k x) n) _ _ due
      ∙ some->>= _ (roused k x rest) _ (
          thread_unblock-woken (record k { blocked_list = rest }) x (ground (arith, v.filed.fits x))
            (ground (arith, v.filed.real x)))

check_loop-Wakes :
    (xs : List ℕ) (k : Kernel) (place : ℕ → Place) (n : ℕ)
    → Inv k place
    → k.blocked_list ≡ xs
    → InOrder k xs
    → (k' : Kernel) × (check_loop k xs n ≡ some k')
      × ((p : ℕ → Place) × Inv k' p)
      × Wakes k n k'
      × Quiet k k'
unfolding check_loop
check_loop-Wakes [] k place n v e o = (
  k,
  refl,
  (place, v),
  record {
    sleeps_on = λ t. ground arith;
    runs_soon = λ t. ground arith;
    order = rw e tt;
    same_time = λ t. refl;
    same_current = refl;
    calm = Calm-refl k;
    semas = refl;
  },
  record { context = refl; slice = refl; ticks = refl; yield = refl },
)
check_loop-Wakes (x ∷ rest) k place n v e (p, o) = elim (Bool-cases (leb (wake_time k x) n)) [
  | inl due ↦
      let k1 : Kernel = roused k x rest in
      let same : (t : ℕ) → wake_time k1 t ≡ wake_time k t = λ t. ground arith in
      let (k', e', i, w, q) =
        check_loop-Wakes rest k1 (update place x queued) n (roused-Inv k place v x rest e) refl
          (InOrder-same k k1 same rest o) in
      (
        k',
        roused-step k place v x rest n e due ∙ e',
        i,
        record {
          sleeps_on = λ t. ground (arith, w.sleeps_on t, same t);
          runs_soon =
              λ t. ground (arith, w.runs_soon t, same t, count-append t k.ready_list (x ∷ []));
          order = w.order;
          same_time = λ t. w.same_time t ∙ same t;
          same_current = w.same_current;
          calm = record {
            frames = w.calm.frames;
            locks = w.calm.locks;
            elems = w.calm.elems;
            idle = w.calm.idle;
            level = w.calm.level;
            context = w.calm.context;
          };
          semas = w.semas;
        },
        record { context = q.context; slice = q.slice; ticks = q.ticks; yield = q.yield },
      )
  | inr early ↦ (
    k,
    if-false (leb (wake_time k x) n) _ _ early,
    (place, v),
    record {
      sleeps_on = λ t. ground (arith, NotBefore-count k (wake_time k x) t rest p);
      runs_soon = λ t. ground (arith, NotBefore-count k (wake_time k x) t rest p);
      order = rw e (p, o);
      same_time = λ t. refl;
      same_current = refl;
      calm = Calm-refl k;
      semas = refl;
    },
    record { context = refl; slice = refl; ticks = refl; yield = refl },
  )
]

-- Where the invariant holds and the sleep queue is in order, `unblock_thread_with_enough_ticks`
-- does not panic: every sleeper whose time is at most `n` goes to the run queue, every other one
-- sleeps on, and the invariant and the order are kept.
pub unblock_thread_with_enough_ticks-Wakes :
    (k : Kernel) (place : ℕ → Place) (n : ℕ)
    → Inv k place
    → InOrder k k.blocked_list
    → (k' : Kernel) × (unblock_thread_with_enough_ticks k n ≡ some k')
      × ((p : ℕ → Place) × Inv k' p)
      × Wakes k n k'
      × Quiet k k'
unfolding unblock_thread_with_enough_ticks
unblock_thread_with_enough_ticks-Wakes k place n v o =
    check_loop-Wakes k.blocked_list k place n v refl o
