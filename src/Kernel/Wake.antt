-- ===== src/Kernel/Wake.antt =====
-- `thread_unblock` of src/threads/thread.c and `sema_up` of src/threads/synch.c.
use mathlib.Core.List.{append-nil}
use project_os.Base.{
  ℕ, ◌%◌, ◌^◌, ◌+◌, ◌≡◌, ◌≢◌, refl, sym, ◌∙◌, ap, true, false, some, List, [], ◌∷◌, ◌++◌, arith,
  ◌==◌, if◌then◌else◌, count, count-append, update, ◌>>=◌,
}
use project_os.Kernel.{Kernel, Status, update, status_of, set_status, points_to}
use project_os.Kernel.Sched.{thread_unblock}
use project_os.Kernel.Sync.{sema_up, wake_first, count_up, set_sema}
use project_os.Kernel.Invariant.{Place, nowhere, queued, waits, count, count-append, Inv, Calm}
use project_os.Kernel.Keep.{rest_of}

abbrev pub first_of : List ℕ → List ℕ
first_of [] = []
first_of (t ∷ rest) = t ∷ []

-- `t` has become ready, at the end of the run queue.
abbrev pub woken : Kernel → ℕ → Kernel
woken k t = record (set_status k t Status.ready) { ready_list = k.ready_list ++ (t ∷ []) }

pub woken-Inv :
    (k : Kernel) (place : ℕ → Place) (t : ℕ)
    → Inv k place
    → place t ≡ nowhere
    → status_of k t ≡ Status.blocked
    → (k.threads t).is_thread ≡ true
    → points_to k.idle_thread t ≡ false
    → Inv (woken k t) (update place t queued)
woken-Inv k place t v free blocked real busy =
    let f = v.filed in
    record {
      filed = record {
        on_ready = λ u. ground (arith, f.on_ready u, count-append u k.ready_list (t ∷ []));
        on_sleep = λ u. ground (arith, f.on_sleep u);
        on_sema = λ s u. ground (arith, f.on_sema s u);
        fits = λ u. ground (arith, f.fits u);
        real = λ u. ground (arith, f.real u);
        idle_free = λ u. ground (arith, f.idle_free u);
        idle_real = λ u. ground (arith, f.idle_real u);
      };
      current_runs = ground (arith, v.current_runs);
      current_real = ground (arith, v.current_real);
      one_runs = λ u. ground (arith, v.one_runs u);
    }

pub thread_unblock-woken :
    (k : Kernel) (t : ℕ)
    → status_of k t ≡ Status.blocked
    → (k.threads t).is_thread ≡ true
    → thread_unblock k t ≡ some (woken k t)
unfolding thread_unblock
thread_unblock-woken k t blocked real = ground arith

-- The first waiter of a semaphore is a blocked thread, not the idle thread, and waits nowhere else.
module _ (k : Kernel) (place : ℕ → Place) (v : Inv k place) (s t : ℕ) (rest : List ℕ) where
  waiter_place : (k.semas s).waiters ≡ t ∷ rest → place t ≡ waits s
  waiter_place e = ground (arith, v.filed.on_sema s t)

  unlisted-Inv :
      (k.semas s).waiters ≡ t ∷ rest
      → Inv (woken (set_sema k s (record (k.semas s) { waiters = rest })) t) (update place t queued)
  unlisted-Inv e =
      let at = waiter_place e in
      let f = v.filed in
      record {
        filed = record {
          on_ready = λ u. ground (arith, f.on_ready u, count-append u k.ready_list (t ∷ []));
          on_sleep = λ u. ground (arith, f.on_sleep u);
          on_sema = λ r u. ground (arith, f.on_sema r u);
          fits = λ u. ground (arith, f.fits u, f.idle_free u);
          real = λ u. ground (arith, f.real u);
          idle_free = λ u. ground (arith, f.idle_free u);
          idle_real = λ u. ground (arith, f.idle_real u);
        };
        current_runs = ground (arith, v.current_runs, f.fits t);
        current_real = ground (arith, v.current_real);
        one_runs = λ u. ground (arith, v.one_runs u);
      }

-- What `sema_up` does to the semaphore, the run queue and the thread that has waited longest.
pub record Ups (k : Kernel) (s : ℕ) (k' : Kernel) : Type 0 where
  pub value : (k'.semas s).value ≡ ((k.semas s).value + 1) % 2 ^ 32
  pub waiters : (k'.semas s).waiters ≡ rest_of (k.semas s).waiters
  pub ready : k'.ready_list ≡ k.ready_list ++ first_of (k.semas s).waiters
  pub statuses :
      (t : ℕ)
      → status_of k' t
        ≡ (if count t (first_of (k.semas s).waiters) == 0 then status_of k t else Status.ready)
  pub current : k'.current ≡ k.current
  pub real : (t : ℕ) → (k'.threads t).is_thread ≡ (k.threads t).is_thread
  pub all : k'.all_list ≡ k.all_list
  pub tid : k'.next_tid ≡ k.next_tid
  pub calm : Calm k k'
  pub others : (r : ℕ) → r ≢ s → k'.semas r ≡ k.semas r
  pub sleepers : k'.blocked_list ≡ k.blocked_list
  pub times : (t : ℕ) → (k'.threads t).blocked_ticks ≡ (k.threads t).blocked_ticks

count_up-Inv : (k : Kernel) (place : ℕ → Place) (s : ℕ) → Inv k place → Inv (count_up k s) place
unfolding count_up
count_up-Inv k place s v =
    let f = v.filed in
    record {
      filed = record {
        on_ready = f.on_ready;
        on_sleep = f.on_sleep;
        on_sema = λ r u. ground (arith, f.on_sema r u);
        fits = f.fits;
        real = f.real;
        idle_free = f.idle_free;
        idle_real = f.idle_real;
      };
      current_runs = v.current_runs;
      current_real = v.current_real;
      one_runs = v.one_runs;
    }

no_more : {xs ys ws : List ℕ} → ws ≡ [] → ys ≡ xs → ys ≡ xs ++ first_of ws
no_more {xs = xs} e h = h ∙ sym (append-nil xs) ∙ sym (ap (λ ws. xs ++ first_of ws) e)

sema_up_of :
    (k : Kernel) (place : ℕ → Place) (s : ℕ) (ws : List ℕ)
    → Inv k place
    → (k.semas s).waiters ≡ ws
    → (k' : Kernel) × (sema_up k s ≡ some k') × ((p : ℕ → Place) × Inv k' p) × Ups k s k'
unfolding sema_up wake_first
sema_up_of k place s [] v e = (
  count_up k s,
  ap (λ ws. wake_first k s ws >>= λ k'. some (count_up k' s)) e,
  (place, count_up-Inv k place s v),
  unfold count_up in
      record {
        value = ground arith;
        waiters = ground arith;
        ready = no_more e refl;
        statuses = λ u. ground arith;
        current = refl;
        real = λ u. ground arith;
        all = refl;
        tid = refl;
        calm = record {
          frames = refl;
          locks = refl;
          elems = refl;
          idle = refl;
          level = refl;
          context = refl;
        };
        others = λ r ne. ground arith;
        sleepers = refl;
        times = λ u. ground arith;
      },
)
sema_up_of k place s (t ∷ rest) v e =
    let at = waiter_place k place v s t rest e in
    let mid = woken (set_sema k s (record (k.semas s) { waiters = rest })) t in
    (
      count_up mid s,
      ap (λ ws. wake_first k s ws >>= λ k'. some (count_up k' s)) e
          ∙ ap (λ o. o >>= λ k'. some (count_up k' s))
              (thread_unblock-woken _ t (ground (arith, v.filed.fits t))
                (ground (arith, v.filed.real t))),
      (update place t queued, count_up-Inv mid _ s (unlisted-Inv k place v s t rest e)),
      unfold count_up in
          record {
            value = ground arith;
            waiters = ground arith;
            ready = ground arith;
            statuses = λ u. ground arith;
            current = refl;
            real = λ u. ground arith;
            all = refl;
            tid = refl;
            calm = record {
              frames = refl;
              locks = refl;
              elems = refl;
              idle = refl;
              level = refl;
              context = refl;
            };
            others = λ r ne. ground arith;
            sleepers = refl;
            times = λ u. ground arith;
          },
    )

-- Where the invariant holds, `sema_up` does not panic: it adds one to
-- the value, which wraps at 2 ^ 32, makes the thread
-- that has waited longest ready at the end of the run queue, if one waits, and goes on with the
-- same thread.
pub sema_up-Ups :
    (k : Kernel) (place : ℕ → Place) (s : ℕ)
    → Inv k place
    → (k' : Kernel) × (sema_up k s ≡ some k') × ((p : ℕ → Place) × Inv k' p) × Ups k s k'
sema_up-Ups k place s v = sema_up_of k place s (k.semas s).waiters v refl
