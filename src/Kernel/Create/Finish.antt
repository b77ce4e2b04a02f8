-- ===== src/Kernel/Create/Finish.antt =====
-- The end of `thread_create`, from where the lock of `allocate_tid` has been taken.
use mathlib.Core.Path.{subst}
use project_os.Base.{
  ℕ, ◌+◌, ◌≡◌, refl, sym, ◌∙◌, ap, true, false, none, some, List, [], ◌∷◌, ◌++◌, arith, count,
  count-append, Bool-cases, inl, inr, ◌==◌, some->>=,
}
use project_os.Kernel.{Kernel, Status, update, status_of, points_to}
use project_os.Kernel.Sync.{lock_release}
use project_os.Kernel.Invariant.{
  Place, nowhere, queued, asleep, waits, is_queued, is_asleep, is_waiting, Inv,
}
use project_os.Kernel.Wake.{Ups, first_of, woken, woken-Inv, thread_unblock-woken}
use project_os.Kernel.Keep.{rest_of}
use project_os.Kernel.Locks.{Releases, given_up, linked, lock_release-Releases}
use project_os.Kernel.Create.{assign_tid, finish_create}

unlisted :
    (p : Place) → is_queued p ≡ 0 → is_asleep p ≡ 0 → ((r : ℕ) → is_waiting r p ≡ 0) → p ≡ nowhere
unlisted nowhere a b c = refl
unlisted queued a b c = absurd (omega arith)
unlisted asleep a b c = absurd (omega arith)
unlisted (waits r) a b c = absurd (ground (arith, c r))

count-first_of : (t : ℕ) (ws : List ℕ) → count t ws ≡ 0 → count t (first_of ws) ≡ 0
count-first_of t [] e = refl
count-first_of t (w ∷ ws) e = ground arith

count-rest_of : (t : ℕ) (ws : List ℕ) → count t ws ≡ 0 → count t (rest_of ws) ≡ 0
count-rest_of t [] e = refl
count-rest_of t (w ∷ ws) e = ground arith

-- A state `k` in which the running thread holds the lock `l`, and `t` is a thread that is in no list.
module _ (k : Kernel) (place : ℕ → Place) (v : Inv k place) (t l : ℕ) (free : place t ≡ nowhere)
    (blocked : status_of k t ≡ Status.blocked) (real : (k.threads t).is_thread ≡ true)
    (busy : points_to k.idle_thread t ≡ false)
    (holds : points_to (k.locks l).holder k.current ≡ true) (on_list : linked k l ≡ true) where
  abbrev counted_tid : Kernel
  counted_tid = record k { next_tid = k.next_tid + 1 }

  counted_tid-Inv : Inv counted_tid place
  counted_tid-Inv =
      let f = v.filed in
      record {
        filed = record {
          on_ready = f.on_ready;
          on_sleep = f.on_sleep;
          on_sema = f.on_sema;
          fits = f.fits;
          real = f.real;
          idle_free = f.idle_free;
          idle_real = f.idle_real;
        };
        current_runs = v.current_runs;
        current_real = v.current_real;
        one_runs = v.one_runs;
      }

  assign_tid-Inv : (k' : Kernel) (p : ℕ → Place) (tid : ℕ) → Inv k' p → Inv (assign_tid k' t tid) p
  assign_tid-Inv k' p tid w =
      let f = w.filed in
      record {
        filed = record {
          on_ready = f.on_ready;
          on_sleep = f.on_sleep;
          on_sema = f.on_sema;
          fits = λ u. ground (arith, f.fits u);
          real = λ u. ground (arith, f.real u);
          idle_free = f.idle_free;
          idle_real = λ u. ground (arith, f.idle_real u);
        };
        current_runs = ground (arith, w.current_runs);
        current_real = ground (arith, w.current_real);
        one_runs = λ u. ground (arith, w.one_runs u);
      }

  abbrev sem : ℕ
  sem = (k.locks l).semaphore

  abbrev waiting_there : List ℕ
  waiting_there = (k.semas sem).waiters

  none_waits : (r : ℕ) → count t (k.semas r).waiters ≡ 0
  none_waits r = v.filed.on_sema r t ∙ ap (is_waiting r) free

  still_nowhere :
      (k' : Kernel) (p : ℕ → Place) → Inv k' p → Ups (given_up counted_tid l) sem k' → p t ≡ nowhere
  still_nowhere k' p w u =
      unlisted (p t)
        (sym (w.filed.on_ready t)
          ∙ ap (count t) u.ready
          ∙ ground (
            arith,
            count-append t k.ready_list (first_of waiting_there),
            count-first_of t waiting_there (none_waits sem),
            v.filed.on_ready t,
          ))
        (sym (w.filed.on_sleep t)
          ∙ ap (count t) u.sleepers
          ∙ v.filed.on_sleep t
          ∙ ap is_asleep free)
        (λ r. sym (w.filed.on_sema r t) ∙ (elim (Bool-cases (r == sem)) [
          | inl here ↦
              let at : r ≡ sem = ground arith in
              ap (λ q. count t (k'.semas q).waiters) at
              ∙ ap (count t) u.waiters
              ∙ count-rest_of t waiting_there (none_waits sem)
          | inr away ↦ ap (λ q. count t q.waiters) (u.others r (λ e. ground arith)) ∙ none_waits r
        ]))

  pub finish_create-Inv :
      (k' : Kernel) × (finish_create k l t ≡ some (k.next_tid, k'))
      × ((p : ℕ → Place) × Inv k' p)
      × (k'.ready_list ≡ (k.ready_list ++ first_of waiting_there) ++ (t ∷ []))
      × (k'.all_list ≡ k.all_list)
      × ((k'.threads t).tid ≡ k.next_tid)
      × (k'.next_tid ≡ k.next_tid + 1)
      × (k'.current ≡ k.current)
      × ((k'.locks l).holder ≡ none)
  unfolding finish_create
  finish_create-Inv =
      let (k4, e, (p, w), h, links, u) =
        subst (λ b. Releases b true counted_tid l (lock_release counted_tid l)) holds
          (subst
            (λ b.
              Releases (points_to (k.locks l).holder k.current) b counted_tid l
                (lock_release counted_tid l))
            on_list (lock_release-Releases counted_tid place l counted_tid-Inv)) in
      let k5 = assign_tid k4 t k.next_tid in
      let same : status_of k4 t ≡ Status.blocked =
        ground (arith, u.statuses t, count-first_of t waiting_there (none_waits sem), blocked) in
      let blocked5 : status_of k5 t ≡ Status.blocked = ground (arith, same) in
      let real5 : (k5.threads t).is_thread ≡ true = ground (arith, u.real t, real) in
      let idle5 : points_to k5.idle_thread t ≡ false = ap (λ i. points_to i t) u.calm.idle ∙ busy in
      (
        woken k5 t,
        some->>= (lock_release counted_tid l) _ _ e
            ∙ some->>= _ _ _ (thread_unblock-woken k5 t blocked5 real5),
        (
          update p t queued,
          woken-Inv k5 p t (assign_tid-Inv k4 p k.next_tid w) (still_nowhere k4 p w u) blocked5
              real5 idle5,
        ),
        ap (λ r. r ++ (t ∷ [])) u.ready,
        u.all,
        ground arith,
        u.tid,
        u.current,
        h,
      )
