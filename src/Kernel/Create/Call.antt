-- ===== src/Kernel/Create/Call.antt =====
-- `thread_create` up to where it has taken the lock of `allocate_tid`, and the whole of it.
use mathlib.Core.Path.{subst}
use project_os.Base.{
  ℕ, ◌+◌, ◌≤◌, ◌≡◌, ◌≢◌, refl, ◌∙◌, ap, true, Option, none, some, List, [], ◌∷◌, ◌++◌, arith, take,
  ◌==◌, leb, le→leb, assert-true, assert-not, some->>=, ◌>>=◌,
}
use project_os.LinkedList.{
  Heap, list_init, list_push_back, list_insert, list_tail, is_tail, is_interior, link,
}
use project_os.Kernel.{Kernel, Status, update, status_of, points_to}
use project_os.Kernel.Sched.{
  thread_current, init_thread, new_thread, parent_of, pri_max, push_frame,
}
use project_os.Kernel.Sync.{continue_frame, pop_frame}
use project_os.Kernel.Invariant.{Place, Inv}
use project_os.Kernel.Wake.{first_of}
use project_os.Kernel.Block.{thread_current-some}
use project_os.Kernel.Locks.{linked}
use project_os.Kernel.Acquire.{owning, lock_acquire-owning}
use project_os.Kernel.Create.{begin_create, finish_create, IsFresh, IsOpen}
use project_os.Kernel.Create.Finish.{finish_create-Inv}

push-link :
    (h : Heap) (list elem : ℕ)
    → is_tail h (list_tail list) ≡ true
    → elem ≢ 0
    → list_push_back h list elem ≡ some (link h (list_tail list) elem)
unfolding list_push_back list_insert
push-link h list elem end real = ground arith

link-is_interior :
    (h : Heap) (before elem : ℕ)
    → is_tail h before ≡ true
    → elem ≢ 0
    → is_interior (link h before elem) elem ≡ true
link-is_interior h before elem end real = ground arith

list_init-is_tail :
    (h : Heap) (list e : ℕ)
    → is_tail h e ≡ true
    → e ≢ list
    → e ≢ list_tail list
    → is_tail (list_init h list) e ≡ true
unfolding list_init
list_init-is_tail h list e end a b = ground arith

-- What holds where `lock_acquire` has returned.
record Owned (k : Kernel) (t l : ℕ) (k2 : Kernel) : Type 0 where
  ready : k2.ready_list ≡ k.ready_list
  all : k2.all_list ≡ k.all_list ++ (t ∷ [])
  tid : k2.next_tid ≡ k.next_tid
  current : k2.current ≡ k.current
  blocked : status_of k2 t ≡ Status.blocked
  real : (k2.threads t).is_thread ≡ true
  idle : k2.idle_thread ≡ k.idle_thread
  waiters : (s : ℕ) → (k2.semas s).waiters ≡ (k.semas s).waiters
  sem : (k2.locks l).semaphore ≡ (k.locks l).semaphore
  holds : points_to (k2.locks l).holder k2.current ≡ true
  on_list : linked k2 l ≡ true

module _ (k : Kernel) (place : ℕ → Place) (v : Inv k place) where
  parent_of-some : (p : Option ℕ) × (parent_of k ≡ some p)
  unfolding parent_of
  parent_of-some = elim_list k.all_list
    where
      elim_list :
          (ts : List ℕ)
          → (p : Option ℕ) × ((elim ts [
            | [] ↦ some none
            | t ∷ rest ↦ (thread_current k >>= λ cur. some (some cur))
          ])
              ≡ some p)
      elim_list [] = (none, refl)
      elim_list (t ∷ rest) = (
        some k.current,
        some->>= _ k.current _ (thread_current-some k v.current_real v.current_runs),
      )

  module _ (t : ℕ) (name : List ℕ) (priority : ℕ) (fresh : IsFresh k place t) where
    -- The state when the new thread is set up.
    abbrev created : Option ℕ → Kernel
    created p = record k {
      threads = update k.threads t (new_thread (take 15 name) priority (k.threads t).locks p);
      elems = list_init k.elems (k.threads t).locks;
      all_list = k.all_list ++ (t ∷ []);
    }

    created-Inv : (p : Option ℕ) → Inv (created p) place
    created-Inv p =
        let f = v.filed in
        let free = fresh.free in
        let other = fresh.other in
        record {
          filed = record {
            on_ready = f.on_ready;
            on_sleep = f.on_sleep;
            on_sema = f.on_sema;
            fits = λ u. ground (arith, f.fits u, fresh.busy);
            real = λ u. ground (arith, f.real u);
            idle_free = f.idle_free;
            idle_real = λ u. ground (arith, f.idle_real u);
          };
          current_runs = ground (arith, v.current_runs);
          current_real = ground (arith, v.current_real);
          one_runs = λ u. ground (arith, v.one_runs u);
        }

    module _ (l : ℕ) (o : IsOpen k l t) where
      -- The end of the running thread's list of locks.
      abbrev end_of : Option ℕ → ℕ
      end_of p = list_tail ((created p).threads k.current).locks

      end_of-is_tail : (p : Option ℕ) → is_tail (created p).elems (end_of p) ≡ true
      end_of-is_tail p =
          let other = fresh.other in
          let same : (k.threads k.current).locks ≡ ((created p).threads k.current).locks =
            ground arith in
          subst (λ ls. is_tail (created p).elems (list_tail ls) ≡ true) same
            (list_init-is_tail k.elems (k.threads t).locks (list_tail (k.threads k.current).locks)
              o.end o.apart_head o.apart_tail)

      abbrev owned : Option ℕ → Kernel
      owned p = owning (created p) (link (created p).elems (end_of p) (k.locks l).lock_elem) l

      owned-Owned : (p : Option ℕ) → Owned k t l (owned p)
      unfolding push_frame pop_frame
      owned-Owned p =
          let other = fresh.other in
          let same : ((owned p).locks l).lock_elem ≡ (k.locks l).lock_elem = ground arith in
          record {
            ready = refl;
            all = refl;
            tid = refl;
            current = refl;
            blocked = ground arith;
            real = ground arith;
            idle = refl;
            waiters = λ s. ground arith;
            sem = ground arith;
            holds = ground arith;
            on_list =
                ap (λ e. is_interior (link (created p).elems (end_of p) (k.locks l).lock_elem) e)
                  same
                ∙ link-is_interior (created p).elems (end_of p) (k.locks l).lock_elem
                    (end_of-is_tail p) o.elem;
          }

      begin_create-Owned :
          priority ≤ pri_max
          → (k2 : Kernel) × ((begin_create k l t name priority >>= continue_frame) ≡ some k2)
            × Inv k2 place
            × Owned k t l k2
      unfolding begin_create init_thread
      begin_create-Owned low =
          let (p, e) = parent_of-some in
          let init : init_thread k t name priority ≡ some (created p) =
            assert-not (t == 0) _ (ground (arith, fresh.real))
            ∙ assert-true (leb priority pri_max) _ (le→leb _ _ low)
            ∙ some->>= _ p _ e in
          let (a, w) =
            lock_acquire-owning (created p) place l
              (link (created p).elems (end_of p) (k.locks l).lock_elem) (created-Inv p) o.outside
              o.unheld o.free
              (push-link (created p).elems ((created p).threads k.current).locks
                (k.locks l).lock_elem (end_of-is_tail p) o.elem) in
          (
            owned p,
            ap (λ r. r >>= continue_frame) (some->>= _ (created p) _ init) ∙ a,
            w,
            owned-Owned p,
          )

      -- Where the invariant holds, outside interrupts, where the lock of `allocate_tid` is free, its
      -- element is not null, and the end of the running thread's list of locks is a tail apart from the
      -- list of the new thread, `thread_create` with a fresh page and a priority in range does not
      -- panic and does not wait: it returns the next thread identifier, makes the thread that has
      -- waited longest for the lock ready, if one waits, and after it the new thread, which is put at
      -- the end of the list of all threads. The lock is given back, the same thread goes on, and the
      -- invariant is kept.
      pub thread_create-Inv :
          priority ≤ pri_max
          → (k' : Kernel) × (((begin_create k l t name priority >>= continue_frame) >>= λ k2.
                finish_create k2 l t)
              ≡ some (k.next_tid, k'))
            × ((p : ℕ → Place) × Inv k' p)
            × (k'.ready_list
                ≡ (k.ready_list ++ first_of (k.semas (k.locks l).semaphore).waiters) ++ (t ∷ []))
            × (k'.all_list ≡ k.all_list ++ (t ∷ []))
            × ((k'.threads t).tid ≡ k.next_tid)
            × (k'.next_tid ≡ k.next_tid + 1)
            × (k'.current ≡ k.current)
            × ((k'.locks l).holder ≡ none)
      thread_create-Inv low =
          let (k2, e, w, q) = begin_create-Owned low in
          let (k', f, i, ready, all, tid, next, cur, h) =
            finish_create-Inv k2 place w t l fresh.free q.blocked q.real
              (ap (λ i. points_to i t) q.idle ∙ fresh.busy) q.holds q.on_list in
          let waiters : (k2.semas (k2.locks l).semaphore).waiters
              ≡ (k.semas (k.locks l).semaphore).waiters =
            ap (λ s. (k2.semas s).waiters) q.sem ∙ q.waiters (k.locks l).semaphore in
          (
            k',
            some->>= _ k2 _ e ∙ f ∙ ap (λ n. some (n, k')) q.tid,
            i,
            ready ∙ rw (q.ready, waiters) refl,
            all ∙ q.all,
            tid ∙ q.tid,
            next ∙ ap (λ n. n + 1) q.tid,
            cur ∙ q.current,
            h,
          )
