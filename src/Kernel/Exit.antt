-- ===== src/Kernel/Exit.antt =====
-- The end of `thread_exit` of src/threads/thread.c, after `process_exit`, and the scheduler's invariant.
use project_os.Base.{
  remove_elem, count, count-remove_elem, ltb, none, false, ◌-◌, ◌<◌, ℕ, ◌≡◌, ◌≢◌, refl, sym, ◌∙◌,
  ap, inl, inr, true, false, not, Option, some, List, [], ◌∷◌, arith, ◌==◌, if◌then◌else◌, if-false,
  Bool-cases, assert, assert-true, assert-not, some->>=, ◌>>◌,
}
use project_os.Kernel.{Kernel, Status, update, status_of, set_status, is_running, points_to}
use project_os.Kernel.Sched.{
  finish_exit, schedule, switch_to, thread_schedule_tail, must_free, free_thread,
  next_thread_to_run, next_of,
}
use project_os.Kernel.Invariant.{Place, nowhere, Filed, Inv, HasNext}
use project_os.Kernel.Keep.{Picks, switched, switched-Inv, head-Chosen, idle-Chosen}
use project_os.Kernel.Block.{current-nowhere, thread_current-some}

-- The state after the switch away from a dying thread, whose page is freed unless it is the initial
-- thread's.
abbrev reaped : Kernel → (cur next : ℕ) → Kernel
reaped k cur next =
    if must_free (switched k next) cur then free_thread (switched k next) cur else switched k next

switch_to-reaped :
    (k : Kernel) (next : ℕ)
    → (k.threads next).is_thread ≡ true
    → next ≢ k.current
    → k.intr_on ≡ false
    → switch_to k k.current (some next) ≡ some (reaped k k.current next)
unfolding switch_to thread_schedule_tail
switch_to-reaped k next real other off =
    assert-true ((k.threads next).is_thread) _ real
    ∙ if-false (k.current == next) _ _ (ground arith)
    ∙ assert-not k.intr_on _ off
    ∙ elim (Bool-cases (must_free (switched k next) k.current)) [
      | inl goes ↦ rw goes (assert-not (k.current == next) _ (ground arith))
      | inr stays ↦ rw stays refl
    ]

reaped_all : (k : Kernel) (cur next : ℕ) → (reaped k cur next).all_list ≡ k.all_list
unfolding free_thread must_free
reaped_all k cur next = ground arith

reaped-Inv :
    (k : Kernel) (place : ℕ → Place) (cur next : ℕ)
    → Inv (switched k next) place
    → place cur ≡ nowhere
    → points_to k.idle_thread cur ≡ false
    → next ≢ cur
    → Inv (reaped k cur next) place
unfolding free_thread must_free
reaped-Inv k place cur next v free busy other =
    let f = v.filed in
    record {
      filed = record {
        on_ready = λ u. ground (arith, f.on_ready u);
        on_sleep = λ u. ground (arith, f.on_sleep u);
        on_sema = λ r u. ground (arith, f.on_sema r u);
        fits = λ u. ground (arith, f.fits u);
        real = λ u. ground (arith, f.real u);
        idle_free = λ u. ground (arith, f.idle_free u);
        idle_real = λ u. ground (arith, f.idle_real u);
      };
      current_runs = ground (arith, v.current_runs);
      current_real = ground (arith, v.current_real);
      one_runs = λ u. ground (arith, v.one_runs u);
    }

-- What `schedule` does with the thread that has been chosen.
abbrev go_on : Kernel → Option ℕ × Kernel → Option Kernel
go_on k (next, k') =
    assert (not k'.intr_on)
    >> (assert (not (is_running (status_of k' k.current))) >> switch_to k' k.current next)

-- The state in which `thread_exit` calls `schedule`.
abbrev pub exiting : Kernel → Kernel
exiting k = record (set_status k k.current Status.dying) {
  intr_on = false;
  all_list = remove_elem k.current k.all_list;
}

-- The thread that ran is off the list of all threads, and its page is freed unless it is
-- the initial thread's.
abbrev pub Reaps : Kernel → Kernel → Type 0
Reaps k k' =
    ((k'.threads k.current).is_thread ≡ (k.current == k.initial_thread))
    × (k'.all_list ≡ remove_elem k.current k.all_list)
    × ((t : ℕ)
        → count t k'.all_list
          ≡ (if t == k.current then count t k.all_list - 1 else count t k.all_list))

module _ (k : Kernel) (place : ℕ → Place) (v : Inv k place)
    (busy : points_to k.idle_thread k.current ≡ false) where
  exiting-Filed : Filed (exiting k) place
  exiting-Filed =
      let free = current-nowhere k place v in
      let f = v.filed in
      record {
        on_ready = f.on_ready;
        on_sleep = f.on_sleep;
        on_sema = f.on_sema;
        fits = λ u. ground (arith, f.fits u);
        real = λ u. ground (arith, f.real u);
        idle_free = f.idle_free;
        idle_real = λ u. ground (arith, f.idle_real u);
      }

  exiting_still : (u : ℕ) → status_of (exiting k) u ≢ Status.running
  exiting_still u = ground (arith, v.one_runs u)

  schedule-reaped :
      (xs : List ℕ) (next : ℕ) (k' : Kernel)
      → k.ready_list ≡ xs
      → next_of xs (exiting k) ≡ (some next, k')
      → (k'.threads next).is_thread ≡ true
      → next ≢ k.current
      → k'.current ≡ k.current
      → k'.intr_on ≡ false
      → status_of k' k.current ≡ Status.dying
      → schedule (exiting k) ≡ some (reaped k' k.current next)
  unfolding schedule next_thread_to_run
  schedule-reaped xs next k' e n real other cur off dead =
      ap (λ zs. go_on (exiting k) (next_of zs (exiting k))) e
      ∙ ap (go_on (exiting k)) n
      ∙ assert-not k'.intr_on _ off
      ∙ assert-not (is_running (status_of k' k.current)) _ (ap is_running dead)
      ∙ ap (λ c. switch_to k' c (some next)) (sym cur)
      ∙ switch_to-reaped k' next real (λ q. other (q ∙ cur)) off
      ∙ ap (λ c. some (reaped k' c next)) cur

  exit_of :
      (xs : List ℕ)
      → k.ready_list ≡ xs
      → HasNext k
      → (k' : Kernel) × (schedule (exiting k) ≡ some k')
        × ((p : ℕ → Place) × Inv k' p)
        × Picks k k'
        × Reaps k k'
  unfolding next_of free_thread must_free
  exit_of [] e h =
      let (i, idle) = h e in
      let c = idle-Chosen (exiting k) place exiting-Filed i idle in
      let other : i ≢ k.current = λ q. ground arith in
      let w = switched-Inv (exiting k) place i c exiting_still in
      (
        reaped (exiting k) k.current i,
        schedule-reaped [] i (exiting k) e (ap (λ o. (o, exiting k)) idle) c.next_real other refl
            refl (ground arith),
        (place, reaped-Inv (exiting k) place k.current i w (current-nowhere k place v) busy other),
        (ground arith, ground arith),
        (
          ground (arith, v.current_real),
          reaped_all (exiting k) k.current i,
          λ u.
              ap (count u) (reaped_all (exiting k) k.current i)
              ∙ count-remove_elem u k.current k.all_list,
        ),
      )
  exit_of (t ∷ rest) e h =
      let d : Kernel = record (exiting k) { ready_list = rest } in
      let c = head-Chosen (exiting k) place exiting-Filed t rest e in
      let free = current-nowhere k place v in
      let other : t ≢ k.current = λ q. ground (arith, v.filed.on_ready t) in
      let w = switched-Inv d (update place t nowhere) t c exiting_still in
      (
        reaped d k.current t,
        schedule-reaped (t ∷ rest) t d e refl c.next_real other refl refl (ground arith),
        (
          update place t nowhere,
          reaped-Inv d (update place t nowhere) k.current t w (ground arith) busy other,
        ),
        (ground arith, ground arith),
        (
          ground (arith, v.current_real),
          reaped_all d k.current t,
          λ u. ap (count u) (reaped_all d k.current t) ∙ count-remove_elem u k.current k.all_list,
        ),
      )

  -- Where the invariant holds, and with another thread to run, what `thread_exit` does once
  -- `process_exit` has returned, by a thread that is not the idle thread, panics if the thread is not
  -- on the list of all threads. If it is there it does not panic: the head of the run queue or else
  -- the idle thread runs, and the invariant holds. The thread that has exited is off the list of all
  -- threads, and its page is freed unless it is the initial thread.
  pub finish_exit-Inv :
      HasNext k
      → (0 < count k.current k.all_list
          → (k' : Kernel) × (finish_exit k ≡ some k')
            × ((p : ℕ → Place) × Inv k' p)
            × Picks k k'
            × Reaps k k')
        × (count k.current k.all_list ≡ 0 → finish_exit k ≡ none)
  unfolding finish_exit
  finish_exit-Inv next =
      let cur = thread_current-some k v.current_real v.current_runs in
      (
        (λ listed.
            let (k', e, i, t, r) = exit_of k.ready_list refl next in
            (
              k',
              some->>= _ k.current _ cur
                  ∙ assert-true (ltb 0 (count k.current k.all_list)) _ (ground arith)
                  ∙ e,
              i,
              t,
              r,
            )),
        (λ unlisted.
            let fails : ltb 0 (count k.current k.all_list) ≡ false = ground arith in
            some->>= _ k.current _ cur ∙ rw fails refl),
      )
