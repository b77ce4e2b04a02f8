-- ===== src/Kernel/Block.antt =====
-- `sema_down` of src/threads/synch.c and `thread_yield` of src/threads/thread.c.
use native.Mathlib.Decide.{dec_lt}
use project_os.Base.{
  ℕ, ◌+◌, ◌-◌, ◌<◌, ◌≡◌, ◌≢◌, ◌⊎◌, refl, sym, ap, count, ◌∙◌, inl, inr, Bool, true, false, Option,
  none, some, List, [], ◌∷◌, ◌++◌, arith, ◌==◌, if◌then◌else◌, if-true, if-false, count-append,
  update, assert-not, some->>=,
}
use project_os.Kernel.{Kernel, Status, Frame, update, status_of, set_status, points_to}
use project_os.Kernel.Sched.{
  thread_current, thread_block, thread_yield, yielding, schedule, push_frame,
}
use project_os.Kernel.Sync.{sema_down, down_round, waiting, set_sema}
use project_os.Kernel.Invariant.{
  Place, nowhere, queued, waits, count-append, Inv, IsOff, HasNext, Calm,
}
use project_os.Kernel.Keep.{Picks, Turns, schedule-Inv}

pub current-nowhere : (k : Kernel) (place : ℕ → Place) → Inv k place → place k.current ≡ nowhere
current-nowhere k place v = ground (arith, v.filed.fits k.current, v.current_runs)

pub thread_current-some :
    (k : Kernel)
    → (k.threads k.current).is_thread ≡ true
    → status_of k k.current ≡ Status.running
    → thread_current k ≡ some k.current
unfolding thread_current
thread_current-some k real runs = ground arith

requeue-next :
    (idle : Option ℕ) (cur : ℕ) (xs : List ℕ)
    → (if points_to idle cur then xs else xs ++ (cur ∷ [])) ≡ []
    → (i : ℕ) × (idle ≡ some i)
requeue-next none cur [] e = cc
requeue-next none cur (x ∷ xs) e = cc
requeue-next (some i) cur xs e = (i, refl)

pub thread_block-schedule :
    (k : Kernel)
    → k.intr_context ≡ false
    → k.intr_on ≡ false
    → (k.threads k.current).is_thread ≡ true
    → status_of k k.current ≡ Status.running
    → thread_block k ≡ schedule (set_status k k.current Status.blocked)
unfolding thread_block
thread_block-schedule k outside off real runs =
    assert-not k.intr_context _ outside
    ∙ assert-not k.intr_on _ off
    ∙ some->>= _ k.current _ (thread_current-some k real runs)

down_round-block :
    (k : Kernel) (s : ℕ) (old : Bool)
    → (k.threads k.current).is_thread ≡ true
    → status_of k k.current ≡ Status.running
    → (k.semas s).value ≡ 0
    → down_round k s old ≡ thread_block (waiting k s old k.current)
unfolding down_round
down_round-block k s old real runs empty =
    if-true ((k.semas s).value == 0) _ _ (ground arith)
    ∙ some->>= _ k.current _ (thread_current-some k real runs)

-- A positive value has been counted down, and the same thread goes on.
pub record Passes (k : Kernel) (s : ℕ) (k' : Kernel) : Type 0 where
  pub value : (k'.semas s).value + 1 ≡ (k.semas s).value
  pub current : k'.current ≡ k.current
  pub calm : Calm k k'
  pub others : (r : ℕ) → r ≢ s → k'.semas r ≡ k.semas r
  pub sleepers : k'.blocked_list ≡ k.blocked_list
  pub times : (t : ℕ) → (k'.threads t).blocked_ticks ≡ (k.threads t).blocked_ticks

module _ (k : Kernel) (place : ℕ → Place) (v : Inv k place) where
  -- The running thread has gone to the end of the waiters, and is blocked.
  waiting-IsOff :
      (s : ℕ) (old : Bool)
      → points_to k.idle_thread k.current ≡ false
      → IsOff
          (set_status
            (waiting (record k { intr_on = false }) s old k.current)
            k.current
            Status.blocked)
          (update place k.current (waits s))
  unfolding waiting push_frame
  waiting-IsOff s old busy =
      let free = current-nowhere k place v in
      let f = v.filed in
      record {
        filed = record {
          on_ready = λ u. ground (arith, f.on_ready u);
          on_sleep = λ u. ground (arith, f.on_sleep u);
          on_sema = λ r u.
              ground (arith, f.on_sema r u, count-append u (k.semas s).waiters (k.current ∷ []));
          fits = λ u. ground (arith, f.fits u);
          real = λ u. ground (arith, f.real u, v.current_real);
          idle_free = λ u. ground (arith, f.idle_free u);
          idle_real = λ u. ground (arith, f.idle_real u);
        };
        none_runs = λ u. ground (arith, v.one_runs u);
        off = refl;
        alive = ground arith;
      }

  yielding-IsOff :
      IsOff
        (yielding k k.current)
        (update place k.current (if points_to k.idle_thread k.current then nowhere else queued))
  unfolding yielding push_frame
  yielding-IsOff =
      let free = current-nowhere k place v in
      let f = v.filed in
      record {
        filed = record {
          on_ready =
              λ u. ground (arith, f.on_ready u, count-append u k.ready_list (k.current ∷ []));
          on_sleep = λ u. ground (arith, f.on_sleep u);
          on_sema = λ r u. ground (arith, f.on_sema r u);
          fits = λ u. ground (arith, f.fits u);
          real = λ u. ground (arith, f.real u, v.current_real);
          idle_free = λ u. ground (arith, f.idle_free u);
          idle_real = λ u. ground (arith, f.idle_real u);
        };
        none_runs = λ u. ground (arith, v.one_runs u);
        off = refl;
        alive = ground arith;
      }

  yielding-HasNext : HasNext (yielding k k.current)
  unfolding yielding push_frame
  yielding-HasNext = requeue-next k.idle_thread k.current k.ready_list

  -- Where the invariant holds, `thread_yield` of any thread, outside interrupts, does not panic
  -- and keeps the invariant; the next thread is the head of the run queue, to whose end the
  -- yielding thread has gone if it is not the idle thread.
  pub thread_yield-Inv :
      k.intr_context ≡ false
      → (k' : Kernel) × (thread_yield k ≡ some k')
        × ((p : ℕ → Place) × Inv k' p)
        × Turns (yielding k k.current) k'
  unfolding thread_yield
  thread_yield-Inv outside =
      let (k', e, i, t) = schedule-Inv (yielding k k.current) _ yielding-IsOff yielding-HasNext in
      (
        k',
        some->>= _ k.current _ (thread_current-some k v.current_real v.current_runs)
            ∙ assert-not k.intr_context _ outside
            ∙ e,
        i,
        t,
      )

  -- The running thread waits: it stands last among the waiters, and is blocked.
  down-waits :
      (s : ℕ)
      → k.intr_context ≡ false
      → points_to k.idle_thread k.current ≡ false
      → HasNext k
      → (k.semas s).value ≡ 0
      → (k' : Kernel) × (sema_down k s ≡ some k')
        × ((p : ℕ → Place) × Inv k' p)
        × Turns
            (set_status
              (waiting (record k { intr_on = false }) s k.intr_on k.current)
              k.current
              Status.blocked)
            k'
  unfolding sema_down waiting push_frame
  down-waits s outside busy next empty =
      let off = record k { intr_on = false } in
      let (k', e, i, t) =
        schedule-Inv (set_status (waiting off s k.intr_on k.current) k.current Status.blocked) _
          (waiting-IsOff s k.intr_on busy) next in
      (
        k',
        assert-not k.intr_context _ outside
            ∙ down_round-block off s k.intr_on v.current_real v.current_runs empty
            ∙ thread_block-schedule (waiting off s k.intr_on k.current) outside refl v.current_real
                v.current_runs
            ∙ e,
        i,
        t,
      )

  -- The value is positive: it is counted down, and the same thread goes on.
  down-Passes :
      (s : ℕ)
      → k.intr_context ≡ false
      → 0 < (k.semas s).value
      → (k' : Kernel) × (sema_down k s ≡ some k') × Inv k' place × Passes k s k'
  unfolding sema_down down_round
  down-Passes s outside pos =
      let f = v.filed in
      (
        set_sema k s (record (k.semas s) { value = (k.semas s).value - 1 }),
        assert-not k.intr_context _ outside ∙ if-false ((k.semas s).value == 0) _ _ (ground arith),
        record {
          filed = record {
            on_ready = f.on_ready;
            on_sleep = f.on_sleep;
            on_sema = λ r u. ground (arith, f.on_sema r u);
            fits = f.fits;
            real = f.real;
            idle_free = f.idle_free;
            idle_real = f.idle_real;
          };
          current_runs = v.current_runs;
          current_real = v.current_real;
          one_runs = v.one_runs;
        },
        record {
          value = ground arith;
          current = refl;
          calm = record {
            frames = refl;
            locks = refl;
            elems = refl;
            idle = refl;
            level = refl;
            context = refl;
          };
          others = λ r ne. ground arith;
          sleepers = refl;
          times = λ u. refl;
        },
      )

-- What `sema_down` has done to the value, or the switch to another thread.
abbrev pub PassesOrTurns : Kernel → ℕ → Kernel → Type 0
PassesOrTurns k s k' =
    Passes k s k'
    ⊎ (((k.semas s).value ≡ 0)
        × Turns
            (set_status (waiting (record k { intr_on = false }) s k.intr_on k.current) k.current
              Status.blocked)
            k')

pub sema_down-Turns :
    (k : Kernel) (place : ℕ → Place) (s : ℕ)
    → Inv k place
    → k.intr_context ≡ false
    → points_to k.idle_thread k.current ≡ false
    → HasNext k
    → (k' : Kernel) × (sema_down k s ≡ some k')
      × ((p : ℕ → Place) × Inv k' p)
      × PassesOrTurns k s k'
sema_down-Turns k place s v outside busy next = elim (dec_lt 0 (k.semas s).value) [
  | yes pos ↦ let (k', e, w, p) = down-Passes k place v s outside pos in (k', e, (place, w), inl p)
  | no none_left ↦
      let empty : (k.semas s).value ≡ 0 = omega arith in
      let (k', e, w, t) = down-waits k place v s outside busy next empty in
      (k', e, w, inr (empty, t))
]

-- The running thread has become the last waiter of the semaphore and is blocked in the loop of
-- `sema_down`, with interrupts off; another thread runs, and nothing else has changed.
pub record Waits (k : Kernel) (s : ℕ) (k' : Kernel) : Type 0 where
  pub empty : (k.semas s).value ≡ 0
  pub value : (k'.semas s).value ≡ 0
  pub waiters : (k'.semas s).waiters ≡ (k.semas s).waiters ++ (k.current ∷ [])
  pub others : (r : ℕ) → r ≢ s → k'.semas r ≡ k.semas r
  pub away : k'.current ≢ k.current
  pub blocked : status_of k' k.current ≡ Status.blocked
  pub stay : (t : ℕ) → t ≢ k.current → t ≢ k'.current → status_of k' t ≡ status_of k t
  pub picks : Picks k k'
  pub off : k'.intr_on ≡ false
  pub frame : k'.frames k.current ≡ Frame.down s k.intr_on ∷ k.frames k.current
  pub frames : (t : ℕ) → t ≢ k.current → k'.frames t ≡ k.frames t
  pub locks : k'.locks ≡ k.locks
  pub elems : k'.elems ≡ k.elems
  pub sleepers : k'.blocked_list ≡ k.blocked_list
  pub times : (t : ℕ) → (k'.threads t).blocked_ticks ≡ (k.threads t).blocked_ticks

Turns-Waits :
    (k : Kernel) (s : ℕ) (k' : Kernel) (p : ℕ → Place)
    → Inv k' p
    → (k.semas s).value ≡ 0
    → Turns
        (set_status
          (waiting (record k { intr_on = false }) s k.intr_on k.current)
          k.current
          Status.blocked)
        k'
    → Waits k s k'
unfolding waiting push_frame
Turns-Waits k s k' p w e t =
    let last : (k'.semas s).waiters ≡ (k.semas s).waiters ++ (k.current ∷ []) =
      ap (λ g. (g s).waiters) t.semas ∙ ground arith in
    let away : k'.current ≢ k.current = λ same. ground (
      arith,
      w.filed.on_sema s k.current,
      ap (λ l. count k.current l) last,
      count-append k.current (k.semas s).waiters (k.current ∷ []),
      current-nowhere k' p w,
    ) in
    record {
      empty = e;
      value = ap (λ g. (g s).value) t.semas ∙ ground arith;
      waiters = last;
      others = λ r ne. ap (λ g. g r) t.semas ∙ ground arith;
      away = away;
      blocked = t.stay k.current (λ same. away (sym same)) ∙ ground arith;
      stay = λ u here next. t.stay u next ∙ ground arith;
      picks = t.picks;
      off = t.calm.level;
      frame = ap (λ g. g k.current) t.calm.frames ∙ ground arith;
      frames = λ u ne. ap (λ g. g u) t.calm.frames ∙ ground arith;
      locks = t.calm.locks;
      elems = t.calm.elems;
      sleepers = t.sleepers;
      times = λ u. t.times u ∙ ground arith;
    }

-- Where the invariant holds, `sema_down`, by a thread that is not the idle thread and outside
-- interrupts, where there is another thread to run, does not panic and keeps the invariant. A
-- positive value is counted down, and the thread goes on with its interrupt level; at 0 the thread
-- is blocked as the last waiter, and the head of the run queue or the idle thread runs.
pub sema_down-Downs :
    (k : Kernel) (place : ℕ → Place) (s : ℕ)
    → Inv k place
    → k.intr_context ≡ false
    → points_to k.idle_thread k.current ≡ false
    → HasNext k
    → (k' : Kernel) × (sema_down k s ≡ some k')
      × ((p : ℕ → Place) × Inv k' p)
      × (Passes k s k' ⊎ Waits k s k')
sema_down-Downs k place s v outside busy next =
    let (k', e, (p, w), d) = sema_down-Turns k place s v outside busy next in
    (
      k',
      e,
      (p, w),
      elim d [ inl passes ↦ inl passes | inr (empty, t) ↦ inr (Turns-Waits k s k' p w empty t) ],
    )
