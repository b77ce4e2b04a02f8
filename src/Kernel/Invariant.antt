-- ===== src/Kernel/Invariant.antt =====
-- The invariant of the scheduler. The `elem` member of a thread stands in at most one list: the run
-- queue, the sleep queue or the waiters of one semaphore; which one is told by a function `place`.
use project_os.Base.{ℕ, ◌≡◌, ◌≢◌, refl, ◌∙◌, Bool, true, false, some, [], ◌==◌, if◌then◌else◌}
use project_os.Kernel.{Kernel, Status, status_of, points_to}
pub use project_os.Base.{count, count-append}

pub data Place : Type 0 where
  nowhere queued asleep : Place
  waits : (sema : ℕ) → Place

abbrev pub is_queued : Place → ℕ
is_queued queued = 1
is_queued _ = 0

abbrev pub is_asleep : Place → ℕ
is_asleep asleep = 1
is_asleep _ = 0

abbrev pub is_waiting : ℕ → Place → ℕ
is_waiting s (waits r) = if r == s then 1 else 0
is_waiting s _ = 0

-- A thread on the run queue is ready, one on another list is blocked, and one on no list is not
-- ready, unless it is the idle thread.
abbrev pub Fits : Place → Status → (idle : Bool) → Type 0
Fits queued s idle = s ≡ Status.ready
Fits asleep s idle = s ≡ Status.blocked
Fits (waits r) s idle = s ≡ Status.blocked
Fits nowhere s true = Unit
Fits nowhere s false = s ≢ Status.ready

-- The lists are as `place` says, and the statuses fit.
pub record Filed (k : Kernel) (place : ℕ → Place) : Type 0 where
  pub on_ready : (t : ℕ) → count t k.ready_list ≡ is_queued (place t)
  pub on_sleep : (t : ℕ) → count t k.blocked_list ≡ is_asleep (place t)
  pub on_sema : (s t : ℕ) → count t (k.semas s).waiters ≡ is_waiting s (place t)
  pub fits : (t : ℕ) → Fits (place t) (status_of k t) (points_to k.idle_thread t)
  pub real : (t : ℕ) → place t ≢ nowhere → (k.threads t).is_thread ≡ true
  pub idle_free : (t : ℕ) → points_to k.idle_thread t ≡ true → place t ≡ nowhere
  pub idle_real : (t : ℕ) → points_to k.idle_thread t ≡ true → (k.threads t).is_thread ≡ true

-- Between two steps the running thread, and no other, has the status that says so.
pub record Inv (k : Kernel) (place : ℕ → Place) : Type 0 where
  pub filed : Filed k place
  pub current_runs : status_of k k.current ≡ Status.running
  pub current_real : (k.threads k.current).is_thread ≡ true
  pub one_runs : (t : ℕ) → status_of k t ≡ Status.running → t ≡ k.current

-- The state in which `schedule` is called: nothing runs, interrupts are off, and there is a thread
-- to switch to.
pub record IsOff (k : Kernel) (place : ℕ → Place) : Type 0 where
  pub filed : Filed k place
  pub none_runs : (t : ℕ) → status_of k t ≢ Status.running
  pub off : k.intr_on ≡ false
  pub alive : status_of k k.current ≢ Status.dying

-- Some thread can be scheduled.
abbrev pub HasNext : Kernel → Type 0
HasNext k = (k.ready_list ≡ [] → (i : ℕ) × (k.idle_thread ≡ some i))

-- What most operations leave alone: the suspended calls, the holders of the locks, the idle thread,
-- whether interrupts are on and whether one is being handled.
pub record Calm (k k' : Kernel) : Type 0 where
  pub frames : k'.frames ≡ k.frames
  pub locks : k'.locks ≡ k.locks
  pub elems : k'.elems ≡ k.elems
  pub idle : k'.idle_thread ≡ k.idle_thread
  pub level : k'.intr_on ≡ k.intr_on
  pub context : k'.intr_context ≡ k.intr_context

pub Calm-refl : (k : Kernel) → Calm k k
Calm-refl k = record {
  frames = refl;
  locks = refl;
  elems = refl;
  idle = refl;
  level = refl;
  context = refl;
}

pub Calm-trans : (a b c : Kernel) → Calm a b → Calm b c → Calm a c
Calm-trans a b c s t = record {
  frames = t.frames ∙ s.frames;
  locks = t.locks ∙ s.locks;
  elems = t.elems ∙ s.elems;
  idle = t.idle ∙ s.idle;
  level = t.level ∙ s.level;
  context = t.context ∙ s.context;
}
