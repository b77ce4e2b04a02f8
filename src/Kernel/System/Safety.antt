-- ===== src/Kernel/System/Safety.antt =====
-- What holds of every state that the system reaches.
use project_os.Base.{ℕ, ◌≡◌, true, ◌||◌, some, arith}
use project_os.Kernel.{Kernel, points_to}
use project_os.Kernel.System.{sem_of, claims, Sys, Action, run, IsAllowed, Reach}
use project_os.Kernel.System.Wakes.{up-Sys, tick-Sys, release-Sys}
use project_os.Kernel.System.Leaves.{yield-Sys, sleep-Sys}
use project_os.Kernel.System.Resume.{same-Sys, acquire-Sys, down-Sys}
use project_os.Kernel.System.Continue.{resume-Sys}

-- An allowed step, if it does not panic, leads from a state of the system to one.
run-Sys :
    (a : Action) (k : Kernel) → Sys k → IsAllowed k a → (k' : Kernel) → run a k ≡ some k' → Sys k'
unfolding run
run-Sys (Action.acquire l) k s (rest, busy) k' e = acquire-Sys k s l rest busy k' e
run-Sys (Action.release l) k s (rest, held) k' e = release-Sys k s l rest held k' e
run-Sys (Action.up r) k s (rest, free) k' e =
    let (m, f, w) = up-Sys k s r free in same-Sys m k' f e w
run-Sys (Action.down r) k s (rest, busy, free) k' e =
    let (m, f, w) = down-Sys k s r rest busy free in same-Sys m k' f e w
run-Sys (Action.sleep n) k s (rest, busy, on) k' e =
    let (m, f, w) = sleep-Sys k s n busy rest on in same-Sys m k' f e w
run-Sys Action.resume k s ok k' e = let (m, f, w) = resume-Sys k s in same-Sys m k' f e w
run-Sys Action.yield k s ok k' e = let (m, f, w) = yield-Sys k s ok in same-Sys m k' f e w
run-Sys Action.tick k s on k' e = let (m, f, w) = tick-Sys k s in same-Sys m k' f e w

-- Every state that is reached from a state of the system is one.
pub Reach-Sys : {k k' : Kernel} → Sys k → Reach k k' → Sys k'
Reach-Sys s Reach.here = s
Reach-Sys s (Reach.next {k = m} {k' = n} a r ok e) = run-Sys a m (Reach-Sys s r) ok n e

-- In every state that the system reaches, by calls of the threads, of which `timer_sleep` is one
-- step, preemption and timer interrupts in any allowed order, at most one thread is in the section that a lock guards: the holder of the
-- lock, or a thread that has taken its semaphore and has still to set the holder. While there is
-- one, the semaphore of the lock is 0.
pub lock_exclusion :
    (k k' : Kernel) (l t u : ℕ)
    → Sys k
    → Reach k k'
    → (points_to (k'.locks l).holder t || claims l (k'.frames t)) ≡ true
    → (points_to (k'.locks l).holder u || claims l (k'.frames u)) ≡ true
    → (t ≡ u) × ((k'.semas (sem_of k' l)).value ≡ 0)
lock_exclusion k k' l t u s r a b =
    let x = (Reach-Sys s r).excl in (x.one l t u a b, ground (arith, x.free l t, x.low l))
