-- ===== src/Kernel/Locks.antt =====
-- `lock_acquire` and `lock_release` of src/threads/synch.c.
use project_os.Base.{
  ℕ, ◌≡◌, ◌∙◌, ap, inl, inr, Bool, true, false, Option, none, some, arith, Bool-cases, assert-true,
  none->>=, some->>=, refl, update,
}
use project_os.LinkedList.{is_interior, unlink, list_remove}
use project_os.Kernel.{Kernel, points_to}
use project_os.Kernel.Sync.{lock_held_by_current_thread, lock_release, disown}
use project_os.Kernel.Invariant.{Place, Inv}
use project_os.Kernel.Wake.{Ups, sema_up-Ups}
use project_os.Kernel.Block.{thread_current-some}

-- The lock has left the list that its element is linked into, and has no holder.
abbrev pub given_up : Kernel → ℕ → Kernel
given_up k l = record k {
  locks = update k.locks l (record (k.locks l) { holder = none });
  elems = unlink k.elems (k.locks l).lock_elem;
}

-- Whether the element of the lock has two neighbours, as `list_remove` asserts.
abbrev pub linked : Kernel → ℕ → Bool
linked k l = is_interior k.elems (k.locks l).lock_elem

disown-given_up : (k : Kernel) (l : ℕ) → linked k l ≡ true → disown k l ≡ some (given_up k l)
unfolding disown list_remove
disown-given_up k l e = some->>= _ _ _ (assert-true (linked k l) _ e)

disown-none : (k : Kernel) (l : ℕ) → linked k l ≡ false → disown k l ≡ none
unfolding disown list_remove
disown-none k l e = rw e refl

given_up-Inv : (k : Kernel) (place : ℕ → Place) (l : ℕ) → Inv k place → Inv (given_up k l) place
given_up-Inv k place l v =
    let f = v.filed in
    record {
      filed = record {
        on_ready = f.on_ready;
        on_sleep = f.on_sleep;
        on_sema = f.on_sema;
        fits = f.fits;
        real = f.real;
        idle_free = f.idle_free;
        idle_real = f.idle_real;
      };
      current_runs = v.current_runs;
      current_real = v.current_real;
      one_runs = v.one_runs;
    }

pub held-points_to :
    (k : Kernel) (place : ℕ → Place) (l : ℕ)
    → Inv k place
    → lock_held_by_current_thread k l ≡ some (points_to (k.locks l).holder k.current)
unfolding lock_held_by_current_thread
held-points_to k place l v =
    some->>= _ k.current _ (thread_current-some k v.current_real v.current_runs)

-- What a release must do, by whether the running thread holds the lock and whether the element of
-- the lock is linked.
abbrev pub Releases : (held is_linked : Bool) → Kernel → ℕ → Option Kernel → Type 0
Releases false is_linked k l r = r ≡ none
Releases true false k l r = r ≡ none
Releases true true k l r =
    (k' : Kernel) × (r ≡ some k')
    × ((p : ℕ → Place) × Inv k' p)
    × ((k'.locks l).holder ≡ none)
    × (k'.elems ≡ unlink k.elems (k.locks l).lock_elem)
    × Ups (given_up k l) (k.locks l).semaphore k'

-- Where the invariant holds, `lock_release` panics if the running thread does not hold the lock, or
-- if the lock's element is not linked. Else the element is taken out from between its neighbours, the
-- lock has no holder any more, its semaphore is counted up, the thread that has waited longest is made
-- ready, and the invariant is kept.
pub lock_release-Releases :
    (k : Kernel) (place : ℕ → Place) (l : ℕ)
    → Inv k place
    → Releases (points_to (k.locks l).holder k.current) (linked k l) k l (lock_release k l)
unfolding lock_release
lock_release-Releases k place l v =
    let held = held-points_to k place l v in
    let (k', e, i, u) =
      sema_up-Ups (given_up k l) place (k.locks l).semaphore (given_up-Inv k place l v) in
    elim (Bool-cases (points_to (k.locks l).holder k.current)) [
      | inl own ↦ elim (Bool-cases (linked k l)) [
        | inl on ↦
            rw (own, on)
              (
                k',
                some->>= _ true _ (held ∙ ap some own)
                    ∙ some->>= (disown k l) _ _ (disown-given_up k l on)
                    ∙ e,
                i,
                ap (λ g. (g l).holder) u.calm.locks ∙ ground arith,
                u.calm.elems,
                u,
              )
        | inr off ↦
            rw (own, off)
              (some->>= _ true _ (held ∙ ap some own)
                ∙ none->>= (disown k l) _ (disown-none k l off))
      ]
      | inr other ↦ rw other (some->>= _ false _ (held ∙ ap some other))
    ]
