-- ===== src/Kernel/Queue.antt =====
-- The sleep queue on the heap of links.
use mathlib.Core.Path.{subst}
use project_os.Base.{
  ℕ, ◌<◌, ◌≡◌, ◌≢◌, refl, ap, inl, inr, some, List, [], ◌∷◌, ◌++◌, count, length, Bool-cases,
}
use project_os.LinkedList.{Heap, list_tail, list_insert_ordered}
use project_os.LinkedList.Links.{IsList}
use project_os.LinkedList.Ordered.{insert_by, list_insert_ordered-IsList}
use project_os.Kernel.{Kernel}
use project_os.Kernel.Timer.{compare_thread, insert_ordered}

insert_ordered-insert_by :
    (k : Kernel) (t : ℕ) (xs : List ℕ) → insert_by (compare_thread k) t xs ≡ insert_ordered k t xs
unfolding insert_ordered
insert_ordered-insert_by k t [] = refl
insert_ordered-insert_by k t (x ∷ xs) = elim (Bool-cases (compare_thread k t x)) [
  | inl less ↦ rw less refl
  | inr more ↦ rw more (ap (λ zs. x ∷ zs) (insert_ordered-insert_by k t xs))
]

-- On a heap whose list at `list` holds the threads of the sleep queue, each by the address of its
-- `elem`, `list_insert_ordered` by `compare_thread` makes it hold what the scheduler's model of the
-- insertion says, if the thread is not on the list and the fuel exceeds its length.
pub list_insert_ordered-insert_ordered :
    (k : Kernel) (t fuel : ℕ) (h : Heap) (list : ℕ) (xs : List ℕ)
    → IsList h list xs
    → t ≢ 0
    → count t (list ∷ xs ++ (list_tail list ∷ [])) ≡ 0
    → length xs < fuel
    → (h' : Heap) × (list_insert_ordered (compare_thread k) fuel h list t ≡ some h')
      × IsList h' list (insert_ordered k t xs)
list_insert_ordered-insert_ordered k t fuel h list xs v ne fresh lt =
    let (h', e, w) = list_insert_ordered-IsList (compare_thread k) t fuel h list xs v ne fresh lt in
    (h', e, subst (λ zs. IsList h' list zs) (insert_ordered-insert_by k t xs) w)
