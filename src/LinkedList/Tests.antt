-- ===== src/LinkedList/Tests.antt =====
-- A heap with the list 100, 200 at 10 and an empty list at 30, and runs of the functions on it.
use project_os.Base.{
  ℕ, ◌≡◌, refl, none, some, List, [], ◌∷◌, ◌++◌, arith, ◌==◌, if◌then◌else◌, ltb, ◌>>=◌,
}
use project_os.LinkedList.{
  Heap, list_next, list_prev, list_insert, list_push_back, list_remove, list_back, list_pop_back,
  list_size, list_max, list_min, list_splice,
}
use project_os.LinkedList.Links.{IsList}
use project_os.LinkedList.Insert.{first_or, Untouched, list_insert-IsList}
use project_os.LinkedList.Remove.{list_remove-IsList}
use project_os.LinkedList.Shared.{list_push_back_shared}

abbrev sample : Heap
sample = record {
  prev = λ e.
      if e == 100
      then 10
      else if e == 200
      then 100
      else if e == 18
      then 200
      else if e == 38
      then 30
      else 0;
  next = λ e.
      if e == 10
      then 100
      else if e == 100
      then 200
      else if e == 200
      then 18
      else if e == 30
      then 38
      else 0;
}

abbrev elements : List ℕ
elements = 100 ∷ (200 ∷ [])

sample-IsList : IsList sample 10 (100 ∷ (200 ∷ []))
sample-IsList = record {
  links = (refl, refl, (refl, refl, (refl, refl, tt)));
  front = refl;
  back = refl;
  distinct = λ u. ground arith;
  real = refl;
}

empty-IsList : IsList sample 30 []
empty-IsList = record {
  links = (refl, refl, tt);
  front = refl;
  back = refl;
  distinct = λ u. ground arith;
  real = refl;
}

-- Ends, sizes, extremes, and the range 100 moved to the other list.
list_runs :
    ((list_pop_back sample 10 >>= λ r. some (r.0)) ≡ some 200)
    × (list_pop_back sample 30 ≡ none)
    × (list_max ltb 9 sample 10 ≡ some 200)
    × (list_min ltb 9 sample 10 ≡ some 100)
    × (list_max ltb 9 sample 30 ≡ some 38)
    × (list_prev sample 18 ≡ some 200)
    × ((list_splice sample 38 100 200 >>= λ h. list_size 9 h 30) ≡ some 1)
unfolding list_pop_back list_back list_remove list_max list_min list_prev list_splice list_size
    list_next
list_runs = (refl, refl, refl, refl, refl, refl, refl)

list_insert-IsList_example :
    (h' : Heap) × (list_insert sample (first_or (200 ∷ []) 18) 300 ≡ some h')
    × IsList h' 10 ((100 ∷ []) ++ (300 ∷ (200 ∷ [])))
    × Untouched sample h' (300 ∷ (10 ∷ ((100 ∷ []) ++ (200 ∷ [])) ++ (18 ∷ [])))
list_insert-IsList_example =
    list_insert-IsList sample 10 (100 ∷ []) (200 ∷ []) sample-IsList 300 refl
      (λ e. absurd (omega arith))

list_remove-IsList_example :
    (h' : Heap) × (list_remove sample 100 ≡ some (first_or (200 ∷ []) 18, h'))
    × IsList h' 10 (200 ∷ [])
    × Untouched sample h' (10 ∷ ((100 ∷ (200 ∷ [])) ++ (18 ∷ [])))
list_remove-IsList_example = list_remove-IsList sample 10 [] 100 (200 ∷ []) sample-IsList

list_push_back_shared_example :
    (h' : Heap) × (list_push_back sample 30 100 ≡ some h')
    × ¬ IsList h' 10 ([] ++ (100 ∷ (200 ∷ [])))
list_push_back_shared_example =
    list_push_back_shared sample 30 10 100 [] (200 ∷ []) [] sample-IsList empty-IsList
      (λ u. ground arith)
