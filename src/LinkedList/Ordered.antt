-- ===== src/LinkedList/Ordered.antt =====
-- `list_insert_ordered`.
use project_os.Base.{
  ℕ, zero, suc, ◌<◌, ◌≡◌, ◌≢◌, refl, ◌∙◌, ap, inl, inr, Bool, some, List, [], ◌∷◌, ◌++◌, arith,
  ◌==◌, length, if-true, if-false, some->>=, Bool-cases, if◌then◌else◌, count, assert-not,
}
use project_os.LinkedList.{Heap, list_tail, list_begin, place_loop, list_insert_ordered}
use project_os.LinkedList.Links.{IsList}
use project_os.LinkedList.Insert.{first_or, list_insert-IsList}
use project_os.LinkedList.Queue.{begin-first_or}
use project_os.LinkedList.Walk.{Ahead, Ahead-IsList, Ahead-next}

-- The elements before and after the place of `elem`.
abbrev smaller_part : (ℕ → ℕ → Bool) → ℕ → List ℕ → List ℕ
smaller_part less elem [] = []
smaller_part less elem (x ∷ xs) = if less elem x then [] else x ∷ smaller_part less elem xs

abbrev larger_part : (ℕ → ℕ → Bool) → ℕ → List ℕ → List ℕ
larger_part less elem [] = []
larger_part less elem (x ∷ xs) = if less elem x then x ∷ xs else larger_part less elem xs

-- Insertion before the first element that `elem` is less than.
abbrev pub insert_by : (ℕ → ℕ → Bool) → ℕ → List ℕ → List ℕ
insert_by less elem [] = elem ∷ []
insert_by less elem (x ∷ xs) = if less elem x then elem ∷ (x ∷ xs) else x ∷ insert_by less elem xs

module _ (less : ℕ → ℕ → Bool) (elem : ℕ) where
  parts-whole : (xs : List ℕ) → smaller_part less elem xs ++ larger_part less elem xs ≡ xs
  parts-whole [] = refl
  parts-whole (x ∷ xs) = elim (Bool-cases (less elem x)) [
    | inl yes_less ↦ rw yes_less refl
    | inr not_less ↦ rw not_less (ap (λ zs. x ∷ zs) (parts-whole xs))
  ]

  parts-insert_by :
      (xs : List ℕ)
      → smaller_part less elem xs ++ (elem ∷ larger_part less elem xs) ≡ insert_by less elem xs
  parts-insert_by [] = refl
  parts-insert_by (x ∷ xs) = elim (Bool-cases (less elem x)) [
    | inl yes_less ↦ rw yes_less refl
    | inr not_less ↦ rw not_less (ap (λ zs. x ∷ zs) (parts-insert_by xs))
  ]

  place_loop-larger :
      (xs : List ℕ) (fuel : ℕ) (h : Heap) (list : ℕ)
      → Ahead h (list_tail list) xs
      → length xs < fuel
      → place_loop less fuel h list elem (first_or xs (list_tail list))
        ≡ some (first_or (larger_part less elem xs) (list_tail list))
  unfolding place_loop
  place_loop-larger xs zero h list v lt = absurd (omega arith)
  place_loop-larger [] (suc fuel) h list v lt =
      if-true (list_tail list == list_tail list) _ _ (ground arith)
  place_loop-larger (x ∷ xs) (suc fuel) h list v lt =
      let (ne, e, w) = Ahead-next h (list_tail list) x xs v in
      if-false (x == list_tail list) _ _ (ground arith) ∙ elim (Bool-cases (less elem x)) [
        | inl yes_less ↦ rw yes_less refl
        | inr not_less ↦ rw not_less (
            some->>= _ (first_or xs (list_tail list)) _ e
            ∙ place_loop-larger xs fuel h list w (omega arith))
      ]

  -- `list_insert_ordered` of an element that is not in the list ends with more fuel than the list
  -- has elements, and puts the element before the first one that it is less than.
  pub list_insert_ordered-IsList :
      (fuel : ℕ) (h : Heap) (list : ℕ) (xs : List ℕ)
      → IsList h list xs
      → elem ≢ 0
      → count elem (list ∷ xs ++ (list_tail list ∷ [])) ≡ 0
      → length xs < fuel
      → (h' : Heap) × (list_insert_ordered less fuel h list elem ≡ some h')
        × IsList h' list (insert_by less elem xs)
  unfolding list_insert_ordered
  list_insert_ordered-IsList fuel h list xs v ne fresh lt =
      let whole = parts-whole xs in
      let low = smaller_part less elem xs in
      let high = larger_part less elem xs in
      let v' : IsList h list (low ++ high) = rw whole v in
      let fresh' : count elem (list ∷ (low ++ high) ++ (list_tail list ∷ [])) ≡ 0 =
        rw whole fresh in
      let (h', e, w, u) = list_insert-IsList h list low high v' elem fresh' ne in
      let at : place_loop less fuel h list elem (list_begin h list)
          ≡ some (first_or high (list_tail list)) =
        ap (λ b. place_loop less fuel h list elem b)
          (begin-first_or h list xs (list_tail list) v.links)
        ∙ place_loop-larger xs fuel h list (Ahead-IsList h list xs v) lt in
      (
        h',
        assert-not (elem == 0) _ (ground arith)
            ∙ some->>= _ (first_or high (list_tail list)) _ at
            ∙ e,
        rw (← parts-insert_by xs) w,
      )
