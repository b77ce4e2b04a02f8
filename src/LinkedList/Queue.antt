-- ===== src/LinkedList/Queue.antt =====
-- Lists as queues: `list_init`, and the operations at the two ends.
use mathlib.Core.List.{append-nil}
use project_os.Base.{
  ℕ, ◌≡◌, ◌≢◌, ◌∙◌, ap, not, Option, none, some, List, [], ◌∷◌, ◌++◌, arith, ◌==◌, some->>=, count,
  count-append, assert-true,
}
use project_os.LinkedList.{
  Heap, list_tail, list_init, list_push_back, list_push_front, list_front, list_insert,
  list_pop_front,
}
use project_os.LinkedList.Links.{Links, IsList}
use project_os.LinkedList.Insert.{first_or, list_insert-IsList}
use project_os.LinkedList.Remove.{list_remove-IsList}

-- `list_init` of a list that does not start at a null pointer makes it an empty list.
pub list_init-IsList : (h : Heap) (list : ℕ) → list ≢ 0 → IsList (list_init h list) list []
unfolding list_init
list_init-IsList h list ne = record {
  links = (ground arith, ground arith, tt);
  front = ground arith;
  back = ground arith;
  distinct = λ u. ground arith;
  real = ground arith;
}

-- The first element of a list is where it begins.
pub begin-first_or :
    (h : Heap) (a : ℕ) (xs : List ℕ) (t : ℕ) → Links h a (xs ++ (t ∷ [])) → h.next a ≡ first_or xs t
begin-first_or h a [] t l = l.0
begin-first_or h a (x ∷ xs) t l = l.0

module _ (h : Heap) (list elem : ℕ) (xs : List ℕ) (v : IsList h list xs) (ne : elem ≢ 0)
    (fresh : count elem (list ∷ xs ++ (list_tail list ∷ [])) ≡ 0) where
  -- `list_push_front` of an element that is not in the list puts it first.
  pub list_push_front-IsList :
      (h' : Heap) × (list_push_front h list elem ≡ some h') × IsList h' list (elem ∷ xs)
  unfolding list_push_front
  list_push_front-IsList =
      let (h', e, w, u) = list_insert-IsList h list [] xs v elem fresh ne in
      (
        h',
        ap (λ b. list_insert h b elem) (begin-first_or h list xs (list_tail list) v.links) ∙ e,
        w,
      )

  -- `list_push_back` of an element that is not in the list puts it last.
  pub list_push_back-IsList :
      (h' : Heap) × (list_push_back h list elem ≡ some h') × IsList h' list (xs ++ (elem ∷ []))
  unfolding list_push_back
  list_push_back-IsList =
      let same = append-nil xs in
      let v' : IsList h list (xs ++ []) = rw same v in
      let fresh' : count elem (list ∷ (xs ++ []) ++ (list_tail list ∷ [])) ≡ 0 = rw same fresh in
      let (h', e, w, u) = list_insert-IsList h list xs [] v' elem fresh' ne in (h', e, w)

-- What taking the first of the elements from a list must do.
abbrev pub PopsFront : Heap → (list : ℕ) → List ℕ → Option (ℕ × Heap) → Type 0
PopsFront h list [] r = r ≡ none
PopsFront h list (x ∷ xs) r = (h' : Heap) × (r ≡ some (x, h')) × IsList h' list xs

-- `list_pop_front` takes the first element off the list and returns it; its assertion fails if the
-- list is empty.
pub list_pop_front-PopsFront :
    (h : Heap) (list : ℕ) (xs : List ℕ)
    → IsList h list xs
    → PopsFront h list xs (list_pop_front h list)
unfolding list_pop_front list_front
list_pop_front-PopsFront h list [] v = let start = v.links.0 in ground arith
list_pop_front-PopsFront h list (x ∷ xs) v =
    let (h', e, w, u) = list_remove-IsList h list [] x xs v in
    let start = v.links.0 in
    let apart : x ≢ list_tail list = λ p. ground (
      arith,
      v.distinct (list_tail list),
      count-append (list_tail list) xs (list_tail list ∷ []),
    ) in
    let front : list_front h list ≡ some x =
      assert-true (not (h.next list == list_tail list)) _ (ground arith) ∙ ap some start in
    (h', some->>= _ x _ front ∙ some->>= _ (first_or xs (list_tail list), h') _ e, w)
