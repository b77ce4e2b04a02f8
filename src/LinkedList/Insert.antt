-- ===== src/LinkedList/Insert.antt =====
-- `list_insert` of src/lib/kernel/list.c.
use mathlib.Core.List.{append_assoc}
use mathlib.Core.Path.{subst}
use project_os.Base.{
  ℕ, ◌+◌, ◌≤◌, ◌<◌, ◌≡◌, ◌≢◌, refl, sym, ◌∙◌, ap, some, List, [], ◌∷◌, ◌++◌, arith, ◌==◌,
  if◌then◌else◌, count, count-append,
}
use project_os.LinkedList.{Heap, list_tail, link, list_insert}
use project_os.LinkedList.Links.{Links, IsList, Links-frame, prev-count}

Links-link :
    (h : Heap) (a : ℕ) (us : List ℕ) (b : ℕ) (ws : List ℕ) (elem : ℕ)
    → ((u : ℕ) → count u (a ∷ us ++ (b ∷ ws)) ≤ 1)
    → count elem (a ∷ us ++ (b ∷ ws)) ≡ 0
    → Links h a (us ++ (b ∷ ws))
    → Links (link h b elem) a (us ++ (elem ∷ (b ∷ ws)))
Links-link h a [] b ws elem d c (e, f, l) = (
  ground arith,
  ground (arith, d a),
  (
    ground arith,
    ground arith,
    Links-frame h (link h b elem) b ws (λ u k. ground (arith, d u)) (λ u k. ground (arith, d u)) l,
  ),
)
Links-link h a (u ∷ us) b ws elem d c (e, f, l) =
    let within = prev-count h u us b ws l in
    (
      ground (arith, d a, count-append (h.prev b) us (b ∷ ws)),
      ground (arith, d u, count-append u us (b ∷ ws)),
      Links-link h u us b ws elem (λ v. ground (arith, d v)) (ground arith) l,
    )

-- The element that `list_insert` is given: the first of the elements after the gap, or the tail.
abbrev pub first_or : List ℕ → ℕ → ℕ
first_or [] e = e
first_or (y ∷ ys) e = y

abbrev pub ended : List ℕ → ℕ → List ℕ
ended ys e = ys ++ (e ∷ [])

-- What follows the gap, as an element and a list.
pub rest_or : List ℕ → ℕ → List ℕ
rest_or [] e = []
rest_or (y ∷ ys) e = ended ys e

pub ended-cons : (ys : List ℕ) (e : ℕ) → ended ys e ≡ first_or ys e ∷ rest_or ys e
unfolding rest_or
ended-cons [] e = refl
ended-cons (y ∷ ys) e = refl

-- What an operation on a list leaves alone: the links of other elements.
abbrev pub Untouched : Heap → Heap → List ℕ → Type 0
Untouched h h' zs = (u : ℕ) → count u zs ≡ 0 → (h'.next u ≡ h.next u) × (h'.prev u ≡ h.prev u)

module _ (h : Heap) (list : ℕ) (xs ys : List ℕ) (v : IsList h list (xs ++ ys)) where
  abbrev gap : ℕ
  gap = first_or ys (list_tail list)

  -- The list with the gap shown.
  split : (xs ++ ys) ++ (list_tail list ∷ []) ≡ xs ++ (gap ∷ rest_or ys (list_tail list))
  split = append_assoc xs ys _ ∙ ap (λ zs. xs ++ zs) (ended-cons ys (list_tail list))

  gap-linked : Links h list (xs ++ (gap ∷ rest_or ys (list_tail list)))
  gap-linked = rw split at v.links

  gap-distinct : (u : ℕ) → count u (list ∷ xs ++ (gap ∷ rest_or ys (list_tail list))) ≤ 1
  gap-distinct u = rw split at (v.distinct u)

  -- The element after the gap has a predecessor.
  gap-real : (h.prev gap ≢ 0) × (gap ≢ 0) × (gap ≢ list)
  gap-real =
      let within = prev-count h list xs gap (rest_or ys (list_tail list)) gap-linked in
      let none_null = rw split at v.real in
      (
        (λ e. ground (arith, none_null, count-append 0 xs (gap ∷ rest_or ys (list_tail list)))),
        (λ e. ground (arith, none_null, count-append 0 xs (gap ∷ rest_or ys (list_tail list)))),
        λ e.
            ground
              (arith, gap-distinct list, count-append list xs (gap ∷ rest_or ys (list_tail list))),
      )

  tail-after : list_tail list ≢ h.prev gap
  tail-after e =
      let within = prev-count h list xs gap (rest_or ys (list_tail list)) gap-linked in
      let inside : 0 < count (list_tail list) (list ∷ xs) =
        subst (λ q. 0 < count q (list ∷ xs)) (sym e) within in
      ground (
        arith,
        v.distinct (list_tail list),
        count-append (list_tail list) (xs ++ ys) (list_tail list ∷ []),
        count-append (list_tail list) xs ys,
      )

  -- Neither end of the gap is outside the list.
  outside :
      (u : ℕ)
      → count u (list ∷ (xs ++ ys) ++ (list_tail list ∷ [])) ≡ 0
      → (u ≢ gap) × (u ≢ h.prev gap)
  outside u c =
      let within = prev-count h list xs gap (rest_or ys (list_tail list)) gap-linked in
      let c' = rw split at c in
      (
        (λ e. ground (arith, count-append u xs (gap ∷ rest_or ys (list_tail list)))),
        λ e.
            let inside : 0 < count u (list ∷ xs) =
              subst (λ q. 0 < count q (list ∷ xs)) (sym e) within in
            ground (arith, count-append u xs (gap ∷ rest_or ys (list_tail list))),
      )

  module _ (elem : ℕ) (fresh : count elem (list ∷ (xs ++ ys) ++ (list_tail list ∷ [])) ≡ 0) where
    fresh_gap : count elem (list ∷ xs ++ (gap ∷ rest_or ys (list_tail list))) ≡ 0
    fresh_gap = rw split at fresh

    count-linked :
        (u : ℕ)
        → count u ((xs ++ (elem ∷ ys)) ++ (list_tail list ∷ []))
          ≡ count u ((xs ++ ys) ++ (list_tail list ∷ [])) + (if elem == u then 1 else 0)
    count-linked u = ground (
      arith,
      count-append u (xs ++ (elem ∷ ys)) (list_tail list ∷ []),
      count-append u (xs ++ ys) (list_tail list ∷ []),
      count-append u xs (elem ∷ ys),
      count-append u xs ys,
    )

    after-split :
        (xs ++ (elem ∷ ys)) ++ (list_tail list ∷ [])
        ≡ xs ++ (elem ∷ (gap ∷ rest_or ys (list_tail list)))
    after-split =
        append_assoc xs (elem ∷ ys) _
        ∙ ap (λ zs. xs ++ (elem ∷ zs)) (ended-cons ys (list_tail list))

    link-IsList : elem ≢ 0 → IsList (link h gap elem) list (xs ++ (elem ∷ ys))
    link-IsList ne =
        let within = prev-count h list xs gap (rest_or ys (list_tail list)) gap-linked in
        let (p, q, r) = gap-real in
        record {
          links = rw after-split (
              Links-link h list xs gap (rest_or ys (list_tail list)) elem gap-distinct fresh_gap
                gap-linked);
          front = ground (arith, v.front);
          back =
              ground
                (arith, v.back, tail-after, count-append elem (xs ++ ys) (list_tail list ∷ []));
          distinct = λ u. ground (arith, v.distinct u, count-linked u);
          real = ground (arith, v.real, count-linked 0);
        }

    -- In a list, `list_insert` before an element of it, or before its tail, of an element that is not
    -- in the list puts that element there, and leaves the links of all elements outside alone.
    pub list_insert-IsList :
        elem ≢ 0
        → (h' : Heap) × (list_insert h (first_or ys (list_tail list)) elem ≡ some h')
          × IsList h' list (xs ++ (elem ∷ ys))
          × Untouched h h' (elem ∷ (list ∷ (xs ++ ys) ++ (list_tail list ∷ [])))
    unfolding list_insert
    list_insert-IsList ne =
        let within = prev-count h list xs gap (rest_or ys (list_tail list)) gap-linked in
        let (p, q, r) = gap-real in
        (
          link h gap elem,
          ground arith,
          link-IsList ne,
          λ u c. let (s, t) = outside u (ground arith) in (ground arith, ground arith),
        )
