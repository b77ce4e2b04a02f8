-- ===== src/LinkedList/Remove.antt =====
-- `list_remove` of src/lib/kernel/list.c.
use mathlib.Core.List.{append_assoc}
use mathlib.Core.Path.{subst}
use project_os.Base.{
  ℕ, ◌+◌, ◌≤◌, ◌<◌, ◌≡◌, ◌≢◌, sym, ◌∙◌, ap, some, List, [], ◌∷◌, ◌++◌, arith, ◌==◌, if◌then◌else◌,
  count, count-append,
}
use project_os.LinkedList.{Heap, list_tail, unlink, list_remove}
use project_os.LinkedList.Links.{Links, IsList, Links-frame, prev-count, next-link}
use project_os.LinkedList.Insert.{first_or, rest_or, ended-cons, Untouched}

Links-unlink :
    (h : Heap) (a : ℕ) (us : List ℕ) (e b : ℕ) (ws : List ℕ)
    → ((u : ℕ) → count u (a ∷ us ++ (e ∷ (b ∷ ws))) ≤ 1)
    → Links h a (us ++ (e ∷ (b ∷ ws)))
    → Links (unlink h e) a (us ++ (b ∷ ws))
Links-unlink h a [] e b ws d (n1, p1, (n2, p2, l)) = (
  ground (arith, d a),
  ground (arith, d a),
  Links-frame h (unlink h e) b ws (λ u k. ground (arith, d u)) (λ u k. ground (arith, d u)) l,
)
Links-unlink h a (u ∷ us) e b ws d (n1, p1, l) =
    let within = prev-count h u us e (b ∷ ws) l in
    let after = next-link h u us e b ws l in
    (
      ground (arith, d a, count-append (h.prev e) us (e ∷ (b ∷ ws))),
      ground (arith, d u, count-append u us (e ∷ (b ∷ ws))),
      Links-unlink h u us e b ws (λ v. ground (arith, d v)) l,
    )

module _ (h : Heap) (list : ℕ) (xs : List ℕ) (e : ℕ) (ys : List ℕ)
    (v : IsList h list (xs ++ (e ∷ ys))) where
  abbrev after : ℕ
  after = first_or ys (list_tail list)

  abbrev rest : List ℕ
  rest = rest_or ys (list_tail list)

  shown : (xs ++ (e ∷ ys)) ++ (list_tail list ∷ []) ≡ xs ++ (e ∷ (after ∷ rest))
  shown = append_assoc xs (e ∷ ys) _ ∙ ap (λ zs. xs ++ (e ∷ zs)) (ended-cons ys (list_tail list))

  left : (xs ++ ys) ++ (list_tail list ∷ []) ≡ xs ++ (after ∷ rest)
  left = append_assoc xs ys _ ∙ ap (λ zs. xs ++ zs) (ended-cons ys (list_tail list))

  linked : Links h list (xs ++ (e ∷ (after ∷ rest)))
  linked = rw shown at v.links

  distinct_shown : (u : ℕ) → count u (list ∷ xs ++ (e ∷ (after ∷ rest))) ≤ 1
  distinct_shown u = rw shown at (v.distinct u)

  count-left :
      (u : ℕ)
      → count u ((xs ++ (e ∷ ys)) ++ (list_tail list ∷ []))
        ≡ count u ((xs ++ ys) ++ (list_tail list ∷ [])) + (if e == u then 1 else 0)
  count-left u = ground (
    arith,
    count-append u (xs ++ (e ∷ ys)) (list_tail list ∷ []),
    count-append u (xs ++ ys) (list_tail list ∷ []),
    count-append u xs (e ∷ ys),
    count-append u xs ys,
  )

  after-next : h.next e ≡ after
  after-next = next-link h list xs e after rest linked

  -- The neighbours of the element are no null pointers, and it is not the tail.
  before_real : (h.prev e ≢ 0) × (after ≢ 0) × (e ≢ 0)
  before_real =
      let within = prev-count h list xs e (after ∷ rest) linked in
      let real : count 0 (list ∷ xs ++ (e ∷ (after ∷ rest))) ≡ 0 = rw shown at v.real in
      let sum = count-append 0 xs (e ∷ (after ∷ rest)) in
      (
        (λ p.
            let inside : 0 < count 0 (list ∷ xs) = subst (λ q. 0 < count q (list ∷ xs)) p within in
            ground arith),
        (λ p. ground arith),
        λ p. ground arith,
      )

  ends : (list_tail list ≢ h.prev e) × (list ≢ after)
  ends =
      let within = prev-count h list xs e (after ∷ rest) linked in
      (
        (λ p.
            let inside : 0 < count (list_tail list) (list ∷ xs) =
              subst (λ q. 0 < count q (list ∷ xs)) (sym p) within in
            ground (
              arith,
              v.distinct (list_tail list),
              count-append (list_tail list) (xs ++ (e ∷ ys)) (list_tail list ∷ []),
              count-append (list_tail list) xs (e ∷ ys),
            )),
        λ p. ground (arith, distinct_shown list, count-append list xs (e ∷ (after ∷ rest))),
      )

  unlink-IsList : IsList (unlink h e) list (xs ++ ys)
  unlink-IsList =
      let (s, t) = ends in
      let n = after-next in
      record {
        links = rw left (Links-unlink h list xs e after rest distinct_shown linked);
        front = ground (arith, v.front);
        back = ground (arith, v.back);
        distinct = λ u. ground (arith, v.distinct u, count-left u);
        real = ground (arith, v.real, count-left 0);
      }

  -- `list_remove` of an element of a list takes it out, returns the element that followed, or the
  -- tail, and leaves the links of all elements outside alone.
  pub list_remove-IsList :
      (h' : Heap) × (list_remove h e ≡ some (first_or ys (list_tail list), h'))
      × IsList h' list (xs ++ ys)
      × Untouched h h' (list ∷ (xs ++ (e ∷ ys)) ++ (list_tail list ∷ []))
  unfolding list_remove
  list_remove-IsList =
      let (p, q, r) = before_real in
      let n = after-next in
      (
        unlink h e,
        ground arith,
        unlink-IsList,
        λ u c. let (s, t) = outside u c in (ground arith, ground arith),
      )
    where
      outside :
          (u : ℕ)
          → count u (list ∷ (xs ++ (e ∷ ys)) ++ (list_tail list ∷ [])) ≡ 0
          → (u ≢ after) × (u ≢ h.prev e)
      outside u c =
          let within = prev-count h list xs e (after ∷ rest) linked in
          let c' : count u (list ∷ xs ++ (e ∷ (after ∷ rest))) ≡ 0 = rw shown at c in
          let sum = count-append u xs (e ∷ (after ∷ rest)) in
          (
            (λ p. ground arith),
            λ p.
                let inside : 0 < count u (list ∷ xs) =
                  subst (λ q. 0 < count q (list ∷ xs)) (sym p) within in
                ground arith,
          )
