-- ===== src/LinkedList/Shared.antt =====
-- An element that is put on a second list while it is still on the first.
use mathlib.Core.List.{append_assoc}
use mathlib.Core.Path.{subst}
use project_os.Base.{
  ℕ, ◌+◌, ◌≤◌, ◌<◌, ◌≡◌, ◌≢◌, some, List, [], ◌∷◌, ◌++◌, arith, count, count-append,
}
use project_os.LinkedList.{Heap, list_tail, list_push_back, list_insert, link}
use project_os.LinkedList.Links.{IsList, prev-count}

-- `list_push_back` of an element of another list, where the two lists have no element in common,
-- does not panic, and the other list is not the list that it was any more.
pub list_push_back_shared :
    (h : Heap) (list other elem : ℕ) (xs ys zs : List ℕ)
    → IsList h other (xs ++ (elem ∷ ys))
    → IsList h list zs
    → ((u : ℕ)
        → count u (other ∷ (xs ++ (elem ∷ ys)) ++ (list_tail other ∷ []))
            + count u (list ∷ zs ++ (list_tail list ∷ []))
          ≤ 1)
    → (h' : Heap) × (list_push_back h list elem ≡ some h') × ¬ IsList h' other (xs ++ (elem ∷ ys))
unfolding list_push_back list_insert
list_push_back_shared h list other elem xs ys zs v w apart =
    let last = h.prev (list_tail list) in
    let within : 0 < count last (list ∷ zs) = prev-count h list zs (list_tail list) [] w.links in
    let here : 0 < count elem (xs ++ (elem ∷ ys)) =
      ground (arith, count-append elem xs (elem ∷ ys)) in
    let sum_elem = count-append elem (xs ++ (elem ∷ ys)) (list_tail other ∷ []) in
    let sum_zs = count-append elem zs (list_tail list ∷ []) in
    let away : elem ≢ list_tail list = λ e. ground (arith, apart elem) in
    let last_real : last ≢ 0 = λ e.
      let null : 0 < count 0 (list ∷ zs) = subst (λ q. 0 < count q (list ∷ zs)) e within in
      ground (arith, w.real, count-append 0 zs (list_tail list ∷ [])) in
    let elem_real : elem ≢ 0 =
      λ e. ground (arith, v.real, count-append 0 (xs ++ (elem ∷ ys)) (list_tail other ∷ [])) in
    (
      link h (list_tail list) elem,
      ground arith,
      λ x.
          let links = rw (append_assoc xs (elem ∷ ys) (list_tail other ∷ [])) at x.links in
          let found =
            prev-count (link h (list_tail list) elem) other xs elem (ys ++ (list_tail other ∷ []))
              links in
          let moved : (link h (list_tail list) elem).prev elem ≡ last = ground arith in
          let inside : 0 < count last (other ∷ xs) =
            subst (λ q. 0 < count q (other ∷ xs)) moved found in
          ground (
            arith,
            apart last,
            count-append last (xs ++ (elem ∷ ys)) (list_tail other ∷ []),
            count-append last xs (elem ∷ ys),
            count-append last zs (list_tail list ∷ []),
          ),
    )
