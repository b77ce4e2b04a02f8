-- ===== src/LinkedList/Links.antt =====
-- What it means that a list of addresses is linked in a heap.
use project_os.Base.{ℕ, ◌≤◌, ◌<◌, ◌≡◌, List, [], ◌∷◌, ◌++◌, arith, count}
use project_os.LinkedList.{Heap, list_head, list_tail}

-- From `a` on the elements of the list follow one another, both ways.
abbrev pub Links : Heap → (a : ℕ) → List ℕ → Type 0
Links h a [] = Unit
Links h a (x ∷ xs) = (h.next a ≡ x) × (h.prev x ≡ a) × Links h x xs

-- `list` holds the elements `xs`, in this order.
pub record IsList (h : Heap) (list : ℕ) (xs : List ℕ) : Type 0 where
  pub links : Links h (list_head list) (xs ++ (list_tail list ∷ []))
  pub front : h.prev (list_head list) ≡ 0
  pub back : h.next (list_tail list) ≡ 0
  pub distinct : (u : ℕ) → count u (list_head list ∷ xs ++ (list_tail list ∷ [])) ≤ 1
  pub real : count 0 (list_head list ∷ xs ++ (list_tail list ∷ [])) ≡ 0

-- Links depend on the `next` of all but the last element and the `prev` of all but the first.
pub Links-frame :
    (h h' : Heap) (a : ℕ) (xs : List ℕ)
    → ((u : ℕ) → 0 < count u (a ∷ xs) → h'.next u ≡ h.next u)
    → ((u : ℕ) → 0 < count u xs → h'.prev u ≡ h.prev u)
    → Links h a xs
    → Links h' a xs
Links-frame h h' a [] n p l = tt
Links-frame h h' a (x ∷ xs) n p (e, f, l) = (
  ground (arith, n a),
  ground (arith, p x),
  Links-frame h h' x xs (λ u c. ground (arith, n u)) (λ u c. ground (arith, p u)) l,
)

-- The element before one of the list is in the list.
pub prev-count :
    (h : Heap) (a : ℕ) (us : List ℕ) (b : ℕ) (ws : List ℕ)
    → Links h a (us ++ (b ∷ ws))
    → 0 < count (h.prev b) (a ∷ us)
prev-count h a [] b ws (e, f, l) = ground arith
prev-count h a (u ∷ us) b ws (e, f, l) = ground (arith, prev-count h u us b ws l)

-- The element after one of the list is the next in the list.
pub next-link :
    (h : Heap) (a : ℕ) (us : List ℕ) (b c : ℕ) (ws : List ℕ)
    → Links h a (us ++ (b ∷ (c ∷ ws)))
    → h.next b ≡ c
next-link h a [] b c ws (e, f, l) = l.0
next-link h a (u ∷ us) b c ws (e, f, l) = next-link h u us b c ws l
