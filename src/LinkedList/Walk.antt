-- ===== src/LinkedList/Walk.antt =====
-- Loops along a list: `list_size`.
use project_os.Base.{
  ℕ, zero, suc, ◌+◌, ◌<◌, ◌≡◌, ◌≢◌, refl, ◌∙◌, ap, some, List, [], ◌∷◌, ◌++◌, arith, ◌==◌, length,
  if-true, if-false, some->>=, count, count-append,
}
use project_os.LinkedList.{Heap, list_tail, list_next, size_loop, list_size}
use project_os.LinkedList.Links.{Links, IsList}
use project_os.LinkedList.Insert.{first_or}
use project_os.LinkedList.Queue.{begin-first_or}

-- The part of a list, from some element on, that a loop has still to see; `t` is the tail.
pub record Ahead (h : Heap) (t : ℕ) (xs : List ℕ) : Type 0 where
  pub linked : (a : ℕ) (rest : List ℕ) → xs ≡ a ∷ rest → Links h a (rest ++ (t ∷ []))
  pub real : count 0 (xs ++ (t ∷ [])) ≡ 0
  pub apart : count t xs ≡ 0

pub Ahead-IsList :
    (h : Heap) (list : ℕ) (xs : List ℕ) → IsList h list xs → Ahead h (list_tail list) xs
Ahead-IsList h list xs v = record {
  linked = λ a rest e. later xs v.links a rest e;
  real = ground (arith, v.real);
  apart =
      ground (
        arith,
        v.distinct (list_tail list),
        count-append (list_tail list) xs (list_tail list ∷ []),
      );
}
  where
    later :
        (xs : List ℕ)
        → Links h list (xs ++ (list_tail list ∷ []))
        → (a : ℕ) (rest : List ℕ) → xs ≡ a ∷ rest
        → Links h a (rest ++ (list_tail list ∷ []))
    later [] l a rest e = cc
    later (x ∷ xs) (p, q, l) a rest e =
        let hd : x ≡ a = cc in let tl : xs ≡ rest = cc in rw (← hd, ← tl) l

module _ (h : Heap) (t : ℕ) (x : ℕ) (xs : List ℕ) (v : Ahead h t (x ∷ xs)) where
  -- A loop that has not come to the tail goes on to the next element.
  pub Ahead-next : (x ≢ t) × (list_next h x ≡ some (first_or xs t)) × Ahead h t xs
  unfolding list_next
  Ahead-next =
      let l : Links h x (xs ++ (t ∷ [])) = v.linked x xs refl in
      let next = begin-first_or h x xs t l in
      let (p, q) = not_null in
      (
        (λ e. ground (arith, v.apart)),
        ground arith,
        record {
          linked = tail_linked xs l;
          real = ground (arith, v.real);
          apart = ground (arith, v.apart);
        },
      )
    where
      not_null : (x ≢ 0) × (first_or xs t ≢ 0)
      not_null = ((λ e. ground (arith, v.real)), first_real xs v.real)
        where
          first_real : (xs : List ℕ) → count 0 (x ∷ xs ++ (t ∷ [])) ≡ 0 → first_or xs t ≢ 0
          first_real [] r e = ground arith
          first_real (y ∷ ys) r e = ground arith

      tail_linked :
          (xs : List ℕ)
          → Links h x (xs ++ (t ∷ []))
          → (a : ℕ) (rest : List ℕ) → xs ≡ a ∷ rest
          → Links h a (rest ++ (t ∷ []))
      tail_linked [] l a rest e = cc
      tail_linked (y ∷ ys) (p, q, l) a rest e =
          let hd : y ≡ a = cc in let tl : ys ≡ rest = cc in rw (← hd, ← tl) l

size_loop-length :
    (xs : List ℕ) (fuel : ℕ) (h : Heap) (list cnt : ℕ)
    → Ahead h (list_tail list) xs
    → length xs < fuel
    → size_loop fuel h list (first_or xs (list_tail list)) cnt ≡ some (cnt + length xs)
unfolding size_loop
size_loop-length xs zero h list cnt v lt = absurd (omega arith)
size_loop-length [] (suc fuel) h list cnt v lt =
    if-true (list_tail list == list_tail list) _ _ (ground arith) ∙ ap some (omega arith)
size_loop-length (x ∷ xs) (suc fuel) h list cnt v lt =
    let (ne, e, w) = Ahead-next h (list_tail list) x xs v in
    if-false (x == list_tail list) _ _ (ground arith)
    ∙ some->>= _ (first_or xs (list_tail list)) _ e
    ∙ size_loop-length xs fuel h list (cnt + 1) w (omega arith)
    ∙ ap some (omega arith)

-- `list_size` ends with more fuel than the list has elements, and returns how many it has.
pub list_size-length :
    (fuel : ℕ) (h : Heap) (list : ℕ) (xs : List ℕ)
    → IsList h list xs
    → length xs < fuel
    → list_size fuel h list ≡ some (length xs)
unfolding list_size
list_size-length fuel h list xs v lt =
    ap (λ e. size_loop fuel h list e 0) (begin-first_or h list xs (list_tail list) v.links)
    ∙ size_loop-length xs fuel h list 0 (Ahead-IsList h list xs v) lt
    ∙ ap some (omega arith)
