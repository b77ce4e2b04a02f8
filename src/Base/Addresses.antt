-- ===== src/Base/Addresses.antt =====
-- Maps from addresses, and lists of addresses.
use Prim.Native.Nat.{ℕ, ◌+◌, ◌-◌}
use mathlib.Core.Path.{◌≡◌}
use mathlib.Core.List.{List, [], ◌∷◌, ◌++◌}
use native.Mathlib.Omega.{arith}
use project_os.Base.Tests.{◌==◌, if◌then◌else◌}

-- The map after a write at `a`.
abbrev pub update {ℓ} : {A : Type ℓ} → (ℕ → A) → ℕ → A → ℕ → A
update f a v b = if b == a then v else f b

-- How often a number occurs in a list.
abbrev pub count : ℕ → List ℕ → ℕ
count t [] = 0
count t (x ∷ xs) = (if x == t then 1 else 0) + count t xs

pub count-append : (t : ℕ) (xs ys : List ℕ) → count t (xs ++ ys) ≡ count t xs + count t ys
count-append t [] ys = omega arith
count-append t (x ∷ xs) ys = omega (arith, count-append t xs ys)

-- `list_remove` of an element of a list
unfoldable pub remove_elem : ℕ → List ℕ → List ℕ
remove_elem t [] = []
remove_elem t (x ∷ xs) = if x == t then xs else x ∷ remove_elem t xs

pub count-remove_elem :
    (t x : ℕ) (xs : List ℕ)
    → count t (remove_elem x xs) ≡ (if t == x then count t xs - 1 else count t xs)
unfolding remove_elem
count-remove_elem t x [] = ground arith
count-remove_elem t x (y ∷ ys) = ground (arith, count-remove_elem t x ys)
