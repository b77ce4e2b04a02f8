-- ===== src/Base/Partial.antt =====
-- Code that may panic: `none` stands for a failed ASSERT, PANIC or NOT_REACHED.
use mathlib.Core.Path.{◌≡◌, refl, ap}
use mathlib.Core.Bool.{Bool, true, false, not}
use mathlib.Core.Option.{Option, none, some}

infixl 5 ◌>>=◌ ◌>>◌
abbrev pub ◌>>=◌ {ℓ κ} : {A : Type ℓ} {B : Type κ} → Option A → (A → Option B) → Option B
some a >>= f = f a
none >>= f = none

abbrev pub ◌>>◌ {ℓ} : {B : Type ℓ} → Option (Unit {0}) → Option B → Option B
some _ >> k = k
none >> k = none

-- `ASSERT (b)`
abbrev pub assert : Bool → Option (Unit {0})
assert true = some tt
assert false = none

-- An assertion that holds is passed.
pub assert-true {ℓ} : {A : Type ℓ} (b : Bool) (m : Option A) → b ≡ true → (assert b >> m) ≡ m
assert-true true m h = refl
assert-true false m h = cc

-- An assertion of a negation.
pub assert-not {ℓ} : {A : Type ℓ} (b : Bool) (m : Option A) → b ≡ false → (assert (not b) >> m) ≡ m
assert-not false m h = refl
assert-not true m h = cc

-- The next step of a chain, where the first has a result.
pub some->>= {ℓ κ} :
    {A : Type ℓ} {B : Type κ} (m : Option A) (a : A) (f : A → Option B)
    → m ≡ some a
    → (m >>= f) ≡ f a
some->>= m a f e = ap (λ o. o >>= f) e

pub none->>= {ℓ κ} :
    {A : Type ℓ} {B : Type κ} (m : Option A) (f : A → Option B) → m ≡ none → (m >>= f) ≡ none
none->>= m f e = ap (λ o. o >>= f) e
