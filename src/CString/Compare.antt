-- ===== src/CString/Compare.antt =====
-- `memcmp` and `strcmp`: the first difference.
use native.Mathlib.Decide.{ℕ_discrete}
use project_os.Base.{
  ℕ, zero, suc, ◌+◌, ◌≤◌, ◌<◌, ◌≡◌, ◌≢◌, ◌⊎◌, refl, sym, ◌∙◌, ap, inl, inr, not, ◌&&◌, some, arith,
  ltb, ◌==◌, if◌then◌else◌, if-true, if-false,
}
use project_os.CString.{Memory, Sign, negative, equal, positive, memcmp, strcmp, strcmp_end}
use project_os.CString.Memory.{IsString}
use project_os.CString.Search.{IsString-tail, IsString-null}

-- The first `n` bytes at `a` and `b` are the same.
abbrev pub SameBytes : Memory → (a b n : ℕ) → Type 0
SameBytes mem a b n = (j : ℕ) → j < n → mem (a + j) ≡ mem (b + j)

-- The first bytes that differ, at `i`, are in the order that the sign says.
abbrev pub Order : Memory → (a b i : ℕ) → Sign → Type 0
Order mem a b i negative = mem (a + i) < mem (b + i)
Order mem a b i equal = ⊥
Order mem a b i positive = mem (b + i) < mem (a + i)

abbrev pub Compares : Memory → (a b n : ℕ) → Sign → Type 0
Compares mem a b n r =
    ((r ≡ equal) × SameBytes mem a b n)
    ⊎ ((i : ℕ) × (i < n) × SameBytes mem a b i × Order mem a b i r)

same_later :
    (mem : Memory) (a b n : ℕ)
    → mem a ≡ mem b
    → SameBytes mem (a + 1) (b + 1) n
    → SameBytes mem a b (suc n)
same_later mem a b n e s zero h = ap mem (omega arith) ∙ e ∙ ap mem (omega arith)
same_later mem a b n e s (suc j) h = ap mem (omega arith) ∙ s j (omega arith) ∙ ap mem (omega arith)

Order-later :
    (mem : Memory) (a b i : ℕ) (r : Sign) → Order mem (a + 1) (b + 1) i r → Order mem a b (suc i) r
Order-later mem a b i r o =
    let ea : mem (a + suc i) ≡ mem (a + 1 + i) = ap mem (omega arith) in
    let eb : mem (b + suc i) ≡ mem (b + 1 + i) = ap mem (omega arith) in by_sign r ea eb o
  where
    by_sign :
        (r : Sign)
        → mem (a + suc i) ≡ mem (a + 1 + i)
        → mem (b + suc i) ≡ mem (b + 1 + i)
        → Order mem (a + 1) (b + 1) i r
        → Order mem a b (suc i) r
    by_sign negative ea eb o = omega arith
    by_sign equal ea eb o = o
    by_sign positive ea eb o = omega arith

Compares-later :
    (mem : Memory) (a b n : ℕ) (r : Sign)
    → mem a ≡ mem b
    → Compares mem (a + 1) (b + 1) n r
    → Compares mem a b (suc n) r
Compares-later mem a b n r e (inl (q, s)) = inl (q, same_later mem a b n e s)
Compares-later mem a b n r e (inr (i, h, s, o)) =
    inr (suc i, omega arith, same_later mem a b i e s, Order-later mem a b i r o)

-- The bytes at `a` and `b` themselves differ.
Compares-now :
    (mem : Memory) (a b n : ℕ)
    → mem a ≢ mem b
    → Compares mem a b (suc n) (if ltb (mem b) (mem a) then positive else negative)
Compares-now mem a b n ne =
    let ea : mem (a + 0) ≡ mem a = ap mem (omega arith) in
    let eb : mem (b + 0) ≡ mem b = ap mem (omega arith) in
    inr (0, omega arith, (λ j h. absurd (omega arith)), ground arith)

-- `memcmp` returns 0 if the blocks are the same, and else the order of their first bytes that differ.
pub memcmp-Compares :
    (size : ℕ) (mem : Memory) (a b : ℕ) → Compares mem a b size (memcmp mem a b size)
unfolding memcmp
memcmp-Compares zero mem a b = inl (refl, λ j h. absurd (omega arith))
memcmp-Compares (suc size) mem a b = elim (ℕ_discrete (mem a) (mem b)) [
  | yes e ↦
      rw
        (if-true (mem a == mem b) (memcmp mem (a + 1) (b + 1) size)
          (if ltb (mem b) (mem a) then positive else negative) (ground arith))
        (Compares-later mem a b size _ e (memcmp-Compares size mem (a + 1) (b + 1)))
  | no ne ↦
      rw
        (if-false (mem a == mem b) (memcmp mem (a + 1) (b + 1) size)
          (if ltb (mem b) (mem a) then positive else negative) (ground arith))
        (Compares-now mem a b size ne)
]

-- What `strcmp` tells of strings of `m` and `n` characters.
abbrev pub StrCompares : Memory → (a b m n : ℕ) → Sign → Type 0
StrCompares mem a b m n r =
    ((r ≡ equal) × (m ≡ n) × SameBytes mem a b m)
    ⊎ ((i : ℕ) × (i ≤ m) × (i ≤ n) × SameBytes mem a b i × Order mem a b i r)

StrCompares-later :
    (mem : Memory) (a b m n : ℕ) (r : Sign)
    → mem a ≡ mem b
    → StrCompares mem (a + 1) (b + 1) m n r
    → StrCompares mem a b (suc m) (suc n) r
StrCompares-later mem a b m n r e (inl (q, l, s)) = inl (q, ap suc l, same_later mem a b m e s)
StrCompares-later mem a b m n r e (inr (i, h, k, s, o)) =
    inr (suc i, omega arith, omega arith, same_later mem a b i e s, Order-later mem a b i r o)

StrCompares-now :
    (mem : Memory) (a b m n : ℕ)
    → mem a ≢ mem b
    → StrCompares mem a b m n (strcmp_end (mem a) (mem b))
unfolding strcmp_end
StrCompares-now mem a b m n ne =
    let ea : mem (a + 0) ≡ mem a = ap mem (omega arith) in
    let eb : mem (b + 0) ≡ mem b = ap mem (omega arith) in
    inr (0, omega arith, omega arith, (λ j h. absurd (omega arith)), ground arith)

StrCompares-null :
    (mem : Memory) (a b : ℕ)
    → mem a ≡ 0
    → mem b ≡ 0
    → StrCompares mem a b 0 0 (strcmp_end (mem a) (mem b))
unfolding strcmp_end
StrCompares-null mem a b ea eb = inl (ground arith, refl, λ j h. absurd (omega arith))

strcmp_step :
    (fuel : ℕ) (mem : Memory) (a b : ℕ)
    → mem a ≢ 0
    → mem a ≡ mem b
    → strcmp (suc fuel) mem a b ≡ strcmp fuel mem (a + 1) (b + 1)
unfolding strcmp
strcmp_step fuel mem a b ne e = if-true (not (mem a == 0) && (mem a == mem b)) _ _ (ground arith)

strcmp_stop :
    (fuel : ℕ) (mem : Memory) (a b : ℕ)
    → (mem a ≡ 0) ⊎ (mem a ≢ mem b)
    → strcmp (suc fuel) mem a b ≡ some (strcmp_end (mem a) (mem b))
unfolding strcmp
strcmp_stop fuel mem a b h = if-false (not (mem a == 0) && (mem a == mem b)) _ _ (ground arith)

-- With enough fuel `strcmp` returns 0 if the strings are the same, and else the order of their first
-- characters that differ, the null byte at the end of the shorter one included.
pub strcmp-StrCompares :
    (m fuel : ℕ) (mem : Memory) (a b n : ℕ)
    → IsString mem a m
    → IsString mem b n
    → m < fuel
    → (r : Sign) × (strcmp fuel mem a b ≡ some r) × StrCompares mem a b m n r
strcmp-StrCompares m zero mem a b n s t h = absurd (omega arith)
strcmp-StrCompares zero (suc fuel) mem a b zero s t h =
    let ea = IsString-null mem a s in
    (_, strcmp_stop fuel mem a b (inl ea), StrCompares-null mem a b ea (IsString-null mem b t))
strcmp-StrCompares zero (suc fuel) mem a b (suc n) s t h =
    let ea = IsString-null mem a s in
    let (char, rest) = IsString-tail mem b n t in
    (
      _,
      strcmp_stop fuel mem a b (inl ea),
      StrCompares-now mem a b 0 (suc n) (λ e. char (sym e ∙ ea)),
    )
strcmp-StrCompares (suc m) (suc fuel) mem a b zero s t h =
    let eb = IsString-null mem b t in
    let (char, rest) = IsString-tail mem a m s in
    let ne : mem a ≢ mem b = λ e. char (e ∙ eb) in
    (_, strcmp_stop fuel mem a b (inr ne), StrCompares-now mem a b (suc m) 0 ne)
strcmp-StrCompares (suc m) (suc fuel) mem a b (suc n) s t h =
    let (char, rest) = IsString-tail mem a m s in
    let (char', rest') = IsString-tail mem b n t in
    elim (ℕ_discrete (mem a) (mem b)) [
      | yes e ↦
          let (r, q, c) =
            strcmp-StrCompares m fuel mem (a + 1) (b + 1) n rest rest' (omega arith) in
          (r, strcmp_step fuel mem a b char e ∙ q, StrCompares-later mem a b m n r e c)
      | no ne ↦ (_, strcmp_stop fuel mem a b (inr ne), StrCompares-now mem a b (suc m) (suc n) ne)
    ]
