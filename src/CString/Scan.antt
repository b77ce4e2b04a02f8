-- ===== src/CString/Scan.antt =====
-- `strlen`, `strnlen` and `memchr`.
use Prim.Native.Nat.{zero-le}
use native.Mathlib.Decide.{ℕ_discrete}
use project_os.Base.{
  ℕ, zero, suc, ◌+◌, ◌%◌, ◌≤◌, ◌<◌, ◌≡◌, ◌≢◌, ◌⊎◌, refl, sym, ◌∙◌, ap, inl, inr, Option, none, some,
  min, arith, ◌==◌, if-true, if-false,
}
use project_os.CString.{Memory, memchr, strlen, strlen_loop, strnlen, strnlen_loop}
use project_os.CString.Memory.{IsString}

strlen_loop-length :
    (fuel : ℕ) (mem : Memory) (p n i q : ℕ)
    → IsString mem p n
    → i ≤ n
    → n < fuel + i
    → q ≡ p + i
    → strlen_loop fuel mem p q ≡ some n
unfolding strlen_loop
strlen_loop-length zero mem p n i q s h k e = absurd (omega arith)
strlen_loop-length (suc fuel) mem p n i q s h k e = elim (ℕ_discrete i n) [
  | yes last ↦
      let null : mem q ≡ 0 = ap mem (e ∙ ap (λ (j : ℕ). p + j) last) ∙ s.end in
      if-true (mem q == 0) _ _ (ground arith) ∙ ap some (omega arith)
  | no more ↦
      let char : mem q ≢ 0 = λ z. s.chars i (omega arith) (ap mem (sym e) ∙ z) in
      if-false (mem q == 0) _ _ (ground arith)
      ∙ strlen_loop-length fuel mem p n (i + 1) (q + 1) s (omega arith) (omega arith) (omega arith)
]

-- `strlen` ends with more fuel than the string has characters, and returns the length of the string.
pub strlen-length :
    (fuel : ℕ) (mem : Memory) (p n : ℕ) → IsString mem p n → n < fuel → strlen fuel mem p ≡ some n
unfolding strlen
strlen-length fuel mem p n s h =
    strlen_loop-length fuel mem p n 0 p s zero-le (omega arith) (omega arith)

strnlen_loop-length :
    (left : ℕ) (mem : Memory) (p n i : ℕ)
    → IsString mem p n
    → i ≤ n
    → strnlen_loop left mem p i ≡ min n (left + i)
unfolding strnlen_loop
strnlen_loop-length zero mem p n i s h = omega arith
strnlen_loop-length (suc left) mem p n i s h = elim (ℕ_discrete i n) [
  | yes last ↦
      let null : mem (p + i) ≡ 0 = ap (λ (j : ℕ). mem (p + j)) last ∙ s.end in
      if-true (mem (p + i) == 0) _ _ (ground arith) ∙ omega arith
  | no more ↦
      let char = s.chars i (omega arith) in
      if-false (mem (p + i) == 0) _ _ (ground arith)
      ∙ strnlen_loop-length left mem p n (i + 1) s (omega arith)
      ∙ omega arith
]

-- `strnlen` returns the length of the string or `maxlen`, whichever is less.
pub strnlen-length :
    (mem : Memory) (p n maxlen : ℕ) → IsString mem p n → strnlen mem p maxlen ≡ min n maxlen
unfolding strnlen
strnlen-length mem p n maxlen s = strnlen_loop-length maxlen mem p n 0 s zero-le ∙ omega arith

-- The first of the bytes from `p` on that is `c` stands at `i`.
pub record IsFirst (mem : Memory) (p c i : ℕ) : Type 0 where
  pub here : mem (p + i) ≡ c
  pub before : (j : ℕ) → j < i → mem (p + j) ≢ c

IsFirst-later :
    (mem : Memory) (p c i : ℕ) → mem p ≢ c → IsFirst mem (p + 1) c i → IsFirst mem p c (i + 1)
IsFirst-later mem p c i ne f = record {
  here = ap mem (omega arith) ∙ f.here;
  before = λ j h. first j h;
}
  where
    first : (j : ℕ) → j < i + 1 → mem (p + j) ≢ c
    first zero h e = ne (ap mem (omega arith) ∙ e)
    first (suc j) h e = f.before j (omega arith) (ap mem (omega arith) ∙ e)

-- What a search for `c` among the first `n` bytes returns.
abbrev pub Searches : Memory → (p c n : ℕ) → Option ℕ → Type 0
Searches mem p c n r =
    ((i : ℕ) × (i < n) × (r ≡ some (p + i)) × IsFirst mem p c i)
    ⊎ ((r ≡ none) × ((i : ℕ) → i < n → mem (p + i) ≢ c))

pub Searches-later :
    (mem : Memory) (p c n : ℕ) (r : Option ℕ)
    → mem p ≢ c
    → Searches mem (p + 1) c n r
    → Searches mem p c (suc n) r
Searches-later mem p c n r ne (inl (i, h, e, f)) =
    inl (i + 1, omega arith, e ∙ ap some (omega arith), IsFirst-later mem p c i ne f)
Searches-later mem p c n r ne (inr (e, all)) = inr (e, λ i h. others i h)
  where
    others : (i : ℕ) → i < suc n → mem (p + i) ≢ c
    others zero h e = ne (ap mem (omega arith) ∙ e)
    others (suc i) h e = all i (omega arith) (ap mem (omega arith) ∙ e)

pub Searches-now : (mem : Memory) (p c n : ℕ) → mem p ≡ c → Searches mem p c (suc n) (some p)
Searches-now mem p c n e = inl (
  0,
  omega arith,
  ap some (omega arith),
  record { here = ap mem (omega arith) ∙ e; before = λ j h. absurd (omega arith) },
)

-- `memchr` returns the first of the `size` bytes that is the low byte of `ch`, or a null pointer if
-- there is none.
pub memchr-Searches :
    (size : ℕ) (mem : Memory) (p ch : ℕ) → Searches mem p (ch % 256) size (memchr mem p ch size)
unfolding memchr
memchr-Searches zero mem p ch = inr (refl, λ i h. absurd (omega arith))
memchr-Searches (suc size) mem p ch = elim (ℕ_discrete (mem p) (ch % 256)) [
  | yes hit ↦
      rw (if-true (mem p == ch % 256) (some p) (memchr mem (p + 1) ch size) (ground arith))
        (Searches-now mem p (ch % 256) size hit)
  | no miss ↦
      rw (if-false (mem p == ch % 256) (some p) (memchr mem (p + 1) ch size) (ground arith))
        (Searches-later mem p (ch % 256) size _ miss (memchr-Searches size mem (p + 1) ch))
]
