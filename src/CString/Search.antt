-- ===== src/CString/Search.antt =====
-- `strchr`: a character of a string.
use native.Mathlib.Decide.{ℕ_discrete}
use project_os.Base.{
  ℕ, zero, suc, ◌+◌, ◌%◌, ◌<◌, ◌≡◌, ◌≢◌, refl, ◌∙◌, ap, inr, Option, none, some, arith, ◌==◌,
  if-true, if-false,
}
use project_os.CString.{Memory, strchr, strchr_loop}
use project_os.CString.Memory.{IsString}
use project_os.CString.Scan.{Searches, Searches-now, Searches-later}

pub IsString-tail :
    (mem : Memory) (p n : ℕ) → IsString mem p (suc n) → (mem p ≢ 0) × IsString mem (p + 1) n
IsString-tail mem p n s = (
  (λ e. s.chars 0 (omega arith) (ap mem (omega arith) ∙ e)),
  record {
    chars = λ i h e. s.chars (i + 1) (omega arith) (ap mem (omega arith) ∙ e);
    end = ap mem (omega arith) ∙ s.end;
  },
)

pub IsString-null : (mem : Memory) (p : ℕ) → IsString mem p 0 → mem p ≡ 0
IsString-null mem p s = ap mem (omega arith) ∙ s.end

-- The outcome of the loop, with what it returns.
abbrev Found : Memory → (p c n : ℕ) → Option (Option ℕ) → Type 0
Found mem p c n out = (r : Option ℕ) × (out ≡ some r) × Searches mem p c n r

strchr_loop-Found :
    (n fuel : ℕ) (mem : Memory) (p c : ℕ)
    → IsString mem p n
    → n < fuel
    → Found mem p c (suc n) (strchr_loop fuel mem p c)
unfolding strchr_loop
strchr_loop-Found n zero mem p c s h = absurd (omega arith)
strchr_loop-Found zero (suc fuel) mem p c s h =
    let null = IsString-null mem p s in
    elim (ℕ_discrete (mem p) c) [
      | yes hit ↦ (some p, if-true (mem p == c) _ _ (ground arith), Searches-now mem p c 0 hit)
      | no miss ↦ (
        none,
        if-false (mem p == c) _ _ (ground arith) ∙ if-true (mem p == 0) _ _ (ground arith),
        Searches-later mem p c 0 none miss (inr (refl, λ i k. absurd (omega arith))),
      )
    ]
strchr_loop-Found (suc n) (suc fuel) mem p c s h =
    let (char, rest) = IsString-tail mem p n s in
    elim (ℕ_discrete (mem p) c) [
      | yes hit ↦
          (some p, if-true (mem p == c) _ _ (ground arith), Searches-now mem p c (suc n) hit)
      | no miss ↦
          let (r, e, f) = strchr_loop-Found n fuel mem (p + 1) c rest (omega arith) in
          (
            r,
            if-false (mem p == c) _ _ (ground arith) ∙ if-false (mem p == 0) _ _ (ground arith) ∙ e,
            Searches-later mem p c (suc n) r miss f,
          )
    ]

-- `strchr` returns the first place of the character in the string, its null byte included, or a null
-- pointer if it is not there, with more fuel than the string has characters.
pub strchr-Searches :
    (fuel : ℕ) (mem : Memory) (p c n : ℕ)
    → IsString mem p n
    → n < fuel
    → (r : Option ℕ) × (strchr fuel mem p c ≡ some r) × Searches mem p (c % 256) (n + 1) r
unfolding strchr
strchr-Searches fuel mem p c n s h =
    let (r, e, f) = strchr_loop-Found n fuel mem p (c % 256) s h in
    let up : suc n ≡ n + 1 = omega arith in (r, e, rw (← up) f)
