-- ===== src/CString/Tests.antt =====
-- A memory with the strings "abc" at 1 and "ab" at 6, and runs of the functions on it.
use project_os.Base.{
  ℕ, zero, suc, ◌<◌, ◌≡◌, ◌≢◌, refl, List, [], ◌∷◌, arith, get_or, ltb, if◌then◌else◌, ◌⊎◌, ◌+◌,
  some, none,
}
use project_os.CString.{Memory, memmove, memcmp, strchr, strcspn, strspn, strrchr, strlen, strstr}
use project_os.CString.Memory.{moved, IsString}
use project_os.CString.Move.{memmove-moved}

abbrev bytes : List ℕ
bytes = 0 ∷ 97 ∷ 98 ∷ 99 ∷ 0 ∷ 0 ∷ 97 ∷ 98 ∷ 0 ∷ []

abbrev sample : Memory
sample a = get_or bytes a 0

long_chars : (i : ℕ) → i < 3 → sample (1 + i) ≢ 0
long_chars zero h e = absurd (omega arith)
long_chars (suc zero) h e = absurd (omega arith)
long_chars (suc (suc zero)) h e = absurd (omega arith)
long_chars (suc (suc (suc i))) h e = absurd (omega arith)

long-IsString : IsString sample 1 3
long-IsString = record { chars = long_chars; end = refl }

short_chars : (i : ℕ) → i < 2 → sample (6 + i) ≢ 0
short_chars zero h e = absurd (omega arith)
short_chars (suc zero) h e = absurd (omega arith)
short_chars (suc (suc i)) h e = absurd (omega arith)

short-IsString : IsString sample 6 2
short-IsString = record { chars = short_chars; end = refl }

searches :
    (strstr 9 sample 1 6 ≡ some (some 1))
    × (strstr 9 sample 6 1 ≡ some none)
    × (strrchr 9 sample 1 98 ≡ some (some 2))
    × (strspn 9 sample 1 6 ≡ some 2)
    × (strcspn 9 sample 1 6 ≡ some 0)
unfolding strstr strrchr strspn strcspn strlen memcmp strchr
searches = (refl, refl, refl, refl, refl)

memmove-moved_example :
    ((◌≢◌ {A = ℕ} 1 0) × (◌≢◌ {A = ℕ} 2 0) ⊎ (◌≡◌ {A = ℕ} 3 0)
      → (end : ℕ) × (mem' : Memory) × (memmove sample 1 2 3 ≡ some (end, mem'))
        × ((a : ℕ) → mem' a ≡ moved sample 1 2 3 a)
        × (end ≡ (if ltb 1 2 then 1 + 3 else 1)))
    × ((◌≡◌ {A = ℕ} 1 0) ⊎ (◌≡◌ {A = ℕ} 2 0) → 0 < 3 → memmove sample 1 2 3 ≡ none)
memmove-moved_example = memmove-moved sample 1 2 3
