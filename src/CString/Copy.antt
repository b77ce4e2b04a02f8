-- ===== src/CString/Copy.antt =====
-- `strlcpy` and `strlcat`: bounded copies.
use native.Mathlib.Decide.{dec_lt}
use project_os.Base.{
  ℕ, ◌+◌, ◌-◌, ◌≤◌, ◌<◌, ◌≡◌, ◌⊎◌, sym, ◌∙◌, ap, inl, ◌&&◌, some, min, arith, ltb, ◌==◌,
  if◌then◌else◌, if-true, some->>=,
}
use project_os.CString.{Memory, copy_string, strlcpy, strlcat}
use project_os.CString.Memory.{moved, Apart, IsString}
use project_os.CString.Move.{memcpy-moved}
use project_os.CString.Scan.{strlen-length}

-- At `dst` stands a string of `k` characters, those at `src` before; beyond its null byte, and before
-- `dst`, nothing has changed.
pub record Copied (mem mem' : Memory) (dst src k : ℕ) : Type 0 where
  pub string : IsString mem' dst k
  pub same : (i : ℕ) → i < k → mem' (dst + i) ≡ mem (src + i)
  pub outside : (a : ℕ) → (a < dst) ⊎ (dst + k < a) → mem' a ≡ mem a

copy_string-at :
    (mem : Memory) (dst src k a : ℕ)
    → Apart dst src k k
    → copy_string mem dst src k a ≡ (if a == dst + k then 0 else moved mem dst src k a)
unfolding copy_string
copy_string-at mem dst src k a h = ground (arith, (memcpy-moved mem dst src k h).0 a)

read_at : (mem : Memory) (dst src i : ℕ) → mem (src + (dst + i - dst)) ≡ mem (src + i)
read_at mem dst src i = ap mem (omega arith)

-- A part of a string is copied to where the string does not stand.
pub copy_string-Copied :
    (mem : Memory) (dst src n k : ℕ)
    → IsString mem src n
    → k ≤ n
    → Apart dst src k k
    → Copied mem (copy_string mem dst src k) dst src k
copy_string-Copied mem dst src n k s h apart =
    let same : (i : ℕ) → i < k → copy_string mem dst src k (dst + i) ≡ mem (src + i) =
      λ i lt. ground (arith, copy_string-at mem dst src k (dst + i) apart, read_at mem dst src i) in
    record {
      string = record {
        chars = λ i lt e. s.chars i (omega arith) (sym (same i lt) ∙ e);
        end = ground (arith, copy_string-at mem dst src k (dst + k) apart);
      };
      same = same;
      outside = λ a away. ground (arith, copy_string-at mem dst src k a apart);
    }

smaller-min : (a b : ℕ) → (if ltb a b then a else b) ≡ min a b
smaller-min a b = ground arith

-- `strlcpy` with room for a byte at least, and of a source apart from what it writes, returns the length of the source, and leaves at the
-- destination as many of its characters as fit, ended by a null byte.
pub strlcpy-Copied :
    (fuel : ℕ) (mem : Memory) (dst src size n : ℕ)
    → IsString mem src n
    → n < fuel
    → 0 < size
    → Apart dst src (min n (size - 1)) (min n (size - 1))
    → (mem' : Memory) × (strlcpy fuel mem dst src size ≡ some (n, mem'))
      × Copied mem mem' dst src (min n (size - 1))
unfolding strlcpy
strlcpy-Copied fuel mem dst src size n s h pos apart = (
  copy_string mem dst src (min n (size - 1)),
  some->>= _ n _ (strlen-length fuel mem src n s h)
      ∙ ap (λ (m : Memory). some (n, m))
          (if-true (ltb 0 size) _ _ (ground arith)
            ∙ ap (copy_string mem dst src) (smaller-min n (size - 1))),
  copy_string-Copied mem dst src n (min n (size - 1)) s (omega arith) apart,
)

-- A string of `m` characters with one of `k` put over its null byte.
joined :
    (mem mem' : Memory) (dst src m k : ℕ)
    → IsString mem dst m
    → Copied mem mem' (dst + m) src k
    → IsString mem' dst (m + k)
joined mem mem' dst src m k s c = record {
  chars = λ i h e. elim (dec_lt i m) [
    | yes low ↦ s.chars i low (sym (c.outside (dst + i) (inl (omega arith))) ∙ e)
    | no high ↦ c.string.chars (i - m) (omega arith) (ap mem' (omega arith) ∙ e)
  ];
  end = ap mem' (omega arith) ∙ c.string.end;
}

-- `strlcat`, where the string at `dst` ends before `size` bytes and the source is apart from what is
-- written, returns the length of both strings,
-- and leaves at `dst` that string followed by as many characters of the source as fit.
pub strlcat-Copied :
    (fuel : ℕ) (mem : Memory) (dst src size m n : ℕ)
    → IsString mem dst m
    → IsString mem src n
    → m < fuel
    → n < fuel
    → m < size
    → Apart (dst + m) src (min n (size - m - 1)) (min n (size - m - 1))
    → (mem' : Memory) × (strlcat fuel mem dst src size ≡ some (n + m, mem'))
      × Copied mem mem' (dst + m) src (min n (size - m - 1))
      × IsString mem' dst (m + min n (size - m - 1))
unfolding strlcat
strlcat-Copied fuel mem dst src size m n s t hm hn room apart =
    let k = min n (size - m - 1) in
    let c = copy_string-Copied mem (dst + m) src n k t (omega arith) apart in
    (
      copy_string mem (dst + m) src k,
      some->>= _ n _ (strlen-length fuel mem src n t hn)
          ∙ some->>= _ m _ (strlen-length fuel mem dst m s hm)
          ∙ ap (λ (x : Memory). some (n + m, x))
              (if-true (ltb 0 size && ltb m size) _ _ (ground arith)
                ∙ ap (copy_string mem (dst + m) src) (smaller-min n (size - m - 1))),
      c,
      joined mem _ dst src m k s c,
    )
