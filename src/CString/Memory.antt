-- ===== src/CString/Memory.antt =====
-- Regions of memory and null-terminated strings.
use project_os.Base.{ℕ, ◌+◌, ◌-◌, ◌≤◌, ◌<◌, ◌≡◌, ◌≢◌, ◌⊎◌, Bool, ltb, leb, ◌&&◌, if◌then◌else◌}
use project_os.CString.{Memory}

abbrev pub is_inside : (start size a : ℕ) → Bool
is_inside start size a = leb start a && ltb a (start + size)

-- Memory after `size` bytes have gone from `src` to `dst`, all read before any is written.
abbrev pub moved : Memory → (dst src size : ℕ) → Memory
moved mem dst src size a = if is_inside dst size a then mem (src + (a - dst)) else mem a

-- The two regions have no byte in common.
abbrev pub Apart : (p q m n : ℕ) → Type 0
Apart p q m n = (p + m ≤ q) ⊎ (q + n ≤ p)

-- At `p` stands a string of `n` characters.
pub record IsString (mem : Memory) (p n : ℕ) : Type 0 where
  pub chars : (i : ℕ) → i < n → mem (p + i) ≢ 0
  pub end : mem (p + n) ≡ 0
