-- ===== src/CString.antt =====
-- src/lib/string.c over a memory of bytes by address. `memmove` keeps its assertions that the pointers
-- are not null; to the other functions no null pointer is passed where the source asserts that there
-- is none. A returned pointer that may be null is an option. A loop that runs
-- to a null byte takes fuel, and returns `none` if that runs out.
pub mod Memory
pub mod Move
pub mod Scan
pub mod Compare
pub mod Search
pub mod Copy
mod Tests
use project_os.Base.{
  ℕ, zero, suc, ◌+◌, ◌-◌, ◌%◌, Bool, true, false, not, ◌&&◌, ◌||◌, Option, none, some, ltb, leb,
  ◌==◌, if◌then◌else◌, assert, ◌>>=◌, ◌>>◌,
}

abbrev pub Memory : Type 0
Memory = ℕ → ℕ

-- `*p = v`
abbrev pub store : Memory → (p v : ℕ) → Memory
store mem p v a = if a == p then v else mem a

-- `while (size-- > 0) *dst++ = *src++;`, with the last value of `dst`.
copy_up : (size : ℕ) → Memory → (dst src : ℕ) → ℕ × Memory
copy_up zero mem dst src = (dst, mem)
copy_up (suc size) mem dst src = copy_up size (store mem dst (mem src)) (dst + 1) (src + 1)

-- `while (size-- > 0) *--dst = *--src;`
copy_down : (size : ℕ) → Memory → (dst src : ℕ) → ℕ × Memory
copy_down zero mem dst src = (dst, mem)
copy_down (suc size) mem dst src =
    copy_down size (store mem (dst - 1) (mem (src - 1))) (dst - 1) (src - 1)

pub memcpy : Memory → (dst src size : ℕ) → ℕ × Memory
unfolding copy_up
memcpy mem dst src size = (dst, (copy_up size mem dst src).1)

-- The null pointer is 0. The pointer that is returned is the one that the loop has moved.
pub memmove : Memory → (dst src size : ℕ) → Option (ℕ × Memory)
unfolding copy_up copy_down
memmove mem dst src size = do
  assert (not (dst == 0) || size == 0)
  assert (not (src == 0) || size == 0)
  some (
      if ltb dst src
      then copy_up size mem dst src
      else copy_down size mem (dst + size) (src + size))

-- The result of a comparison: a negative number, 0 or a positive number.
pub data Sign : Type 0 where
  negative equal positive : Sign

pub memcmp : Memory → (a b size : ℕ) → Sign
memcmp mem a b zero = equal
memcmp mem a b (suc size) =
    let rest = memcmp mem (a + 1) (b + 1) size in
    if mem a == mem b then rest else if ltb (mem b) (mem a) then positive else negative

strcmp_end : (a b : ℕ) → Sign
strcmp_end a b = if ltb a b then negative else if ltb b a then positive else equal

pub strcmp : (fuel : ℕ) → Memory → (a b : ℕ) → Option Sign
unfolding strcmp_end
strcmp zero mem a b = none
strcmp (suc fuel) mem a b =
    let rest = strcmp fuel mem (a + 1) (b + 1) in
    if not (mem a == 0) && (mem a == mem b) then rest else some (strcmp_end (mem a) (mem b))

pub memchr : Memory → (block ch size : ℕ) → Option ℕ
memchr mem block ch zero = none
memchr mem block ch (suc size) =
    let rest = memchr mem (block + 1) ch size in if mem block == ch % 256 then some block else rest

-- The inner `none` is a null pointer.
strchr_loop : (fuel : ℕ) → Memory → (string c : ℕ) → Option (Option ℕ)
strchr_loop zero mem string c = none
strchr_loop (suc fuel) mem string c =
    let rest = strchr_loop fuel mem (string + 1) c in
    if mem string == c then some (some string) else if mem string == 0 then some none else rest

pub strchr : (fuel : ℕ) → Memory → (string c : ℕ) → Option (Option ℕ)
unfolding strchr_loop
strchr fuel mem string c = strchr_loop fuel mem string (c % 256)

found : Option ℕ → Bool
found none = false
found (some p) = true

-- The loops of `strcspn` and `strspn`: the search in `set` ends the loop if its outcome is `stop`.
span_loop : (fuel : ℕ) → (stop : Bool) → Memory → (string set length : ℕ) → Option ℕ
unfolding found strchr
span_loop zero stop mem string set length = none
span_loop (suc fuel) stop mem string set length =
    let rest = span_loop fuel stop mem string set (length + 1) in
    let test = strchr (suc fuel) mem set (mem (string + length)) >>= λ p.
    if found p then (if stop then some length else rest) else if stop then rest else some length in
    if mem (string + length) == 0 then some length else test

pub strcspn : (fuel : ℕ) → Memory → (string stop : ℕ) → Option ℕ
unfolding span_loop
strcspn fuel mem string stop = span_loop fuel true mem string stop 0

pub strspn : (fuel : ℕ) → Memory → (string skip : ℕ) → Option ℕ
unfolding span_loop
strspn fuel mem string skip = span_loop fuel false mem string skip 0

strrchr_loop : (fuel : ℕ) → Memory → (string c : ℕ) → (p : Option ℕ) → Option (Option ℕ)
strrchr_loop zero mem string c p = none
strrchr_loop (suc fuel) mem string c p =
    let rest = strrchr_loop fuel mem (string + 1) c (if mem string == c then some string else p) in
    if mem string == 0 then some p else rest

pub strrchr : (fuel : ℕ) → Memory → (string c : ℕ) → Option (Option ℕ)
unfolding strrchr_loop
strrchr fuel mem string c = strrchr_loop fuel mem string (c % 256) none

strlen_loop : (fuel : ℕ) → Memory → (string p : ℕ) → Option ℕ
strlen_loop zero mem string p = none
strlen_loop (suc fuel) mem string p =
    let rest = strlen_loop fuel mem string (p + 1) in if mem p == 0 then some (p - string) else rest

pub strlen : (fuel : ℕ) → Memory → (string : ℕ) → Option ℕ
unfolding strlen_loop
strlen fuel mem string = strlen_loop fuel mem string string

-- `left` is `maxlen - length`.
strnlen_loop : (left : ℕ) → Memory → (string length : ℕ) → ℕ
strnlen_loop zero mem string length = length
strnlen_loop (suc left) mem string length =
    let rest = strnlen_loop left mem string (length + 1) in
    if mem (string + length) == 0 then length else rest

pub strnlen : Memory → (string maxlen : ℕ) → ℕ
unfolding strnlen_loop
strnlen mem string maxlen = strnlen_loop maxlen mem string 0

is_equal : Sign → Bool
is_equal equal = true
is_equal _ = false

-- `for (i = …; i <= haystack_len - needle_len; i++)` with `n` rounds left.
strstr_loop : (n : ℕ) → Memory → (haystack needle needle_len i : ℕ) → Option ℕ
unfolding is_equal memcmp
strstr_loop zero mem haystack needle needle_len i = none
strstr_loop (suc n) mem haystack needle needle_len i =
    let rest = strstr_loop n mem haystack needle needle_len (i + 1) in
    if is_equal (memcmp mem (haystack + i) needle needle_len) then some (haystack + i) else rest

pub strstr : (fuel : ℕ) → Memory → (haystack needle : ℕ) → Option (Option ℕ)
unfolding strlen strstr_loop
strstr fuel mem haystack needle = do
  haystack_len ← strlen fuel mem haystack
  needle_len ← strlen fuel mem needle
  some (
      if leb needle_len haystack_len
      then strstr_loop (haystack_len - needle_len + 1) mem haystack needle needle_len 0
      else none)

memset_loop : (size : ℕ) → Memory → (dst value : ℕ) → Memory
memset_loop zero mem dst value = mem
memset_loop (suc size) mem dst value =
    memset_loop size (store mem dst (value % 256)) (dst + 1) value

pub memset : Memory → (dst value size : ℕ) → ℕ × Memory
unfolding memset_loop
memset mem dst value size = (dst, memset_loop size mem dst value)

abbrev smaller : ℕ → ℕ → ℕ
smaller a b = if ltb a b then a else b

-- `memcpy (dst, src, n); dst[n] = '\0';`
pub copy_string : Memory → (dst src n : ℕ) → Memory
unfolding memcpy
copy_string mem dst src n = store (memcpy mem dst src n).1 (dst + n) 0

pub strlcpy : (fuel : ℕ) → Memory → (dst src size : ℕ) → Option (ℕ × Memory)
unfolding strlen copy_string
strlcpy fuel mem dst src size = do
  src_len ← strlen fuel mem src
  some (src_len, if ltb 0 size then copy_string mem dst src (smaller src_len (size - 1)) else mem)

pub strlcat : (fuel : ℕ) → Memory → (dst src size : ℕ) → Option (ℕ × Memory)
unfolding strlen copy_string
strlcat fuel mem dst src size = do
  src_len ← strlen fuel mem src
  dst_len ← strlen fuel mem dst
  some (
    src_len + dst_len,
    if ltb 0 size && ltb dst_len size
        then copy_string mem (dst + dst_len) src (smaller src_len (size - dst_len - 1))
        else mem,
  )
