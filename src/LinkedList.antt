-- ===== src/LinkedList.antt =====
-- src/lib/kernel/list.c: doubly linked lists with a head and a tail element, on a heap of links.
-- An element is named by its address, and 0 is a null pointer. A function returns `none` where an
-- ASSERT fails.
pub mod Links
pub mod Insert
pub mod Remove
pub mod Queue
pub mod Walk
pub mod Ordered
pub mod Shared
mod Tests
use project_os.Base.{
  ℕ, zero, suc, ◌+◌, Bool, true, false, not, ◌&&◌, ◌||◌, Option, none, some, ◌==◌, if◌then◌else◌,
  update, assert, ◌>>=◌, ◌>>◌,
}

-- The members of every `struct list_elem`.
pub record Heap : Type 0 where
  pub prev : ℕ → ℕ
  pub next : ℕ → ℕ

-- `e->prev = v;` and `e->next = v;`
abbrev pub set_prev : Heap → (e v : ℕ) → Heap
set_prev h e v = record h { prev = update h.prev e v }

abbrev pub set_next : Heap → (e v : ℕ) → Heap
set_next h e v = record h { next = update h.next e v }

-- `&list->head` and `&list->tail`: an element has 8 bytes.
abbrev pub list_head : ℕ → ℕ
list_head list = list

abbrev pub list_tail : ℕ → ℕ
list_tail list = list + 8

abbrev pub is_head : Heap → ℕ → Bool
is_head h e = not (e == 0) && h.prev e == 0 && not (h.next e == 0)

abbrev pub is_interior : Heap → ℕ → Bool
is_interior h e = not (e == 0) && not (h.prev e == 0) && not (h.next e == 0)

abbrev pub is_tail : Heap → ℕ → Bool
is_tail h e = not (e == 0) && not (h.prev e == 0) && h.next e == 0

unfoldable pub list_init : Heap → ℕ → Heap
list_init h list =
    let h1 = set_prev h (list_head list) 0 in
    let h2 = set_next h1 (list_head list) (list_tail list) in
    let h3 = set_prev h2 (list_tail list) (list_head list) in set_next h3 (list_tail list) 0

abbrev pub list_begin : Heap → ℕ → ℕ
list_begin h list = h.next (list_head list)

abbrev pub list_end : ℕ → ℕ
list_end list = list_tail list

pub list_next : Heap → ℕ → Option ℕ
list_next h elem = do assert (is_head h elem || is_interior h elem); some (h.next elem)

pub list_prev : Heap → ℕ → Option ℕ
list_prev h elem = do assert (is_interior h elem || is_tail h elem); some (h.prev elem)

-- The four writes of `list_insert`.
abbrev pub link : Heap → (before elem : ℕ) → Heap
link h before elem =
    let h1 = set_prev h elem (h.prev before) in
    let h2 = set_next h1 elem before in
    let h3 = set_next h2 (h2.prev before) elem in set_prev h3 before elem

unfoldable pub list_insert : Heap → (before elem : ℕ) → Option Heap
list_insert h before elem = do
  assert (is_interior h before || is_tail h before)
  assert (not (elem == 0))
  some (link h before elem)

pub list_push_front : Heap → (list elem : ℕ) → Option Heap
unfolding list_insert
list_push_front h list elem = list_insert h (list_begin h list) elem

unfoldable pub list_push_back : Heap → (list elem : ℕ) → Option Heap
unfolding list_insert
list_push_back h list elem = list_insert h (list_end list) elem

-- The two writes of `list_remove`.
abbrev pub unlink : Heap → ℕ → Heap
unlink h elem =
    let h1 = set_next h (h.prev elem) (h.next elem) in set_prev h1 (h1.next elem) (h1.prev elem)

unfoldable pub list_remove : Heap → ℕ → Option (ℕ × Heap)
list_remove h elem = do assert (is_interior h elem); some ((unlink h elem).next elem, unlink h elem)

abbrev pub list_empty : Heap → ℕ → Bool
list_empty h list = list_begin h list == list_end list

pub list_front : Heap → ℕ → Option ℕ
list_front h list = do assert (not (list_empty h list)); some (h.next (list_head list))

pub list_back : Heap → ℕ → Option ℕ
list_back h list = do assert (not (list_empty h list)); some (h.prev (list_tail list))

pub list_pop_front : Heap → ℕ → Option (ℕ × Heap)
unfolding list_front list_remove
list_pop_front h list = do
  front ← list_front h list
  (_, h') ← list_remove h front
  some (front, h')

pub list_pop_back : Heap → ℕ → Option (ℕ × Heap)
unfolding list_back list_remove
list_pop_back h list = do back ← list_back h list; (_, h') ← list_remove h back; some (back, h')

-- The loops run to the end of the list. They take fuel, and return `none` if that runs out.
size_loop : (fuel : ℕ) → Heap → (list e cnt : ℕ) → Option ℕ
unfolding list_next
size_loop zero h list e cnt = none
size_loop (suc fuel) h list e cnt =
    let rest = list_next h e >>= λ e'. size_loop fuel h list e' (cnt + 1) in
    if e == list_end list then some cnt else rest

pub list_size : (fuel : ℕ) → Heap → ℕ → Option ℕ
unfolding size_loop
list_size fuel h list = size_loop fuel h list (list_begin h list) 0

-- `less` is the comparison with its auxiliary data.
place_loop : (less : ℕ → ℕ → Bool) → (fuel : ℕ) → Heap → (list elem e : ℕ) → Option ℕ
unfolding list_next
place_loop less zero h list elem e = none
place_loop less (suc fuel) h list elem e =
    let rest = list_next h e >>= λ e'. place_loop less fuel h list elem e' in
    if e == list_end list then some e else if less elem e then some e else rest

pub list_insert_ordered : (less : ℕ → ℕ → Bool) → (fuel : ℕ) → Heap → (list elem : ℕ) → Option Heap
unfolding place_loop list_insert
list_insert_ordered less fuel h list elem = do
  assert (not (elem == 0))
  e ← place_loop less fuel h list elem (list_begin h list)
  list_insert h e elem

-- The loops of `list_max` and `list_min`; `better best e` says that `e` is taken.
extreme_loop : (better : ℕ → ℕ → Bool) → (fuel : ℕ) → Heap → (list best e : ℕ) → Option ℕ
unfolding list_next
extreme_loop better zero h list best e = none
extreme_loop better (suc fuel) h list best e =
    let rest = list_next h e >>= λ e'.
    extreme_loop better fuel h list (if better best e then e else best) e' in
    if e == list_end list then some best else rest

extreme : (better : ℕ → ℕ → Bool) → (fuel : ℕ) → Heap → ℕ → Option ℕ
unfolding extreme_loop list_next
extreme better fuel h list =
    if list_empty h list
    then some (list_begin h list)
    else (list_next h (list_begin h list) >>= λ e.
        extreme_loop better fuel h list (list_begin h list) e)

pub list_max : (less : ℕ → ℕ → Bool) → (fuel : ℕ) → Heap → ℕ → Option ℕ
unfolding extreme
list_max less fuel h list = extreme less fuel h list

pub list_min : (less : ℕ → ℕ → Bool) → (fuel : ℕ) → Heap → ℕ → Option ℕ
unfolding extreme
list_min less fuel h list = extreme (λ best e. less e best) fuel h list

-- The writes of `list_splice`, once `last` is the last element of the range itself.
abbrev pub splice : Heap → (before first last : ℕ) → Heap
splice h before first last =
    let h1 = set_next h (h.prev first) (h.next last) in
    let h2 = set_prev h1 (h1.next last) (h1.prev first) in
    let h3 = set_prev h2 first (h2.prev before) in
    let h4 = set_next h3 last before in
    let h5 = set_next h4 (h4.prev before) first in set_prev h5 before last

pub list_splice : Heap → (before first last : ℕ) → Option Heap
unfolding list_prev
list_splice h before first last = do
  assert (is_interior h before || is_tail h before)
  if first == last
      then some h
      else (list_prev h last >>= λ last'.
          assert (is_interior h first)
          >> (assert (is_interior h last') >> some (splice h before first last')))
