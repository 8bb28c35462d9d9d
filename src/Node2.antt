-- ===== src/Node2.antt =====
-- `node2_t` (cpp/node.hpp, cpp/node.cpp): a node as a byte buffer `data` and an array of
-- neighbours. `data[0]` holds the flags, `data[1]` the number of neighbours, and from `data[2]` on
-- stands the NUL-terminated tail. `neighbors[0]` is the parent, the others are the children.
-- Bytes are their unsigned values. An access outside `data` is a fault; `malloc` and `realloc`
-- give the memory that they are asked for, if the size that is asked for is not negative.
pub mod Flags
pub mod Encoding
pub mod Setters
pub mod Tails
pub mod Slots
pub mod Tests
use Prim.Native.Nat.{bit_and, bit_or}
use infix_search.Base.{
  ℕ, suc, ◌+◌, ◌-◌, ◌*◌, ◌/◌, ◌%◌, ◌^◌, Bool, true, false, Option, none, some, List, [], ◌∷◌, ◌++◌,
  ◌==◌, leb, if◌then◌else◌, length, get_or, set, take, drop, replicate,
}
use infix_search.Base.Run.{Run, ok, fault, exits, ◌>>=◌}
use infix_search.Base.Text.{c_str}
use infix_search.Node.{Ptr}

abbrev metadata_index : ℕ
metadata_index = 0

abbrev total_neighbors_index : ℕ
total_neighbors_index = 1

abbrev tail_index : ℕ
tail_index = 2

abbrev bit_index_is_leaf : ℕ
bit_index_is_leaf = 0

abbrev bit_index_is_indexed : ℕ
bit_index_is_indexed = 1

abbrev bit_index_reserved : ℕ
bit_index_reserved = 7

pub record Node2 : Type 0 where
  pub bytes : List ℕ
  pub neighbors : List (Option Ptr)

abbrev byte_at : ℕ → Node2 → ℕ
byte_at i n = get_or n.bytes i 0

abbrev set_byte : ℕ → ℕ → Node2 → Node2
set_byte i b n = record n { bytes = set n.bytes i b }

-- `1 << k` and `0 << k`, of a `bool`.
abbrev bit : Bool → ℕ → ℕ
bit b k = if b then 2 ^ k else 0

-- `realloc` of an array: the front is kept, and what is new is filled with `fresh`.
abbrev pub realloc {ℓ} : {A : Type ℓ} → A → ℕ → List A → List A
realloc fresh n xs = take n xs ++ replicate (n - length xs) fresh

-- `strcpy(buffer + at, text)`: the text and its NUL must fit.
unfoldable pub strcpy : ℕ → List ℕ → List ℕ → Run (List ℕ)
strcpy at text buffer =
    let s = c_str text in
    if leb (at + length s + 1) (length buffer)
    then ok (take at buffer ++ s ++ 0 ∷ drop (at + length s + 1) buffer)
    else fault

unfoldable pub get_is_leaf : Node2 → Bool
get_is_leaf n = byte_at metadata_index n / 2 ^ bit_index_is_leaf % 2 == 1

unfoldable pub get_is_indexed : Node2 → Bool
get_is_indexed n = byte_at metadata_index n / 2 ^ bit_index_is_indexed % 2 == 1

abbrev set_flag : ℕ → Bool → Node2 → Node2
set_flag k b n =
    let meta = byte_at metadata_index n in
    set_byte metadata_index (if b then bit_or meta (bit b k) else bit_and meta (bit b k)) n

unfoldable pub set_is_leaf : Bool → Node2 → Node2
set_is_leaf b n = set_flag bit_index_is_leaf b n

unfoldable pub set_is_indexed : Bool → Node2 → Node2
set_is_indexed b n = set_flag bit_index_is_indexed b n

-- The constructor `node2_t()`.
unfoldable pub make : Node2
unfolding set_is_leaf set_is_indexed
make = set_is_indexed false (
    set_is_leaf false
      (record { bytes = bit true bit_index_reserved ∷ 2 ∷ 0 ∷ []; neighbors = none ∷ none ∷ [] }))

unfoldable pub get_val : Node2 → ℕ
get_val n = byte_at tail_index n

unfoldable pub get_tail : Node2 → List ℕ
get_tail n = c_str (drop tail_index n.bytes)

-- The buffer that `set_tail` copies to: it is reallocated unless `strlen(data) + 1`, which is short
-- where a byte before the tail is 0, is the size that the new tail needs.
unfoldable pub tail_buffer : List ℕ → List ℕ → List ℕ
tail_buffer tail buffer =
    let cur_size = length (c_str buffer) + 1 in
    let new_size = 3 + length tail in
    if cur_size == new_size then buffer else realloc 0 new_size buffer

unfoldable pub set_tail : List ℕ → Node2 → Run Node2
set_tail tail n =
    strcpy tail_index tail (tail_buffer tail n.bytes) >>= λ bytes. ok (record n { bytes = bytes })

unfoldable pub get_parent : Node2 → Option Ptr
get_parent n = get_or n.neighbors 0 none

unfoldable pub set_parent : Option Ptr → Node2 → Node2
set_parent p n = record n { neighbors = set n.neighbors 0 p }

-- `neighbors[1]` up to `neighbors[data[TOTAL_NEIGHBORS_INDEX] - 1]`, which the loops visit.
abbrev pub slots : Node2 → List (Option Ptr)
slots n = drop 1 (take (byte_at total_neighbors_index n) n.neighbors)

children_loop : List (Option Ptr) → List Ptr
children_loop [] = []
children_loop (none ∷ r) = children_loop r
children_loop (some p ∷ r) = p ∷ children_loop r

unfoldable pub get_children : Node2 → List Ptr
unfolding children_loop
get_children n = children_loop (slots n)

-- What the loop of `set_child` finds: a child with the character, a free slot, or neither.
pub data Slot : Type 0 where
  duplicate : Slot
  placed : List (Option Ptr) → Slot
  full : Slot

abbrev behind : Option Ptr → Slot → Slot
behind p duplicate = duplicate
behind p (placed r) = placed (p ∷ r)
behind p full = full

-- `++data[TOTAL_NEIGHBORS_INDEX]` on a signed `char`: 127 becomes -128, the size that is asked
-- of `realloc` is then out of range, and the process exits.
grow : Ptr → Node2 → Run Node2
grow c n =
    let total = byte_at total_neighbors_index n + 1 in
    if total == 128
    then exits
    else ok (record {
      bytes = set n.bytes total_neighbors_index total;
      neighbors = set (realloc none total n.neighbors) (total - 1) (some c);
    })

pub placed_in : Ptr → Node2 → Slot → Run Node2
placed_in c n duplicate = ok n
placed_in c n (placed r) = ok (record n {
  neighbors = take 1 n.neighbors ++ r ++ drop (byte_at total_neighbors_index n) n.neighbors;
})
placed_in c n full = grow c n

module _ (val_of : Ptr → ℕ) where
  exists_loop : ℕ → List (Option Ptr) → Bool
  exists_loop v [] = false
  exists_loop v (none ∷ r) = exists_loop v r
  exists_loop v (some p ∷ r) = if val_of p == v then true else exists_loop v r

  unfoldable pub child_exists : ℕ → Node2 → Bool
  unfolding exists_loop
  child_exists v n = exists_loop v (slots n)

  child_loop : ℕ → List (Option Ptr) → Option Ptr
  child_loop v [] = none
  child_loop v (none ∷ r) = child_loop v r
  child_loop v (some p ∷ r) = if val_of p == v then some p else child_loop v r

  unfoldable pub get_child : ℕ → Node2 → Option Ptr
  unfolding child_loop
  get_child v n = child_loop v (slots n)

  pub slot_loop : ℕ → Ptr → List (Option Ptr) → Slot
  slot_loop v c [] = full
  slot_loop v c (none ∷ r) = placed (some c ∷ r)
  slot_loop v c (some p ∷ r) =
      if val_of p == v then duplicate else behind (some p) (slot_loop v c r)

  unfoldable pub set_child : ℕ → Ptr → Node2 → Run Node2
  set_child v c n = placed_in c n (slot_loop v c (slots n))

unfoldable pub kill_children : Node2 → Node2
kill_children n =
    let total : ℕ = 2 in
    record {
      bytes = set n.bytes total_neighbors_index total;
      neighbors = set (realloc none total n.neighbors) (total - 1) none;
    }
