-- ===== src/Node1.antt =====
-- `node1_t` (cpp/node.hpp, cpp/node.cpp), the other class of nodes: its fields and its methods. A
-- `map<char, node_t *>` is the list of its entries in the order of `char`, which is signed: the
-- bytes from 128 on come first.
pub mod Maps
pub mod Agrees
pub mod Tests
use infix_search.Base.{
  ℕ, ◌+◌, ◌%◌, Bool, true, false, Option, none, some, List, [], ◌∷◌, map, ◌==◌, ltb, if◌then◌else◌,
  is_some,
}
use infix_search.Node.{Ptr}

-- `node_map_t`.
abbrev pub NodeMap : Type 0
NodeMap = List (ℕ × Ptr)

-- The place of a byte in the order of `char`.
abbrev pub char_order : ℕ → ℕ
char_order c = (c + 128) % 256

-- `child_map.find(val)`, `none` for `child_map.end()`.
unfoldable pub find : ℕ → NodeMap → Option Ptr
find v [] = none
find v ((u, d) ∷ m) = if v == u then some d else find v m

-- `child_map[val] = node`.
unfoldable pub assign : ℕ → Ptr → NodeMap → NodeMap
assign v c [] = (v, c) ∷ []
assign v c ((u, d) ∷ m) =
    let rest = assign v c m in
    if v == u
    then (v, c) ∷ m
    else if ltb (char_order v) (char_order u)
    then (v, c) ∷ (u, d) ∷ m
    else (u, d) ∷ rest

pub record Node1 : Type 0 where
  val : ℕ
  pub is_leaf : Bool
  pub is_indexed : Bool
  pub parent : Option Ptr
  pub tail : List ℕ
  pub child_map : NodeMap

-- The constructor.
abbrev pub make : Node1
make = record {
  val = b'*';
  is_leaf = false;
  is_indexed = false;
  parent = none;
  tail = [];
  child_map = [];
}

unfoldable pub get_children : Node1 → List Ptr
get_children n = map (λ (v, c). c) n.child_map

unfoldable pub kill_children : Node1 → Node1
kill_children n = record n { child_map = [] }

unfoldable pub child_exists : ℕ → Node1 → Bool
child_exists v n = is_some (find v n.child_map)

unfoldable pub get_child : ℕ → Node1 → Option Ptr
unfolding child_exists
get_child v n = if child_exists v n then find v n.child_map else none

unfoldable pub set_child : ℕ → Ptr → Node1 → Node1
set_child v c n = record n { child_map = assign v c n.child_map }

unfoldable pub get_val : Node1 → ℕ
get_val n = n.val

unfoldable set_val : ℕ → Node1 → Node1
set_val v n = record n { val = v }

unfoldable pub get_is_indexed : Node1 → Bool
get_is_indexed n = n.is_indexed

unfoldable pub get_is_leaf : Node1 → Bool
get_is_leaf n = n.is_leaf

unfoldable pub set_is_indexed : Bool → Node1 → Node1
set_is_indexed b n = record n { is_indexed = b }

unfoldable pub set_is_leaf : Bool → Node1 → Node1
set_is_leaf b n = record n { is_leaf = b }

unfoldable pub get_tail : Node1 → List ℕ
get_tail n = n.tail

unfoldable pub set_tail : List ℕ → Node1 → Node1
set_tail t n = record n { tail = t }

unfoldable pub get_parent : Node1 → Option Ptr
get_parent n = n.parent

unfoldable pub set_parent : Option Ptr → Node1 → Node1
set_parent p n = record n { parent = p }
