-- ===== src/Node.antt =====
-- What `search_t` relies on of the class `node_t` (cpp/node.hpp): the fields that its virtual
-- methods read and write, and what each write does. `Node2` shows that `node2_t` keeps to it.
-- A pointer is the number of an allocated node, and `NULL` is `none`. `val_of` reads the character
-- of the node behind a pointer, since a child is looked up by the child's own `get_val()`.
use infix_search.Base.{
  ℕ, Bool, false, Option, none, some, List, [], ◌∷◌, ◌++◌, ◌==◌, if◌then◌else◌, is_some, length,
}
use infix_search.Base.Run.{Run, ok, exits}
use infix_search.Base.Text.{c_str, first_char}

abbrev pub Ptr : Type 0
Ptr = ℕ

pub record Node : Type 0 where
  pub tail : List ℕ
  pub is_leaf : Bool
  pub is_indexed : Bool
  pub parent : Option Ptr
  pub children : List Ptr

-- A constructed node: no tail, no neighbours, both flags off.
abbrev pub blank : Node
blank = record { tail = []; is_leaf = false; is_indexed = false; parent = none; children = [] }

-- `get_val()`: the first character of the tail, NUL for an empty one.
unfoldable pub get_val : Node → ℕ
get_val n = first_char n.tail

-- A tail is kept as a C string.
unfoldable pub set_tail : List ℕ → Node → Node
set_tail t n = record n { tail = c_str t }

-- Switching the leaf flag off clears the other flag too: the byte is masked with 0.
unfoldable pub set_is_leaf : Bool → Node → Node
set_is_leaf b n = record n { is_leaf = b; is_indexed = if b then n.is_indexed else false }

-- As `set_is_leaf`, with the flags exchanged.
unfoldable pub set_is_indexed : Bool → Node → Node
set_is_indexed b n = record n { is_indexed = b; is_leaf = if b then n.is_leaf else false }

unfoldable pub set_parent : Option Ptr → Node → Node
set_parent p n = record n { parent = p }

unfoldable pub kill_children : Node → Node
kill_children n = record n { children = [] }

module _ (val_of : Ptr → ℕ) where
  -- The first child with the character.
  unfoldable pub find_child : ℕ → List Ptr → Option Ptr
  find_child v [] = none
  find_child v (c ∷ cs) = if val_of c == v then some c else find_child v cs

  unfoldable pub get_child : ℕ → Node → Option Ptr
  unfolding find_child
  get_child v n = find_child v n.children

  unfoldable pub child_exists : ℕ → Node → Bool
  unfolding get_child
  child_exists v n = is_some (get_child v n)

  -- A second child for the same character is ignored; there is room for 126 children.
  unfoldable pub set_child : ℕ → Ptr → Node → Run Node
  unfolding child_exists
  set_child v c n =
      if child_exists v n
      then ok n
      else if length n.children == 126
      then exits
      else ok (record n { children = n.children ++ c ∷ [] })
