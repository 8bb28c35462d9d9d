-- ===== src/Node2/Encoding.antt =====
-- How `node2_t` stores the fields of a `Node`, and what its getters read of them.
use infix_search.Base.{
  ℕ, suc, ◌/◌, ◌%◌, ◌≤◌, ◌<◌, ◌≡◌, refl, ap, Option, none, some, List, [], ◌∷◌, ◌++◌, map, arith,
  ◌==◌, length, take,
}
use infix_search.Base.Text.{IsText, first_char, c_str-terminated}
use infix_search.Node
use infix_search.Node.{Ptr, Node}
use infix_search.Node2
use infix_search.Node2.{
  Node2, realloc, strcpy, tail_buffer, slots, children_loop, exists_loop, child_loop, slot_loop,
  placed_in, grow,
}

-- `neighbors` behind the parent: at least one slot, free if there is no child.
abbrev pub slots_of : List Ptr → List (Option Ptr)
slots_of [] = none ∷ []
slots_of (c ∷ cs) = some c ∷ map some cs

abbrev pub encode : ℕ → List ℕ → Node → Node2
encode meta spare a = record {
  bytes = meta ∷ suc (length (slots_of a.children)) ∷ a.tail ++ 0 ∷ spare;
  neighbors = a.parent ∷ slots_of a.children;
}

abbrev pub FlagsOf : ℕ → Node → Type 0
FlagsOf meta a = (meta < 256) × ((meta % 2 == 1) ≡ a.is_leaf) × ((meta / 2 % 2 == 1) ≡ a.is_indexed)

-- `n` stores the fields of `a`; `spare` is what the buffer holds behind the tail.
pub data Represents : Node2 → Node → Type 0 where
  represents :
      (meta : ℕ) (spare : List ℕ) (a : Node)
      → FlagsOf meta a
      → IsText a.tail
      → length a.children ≤ 126
      → Represents (encode meta spare a) a

pub take_all : {A : Type 0} (xs : List A) → take (length xs) xs ≡ xs
take_all [] = refl
take_all (x ∷ xs) = ap (λ ys. x ∷ ys) (take_all xs)

children_loop-map : (cs : List Ptr) → children_loop (map some cs) ≡ cs
unfolding children_loop
children_loop-map [] = refl
children_loop-map (c ∷ cs) = ap (λ ys. c ∷ ys) (children_loop-map cs)

children_loop-slots_of : (cs : List Ptr) → children_loop (slots_of cs) ≡ cs
unfolding children_loop
children_loop-slots_of [] = refl
children_loop-slots_of (c ∷ cs) = ap (λ ys. c ∷ ys) (children_loop-map cs)

pub slots-encode :
    (meta : ℕ) (spare : List ℕ) (a : Node) → slots (encode meta spare a) ≡ slots_of a.children
slots-encode meta spare a = take_all (slots_of a.children)

get_val-tail :
    (t u : List ℕ)
    → Node2.get_val (record { bytes = 0 ∷ 0 ∷ t ++ 0 ∷ u; neighbors = [] }) ≡ first_char t
unfolding Node2.get_val
get_val-tail [] u = refl
get_val-tail (x ∷ t) u = refl

-- What the node's getters return are the fields that it represents.
pub getters :
    {n : Node2} {a : Node}
    → Represents n a
    → (Node2.get_tail n ≡ a.tail)
      × (Node2.get_val n ≡ Node.get_val a)
      × (Node2.get_is_leaf n ≡ a.is_leaf)
      × (Node2.get_is_indexed n ≡ a.is_indexed)
      × (Node2.get_parent n ≡ a.parent)
      × (Node2.get_children n ≡ a.children)
unfolding Node2.get_tail Node2.get_val Node.get_val Node2.get_is_leaf Node2.get_is_indexed
    Node2.get_parent Node2.get_children
getters (represents meta spare a flags text room) = (
  c_str-terminated a.tail spare text,
  get_val-tail a.tail spare,
  ground arith,
  ground arith,
  refl,
  rw slots-encode (children_loop-slots_of a.children),
)
