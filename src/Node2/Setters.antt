-- ===== src/Node2/Setters.antt =====
-- The constructor of `node2_t`, its flags, its parent, and `kill_children`, refine `Node`.
use infix_search.Base.{
  suc, ◌≡◌, refl, Bool, true, false, Option, none, some, List, [], ◌∷◌, map, arith, length, set,
  ◌-◌,
}
use infix_search.Node
use infix_search.Node.{Ptr, Node}
use infix_search.Node2
use infix_search.Node2.{
  Node2, realloc, strcpy, tail_buffer, slots, children_loop, exists_loop, child_loop, slot_loop,
  placed_in, grow,
}
use infix_search.Node2.Flags.{bit_or-one, bit_or-two, bit_and-zero}
use infix_search.Node2.Encoding.{slots_of, Represents, represents, getters}

make-Represents : Represents Node2.make Node.blank
unfolding Node2.make
make-Represents = represents 0 [] Node.blank (omega arith, refl, refl) tt (omega arith)

set_parent-Represents :
    {n : Node2} {a : Node} (p : Option Ptr)
    → Represents n a
    → Represents (Node2.set_parent p n) (Node.set_parent p a)
unfolding Node2.set_parent Node.set_parent
set_parent-Represents p (represents meta spare a flags text room) =
    represents meta spare (record a { parent = p }) flags text room

set_is_leaf-Represents :
    {n : Node2} {a : Node} (b : Bool)
    → Represents n a
    → Represents (Node2.set_is_leaf b n) (Node.set_is_leaf b a)
unfolding Node2.set_is_leaf Node.set_is_leaf
set_is_leaf-Represents true (represents meta spare a flags text room) =
    represents _ spare (record a { is_leaf = true }) (ground (arith, bit_or-one meta)) text room
set_is_leaf-Represents false (represents meta spare a flags text room) =
    rw (bit_and-zero meta flags.0) (
      represents 0 spare (record a { is_leaf = false; is_indexed = false })
        (omega arith, refl, refl) text room)

set_is_indexed-Represents :
    {n : Node2} {a : Node} (b : Bool)
    → Represents n a
    → Represents (Node2.set_is_indexed b n) (Node.set_is_indexed b a)
unfolding Node2.set_is_indexed Node.set_is_indexed
set_is_indexed-Represents true (represents meta spare a flags text room) =
    represents _ spare (record a { is_indexed = true }) (ground (arith, bit_or-two meta)) text room
set_is_indexed-Represents false (represents meta spare a flags text room) =
    rw (bit_and-zero meta flags.0) (
      represents 0 spare (record a { is_leaf = false; is_indexed = false })
        (omega arith, refl, refl) text room)

two_slots :
    (p : Option Ptr) (cs : List Ptr) → set (realloc none 2 (p ∷ slots_of cs)) 1 none ≡ p ∷ none ∷ []
two_slots p [] = refl
two_slots p (c ∷ cs) =
    let gone : 2 - suc (suc (length (map some cs))) ≡ 0 = omega arith in rw gone refl

pub kill_children-Represents :
    {n : Node2} {a : Node}
    → Represents n a
    → Represents (Node2.kill_children n) (Node.kill_children a)
unfolding Node2.kill_children Node.kill_children
kill_children-Represents (represents meta spare a flags text room) =
    rw (two_slots a.parent a.children)
      (represents meta spare (record a { children = [] }) flags text (omega arith))

-- Either setter of a flag stores the flag, and clears the other one where it switches its own off.
pub set_flags-Represent :
    {n : Node2} {a : Node} (b : Bool)
    → Represents n a
    → Represents (Node2.set_is_leaf b n) (Node.set_is_leaf b a)
      × Represents (Node2.set_is_indexed b n) (Node.set_is_indexed b a)
set_flags-Represent b r = (set_is_leaf-Represents b r, set_is_indexed-Represents b r)

-- Switching the leaf flag off forgets that the node was indexed.
set_is_leaf-forgets :
    {n : Node2} {a : Node}
    → Represents n a
    → Node2.get_is_indexed (Node2.set_is_leaf false (Node2.set_is_indexed true n)) ≡ false
unfolding Node.set_is_leaf
set_is_leaf-forgets r =
    (getters (set_is_leaf-Represents false (set_is_indexed-Represents true r))).3
