-- ===== src/Node1/Tests.antt =====
-- A node with the children "b", 233 and "a", set in this order.
use infix_search.Base.{ℕ, ◌≡◌, ◌≢◌, refl, some, [], ◌∷◌, arith}
use infix_search.Base.Run.{Returns}
use infix_search.Node
use infix_search.Node.{Ptr, Node, blank}
use infix_search.Node1
use infix_search.Node1.{Node1, make}
use infix_search.Node1.Maps.{IsSorted, set_child-IsSorted}
use infix_search.Node1.Agrees.{Agrees, set_child-Agrees}

map_runs : ℕ → ℕ
unfolding Node1.find Node1.assign Node1.get_children Node1.child_exists Node1.get_child
    Node1.set_child Node1.kill_children Node.find_child Node.get_child Node.child_exists
    Node.set_child Node.kill_children
map_runs n = n

abbrev family : Node1
family = Node1.set_child b'a' 3 (Node1.set_child 233 2 (Node1.set_child b'b' 1 make))

-- The byte 233 is a negative `char`.
family-children : Node1.get_children family ≡ 2 ∷ 3 ∷ 1 ∷ []
unfolding map_runs
family-children = refl

family-IsSorted : IsSorted family.child_map
unfolding map_runs
family-IsSorted = omega arith

set_child-IsSorted_example :
    IsSorted (Node1.set_child b'b' 7 family).child_map
    × (Node1.get_child b'b' (Node1.set_child b'b' 7 family) ≡ some 7)
    × ((w : ℕ)
        → w ≢ b'b'
        → Node1.get_child w (Node1.set_child b'b' 7 family) ≡ Node1.get_child w family)
set_child-IsSorted_example = set_child-IsSorted b'b' 7 family (omega arith) family-IsSorted

-- The node behind a pointer has the pointer's number as its character.
abbrev number : Ptr → ℕ
number p = p

set_child-Agrees_example :
    Returns (Agrees number (Node1.set_child 5 5 make)) (Node.set_child number 5 5 blank)
    × Agrees number (Node1.kill_children make) (Node.kill_children blank)
unfolding map_runs
set_child-Agrees_example = set_child-Agrees number 5 make blank (λ v. refl) refl (omega arith)
