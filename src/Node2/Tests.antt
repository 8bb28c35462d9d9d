-- ===== src/Node2/Tests.antt =====
-- `node2_t` at concrete nodes, and the theorems about it at these.
use infix_search.Base.{ℕ, ◌+◌, ◌≡◌, refl, true, false, some, [], ◌∷◌, arith}
use infix_search.Base.Run.{ok, Returns, ◌>>=◌}
use infix_search.Base.Text.{c_str}
use infix_search.Node
use infix_search.Node.{Ptr, Node}
use infix_search.Node2
use infix_search.Node2.{Node2, strcpy, tail_buffer, slot_loop, placed_in}
use infix_search.Node2.Encoding.{encode, Represents, represents, getters}
use infix_search.Node2.Setters.{set_flags-Represent, kill_children-Represents}
use infix_search.Node2.Tails.{set_tail-Represents}
use infix_search.Node2.Slots.{Agree, set_child-Represents}

-- A leaf with the tail "bc", a parent and two children, in a buffer with a byte to spare.
abbrev sample : Node
sample = record {
  tail = b'b' ∷ b'c' ∷ [];
  is_leaf = true;
  is_indexed = false;
  parent = some 0;
  children = 4 ∷ 7 ∷ [];
}

abbrev sample2 : Node2
sample2 = encode 1 (9 ∷ []) sample

sample-Represents : Represents sample2 sample
sample-Represents =
    represents 1 (9 ∷ []) sample (omega arith, refl, refl) (omega arith) (omega arith)

abbrev letter : Ptr → ℕ
letter p = b'a' + p

longer_tail :
    (Node2.set_tail (b'x' ∷ b'y' ∷ b'z' ∷ []) sample2 >>= λ n. ok n.bytes)
    ≡ ok (1 ∷ 3 ∷ b'x' ∷ b'y' ∷ b'z' ∷ 0 ∷ [])
unfolding Node2.set_tail tail_buffer strcpy c_str
longer_tail = refl

third_child :
    (Node2.set_child letter b'z' 25 sample2 >>= λ n. ok n.neighbors)
    ≡ ok (some 0 ∷ some 4 ∷ some 7 ∷ some 25 ∷ [])
unfolding Node2.set_child slot_loop placed_in Node2.grow
third_child = refl

getters_example :
    (Node2.get_tail sample2 ≡ b'b' ∷ b'c' ∷ [])
    × (Node2.get_val sample2 ≡ Node.get_val sample)
    × (Node2.get_is_leaf sample2 ≡ true)
    × (Node2.get_is_indexed sample2 ≡ false)
    × (Node2.get_parent sample2 ≡ some 0)
    × (Node2.get_children sample2 ≡ 4 ∷ 7 ∷ [])
getters_example = getters sample-Represents

set_tail-Represents_example :
    Returns
      (λ n'. Represents n' (Node.set_tail (b'x' ∷ []) sample))
      (Node2.set_tail (b'x' ∷ []) sample2)
set_tail-Represents_example = set_tail-Represents (b'x' ∷ []) sample-Represents (omega arith)

set_child-Represents_example :
    Agree Represents (Node2.set_child letter b'e' 9 sample2) (Node.set_child letter b'e' 9 sample)
set_child-Represents_example = set_child-Represents letter b'e' 9 sample-Represents

set_flags-Represent_example :
    Represents (Node2.set_is_leaf false sample2) (Node.set_is_leaf false sample)
    × Represents (Node2.set_is_indexed false sample2) (Node.set_is_indexed false sample)
set_flags-Represent_example = set_flags-Represent false sample-Represents

kill_children-Represents_example :
    Represents (Node2.kill_children sample2) (Node.kill_children sample)
kill_children-Represents_example = kill_children-Represents sample-Represents
