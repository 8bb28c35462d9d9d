-- ===== src/Trie/Tests.antt =====
-- `add` at concrete words, and the theorems about it at these.
use infix_search.Base.{
  ℕ, ◌≡◌, ◌↔◌, refl, ap, true, false, List, [], ◌∷◌, ◌⊎◌, inl, inr, arith, get_or,
}
use infix_search.Base.Run.{Run, ok, fault, exits, out_of_fuel, Ends, Ends-result}
use infix_search.Base.Text.{c_str, IsText}
use infix_search.Node
use infix_search.Node.{Node}
use infix_search.Trie.{
  Trie, empty, set_child, match_tail, move_children, open_fork, end_fork, fork_old, fork_new, fork,
  choose, descend, add_loop, ensure_head, add,
}
use infix_search.Trie.Shape.{tail_at, children_at, leaf_at, IsTrie, Stored}
use infix_search.Trie.Add.{IsFull, stored_as, diverts}
use infix_search.Trie.Words.{
  starred, stored_word, diverted, add-Stored, add-diverted, add-inserts, add-loses,
}
use infix_search.Trie.Start.{start, start-IsTrie, add-first}

-- "abcx", "abcy", "ax", "ab".
abbrev pub abcx : List ℕ
abcx = b'a' ∷ b'b' ∷ b'c' ∷ b'x' ∷ []

abbrev pub abcy : List ℕ
abcy = b'a' ∷ b'b' ∷ b'c' ∷ b'y' ∷ []

abbrev ax : List ℕ
ax = b'a' ∷ b'x' ∷ []

abbrev pub result : Run Trie → Trie
result (ok s) = s
result fault = empty
result exits = empty
result out_of_fuel = empty

abbrev one : Trie
one = result (add abcx start)

abbrev pub two : Trie
two = result (add abcy one)

unfoldable pub add_runs : Trie → Trie
unfolding c_str Node.get_val Node.set_tail Node.set_is_leaf Node.set_parent Node.kill_children
    Node.find_child Node.get_child Node.child_exists Node.set_child set_child match_tail
    move_children open_fork end_fork fork_old fork_new fork choose descend add_loop ensure_head add
    stored_as diverts
add_runs s = s

-- The second word splits the node of the first behind "abc".
two_shape :
    (tail_at two 1 ≡ b'a' ∷ b'b' ∷ b'c' ∷ [])
    × (children_at two 1 ≡ 2 ∷ 3 ∷ [])
    × (tail_at two 2 ≡ b'x' ∷ [])
    × (tail_at two 3 ≡ b'y' ∷ [])
    × (leaf_at two 1 ≡ false)
unfolding add_runs
two_shape = (refl, refl, refl, refl, refl)

pub one-done : add abcx start ≡ ok one
unfolding add_runs
one-done = refl

pub two-done : add abcy one ≡ ok two
unfolding add_runs
two-done = refl

ax-diverted : diverted two 0 ax ≡ true
unfolding add_runs
ax-diverted = refl

pub abcx-IsText : IsText abcx
abcx-IsText = omega arith

pub abcy-IsText : IsText abcy
abcy-IsText = omega arith

ax-IsText : IsText ax
ax-IsText = omega arith

pub one_stores :
    IsTrie one 0
    × ((w : List ℕ) → Stored one 0 w ↔ (Stored start 0 w ⊎ (w ≡ stored_word start 0 abcx)))
one_stores = Ends-result (add-Stored abcx start-IsTrie abcx-IsText) one one-done

pub two_stores :
    IsTrie two 0 × ((w : List ℕ) → Stored two 0 w ↔ (Stored one 0 w ⊎ (w ≡ stored_word one 0 abcy)))
two_stores = Ends-result (add-Stored abcy one_stores.0 abcy-IsText) two two-done

third : List ℕ → ℕ
third w = get_or w 2 0

ax-new : ¬ Stored two 0 (starred ax)
unfolding add_runs third
ax-new stored = elim ((two_stores.1 (starred ax)).0 stored) [
  | inl before ↦ elim ((one_stores.1 (starred ax)).0 before) [
    | inl first ↦ (add-first ax).2 (starred ax) first
    | inr e ↦ absurd (omega (arith, ap third e))
  ]
  | inr e ↦ absurd (omega (arith, ap third e))
]

add-Stored_example :
    Ends
      (λ s'.
        IsTrie s' 0
        × ((w : List ℕ) → Stored s' 0 w ↔ (Stored one 0 w ⊎ (w ≡ stored_word one 0 abcy))))
      (IsFull one)
      (add abcy one)
add-Stored_example = add-Stored abcy one_stores.0 abcy-IsText

add-diverted_example :
    Ends
      (λ s'. Stored s' 0 (starred ax) ↔ (Stored two 0 (starred ax) ⊎ (diverted two 0 ax ≡ false)))
      (IsFull two)
      (add ax two)
add-diverted_example = add-diverted ax two_stores.0 ax-IsText

add-inserts_example :
    Ends
      (λ s'. IsTrie s' 0 × ((w : List ℕ) → Stored s' 0 w ↔ (Stored one 0 w ⊎ (w ≡ starred abcy))))
      (IsFull one)
      (add abcy one)
unfolding add_runs
add-inserts_example = add-inserts abcy one_stores.0 abcy-IsText refl

-- After "abcx" and "abcy" the word "ax" is lost: it follows the child for 'x' below "abc".
add-loses_example : Ends (λ s'. ¬ Stored s' 0 (starred ax)) (IsFull two) (add ax two)
add-loses_example = add-loses ax two_stores.0 ax-IsText ax-diverted ax-new
