-- ===== src/Trie.antt =====
-- The trie that `search_t` builds (cpp/search.cpp, `search_t::add`). Nodes stand in a store, and a
-- pointer is the number of a node in the order of allocation. Each node is what its virtual methods
-- show of it (`Node`). The member `traverse` is a variable of `add`, and `i` is kept as what is
-- left of the word, `word.substr(i)`. The flag `single_char` is never set, so the branch that it
-- guards is left out.
pub mod Shape
pub mod Splits
pub mod Growth
pub mod Grafts
pub mod Children
pub mod Forks
pub mod Leafs
pub mod Keeps
pub mod Marks
pub mod Matching
pub mod Descend
pub mod Add
pub mod Course
pub mod Words
pub mod Start
pub mod Tests
use infix_search.Base.{
  ℕ, zero, suc, ◌+◌, Bool, true, false, Option, none, some, List, [], ◌∷◌, ◌==◌, if◌then◌else◌,
  length, is_empty, ◌&&◌,
}
use infix_search.Base.Run.{Run, ok, fault, out_of_fuel, ◌>>=◌}
use infix_search.Base.Text.{first_char}
use infix_search.Node
use infix_search.Node.{Ptr, Node, blank}

pub record Trie : Type 0 where
  pub nodes : Ptr → Node
  pub next : ℕ
  pub head : Option Ptr

-- A `search_t` before the first word.
abbrev pub empty : Trie
empty = record { nodes = λ p. blank; next = 0; head = none }

abbrev update : (Ptr → Node) → Ptr → Node → Ptr → Node
update f p n q = if q == p then n else f q

-- A method that cannot fail, called on the node behind `p`.
abbrev pub modify : Ptr → (Node → Node) → Trie → Trie
modify p f s = record s { nodes = update s.nodes p (f (s.nodes p)) }

-- `make_node`: the new node is `s.next`.
abbrev pub alloc : Trie → Trie
alloc s = record s { nodes = update s.nodes s.next blank; next = suc s.next }

abbrev pub val_of : Trie → Ptr → ℕ
val_of s p = Node.get_val (s.nodes p)

unfoldable pub set_child : Ptr → ℕ → Ptr → Trie → Run Trie
set_child p v c s = Node.set_child (val_of s) v c (s.nodes p) >>= λ n. ok (modify p (λ _. n) s)

-- What the tail and the word have in common, and what is left of each.
pub record Matched : Type 0 where
  pub front : List ℕ
  pub tail_left : List ℕ
  pub word_left : List ℕ

unfoldable pub match_tail : List ℕ → List ℕ → Matched
match_tail [] w = record { front = []; tail_left = []; word_left = w }
match_tail (x ∷ t) [] = record { front = []; tail_left = x ∷ t; word_left = [] }
match_tail (x ∷ t) (y ∷ w) =
    let m = match_tail t w in
    if x == y
    then record m { front = x ∷ m.front }
    else record { front = []; tail_left = x ∷ t; word_left = y ∷ w }

unfoldable pub move_children : Ptr → List Ptr → Trie → Run Trie
move_children old [] s = ok s
move_children old (g ∷ gs) s = set_child old (val_of s g) g s >>= λ s'.
    move_children old gs (modify g (Node.set_parent (some old)) s')

-- The first fork up to the children: `traverse` keeps the front of its tail, and a new node takes
-- the rest of it, with the leaf status.
unfoldable pub open_fork : Ptr → Matched → Trie → Trie
open_fork traverse m s =
    let old = s.next in
    let s1 = alloc (modify traverse (Node.set_tail m.front) s) in
    let s2 = modify old (Node.set_is_leaf (s1.nodes traverse).is_leaf) s1 in
    let s3 = modify old (Node.set_tail m.tail_left) s2 in
    modify old (Node.set_parent (some traverse)) s3

-- Its end, before the new node goes below `traverse`. Children are dropped if there were some.
unfoldable pub end_fork : Ptr → Bool → Trie → Trie
end_fork traverse no_children s =
    modify traverse (Node.set_is_leaf false)
      (if no_children then s else modify traverse Node.kill_children s)

unfoldable pub fork_old : Ptr → Matched → Trie → Run Trie
fork_old traverse m s =
    let old = s.next in
    let s1 = open_fork traverse m s in
    let nl = (s1.nodes traverse).children in
    move_children old nl s1 >>= λ s2.
    set_child traverse (first_char m.tail_left) old (end_fork traverse (is_empty nl) s2)

-- The second fork: a new leaf takes the rest of the word.
unfoldable pub fork_new : Ptr → List ℕ → Trie → Run (Trie × Ptr)
fork_new traverse rest s =
    let child = s.next in
    let s1 = modify child (Node.set_tail rest) (alloc s) in
    let s2 = modify child (Node.set_is_leaf true) s1 in
    set_child traverse (first_char rest) child s2 >>= λ s3. ok (s3, child)

unfoldable pub fork : Ptr → Matched → Trie → Run (Trie × Ptr)
fork traverse m s = (if is_empty m.tail_left then ok s else fork_old traverse m s) >>= λ s'.
    fork_new traverse m.word_left s'

-- The node that an iteration goes on from: the child for the next character of the word, whether
-- or not the tail was matched to its end, or a new fork.
unfoldable pub choose : Ptr → Matched → Trie → Run (Trie × Ptr)
choose traverse m s = elim (Node.get_child (val_of s) (first_char m.word_left) (s.nodes traverse)) [
  | some child ↦ ok (s, child)
  | none ↦ fork traverse m s
]

-- The end of an iteration: `traverse = child; traverse->set_parent(parent)`.
unfoldable pub descend : Ptr → Matched → Trie → Run (Trie × Ptr)
descend traverse m s = choose traverse m s >>= λ (s', child).
    ok (modify child (Node.set_parent (some traverse)) s', child)

-- The `while` loop. On a node with an empty tail `child` stays `NULL` and is dereferenced.
unfoldable pub add_loop : ℕ → Ptr → List ℕ → Trie → Run (Trie × Ptr)
add_loop zero traverse rest s = out_of_fuel
add_loop (suc fuel) traverse [] s = ok (s, traverse)
add_loop (suc fuel) traverse (x ∷ rest) s =
    let tail = (s.nodes traverse).tail in
    let m = match_tail tail (x ∷ rest) in
    let go = descend traverse m s >>= λ (s', child). add_loop fuel child m.word_left s' in
    if is_empty tail
    then fault
    else if is_empty m.word_left && is_empty m.tail_left
    then ok (s, traverse)
    else go

-- `head` is made for the first word, with the tail "*".
unfoldable pub ensure_head : Trie → Trie × Ptr
ensure_head s = elim s.head [
  | some h ↦ (s, h)
  | none ↦
      (record (modify s.next (Node.set_tail (b'*' ∷ [])) (alloc s)) { head = some s.next }, s.next)
]

-- A round that makes a fork takes nothing from the word, and every other takes a character: two
-- rounds more than the word has characters are enough.
unfoldable pub add : List ℕ → Trie → Run Trie
add key s =
    let word = b'*' ∷ key in
    let (s1, h) = ensure_head s in
    add_loop (length word + 2) h word s1 >>= λ (s2, traverse).
    ok (modify traverse (Node.set_is_leaf true) s2)
