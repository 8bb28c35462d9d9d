-- ===== src/Search.antt =====
-- The index and the search of `search_t` (cpp/search.cpp): `index_trie`, `traverse_up`,
-- `traverse_down_util`, `find_path_util` and `find_path`, over the trie that `add` has built.
-- `path` and `buf` are arrays of 100 characters: what does not fit is a fault. An index into a tail
-- is stored as a `char`. What is printed to `cerr` is left out.
pub mod Up
pub mod Down
pub mod Paths
pub mod Finds
pub mod Rounds
pub mod Queries
pub mod Ways
pub mod Complete
pub mod Same
pub mod Pairs
pub mod Entries
pub mod Index
pub mod Leaves
pub mod Places
pub mod Exact
pub mod Built
pub mod Answered
pub mod Overflow
pub mod Width
pub mod Branches
pub mod Tests
use infix_search.Base.{
  ℕ, zero, suc, ◌+◌, ◌-◌, ◌%◌, Bool, true, false, ◌&&◌, Option, none, some, List, [], ◌∷◌, ◌++◌,
  map, ◌==◌, leb, if◌then◌else◌, length, get_or, take, drop, is_empty,
}
use infix_search.Base.Run.{Run, ok, fault, out_of_fuel, ◌>>=◌}
use infix_search.Base.Text.{c_str, first_char}
use infix_search.Node
use infix_search.Node.{Ptr, Node}
use infix_search.Trie.{Trie, Matched, modify, val_of, match_tail}

-- `tree_pos_val_t`: a node, and an index into its tail as the byte of a `char`.
pub record TreePos : Type 0 where
  pub node : Ptr
  pub index : ℕ

-- `tree_pos_map_t`: what is stored under a pair of characters, `none` for `tpm.end()`.
abbrev pub TreePosMap : Type 0
TreePosMap = ℕ → ℕ → Option (List TreePos)

abbrev pub entries : Option (List TreePos) → List TreePos
entries none = []
entries (some v) = v

-- `tpm[tp_key].push_back(tp_val)`.
unfoldable pub push_back : ℕ → ℕ → TreePos → TreePosMap → TreePosMap
push_back a b v tpm c d = if a == c && b == d then some (entries (tpm a b) ++ v ∷ []) else tpm c d

abbrev pub tree_pos : Ptr → ℕ → TreePos
tree_pos p i = record { node = p; index = i % 256 }

pub record Indexed : Type 0 where
  pub trie : Trie
  pub tpm : TreePosMap

-- The first loop of `index_trie`: each pair of neighbours in the tail, from the index `i` on.
unfoldable pub index_tail : Ptr → ℕ → List ℕ → TreePosMap → TreePosMap
index_tail current i [] tpm = tpm
index_tail current i (a ∷ []) tpm = tpm
index_tail current i (a ∷ b ∷ r) tpm =
    index_tail current (i + 1) (b ∷ r) (push_back a b (tree_pos current i) tpm)

abbrev pub last_char : List ℕ → ℕ
last_char tail = get_or tail (length tail - 1) 0

-- The second loop: the pair across to each child, and the child itself by `visit`.
unfoldable pub index_children :
    (Ptr → Indexed → Run Indexed) → Ptr → List ℕ → List Ptr → Indexed → Run Indexed
index_children visit current tail [] x = ok x
index_children visit current tail (c ∷ nl) x =
    let pos = tree_pos current (length tail - 1) in
    let tpm = push_back (last_char tail) (val_of x.trie c) pos x.tpm in
    if is_empty tail
    then fault
    else (visit c (record x { tpm = tpm }) >>= λ x'. index_children visit current tail nl x')

-- The fuel bounds the depth of the trie. `has_parent` is `parent != NULL`.
unfoldable pub index_trie : ℕ → Ptr → Bool → Indexed → Run Indexed
index_trie zero current has_parent x = out_of_fuel
index_trie (suc fuel) current has_parent x =
    let tail = (x.trie.nodes current).tail in
    let tpm = if has_parent then index_tail current 0 tail x.tpm else x.tpm in
    index_children (λ c. index_trie fuel c true) current tail (x.trie.nodes current).children
      (record x { tpm = tpm })
    >>= λ x'. ok (record x' { trie = modify current (Node.set_is_indexed true) x'.trie })

-- The loop that pushes `tail[count - 1]` down to `tail[0]`. The top of the stack stands first.
unfoldable pub push_tail : ℕ → List ℕ → List ℕ → List ℕ
push_tail zero tail up_stack = up_stack
push_tail (suc count) tail up_stack = push_tail count tail (get_or tail count 0 ∷ up_stack)

-- How many characters a `char` index stands for: it is negative from 128 on.
abbrev pub count_to : ℕ → ℕ
count_to index = if leb 128 (index % 256) then 0 else (index % 256) + 1

-- `charindex + 1` is `count`, 0 for a negative index. The fuel bounds the height of the trie.
unfoldable pub traverse_up : ℕ → Trie → Ptr → ℕ → List ℕ → Run (List ℕ)
traverse_up zero s node count up_stack = out_of_fuel
traverse_up (suc fuel) s node count up_stack =
    let pushed = push_tail count (s.nodes node).tail up_stack in
    let go : Run (List ℕ) = elim (s.nodes node).parent [
      | none ↦ fault
      | some p ↦
          let len = length (s.nodes p).tail in
          traverse_up fuel s p (if len == 0 then 0 else count_to (len - 1)) pushed
    ] in
    elim s.head [ none ↦ go | some h ↦ if node == h then ok up_stack else go ]

unfoldable pub down_children : (Ptr → Run (List (List ℕ))) → List Ptr → Run (List (List ℕ))
down_children visit [] = ok []
down_children visit (c ∷ cs) =
    visit c >>= λ found. down_children visit cs >>= λ rest. ok (found ++ rest)

-- `path` is what stands in the array up to `pathLen`. The fuel bounds the depth of the trie.
unfoldable pub traverse_down_util : ℕ → Trie → Ptr → ℕ → List ℕ → Run (List (List ℕ))
traverse_down_util zero s node tailindex path = out_of_fuel
traverse_down_util (suc fuel) s node tailindex path =
    let path' = path ++ drop tailindex (s.nodes node).tail in
    let here : List (List ℕ) = if (s.nodes node).is_leaf then c_str path' ∷ [] else [] in
    let below = down_children (λ c. traverse_down_util fuel s c 0 path') (s.nodes node).children in
    if leb (length path' + (if (s.nodes node).is_leaf then 1 else 0)) 100
    then (below >>= λ found. ok (here ++ found))
    else fault

-- `found_keys` and `exact_match`.
pub record Found : Type 0 where
  pub found_keys : List (List ℕ)
  pub exact_match : Bool

module _ (fuel : ℕ) (s : Trie) (start : TreePos) (orig_key : List ℕ) where
  -- The suffixes below the end of the match; without a node, the key itself.
  unfoldable pub suffixes_of : Option Ptr → ℕ → Run (List (List ℕ))
  suffixes_of none tailindex = ok (orig_key ∷ [])
  suffixes_of (some node) tailindex =
      if leb (length orig_key) 100 then traverse_down_util fuel s node tailindex orig_key else fault

  -- The first branch of `find_path_util`, for a key that is matched to its end. `--start.second`
  -- leaves `start.index` characters to push.
  unfoldable pub finish : Option Ptr → ℕ → Found → Run Found
  finish node tailindex f = traverse_up fuel s start.node start.index [] >>= λ up_stack.
      let prefix = c_str up_stack in
      if leb (length up_stack + 1) 100
      then (suffixes_of node tailindex >>= λ suffixes.
          let found = if is_empty suffixes then orig_key ∷ [] else suffixes in
          ok (record {
            found_keys = f.found_keys ++ map (λ suffix. prefix ++ suffix) found;
            exact_match = if is_empty prefix then f.exact_match else false;
          }))
      else fault

  -- The key is matched to its end: at the end of a leaf's tail only the key is reported.
  unfoldable pub matched : Ptr → ℕ → Matched → Found → Run Found
  matched node tailindex m f =
      let exact = (s.nodes node).is_leaf && is_empty m.tail_left in
      finish (if exact then none else some node) (tailindex + length m.front)
        (record f { exact_match = exact })

  unfoldable pub onward : (Ptr → Run Found) → Found → Option Ptr → Run Found
  onward visit f none = ok f
  onward visit f (some child) = visit child

  -- A round of `find_path_util`, which compares the key with the tail and goes on in a child.
  unfoldable pub find_path_util : ℕ → Ptr → ℕ → List ℕ → Found → Run Found
  find_path_util zero node tailindex sub_key f = out_of_fuel
  find_path_util (suc rounds) node tailindex [] f = finish (some node) tailindex f
  find_path_util (suc rounds) node tailindex (k ∷ sub_key) f =
      let m = match_tail (drop tailindex (s.nodes node).tail) (k ∷ sub_key) in
      let child = Node.get_child (val_of s) (first_char m.word_left) (s.nodes node) in
      let rest = onward (λ c. find_path_util rounds c 0 m.word_left f) f child in
      if is_empty m.word_left
      then matched node tailindex m f
      else if is_empty m.tail_left
      then rest
      else ok f

-- The loop of `find_path` over the positions of the key's first two characters.
unfoldable pub find_each : ℕ → Trie → List ℕ → List TreePos → Found → Run Found
find_each fuel s key [] f = ok f
find_each fuel s key (pos ∷ nl) f =
    let rest = find_path_util fuel s pos key (length key + 1) pos.node pos.index key f in
    if leb 128 pos.index
    then fault
    else (rest >>= λ f'.
        let more = find_each fuel s key nl f' in if f'.exact_match then ok f' else more)

-- `key[1]` is read at the end of a key of one character, and beyond it in an empty key.
unfoldable pub find_path : ℕ → Indexed → List ℕ → List (List ℕ) → Run (List (List ℕ))
find_path fuel x [] found = fault
find_path fuel x (a ∷ key) found = elim (x.tpm a (first_char key)) [
  | none ↦ ok found
  | some nl ↦
      find_each fuel x.trie (a ∷ key) nl (record { found_keys = found; exact_match = false })
      >>= λ f. ok f.found_keys
]
