-- ===== src/Search/Built.antt =====
-- The search in a trie that `add` has built, from the first word on.
use infix_search.Base.{
  ℕ, ◌<◌, ◌≤◌, ◌≡◌, ◌≢◌, ◌↔◌, sym, ap, subst, false, none, List, [], ◌∷◌, ◌++◌, In, arith, length,
  is_empty, length-append, inl, inr,
}
use infix_search.Base.Run.{ok, Returns, bind, Ends, Ends-weaken, Ends-result, ◌>>=◌}
use infix_search.Base.Text.{IsText}
use infix_search.Node.{Ptr}
use infix_search.Trie.{Trie, add}
use infix_search.Trie.Shape.{tail_at, IsTrie, Spells, Stored, at_head, at_child}
use infix_search.Trie.Add.{IsFull}
use infix_search.Trie.Words.{add-Stores}
use infix_search.Trie.Start.{start, start-IsTrie, start-children}
use infix_search.Search.{index_trie, find_path}
use infix_search.Search.Up.{depth}
use infix_search.Search.Paths.{IsLow, FitsBuffer, HasLeaves, IsFilled, Spells-Below}
use infix_search.Search.Queries.{AddsAnswers, Answers}
use infix_search.Search.Leaves.{Grew-keeps, mark-keeps}
use infix_search.Search.Exact.{EndsWell, ServesAll, index_trie-ServesAll}
use infix_search.Search.Down.{Has}
use infix_search.Search.Index.{Serves, index_trie-Serves}

-- What the searches need of a trie.
pub record IsSearchable (s : Trie) (h : Ptr) : Type 0 where
  pub inv : IsTrie s h
  pub filled : IsFilled s
  pub leaves : HasLeaves s h

-- The tries that calls of `add` make. A call that exits or faults makes none.
pub data IsBuilt : Trie → Type 0 where
  at_start : IsBuilt start
  by_add : {s s' : Trie} (key : List ℕ) → IsBuilt s → IsText key → add key s ≡ ok s' → IsBuilt s'

module _ {s : Trie} {h : Ptr} (key : List ℕ) (search : IsSearchable s h) (text : IsText key) where
  -- `add` of a key without NUL to a well-formed trie whose nodes with children have a tail, and
  -- whose nodes below the head have leaves at or below them, makes such a trie; or it exits, and
  -- then some node has 126 children.
  pub add-IsSearchable : Ends (λ s'. IsSearchable s' h) (IsFull s) (add key s)
  add-IsSearchable = Ends-weaken (add-Stores key search.inv text) λ s' ((s1, t), e, stores).
      let kept : IsFilled s1 × HasLeaves s1 h = elim stores.grew [
        | inl same ↦
            subst (λ x. IsFilled x × HasLeaves x h) (sym same) (search.filled, search.leaves)
        | inr grew ↦ Grew-keeps search.inv grew (search.filled, search.leaves)
      ] in
      let (filled, leaves) = mark-keeps t kept in
      subst (λ x. IsSearchable x h) (sym e)
        (record { inv = stores.keeps; filled = filled; leaves = leaves })

start-HasLeaves : HasLeaves start 0
start-HasLeaves w p (at_head a e) ne = absurd (ne a)
start-HasLeaves w p (at_child {p = q} r i e) ne = absurd (subst (In p) (start-children q) i)

start-IsSearchable : IsSearchable start 0
start-IsSearchable = record {
  inv = start-IsTrie;
  filled = λ p c i. absurd (subst (In c) (start-children p) i);
  leaves = start-HasLeaves;
}

pub IsBuilt-IsSearchable : {s : Trie} → IsBuilt s → IsSearchable s 0
IsBuilt-IsSearchable at_start = start-IsSearchable
IsBuilt-IsSearchable (by_add {s'} key built text e) =
    Ends-result (add-IsSearchable key (IsBuilt-IsSearchable built) text) s' e

-- The words, with the "*" of the head, have at most 100 characters.
abbrev pub HasShortWords : Trie → Ptr → Type 0
HasShortWords s h = (w : List ℕ) → Stored s h w → length w ≤ 100

lt_of_filled : (t : List ℕ) → is_empty t ≡ false → 0 < length t
lt_of_filled [] e = cc
lt_of_filled (x ∷ t) e = omega arith

module _ {s : Trie} {h : Ptr} (search : IsSearchable s h) (short : HasShortWords s h) where
  searchable-FitsBuffer : FitsBuffer s h
  searchable-FitsBuffer w p (at_head a e) = rw (e, search.inv.star) (omega arith)
  searchable-FitsBuffer w p (at_child {p = q} r i e) =
      let r' : Spells s h w p = at_child r i e in
      let (u, (x, v, b, leaf, e')) = search.leaves w p r' (search.inv.child_ne_head q p i) in
      let l = length-append w v in omega (arith, l, short (w ++ v) (x, Spells-Below b w r', leaf))

  -- A path to a node with a tail has at most as many nodes as characters.
  depth-lt-length :
      {w : List ℕ} {p : Ptr} (r : Spells s h w p)
      → is_empty (tail_at s p) ≡ false
      → depth r < length w
  depth-lt-length (at_head a e) full = rw (e, search.inv.star) (omega arith)
  depth-lt-length {p} (at_child {v} {p = q} r i e) full =
      let l = length-append v (tail_at s p) in
      let more : 0 < length (tail_at s p) = lt_of_filled (tail_at s p) full in
      omega (arith, l, ap length e, more, depth-lt-length r (search.filled q p i))

  depth-le-length : {w : List ℕ} {p : Ptr} (r : Spells s h w p) → depth r ≤ length w
  depth-le-length (at_head a e) = omega arith
  depth-le-length {p} (at_child {v} {p = q} r i e) =
      let l = length-append v (tail_at s p) in
      omega (arith, l, ap length e, depth-lt-length r (search.filled q p i))

  searchable-IsLow : IsLow s h 102
  searchable-IsLow w p r = omega (arith, depth-le-length r, searchable-FitsBuffer w p r)

pub IsBuilt-Serves :
    {s : Trie}
    → IsBuilt s
    → HasShortWords s 0
    → Returns
        (λ x. Serves s 0 102 x)
        (index_trie 102 0 false (record { trie = s; tpm = λ a b. none }))
IsBuilt-Serves built short =
    let search = IsBuilt-IsSearchable built in
    index_trie-Serves search.inv (searchable-FitsBuffer search short) search.filled search.leaves
      102 (searchable-IsLow search short)

pub IsBuilt-ServesAll :
    {s : Trie}
    → IsBuilt s
    → HasShortWords s 0
    → Returns
        (λ x. ServesAll s 0 102 x)
        (index_trie 102 0 false (record { trie = s; tpm = λ a b. none }))
IsBuilt-ServesAll built short =
    let search = IsBuilt-IsSearchable built in
    index_trie-ServesAll search.inv (searchable-FitsBuffer search short) search.filled search.leaves
      102 (searchable-IsLow search short)

-- In a trie that calls of `add` with keys without NUL have built from the first on, and whose words
-- have less than 100 characters: `index_trie` from the head and then `find_path`, for a query
-- without NUL that does not begin with "*", run without a fault, in 102 rounds, and what this adds
-- are stored keys that contain the query.
IsBuilt-find_path :
    {s : Trie} (a : ℕ) (key : List ℕ) (found : List (List ℕ))
    → IsBuilt s
    → HasShortWords s 0
    → IsText (a ∷ key)
    → a ≢ b'*'
    → Returns (AddsAnswers s 0 (a ∷ key) found) (
        index_trie 102 0 false (record { trie = s; tpm = λ a b. none }) >>= λ x.
        find_path 102 x (a ∷ key) found)
IsBuilt-find_path a key found built short text ne =
    bind (IsBuilt-Serves built short) (λ x serves. serves a key found text ne)

-- In a trie that calls of `add` with keys without NUL have built from the first on, and whose words
-- have less than 100 characters: `index_trie` from the head and then `find_path` on an empty
-- vector, for a query of at least two characters, without NUL, that does not begin with "*", is no
-- stored key and ends none that another begins with, run without a fault, in 102 rounds, and the
-- vector then holds the stored keys that contain the query, each of them and nothing else.
pub IsBuilt-finds_all :
    {s : Trie} (a b : ℕ) (key : List ℕ)
    → IsBuilt s
    → HasShortWords s 0
    → IsText (a ∷ b ∷ key)
    → a ≢ b'*'
    → EndsWell s 0 (a ∷ b ∷ key)
    → Returns
        (λ found. (u : List ℕ) → Has u found ↔ Answers s 0 (a ∷ b ∷ key) u)
        (index_trie 102 0 false (record { trie = s; tpm = λ a b. none }) >>= λ x.
          find_path 102 x (a ∷ b ∷ key) [])
IsBuilt-finds_all a b key built short text ne alone =
    bind (IsBuilt-ServesAll built short) λ x serves. serves a b key text ne alone
