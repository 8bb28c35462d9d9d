-- ===== src/Trie/Grafts.antt =====
-- The two ways in which `add` makes a leaf below a node with a tail.
use infix_search.Base.{ℕ, ◌≢◌, List, [], ◌++◌}
use infix_search.Node.{Ptr}
use infix_search.Trie.{Trie}
use infix_search.Trie.Shape.{tail_at, Spells}
use infix_search.Trie.Splits.{Split}
use infix_search.Trie.Growth.{Grown}

-- `s'` is `s` with the leaf `c`, which `add` made below a node with a tail.
pub data Grew (s : Trie) (h : Ptr) (s' : Trie) (c : Ptr) : Type 0 where
  by_leaf :
      {t : Ptr} {rest : List ℕ} (word : List ℕ)
      → Spells s h word t
      → tail_at s t ≢ []
      → Grown s s' t c rest
      → Grew s h s' c
  by_split :
      {t old : Ptr} {front back rest : List ℕ} (lead : List ℕ)
      → Spells s h (lead ++ tail_at s t) t
      → t ≢ h
      → front ≢ []
      → back ≢ []
      → Split s s' t old c front back rest
      → Grew s h s' c
