-- ===== src/Trie/Shape.antt =====
-- The words that a trie stores, read from its nodes, and the invariant that `add` keeps.
use mathlib.Core.Path.{subst}
use infix_search.Base.{
  ℕ, ◌≤◌, ◌<◌, ◌≡◌, ◌≢◌, sym, ap, ◌∙◌, Bool, true, Option, some, List, [], ◌∷◌, ◌++◌, In, length,
}
use infix_search.Base.Text.{IsText}
use infix_search.Node.{Ptr}
use infix_search.Trie.{Trie, val_of}

abbrev pub tail_at : Trie → Ptr → List ℕ
tail_at s p = (s.nodes p).tail

abbrev pub children_at : Trie → Ptr → List Ptr
children_at s p = (s.nodes p).children

abbrev pub leaf_at : Trie → Ptr → Bool
leaf_at s p = (s.nodes p).is_leaf

abbrev pub parent_at : Trie → Ptr → Option Ptr
parent_at s p = (s.nodes p).parent

-- The tails on the way from the head `h` to a node spell a word.
pub data Spells (s : Trie) (h : Ptr) : List ℕ → Ptr → Type 0 where
  at_head : {w : List ℕ} {p : Ptr} → p ≡ h → w ≡ tail_at s h → Spells s h w p
  at_child :
      {v w : List ℕ} {p c : Ptr}
      → Spells s h v p
      → In c (children_at s p)
      → w ≡ v ++ tail_at s c
      → Spells s h w c

-- A leaf stores the word that leads to it. Words begin with the "*" of the head.
abbrev pub Stored : Trie → Ptr → List ℕ → Type 0
Stored s h w = (p : Ptr) × Spells s h w p × (leaf_at s p ≡ true)

-- No two nodes of a list have the same value under `f`.
abbrev pub Distinct : (Ptr → ℕ) → List Ptr → Type 0
Distinct f [] = Unit {0}
Distinct f (c ∷ cs) = ((d : Ptr) → In d cs → f c ≢ f d) × Distinct f cs

pub record IsTrie (s : Trie) (h : Ptr) : Type 0 where
  pub head : s.head ≡ some h
  pub head_lt : h < s.next
  pub star : tail_at s h ≡ b'*' ∷ []
  pub fresh : (p : Ptr) → s.next ≤ p → children_at s p ≡ []
  pub child_lt : (p c : Ptr) → In c (children_at s p) → c < s.next
  pub child_parent : (p c : Ptr) → In c (children_at s p) → parent_at s c ≡ some p
  pub child_ne_head : (p c : Ptr) → In c (children_at s p) → c ≢ h
  pub texts : (p : Ptr) → IsText (tail_at s p)
  pub distinct : (p : Ptr) → Distinct (val_of s) (children_at s p)
  pub room : (p : Ptr) → length (children_at s p) ≤ 126

module _ {s : Trie} {h : Ptr} (inv : IsTrie s h) where
  open inv use {child_parent, child_ne_head, child_lt, fresh, head_lt}

  -- The two lists that hold a node are those of one parent.
  pub parent_unique : (p q c : Ptr) → In c (children_at s p) → In c (children_at s q) → p ≡ q
  parent_unique p q c hp hq = cc (child_parent p c hp, child_parent q c hq)

  -- One word leads to each node.
  pub Spells-unique : {v w : List ℕ} {p : Ptr} → Spells s h v p → Spells s h w p → v ≡ w
  Spells-unique (at_head a e) (at_head b e') = e ∙ sym e'
  Spells-unique (at_head a e) (at_child r i e') = absurd (child_ne_head _ _ i a)
  Spells-unique (at_child r i e) (at_head b e') = absurd (child_ne_head _ _ i b)
  Spells-unique (at_child {p} {c} r i e) (at_child {v = u} {p = q} r' i' e') =
      let same = Spells-unique r (subst (λ x. Spells s h u x) (parent_unique q p c i' i) r') in
      e ∙ ap (λ u. u ++ tail_at s c) same ∙ sym e'

  pub Spells-lt : {w : List ℕ} {p : Ptr} → Spells s h w p → p < s.next
  Spells-lt (at_head a e) = rw a head_lt
  Spells-lt (at_child r i e) = child_lt _ _ i

  -- No reachable node is its own child.
  pub not_own_child : {w : List ℕ} {p : Ptr} → Spells s h w p → ¬ In p (children_at s p)
  not_own_child (at_head a e) i = child_ne_head _ _ i a
  not_own_child (at_child {p = q} {c} r j e) i =
      let same = parent_unique q c c j i in
      not_own_child r (subst (λ x. In x (children_at s x)) (sym same) i)
