-- ===== src/Search/Index.antt =====
-- What `index_trie` makes of a trie is an index of it, and `find_path` answers by it.
use infix_search.Base.{
  ℕ, ◌+◌, ◌-◌, ◌%◌, ◌<◌, ◌≡◌, ◌≢◌, inl, inr, refl, sym, ap, ◌∙◌, subst, true, false, none, List, [],
  ◌∷◌, ◌++◌, In, arith, length,
}
use infix_search.Base.Run.{Returns, weaken}
use infix_search.Base.Text.{IsText}
use infix_search.Node.{Ptr}
use infix_search.Trie.{Trie}
use infix_search.Trie.Shape.{tail_at, children_at, IsTrie, Spells, at_head, at_child}
use infix_search.Trie.Marks.{Spells-same}
use infix_search.Search.{Indexed, TreePos, entries, tree_pos, last_char, index_trie, find_path}
use infix_search.Search.Down.{Height}
use infix_search.Search.Paths.{
  IsLow, FitsBuffer, HasLeaves, IsFilled, Reads, IsLow-Height, FitsBuffer-IsShort,
}
use infix_search.Search.Queries.{ArePositions, IsIndex, AddsAnswers, find_path-AddsAnswers}
use infix_search.Search.Same.{
  Same, Same-refl, IsTrie-Same, FitsBuffer-Same, IsLow-Same, HasLeaves-Same, Stored-Same,
}
use infix_search.Search.Pairs.{Holds, TailAt}
use infix_search.Search.Entries.{PairAt, inner, across, below, index_trie-Indexes}

-- A position in a tail below the head.
abbrev IsPosition : Trie → Ptr → TreePos → Type 0
IsPosition s h v =
    (base : List ℕ) × Reads s h base v.node v.index
    × (v.index < length (tail_at s v.node))
    × (v.index < 128)

ArePositions-all :
    {s : Trie} {h : Ptr} (nl : List TreePos)
    → ((v : TreePos) → Holds v nl → IsPosition s h v)
    → ArePositions s h nl
ArePositions-all [] each = tt
ArePositions-all (v ∷ nl) each = (each v (inl refl), ArePositions-all nl (λ u i. each u (inr i)))

TailAt-index :
    (p : Ptr) (i : ℕ) (r : List ℕ) (c d : ℕ) (v : TreePos)
    → TailAt p i r c d v
    → (j : ℕ) × (v ≡ tree_pos p j) × (j < i + length r)
TailAt-index p i [] c d v t = absurd t
TailAt-index p i (a ∷ []) c d v t = absurd t
TailAt-index p i (a ∷ b ∷ r) c d v (inl (e, e', e'')) = (i, e'', omega arith)
TailAt-index p i (a ∷ b ∷ r) c d v (inr t) =
    let (j, e, lt) = TailAt-index p (i + 1) (b ∷ r) c d v t in (j, e, omega arith)

-- The index finds keys of the trie `s`, all of which contain the query.
abbrev pub Serves : Trie → Ptr → ℕ → Indexed → Type 0
Serves s h fuel x =
    (a : ℕ) (key : List ℕ) (found : List (List ℕ))
    → IsText (a ∷ key)
    → a ≢ b'*'
    → Returns (AddsAnswers s h (a ∷ key) found) (find_path fuel x (a ∷ key) found)

module _ {s : Trie} {h : Ptr} (inv : IsTrie s h) (fits : FitsBuffer s h) (filled : IsFilled s) where
  IsPosition-tree_pos :
      (w : List ℕ) (q p : Ptr) (v : TreePos) (j : ℕ)
      → Spells s h w q
      → In p (children_at s q)
      → v ≡ tree_pos p j
      → j < length (tail_at s p)
      → IsPosition s h v
  IsPosition-tree_pos w q p v j r i e lt =
      let short = FitsBuffer-IsShort inv fits (w ++ tail_at s p) p (at_child r i refl) in
      let small : j % 256 ≡ j = omega (arith, short) in
      subst (IsPosition s h) (sym e)
        (_, (w, q, r, i, omega arith, refl), omega arith, omega (arith, short))

  IsPosition-PairAt :
      (w : List ℕ) (q p : Ptr) (c d : ℕ) (v : TreePos)
      → Spells s h w q
      → In p (children_at s q)
      → PairAt s p true c d v
      → IsPosition s h v
  IsPosition-PairAt w q p c d v r i (inner e t) =
      let (j, e', lt) = TailAt-index p 0 (tail_at s p) c d v t in
      IsPosition-tree_pos w q p v j r i e' (omega arith)
  IsPosition-PairAt w q p c d v r i (across k j (e, e', e'')) =
      IsPosition-tree_pos w q p v (length (tail_at s p) - 1) r i e'' (grind (arith, filled p k))
  IsPosition-PairAt w q p c d v r i (below k j b) =
      IsPosition-PairAt (w ++ tail_at s p) p k c d v (at_child r i refl) j b

  IsPosition-head : (c d : ℕ) (v : TreePos) → c ≢ b'*' → PairAt s h false c d v → IsPosition s h v
  IsPosition-head c d v ne (inner e t) = absurd (grind arith)
  IsPosition-head c d v ne (across k j (e, e', e'')) = absurd (ne (e ∙ ap last_char inv.star))
  IsPosition-head c d v ne (below k j b) =
      IsPosition-PairAt (tail_at s h) h k c d v (at_head refl refl) j b

  IsPosition-Same : {s' : Trie} → Same s s' → (v : TreePos) → IsPosition s h v → IsPosition s' h v
  IsPosition-Same same v (base, (w, q, r, i, le, e), lt, small) = (
    base,
    (
      w,
      q,
      Spells-same same.shape r,
      subst (λ l. In v.node l) (sym (same.shape.children q)) i,
      rw (same.shape.tails v.node) le,
      rw (same.shape.tails v.node) e,
    ),
    rw (same.shape.tails v.node) lt,
    small,
  )

  -- The run leaves the words of the trie, and an index of it.
  pub index_trie-IsIndex :
      (fuel : ℕ)
      → Height s fuel h
      → Returns
          (λ x. Same s x.trie × IsIndex x.trie h x.tpm)
          (index_trie fuel h false (record { trie = s; tpm = λ a b. none }))
  index_trie-IsIndex fuel high =
      weaken (index_trie-Indexes fuel h false _ high filled (Same-refl s)) λ x (same, lists). (
        same,
        λ a b nl ne e. ArePositions-all nl λ v i.
            IsPosition-Same same v
              (elim ((lists a b v).0 (subst (λ o. Holds v (entries o)) (sym e) i)) [
                | inl before ↦ absurd before
                | inr pair ↦ IsPosition-head a b v ne pair
              ]),
      )

  module _ (leaves : HasLeaves s h) (fuel : ℕ) (low : IsLow s h fuel) where
    -- What is indexed answers queries: `find_path` for one without NUL that does not begin with "*"
    -- runs without a fault, and what it adds are stored keys that contain the query.
    pub index_trie-Serves :
        Returns
          (λ x. Serves s h fuel x)
          (index_trie fuel h false (record { trie = s; tpm = λ a b. none }))
    index_trie-Serves =
        weaken
          (index_trie-IsIndex fuel
            (IsLow-Height fuel fuel (tail_at s h) h (at_head refl refl) low (omega arith)))
          λ x (same, index) a key found text ne.
            weaken
              (find_path-AddsAnswers (IsTrie-Same same inv) (FitsBuffer-Same same fits)
                (HasLeaves-Same same leaves) fuel (IsLow-Same same low) x.tpm a key found index text
                ne)
              λ found' (ks, e, each). (
                ks,
                e,
                λ u has. let (stored, parts) = each u has in (Stored-Same same stored, parts),
              )
