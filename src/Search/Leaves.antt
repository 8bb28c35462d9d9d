-- ===== src/Search/Leaves.antt =====
-- What `add` keeps of a trie beside its words: a leaf at or below each node but the head, and a
-- tail on each node with children.
use native.Mathlib.Decide.{ℕ_discrete}
use infix_search.Base.{
  ℕ, ◌<◌, ◌≡◌, ◌≢◌, refl, sym, ap, ◌∙◌, subst, true, List, [], ◌++◌, inl, inr, In,
}
use infix_search.Node.{Ptr}
use infix_search.Trie.{Trie}
use infix_search.Trie.Shape.{tail_at, children_at, leaf_at, IsTrie, Spells, Spells-lt}
use infix_search.Trie.Marks.{
  mark, SameShape, SameShape-sym, Spells-same, mark-SameShape, leaf-mark_self, leaf-mark_ne,
}
use infix_search.Search.Same.{Below-same}
use infix_search.Trie.Add.{is_empty-ne}
use infix_search.Trie.Splits.{Split, ne_of_lt, before}
use infix_search.Trie.Growth.{Grown, was_grown, child_kept}
use infix_search.Trie.Grafts.{Grew, by_leaf, by_split}
use infix_search.Search.Down.{Below, here, down, Listed}
use infix_search.Search.Paths.{IsFilled, HasLeaves}

-- There is a leaf at or below the node.
abbrev LeafBelow : Trie → Ptr → Type 0
LeafBelow s p = (u : List ℕ) × Listed s p [] u

leaf_below :
    {s : Trie} {p q : Ptr} {v : List ℕ} → Below s p v q → leaf_at s q ≡ true → LeafBelow s p
leaf_below {q} {v} b leaf = (v, (q, v, b, leaf, refl))

through : {s : Trie} {p c : Ptr} → In c (children_at s p) → LeafBelow s c → LeafBelow s p
through i (u, (q, v, b, leaf, e)) = leaf_below (down i b refl) leaf

module _ {s s' : Trie} {h t new : Ptr} {rest : List ℕ} (word : List ℕ) (inv : IsTrie s h)
    (grown : Grown s s' t new rest) (to_t : Spells s h word t) where
  Below-grown : {p q : Ptr} {v : List ℕ} → p < s.next → Below s p v q → Below s' p v q
  Below-grown p_lt (here e e') = here e e'
  Below-grown {p} p_lt (down {c} {v} i b e) =
      let c_lt = inv.child_lt p c i in
      down (child_kept word inv grown to_t p c p_lt i) (Below-grown c_lt b) (
        e
        ∙ ap (λ u. u ++ v) (sym (grown.tail_other c (ne_of_lt s.next c new c_lt grown.new_fresh))))

  HasLeaves-grown : HasLeaves s h → HasLeaves s' h
  HasLeaves-grown leaves w p r ne = elim (ℕ_discrete p new) [
    | yes pn ↦ leaf_below (here pn refl) grown.leaf_new
    | no pn ↦
        let r' = (was_grown word inv grown to_t r).elsewhere pn in
        let (u, (q, v, b, leaf, e)) = leaves w p r' ne in
        let b' = Below-grown (Spells-lt inv r') b in
        elim (ℕ_discrete q new) [
          | yes qn ↦ leaf_below b' (ap (leaf_at s') qn ∙ grown.leaf_new)
          | no qn ↦ leaf_below b' (grown.leaf_other q qn ∙ leaf)
        ]
  ]

  IsFilled-grown : tail_at s t ≢ [] → IsFilled s → IsFilled s'
  IsFilled-grown full filled p c i = elim (ℕ_discrete p new) [
    | yes pn ↦ absurd (subst (In c) (ap (children_at s') pn ∙ grown.children_new) i)
    | no pn ↦ rw (grown.tail_other p pn) (elim (ℕ_discrete p t) [
      | yes pt ↦ is_empty-ne (tail_at s p) (λ e. full (ap (tail_at s) (sym pt) ∙ e))
      | no pt ↦ filled p c (subst (In c) (grown.children_other p pt pn) i)
    ])
  ]

module _ {s s' : Trie} {h t old new : Ptr} {front back rest : List ℕ} (lead : List ℕ)
    (inv : IsTrie s h) (split : Split s s' t old new front back rest)
    (to_t : Spells s h (lead ++ tail_at s t) t) (t_ne_head : t ≢ h) where
  kept : (c : Ptr) → c < s.next → (c ≢ old) × (c ≢ new)
  kept c c_lt =
      (ne_of_lt s.next c old c_lt split.old_fresh, ne_of_lt s.next c new c_lt split.new_fresh)

  over_old : LeafBelow s' old → LeafBelow s' t
  over_old below = through (subst (In old) (sym split.children_t) (inl refl)) below

  leaf_kept : (q : Ptr) → q < s.next → q ≢ t → leaf_at s q ≡ true → leaf_at s' q ≡ true
  leaf_kept q q_lt ne leaf = let (a, b) = kept q q_lt in split.leaf_other q ne a b ∙ leaf

  -- A leaf below a node is still below it, or below the node that took the children of `t`.
  under :
      {p q : Ptr} {v : List ℕ}
      → p < s.next
      → Below s p v q
      → leaf_at s q ≡ true
      → (p ≢ t → LeafBelow s' p) × (p ≡ t → LeafBelow s' old)
  under {p} {q} p_lt (here e e') leaf = (
    λ ne. leaf_below (here refl refl) (leaf_kept p p_lt ne (ap (leaf_at s) e ∙ leaf)),
    λ a. leaf_below (here refl refl) (split.leaf_old ∙ ap (leaf_at s) (sym a ∙ e) ∙ leaf),
  )
  under {p} p_lt (down {c} i b e) leaf =
      let c_lt = inv.child_lt p c i in
      let (other, at_t) = under c_lt b leaf in
      let below : LeafBelow s' c = elim (ℕ_discrete c t) [
        | yes ct ↦ subst (LeafBelow s') (sym ct) (over_old (at_t ct))
        | no ct ↦ other ct
      ] in
      let (a, b') = kept p p_lt in
      (
        λ ne. through (subst (In c) (sym (split.children_other p ne a b')) i) below,
        λ pt. through (subst (In c) (ap (children_at s) pt ∙ sym split.children_old) i) below,
      )

  leaf_new : LeafBelow s' new
  leaf_new = leaf_below (here refl refl) split.leaf_new

  HasLeaves-split : HasLeaves s h → HasLeaves s' h
  HasLeaves-split leaves w p r ne =
      let was = before lead inv split to_t t_ne_head r in
      elim (ℕ_discrete p new) [
        | yes pn ↦ subst (LeafBelow s') (sym pn) leaf_new
        | no pn ↦ elim (ℕ_discrete p t) [
          | yes pt ↦
              subst (LeafBelow s') (sym pt)
                (through (subst (In new) (sym split.children_t) (inr (inl refl))) leaf_new)
          | no pt ↦ elim (ℕ_discrete p old) [
            | yes po ↦
                let r' = was.at_old po in
                let (u, (q, v, b, leaf, e)) = leaves w t r' t_ne_head in
                subst (LeafBelow s') (sym po) ((under (Spells-lt inv r') b leaf).1 refl)
            | no po ↦
                let r' = was.elsewhere pt po pn in
                let (u, (q, v, b, leaf, e)) = leaves w p r' ne in
                (under (Spells-lt inv r') b leaf).0 pt
          ]
        ]
      ]

  IsFilled-split : front ≢ [] → back ≢ [] → IsFilled s → IsFilled s'
  IsFilled-split front_left back_left filled p c i = elim (ℕ_discrete p new) [
    | yes pn ↦ absurd (subst (In c) (ap (children_at s') pn ∙ split.children_new) i)
    | no pn ↦ elim (ℕ_discrete p t) [
      | yes pt ↦ rw (pt, split.tail_t) (is_empty-ne front front_left)
      | no pt ↦ elim (ℕ_discrete p old) [
        | yes po ↦ rw (po, split.tail_old) (is_empty-ne back back_left)
        | no po ↦
            rw (split.tail_other p pt po pn)
              (filled p c (subst (In c) (split.children_other p pt po pn) i))
      ]
    ]
  ]

-- What `add` makes keeps both.
pub Grew-keeps :
    {s s' : Trie} {h c : Ptr}
    → IsTrie s h
    → Grew s h s' c
    → IsFilled s × HasLeaves s h
    → IsFilled s' × HasLeaves s' h
Grew-keeps inv (by_leaf word to_t full grown) (filled, leaves) =
    (IsFilled-grown word inv grown to_t full filled, HasLeaves-grown word inv grown to_t leaves)
Grew-keeps inv (by_split lead to_t ne front_left back_left split) (filled, leaves) = (
  IsFilled-split lead inv split to_t ne front_left back_left filled,
  HasLeaves-split lead inv split to_t ne leaves,
)

-- A node that becomes a leaf keeps both.
pub mark-keeps :
    {s : Trie} {h : Ptr} (t : Ptr)
    → IsFilled s × HasLeaves s h
    → IsFilled (mark t s) × HasLeaves (mark t s) h
mark-keeps {s} {h} t (filled, leaves) = (still_filled, still_leaves)
  where
    same : SameShape s (mark t s)
    same = mark-SameShape t s

    still_filled : IsFilled (mark t s)
    still_filled p c i = rw (same.tails p) (filled p c (subst (In c) (same.children p) i))

    still_leaf : (q : Ptr) → leaf_at s q ≡ true → leaf_at (mark t s) q ≡ true
    still_leaf q leaf = elim (ℕ_discrete q t) [
      | yes qt ↦ ap (leaf_at (mark t s)) qt ∙ leaf-mark_self t s
      | no qt ↦ leaf-mark_ne t s q qt ∙ leaf
    ]

    still_leaves : HasLeaves (mark t s) h
    still_leaves w p r ne =
        let (u, (q, v, b, leaf, e)) = leaves w p (Spells-same (SameShape-sym same) r) ne in
        leaf_below (Below-same same b) (still_leaf q leaf)
