-- ===== src/Trie/Growth.antt =====
-- What a new leaf below a node does to the words of a trie: every word stays, and one is added.
use mathlib.Core.Path.{subst}
use native.Mathlib.Decide.{ℕ_discrete}
use infix_search.Base.{
  ℕ, ◌≤◌, ◌<◌, ◌≡◌, ◌≢◌, ◌↔◌, refl, sym, ap, ◌∙◌, true, List, [], ◌∷◌, ◌++◌, ◌⊎◌, inl, inr, In,
  arith,
}
use infix_search.Node.{Ptr}
use infix_search.Trie.{Trie}
use infix_search.Trie.Shape.{
  tail_at, children_at, leaf_at, Spells, at_head, at_child, Stored, IsTrie, Spells-unique,
  Spells-lt,
}
use infix_search.Trie.Splits.{ne_of_lt}

-- `s'` is `s` with a leaf `new` below the node `t`.
pub record Grown (s s' : Trie) (t new : Ptr) (rest : List ℕ) : Type 0 where
  pub new_fresh : s.next ≤ new
  pub tail_new : tail_at s' new ≡ rest
  pub leaf_new : leaf_at s' new ≡ true
  pub children_new : children_at s' new ≡ []
  pub children_t : children_at s' t ≡ children_at s t ++ new ∷ []
  pub tail_other : (q : Ptr) → q ≢ new → tail_at s' q ≡ tail_at s q
  pub leaf_other : (q : Ptr) → q ≢ new → leaf_at s' q ≡ leaf_at s q
  pub children_other : (q : Ptr) → q ≢ t → q ≢ new → children_at s' q ≡ children_at s q

pub In-snoc : (c d : ℕ) (cs : List ℕ) → In c (cs ++ d ∷ []) ↔ (In c cs ⊎ (c ≡ d))
In-snoc c d [] = (λ h. ground arith, λ h. ground arith)
In-snoc c d (x ∷ cs) = let (f, g) = In-snoc c d cs in (λ h. ground arith, λ h. ground arith)

pub record WasGrown (s : Trie) (h new : Ptr) (added w : List ℕ) (q : Ptr) : Type 0 where
  at_new : q ≡ new → w ≡ added
  pub elsewhere : q ≢ new → Spells s h w q

module _ {s s' : Trie} {h t new : Ptr} {rest : List ℕ} (word : List ℕ) (inv : IsTrie s h)
    (grown : Grown s s' t new rest) (here : Spells s h word t) where
  open grown use {
    new_fresh, tail_new, leaf_new, children_new, children_t, tail_other, leaf_other, children_other,
  }

  was_below :
      {v w : List ℕ} {p : Ptr} (c : Ptr)
      → Spells s h v p
      → In c (children_at s p)
      → w ≡ v ++ tail_at s' c
      → WasGrown s h new (word ++ rest) w c
  was_below {v} {p} c r i e = record {
    at_new = λ a. absurd (ne_of_lt s.next c new (inv.child_lt p c i) new_fresh a);
    elsewhere = λ a. at_child r i (e ∙ ap (λ u. v ++ u) (tail_other c a));
  }

  pub was_grown : {w : List ℕ} {q : Ptr} → Spells s' h w q → WasGrown s h new (word ++ rest) w q
  was_grown {w} {q} (at_head a e) = record {
    at_new = λ b. absurd (ne_of_lt s.next q new (rw a inv.head_lt) new_fresh b);
    elsewhere = λ b. at_head a (e ∙ sym (ap (tail_at s') a) ∙ tail_other q b ∙ ap (tail_at s) a);
  }
  was_grown (at_child {v} {w} {p} {c} r i e) = elim (ℕ_discrete p new) [
    | yes pn ↦ absurd (subst (In c) (ap (children_at s') pn ∙ children_new) i)
    | no pn ↦
        let r' = (was_grown r).elsewhere pn in
        elim (ℕ_discrete p t) [
          | no pt ↦ was_below c r' (subst (In c) (children_other p pt pn) i) e
          | yes pt ↦
              elim ((In-snoc c new (children_at s t)).0
                (subst (In c) (ap (children_at s') pt ∙ children_t) i)) [
                  | inl below ↦ was_below c (subst (Spells s h v) pt r') below e
                  | inr is_new ↦ record {
                    at_new = λ _.
                        rw (
                          e,
                          is_new,
                          tail_new,
                          Spells-unique inv (subst (Spells s h v) pt r') here,
                        );
                    elsewhere = λ a. absurd (a is_new);
                  }
                ]
        ]
  ]

  pub child_kept : (p c : Ptr) → p < s.next → In c (children_at s p) → In c (children_at s' p)
  child_kept p c p_lt i = elim (ℕ_discrete p t) [
    | yes pt ↦
        subst (In c) (sym (ap (children_at s') pt ∙ children_t))
          ((In-snoc c new (children_at s t)).1 (inl (subst (In c) (ap (children_at s) pt) i)))
    | no pt ↦ subst (In c) (sym (children_other p pt (ne_of_lt s.next p new p_lt new_fresh))) i
  ]

  still : {w : List ℕ} {q : Ptr} → Spells s h w q → Spells s' h w q
  still {w} {q} (at_head a e) =
      at_head a (e ∙ sym (tail_other h (ne_of_lt s.next h new inv.head_lt new_fresh)))
  still (at_child {v} {w} {p} {c} r i e) = at_child (still r) (child_kept p c (Spells-lt inv r) i) (
      e
      ∙ ap (λ u. v ++ u)
          (sym (tail_other c (ne_of_lt s.next c new (inv.child_lt p c i) new_fresh))))

  pub to_leaf : Spells s' h (word ++ rest) new
  to_leaf =
      at_child (still here)
        (subst (In new) (sym children_t) ((In-snoc new new (children_at s t)).1 (inr refl)))
        (rw tail_new)

  grown_was : (w : List ℕ) → Stored s' h w → Stored s h w ⊎ (w ≡ word ++ rest)
  grown_was w (q, r, leaf) = elim (ℕ_discrete q new) [
    | yes qn ↦ inr ((was_grown r).at_new qn)
    | no qn ↦ inl (q, (was_grown r).elsewhere qn, sym (leaf_other q qn) ∙ leaf)
  ]

  grown_has : (w : List ℕ) → Stored s h w ⊎ (w ≡ word ++ rest) → Stored s' h w
  grown_has w (inl (q, r, leaf)) =
      (q, still r, leaf_other q (ne_of_lt s.next q new (Spells-lt inv r) new_fresh) ∙ leaf)
  grown_has w (inr e) = (new, subst (λ u. Spells s' h u new) (sym e) to_leaf, leaf_new)

  -- A new leaf adds the word that leads to it, and loses none.
  pub Stored-grown : (w : List ℕ) → Stored s' h w ↔ (Stored s h w ⊎ (w ≡ word ++ rest))
  Stored-grown w = (grown_was w, grown_has w)
