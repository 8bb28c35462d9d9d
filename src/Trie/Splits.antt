-- ===== src/Trie/Splits.antt =====
-- What splitting a node does to the words of a trie: every word stays, and one is added.
use mathlib.Core.Path.{subst}
use native.Mathlib.Decide.{ℕ_discrete}
use infix_search.Base.{
  ℕ, ◌≤◌, ◌<◌, ◌≡◌, ◌≢◌, ◌↔◌, refl, sym, ap, ◌∙◌, true, false, List, [], ◌∷◌, ◌++◌, ◌⊎◌, inl, inr,
  In, arith, append_cancel_right, append_assoc,
}
use infix_search.Node.{Ptr}
use infix_search.Trie.{Trie}
use infix_search.Trie.Shape.{
  tail_at, children_at, leaf_at, Spells, at_head, at_child, Stored, IsTrie, Spells-unique,
  Spells-lt,
}

-- `s'` is `s` with the node `t` split behind `front`: a node `old` has the rest `back` of its tail,
-- its leaf status and its children, and a leaf `new` has the tail `rest`.
pub record Split (s s' : Trie) (t old new : Ptr) (front back rest : List ℕ) : Type 0 where
  pub whole : tail_at s t ≡ front ++ back
  pub old_fresh : s.next ≤ old
  pub new_fresh : s.next ≤ new
  pub apart : old ≢ new
  pub tail_t : tail_at s' t ≡ front
  pub leaf_t : leaf_at s' t ≡ false
  pub children_t : children_at s' t ≡ old ∷ new ∷ []
  pub tail_old : tail_at s' old ≡ back
  pub leaf_old : leaf_at s' old ≡ leaf_at s t
  pub children_old : children_at s' old ≡ children_at s t
  pub tail_new : tail_at s' new ≡ rest
  pub leaf_new : leaf_at s' new ≡ true
  pub children_new : children_at s' new ≡ []
  pub tail_other : (q : Ptr) → q ≢ t → q ≢ old → q ≢ new → tail_at s' q ≡ tail_at s q
  pub leaf_other : (q : Ptr) → q ≢ t → q ≢ old → q ≢ new → leaf_at s' q ≡ leaf_at s q
  pub children_other : (q : Ptr) → q ≢ t → q ≢ old → q ≢ new → children_at s' q ≡ children_at s q

pub ne_of_lt : (n q r : ℕ) → q < n → n ≤ r → q ≢ r
ne_of_lt n q r a b = omega arith

-- Where a path of the split trie leads in the trie before.
pub record Before (s : Trie) (h t old new : Ptr) (back added w : List ℕ) (q : Ptr) : Type 0 where
  at_t : q ≡ t → Spells s h (w ++ back) t
  pub at_old : q ≡ old → Spells s h w t
  at_new : q ≡ new → w ≡ added
  pub elsewhere : q ≢ t → q ≢ old → q ≢ new → Spells s h w q

-- Where a path of the trie before leads in the split trie.
record After (s' : Trie) (h t : Ptr) (back w : List ℕ) (q : Ptr) : Type 0 where
  at_t : q ≡ t → (v : List ℕ) × (w ≡ v ++ back) × Spells s' h v t
  elsewhere : q ≢ t → Spells s' h w q

module _ {s s' : Trie} {h t old new : Ptr} {front back rest : List ℕ} (lead : List ℕ)
    (inv : IsTrie s h) (split : Split s s' t old new front back rest)
    (here : Spells s h (lead ++ tail_at s t) t) (t_ne_head : t ≢ h) where
  open split use {
    whole, old_fresh, new_fresh, apart, tail_t, leaf_t, children_t, tail_old, leaf_old,
    children_old, tail_new, leaf_new, children_new, tail_other, leaf_other, children_other,
  }

  t_lt : t < s.next
  t_lt = Spells-lt inv here

  step-Before :
      {v w : List ℕ} {p : Ptr} (c : Ptr)
      → Spells s h v p
      → In c (children_at s p)
      → w ≡ v ++ tail_at s' c
      → Before s h t old new back (lead ++ front ++ rest) w c
  step-Before {v} {w} {p} c r i e =
      let c_lt = inv.child_lt p c i in
      record {
        at_t = λ a.
            subst (λ x. Spells s h (w ++ back) x) a
              (at_child r i (rw (e, a, tail_t, whole, append_assoc)));
        at_old = λ a. absurd (ne_of_lt s.next c old c_lt old_fresh a);
        at_new = λ a. absurd (ne_of_lt s.next c new c_lt new_fresh a);
        elsewhere = λ a b d. at_child r i (e ∙ ap (λ u. v ++ u) (tail_other c a b d));
      }

  Before-at_old :
      (v : List ℕ) {w : List ℕ} {c : Ptr}
      → Spells s h (v ++ back) t
      → c ≡ old
      → w ≡ v ++ tail_at s' c
      → Before s h t old new back (lead ++ front ++ rest) w c
  Before-at_old v {w} r same e = record {
    at_t = λ a. absurd (ne_of_lt s.next t old t_lt old_fresh (sym a ∙ same));
    at_old = λ a. subst (λ u. Spells s h u t) (rw (e, same, tail_old)) r;
    at_new = λ a. absurd (apart (sym same ∙ a));
    elsewhere = λ a b d. absurd (b same);
  }

  Before-at_new :
      (v : List ℕ) {w : List ℕ} {c : Ptr}
      → Spells s h (v ++ back) t
      → c ≡ new
      → w ≡ v ++ tail_at s' c
      → Before s h t old new back (lead ++ front ++ rest) w c
  Before-at_new v {w} r same e =
      let up_to_t : v ++ back ≡ (lead ++ front) ++ back =
        Spells-unique inv r here ∙ rw (whole, append_assoc) in
      record {
        at_t = λ a. absurd (ne_of_lt s.next t new t_lt new_fresh (sym a ∙ same));
        at_old = λ a. absurd (apart (sym a ∙ same));
        at_new = λ a. rw (e, same, tail_new, append_cancel_right v (lead ++ front) back up_to_t);
        elsewhere = λ a b d. absurd (d same);
      }

  pub before :
      {w : List ℕ} {q : Ptr}
      → Spells s' h w q
      → Before s h t old new back (lead ++ front ++ rest) w q
  before {w} {q} (at_head a e) =
      let h_lt : q < s.next = rw a inv.head_lt in
      record {
        at_t = λ b. absurd (t_ne_head (sym b ∙ a));
        at_old = λ b. absurd (ne_of_lt s.next q old h_lt old_fresh b);
        at_new = λ b. absurd (ne_of_lt s.next q new h_lt new_fresh b);
        elsewhere = λ b c d.
            at_head a (e ∙ sym (ap (tail_at s') a) ∙ tail_other q b c d ∙ ap (tail_at s) a);
      }
  before (at_child {v} {w} {p} {c} r i e) =
      let ih = before r in
      elim (ℕ_discrete p t) [
        | yes pt ↦ elim (subst (In c) (ap (children_at s') pt ∙ children_t) i) [
          | inl is_old ↦ Before-at_old v (ih.at_t pt) is_old e
          | inr (inl is_new) ↦ Before-at_new v (ih.at_t pt) is_new e
          | inr (inr none_left) ↦ absurd none_left
        ]
        | no pt ↦ elim (ℕ_discrete p old) [
          | yes po ↦
              step-Before c (ih.at_old po) (subst (In c) (ap (children_at s') po ∙ children_old) i)
                e
          | no po ↦ elim (ℕ_discrete p new) [
            | yes pn ↦ absurd (subst (In c) (ap (children_at s') pn ∙ children_new) i)
            | no pn ↦
                step-Before c (ih.elsewhere pt po pn) (subst (In c) (children_other p pt po pn) i) e
          ]
        ]
      ]

  step-After :
      {v w : List ℕ} {p : Ptr} (c : Ptr)
      → c < s.next
      → Spells s' h v p
      → In c (children_at s' p)
      → w ≡ v ++ tail_at s c
      → After s' h t back w c
  step-After {v} {w} c c_lt r i e = record {
    at_t = λ a. (
      v ++ front,
      rw (e, a, whole, append_assoc),
      subst (λ x. Spells s' h (v ++ front) x) a (at_child r i (rw (a, tail_t))),
    );
    elsewhere = λ a. at_child r i (
        e
        ∙ ap (λ u. v ++ u)
            (sym (
              tail_other c a (ne_of_lt s.next c old c_lt old_fresh)
                (ne_of_lt s.next c new c_lt new_fresh))));
  }

  After-old : {w : List ℕ} → After s' h t back w t → Spells s' h w old
  After-old {w} ih =
      let (v, e, r) = ih.at_t refl in
      at_child r (subst (In old) (sym children_t) (inl refl)) (rw (e, tail_old))

  after : {w : List ℕ} {q : Ptr} → Spells s h w q → After s' h t back w q
  after {w} {q} (at_head a e) =
      let h_lt : q < s.next = rw a inv.head_lt in
      record {
        at_t = λ b. absurd (t_ne_head (sym b ∙ a));
        elsewhere = λ b. at_head a (
            e
            ∙ sym (ap (tail_at s) a)
            ∙ sym (
                tail_other q b (ne_of_lt s.next q old h_lt old_fresh)
                  (ne_of_lt s.next q new h_lt new_fresh))
            ∙ ap (tail_at s') a);
      }
  after (at_child {v} {w} {p} {c} r i e) =
      let c_lt = inv.child_lt p c i in
      let p_lt = Spells-lt inv r in
      elim (ℕ_discrete p t) [
        | yes pt ↦
            step-After c c_lt (After-old (subst (After s' h t back v) pt (after r)))
              (subst (In c) (ap (children_at s) pt ∙ sym children_old) i) e
        | no pt ↦
            step-After c c_lt ((after r).elsewhere pt)
              (subst (In c)
                (sym (
                  children_other p pt (ne_of_lt s.next p old p_lt old_fresh)
                    (ne_of_lt s.next p new p_lt new_fresh)))
                i)
              e
      ]

  pub to_new : Spells s' h (lead ++ front ++ rest) new
  to_new =
      let (v, e, r) = (after here).at_t refl in
      let up_to_t : v ++ back ≡ (lead ++ front) ++ back = sym e ∙ rw (whole, append_assoc) in
      let v_is = append_cancel_right v (lead ++ front) back up_to_t in
      at_child r (subst (In new) (sym children_t) (inr (inl refl))) (rw (tail_new, v_is))

  was-Stored : (w : List ℕ) → Stored s' h w → Stored s h w ⊎ (w ≡ lead ++ front ++ rest)
  was-Stored w (q, r, leaf) = elim (ℕ_discrete q t) [
    | yes qt ↦ cc (ap (leaf_at s') qt, leaf_t)
    | no qt ↦ elim (ℕ_discrete q old) [
      | yes qo ↦ inl (t, (before r).at_old qo, sym leaf_old ∙ sym (ap (leaf_at s') qo) ∙ leaf)
      | no qo ↦ elim (ℕ_discrete q new) [
        | yes qn ↦ inr ((before r).at_new qn)
        | no qn ↦ inl (q, (before r).elsewhere qt qo qn, sym (leaf_other q qt qo qn) ∙ leaf)
      ]
    ]
  ]

  stays-Stored : (w : List ℕ) → Stored s h w ⊎ (w ≡ lead ++ front ++ rest) → Stored s' h w
  stays-Stored w (inl (q, r, leaf)) =
      let q_lt = Spells-lt inv r in
      elim (ℕ_discrete q t) [
        | yes qt ↦ (
          old,
          After-old (subst (After s' h t back w) qt (after r)),
          leaf_old ∙ sym (ap (leaf_at s) qt) ∙ leaf,
        )
        | no qt ↦ (
          q,
          (after r).elsewhere qt,
          leaf_other q qt (ne_of_lt s.next q old q_lt old_fresh)
                (ne_of_lt s.next q new q_lt new_fresh)
              ∙ leaf,
        )
      ]
  stays-Stored w (inr e) = (new, subst (λ u. Spells s' h u new) (sym e) to_new, leaf_new)

  -- The split adds the word that leads to the new leaf, and loses none.
  pub Stored-split : (w : List ℕ) → Stored s' h w ↔ (Stored s h w ⊎ (w ≡ lead ++ front ++ rest))
  Stored-split w = (was-Stored w, stays-Stored w)
