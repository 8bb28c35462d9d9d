-- ===== src/Trie/Keeps.antt =====
-- Both forks keep the invariant of the trie.
use infix_search.Base.{
  ℕ, suc, ◌≤◌, ◌<◌, ◌≡◌, ◌≢◌, sym, ap, ◌∙◌, some, List, [], ◌∷◌, inl, inr, In, arith, length, subst,
  ℕ_discrete, length-append,
}
use infix_search.Base.Text.{IsText, first_char}
use infix_search.Node
use infix_search.Node.{Ptr, Node}
use infix_search.Trie.{Trie, val_of}
use infix_search.Trie.Shape.{tail_at, children_at, parent_at, Distinct, IsTrie, parent_unique}
use infix_search.Trie.Growth.{In-snoc}
use infix_search.Trie.Children.{Distinct-same, Distinct-snoc}
use infix_search.Trie.Forks.{Forked, lt_ne}
use infix_search.Trie.Leafs.{Leafed}

module _ {s s' : Trie} {h t : Ptr} {front back : List ℕ} (inv : IsTrie s h)
    (f : Forked s s' t front back) (t_lt : t < s.next) (t_ne_head : t ≢ h)
    (own : ¬ In t (children_at s t)) (front_text : IsText front) (back_text : IsText back)
    (same_first : first_char front ≡ first_char (tail_at s t)) where
  -- Where a child of the forked trie stands.
  data Place (p c : Ptr) : Type 0 where
    at_t : p ≡ t → c ≡ s.next → Place p c
    at_old : p ≡ s.next → In c (children_at s t) → Place p c
    elsewhere : p ≢ t → p ≢ s.next → In c (children_at s p) → Place p c

  place : (p c : Ptr) → In c (children_at s' p) → Place p c
  place p c i = elim (ℕ_discrete p t) [
    | yes pt ↦ elim (subst (In c) (ap (children_at s') pt ∙ f.children_t) i) [
      | inl e ↦ at_t pt e
      | inr none_left ↦ absurd none_left
    ]
    | no pt ↦ elim (ℕ_discrete p s.next) [
      | yes po ↦ at_old po (subst (In c) (ap (children_at s') po ∙ f.children_old) i)
      | no po ↦ elsewhere pt po (subst (In c) (f.children_other p pt po) i)
    ]
  ]

  val_kept : (q : Ptr) → q ≢ s.next → val_of s q ≡ val_of s' q
  unfolding Node.get_val
  val_kept q a = elim (ℕ_discrete q t) [
    | yes qt ↦
        ap (λ x. first_char (tail_at s x)) qt
        ∙ sym same_first
        ∙ ap first_char (sym f.tail_t)
        ∙ ap (λ x. first_char (tail_at s' x)) (sym qt)
    | no qt ↦ ap first_char (sym (f.tail_other q qt a))
  ]

  forked_lt : (p c : Ptr) → Place p c → c < s'.next
  forked_lt p c (at_t _ e) = rw f.next (omega arith)
  forked_lt p c (at_old _ i) = rw f.next (omega (arith, inv.child_lt t c i))
  forked_lt p c (elsewhere _ _ i) = rw f.next (omega (arith, inv.child_lt p c i))

  forked_parent : (p c : Ptr) → Place p c → parent_at s' c ≡ some p
  forked_parent p c (at_t pt e) = ap (parent_at s') e ∙ f.parent_old ∙ ap some (sym pt)
  forked_parent p c (at_old po i) = f.parent_moved c i ∙ ap some (sym po)
  forked_parent p c (elsewhere a b i) =
      f.parent_other c (lt_ne (inv.child_lt p c i)) (λ j. a (parent_unique inv p t c i j))
      ∙ inv.child_parent p c i

  forked_ne_head : (p c : Ptr) → Place p c → c ≢ h
  forked_ne_head p c (at_t pt e) = λ a. lt_ne inv.head_lt (sym a ∙ e)
  forked_ne_head p c (at_old po i) = inv.child_ne_head t c i
  forked_ne_head p c (elsewhere a b i) = inv.child_ne_head p c i

  -- A list of children of the trie before has the characters that it had.
  Distinct-kept : (p : Ptr) → Distinct (val_of s') (children_at s p)
  Distinct-kept p =
      Distinct-same (children_at s p) (λ q i. val_kept q (lt_ne (inv.child_lt p q i)))
        (inv.distinct p)

  texts_kept : (p : Ptr) → IsText (tail_at s' p)
  texts_kept p = elim (ℕ_discrete p t) [
    | yes pt ↦ rw (pt, f.tail_t) front_text
    | no pt ↦ elim (ℕ_discrete p s.next) [
      | yes po ↦ rw (po, f.tail_old) back_text
      | no po ↦ rw (f.tail_other p pt po) (inv.texts p)
    ]
  ]

  forked-Distinct : (p : Ptr) → Distinct (val_of s') (children_at s' p)
  forked-Distinct p = elim (ℕ_discrete p t) [
    | yes pt ↦
        subst (Distinct (val_of s')) (sym (ap (children_at s') pt ∙ f.children_t))
          (λ d i. absurd i, tt)
    | no pt ↦ elim (ℕ_discrete p s.next) [
      | yes po ↦
          subst (Distinct (val_of s')) (sym (ap (children_at s') po ∙ f.children_old))
            (Distinct-kept t)
      | no po ↦ subst (Distinct (val_of s')) (sym (f.children_other p pt po)) (Distinct-kept p)
    ]
  ]

  forked_room : (p : Ptr) → length (children_at s' p) ≤ 126
  forked_room p = elim (ℕ_discrete p t) [
    | yes pt ↦ rw (pt, f.children_t) (omega arith)
    | no pt ↦ elim (ℕ_discrete p s.next) [
      | yes po ↦ rw (po, f.children_old) (inv.room t)
      | no po ↦ rw (f.children_other p pt po) (inv.room p)
    ]
  ]

  pub Forked-IsTrie : IsTrie s' h
  Forked-IsTrie = record {
    head = f.head ∙ inv.head;
    head_lt = rw f.next (omega (arith, inv.head_lt));
    star = f.tail_other h (λ e. t_ne_head (sym e)) (lt_ne inv.head_lt) ∙ inv.star;
    fresh = λ p le.
        let le' : suc s.next ≤ p = subst (λ n. n ≤ p) f.next le in
        f.children_other p (λ e. absurd (omega arith)) (λ e. absurd (omega arith))
        ∙ inv.fresh p (omega arith);
    child_lt = λ p c i. forked_lt p c (place p c i);
    child_parent = λ p c i. forked_parent p c (place p c i);
    child_ne_head = λ p c i. forked_ne_head p c (place p c i);
    texts = texts_kept;
    distinct = forked-Distinct;
    room = forked_room;
  }

module _ {s s' : Trie} {h t : Ptr} {rest : List ℕ} (inv : IsTrie s h) (l : Leafed s s' t rest)
    (t_lt : t < s.next) (text : IsText rest)
    (unlike : (d : Ptr) → In d (children_at s t) → val_of s d ≢ first_char rest)
    (room : length (children_at s t) < 126) where
  data LeafPlace (p c : Ptr) : Type 0 where
    at_new : p ≡ t → c ≡ s.next → LeafPlace p c
    as_before : In c (children_at s p) → LeafPlace p c

  children_kept : (p : Ptr) → p ≢ t → children_at s' p ≡ children_at s p
  children_kept p a = elim (ℕ_discrete p s.next) [
    | yes po ↦
        ap (children_at s') po
        ∙ l.children_new
        ∙ sym (inv.fresh s.next (omega arith))
        ∙ ap (children_at s) (sym po)
    | no po ↦ l.children_other p a po
  ]

  leaf_place : (p c : Ptr) → In c (children_at s' p) → LeafPlace p c
  leaf_place p c i = elim (ℕ_discrete p t) [
    | yes pt ↦
        elim ((In-snoc c s.next (children_at s t)).0
          (subst (In c) (ap (children_at s') pt ∙ l.children_t) i)) [
            | inl j ↦ as_before (subst (λ x. In c (children_at s x)) (sym pt) j)
            | inr e ↦ at_new pt e
          ]
    | no pt ↦ as_before (subst (In c) (children_kept p pt) i)
  ]

  leafed_lt : (p c : Ptr) → LeafPlace p c → c < s'.next
  leafed_lt p c (at_new _ e) = rw l.next (omega arith)
  leafed_lt p c (as_before i) = rw l.next (omega (arith, inv.child_lt p c i))

  leafed_parent : (p c : Ptr) → LeafPlace p c → parent_at s' c ≡ some p
  leafed_parent p c (at_new pt e) = ap (parent_at s') e ∙ l.parent_new ∙ ap some (sym pt)
  leafed_parent p c (as_before i) =
      l.parent_other c (lt_ne (inv.child_lt p c i)) ∙ inv.child_parent p c i

  leafed_ne_head : (p c : Ptr) → LeafPlace p c → c ≢ h
  leafed_ne_head p c (at_new pt e) = λ a. lt_ne inv.head_lt (sym a ∙ e)
  leafed_ne_head p c (as_before i) = inv.child_ne_head p c i

  val-leafed : (q : Ptr) → q ≢ s.next → val_of s q ≡ val_of s' q
  unfolding Node.get_val
  val-leafed q a = ap first_char (sym (l.tail_other q a))

  val_new : val_of s' s.next ≡ first_char rest
  unfolding Node.get_val
  val_new = ap first_char l.tail_new

  leafed_texts : (p : Ptr) → IsText (tail_at s' p)
  leafed_texts p = elim (ℕ_discrete p s.next) [
    | yes po ↦ rw (po, l.tail_new) text
    | no po ↦ rw (l.tail_other p po) (inv.texts p)
  ]

  still-Distinct : (p : Ptr) → Distinct (val_of s') (children_at s p)
  still-Distinct p =
      Distinct-same (children_at s p) (λ q i. val-leafed q (lt_ne (inv.child_lt p q i)))
        (inv.distinct p)

  leafed-Distinct : (p : Ptr) → Distinct (val_of s') (children_at s' p)
  leafed-Distinct p = elim (ℕ_discrete p t) [
    | yes pt ↦ subst (Distinct (val_of s')) (sym (ap (children_at s') pt ∙ l.children_t)) (
        Distinct-snoc (val_of s') (children_at s t) s.next (still-Distinct t)
          (λ d i e. unlike d i (val-leafed d (lt_ne (inv.child_lt t d i)) ∙ e ∙ val_new)))
    | no pt ↦ subst (Distinct (val_of s')) (sym (children_kept p pt)) (still-Distinct p)
  ]

  leafed_room : (p : Ptr) → length (children_at s' p) ≤ 126
  leafed_room p = elim (ℕ_discrete p t) [
    | yes pt ↦ rw (pt, l.children_t) (omega (arith, length-append (children_at s t) (s.next ∷ [])))
    | no pt ↦ rw (children_kept p pt) (inv.room p)
  ]

  pub Leafed-IsTrie : IsTrie s' h
  Leafed-IsTrie = record {
    head = l.head ∙ inv.head;
    head_lt = rw l.next (omega (arith, inv.head_lt));
    star = l.tail_other h (lt_ne inv.head_lt) ∙ inv.star;
    fresh = λ p le.
        let le' : suc s.next ≤ p = subst (λ n. n ≤ p) l.next le in
        children_kept p (λ e. absurd (omega arith)) ∙ inv.fresh p (omega arith);
    child_lt = λ p c i. leafed_lt p c (leaf_place p c i);
    child_parent = λ p c i. leafed_parent p c (leaf_place p c i);
    child_ne_head = λ p c i. leafed_ne_head p c (leaf_place p c i);
    texts = leafed_texts;
    distinct = leafed-Distinct;
    room = leafed_room;
  }
