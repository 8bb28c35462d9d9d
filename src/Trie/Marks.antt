-- ===== src/Trie/Marks.antt =====
-- Changes of a node that leave the shape of the trie alone: the leaf flag, and a parent that is
-- written over by itself.
use mathlib.Core.Path.{fun_ext}
use infix_search.Base.{
  ℕ, ◌≡◌, ◌≢◌, ◌↔◌, refl, sym, ap, ◌∙◌, true, some, List, ◌++◌, ◌⊎◌, inl, inr, In, arith, subst,
  ℕ_discrete,
}
use infix_search.Node
use infix_search.Node.{Ptr, Node}
use infix_search.Base.Text.{first_char}
use infix_search.Trie.{Trie, val_of, modify}
use infix_search.Trie.Shape.{
  tail_at, children_at, leaf_at, parent_at, Distinct, IsTrie, Spells, at_head, at_child, Stored,
  Spells-unique,
}
use infix_search.Trie.Children.{Distinct-same}

pub record SameShape (s s' : Trie) : Type 0 where
  pub next : s'.next ≡ s.next
  pub head : s'.head ≡ s.head
  pub tails : (q : Ptr) → tail_at s' q ≡ tail_at s q
  pub children : (q : Ptr) → children_at s' q ≡ children_at s q
  pub parents : (q : Ptr) → parent_at s' q ≡ parent_at s q

pub val-same : {s s' : Trie} → SameShape s s' → (q : Ptr) → val_of s q ≡ val_of s' q
unfolding Node.get_val
val-same same q = ap first_char (sym (same.tails q))

module _ {s s' : Trie} {h : Ptr} (same : SameShape s s') where
  pub IsTrie-same : IsTrie s h → IsTrie s' h
  IsTrie-same inv = record {
    head = same.head ∙ inv.head;
    head_lt = rw same.next inv.head_lt;
    star = same.tails h ∙ inv.star;
    fresh = λ p le. same.children p ∙ inv.fresh p (rw same.next at le);
    child_lt = λ p c i. rw same.next (inv.child_lt p c (subst (In c) (same.children p) i));
    child_parent =
        λ p c i. same.parents c ∙ inv.child_parent p c (subst (In c) (same.children p) i);
    child_ne_head = λ p c i. inv.child_ne_head p c (subst (In c) (same.children p) i);
    texts = λ p. rw (same.tails p) (inv.texts p);
    distinct = λ p.
        subst (Distinct (val_of s')) (sym (same.children p))
          (Distinct-same (children_at s p) (λ q _. val-same same q) (inv.distinct p));
    room = λ p. rw (same.children p) (inv.room p);
  }

  unfoldable pub Spells-same : {w : List ℕ} {p : Ptr} → Spells s h w p → Spells s' h w p
  Spells-same (at_head a e) = at_head a (e ∙ sym (same.tails h))
  Spells-same (at_child {v} {p} {c} r i e) =
      at_child (Spells-same r) (subst (In c) (sym (same.children p)) i)
        (e ∙ ap (λ u. v ++ u) (sym (same.tails c)))

pub SameShape-sym : {s s' : Trie} → SameShape s s' → SameShape s' s
SameShape-sym same = record {
  next = sym same.next;
  head = sym same.head;
  tails = λ q. sym (same.tails q);
  children = λ q. sym (same.children q);
  parents = λ q. sym (same.parents q);
}

abbrev pub mark : Ptr → Trie → Trie
mark t s = modify t (Node.set_is_leaf true) s

pub mark-SameShape : (t : Ptr) (s : Trie) → SameShape s (mark t s)
unfolding Node.set_is_leaf
mark-SameShape t s = record {
  next = refl;
  head = refl;
  tails = λ q. ground arith;
  children = λ q. ground arith;
  parents = λ q. ground arith;
}

pub leaf-mark_self : (t : Ptr) (s : Trie) → leaf_at (mark t s) t ≡ true
unfolding Node.set_is_leaf
leaf-mark_self t s = ground arith

pub leaf-mark_ne : (t : Ptr) (s : Trie) (q : Ptr) → q ≢ t → leaf_at (mark t s) q ≡ leaf_at s q
unfolding Node.set_is_leaf
leaf-mark_ne t s q a = ground arith

module _ {s : Trie} {h : Ptr} (t : Ptr) (word : List ℕ) (inv : IsTrie s h)
    (here : Spells s h word t) where
  pub mark-IsTrie : IsTrie (mark t s) h
  mark-IsTrie = IsTrie-same (mark-SameShape t s) inv

  marked_was : (w : List ℕ) → Stored (mark t s) h w → Stored s h w ⊎ (w ≡ word)
  marked_was w (q, r, leaf) =
      let r' = Spells-same (SameShape-sym (mark-SameShape t s)) r in
      elim (ℕ_discrete q t) [
        | yes qt ↦ inr (Spells-unique inv (subst (Spells s h w) qt r') here)
        | no qt ↦ inl (q, r', sym (leaf-mark_ne t s q qt) ∙ leaf)
      ]

  marked_has : (w : List ℕ) → Stored s h w ⊎ (w ≡ word) → Stored (mark t s) h w
  marked_has w (inl (q, r, leaf)) =
      let r' = Spells-same (mark-SameShape t s) r in
      elim (ℕ_discrete q t) [
        | yes qt ↦ (q, r', ap (leaf_at (mark t s)) qt ∙ leaf-mark_self t s)
        | no qt ↦ (q, r', leaf-mark_ne t s q qt ∙ leaf)
      ]
  marked_has w (inr e) = (
    t,
    Spells-same (mark-SameShape t s) (subst (λ u. Spells s h u t) (sym e) here),
    leaf-mark_self t s,
  )

  -- A node that becomes a leaf adds the word that leads to it.
  pub Stored-mark : (w : List ℕ) → Stored (mark t s) h w ↔ (Stored s h w ⊎ (w ≡ word))
  Stored-mark w = (marked_was w, marked_has w)

-- The parent of a child is written over by itself.
pub reparent :
    (s : Trie) (c t : Ptr) → parent_at s c ≡ some t → modify c (Node.set_parent (some t)) s ≡ s
unfolding Node.set_parent
reparent s c t e = λ i. record { nodes = fun_ext same i; next = s.next; head = s.head }
  where
    same : (q : Ptr) → (modify c (Node.set_parent (some t)) s).nodes q ≡ s.nodes q
    same q = ground arith
