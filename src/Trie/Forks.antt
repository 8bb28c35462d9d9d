-- ===== src/Trie/Forks.antt =====
-- What `add` has done to the store when it has moved the children of a node below a new one.
use infix_search.Base.{
  ℕ, suc, ◌<◌, ◌≡◌, ◌≢◌, refl, sym, ap, ◌∙◌, false, some, List, [], ◌∷◌, ◌++◌, In, arith, subst,
  is_empty,
}
use infix_search.Base.Run.{Returns, returns, bind}
use infix_search.Base.Text.{IsText, c_str-text, first_char}
use infix_search.Node
use infix_search.Node.{Ptr, Node, blank}
use infix_search.Trie.{Trie, Matched, val_of, modify, move_children, open_fork, end_fork, fork_old}
use infix_search.Trie.Shape.{tail_at, children_at, leaf_at, parent_at, IsTrie}
use infix_search.Trie.Children.{set_child-ok, Distinct-same, Moved, move_children-Moved}

-- `s'` is `s` after the first fork of the node `t`.
pub record Forked (s s' : Trie) (t : Ptr) (front back : List ℕ) : Type 0 where
  pub next : s'.next ≡ suc s.next
  pub head : s'.head ≡ s.head
  pub tail_t : tail_at s' t ≡ front
  pub tail_old : tail_at s' s.next ≡ back
  pub tail_other : (q : Ptr) → q ≢ t → q ≢ s.next → tail_at s' q ≡ tail_at s q
  pub leaf_t : leaf_at s' t ≡ false
  pub leaf_old : leaf_at s' s.next ≡ leaf_at s t
  pub leaf_other : (q : Ptr) → q ≢ t → q ≢ s.next → leaf_at s' q ≡ leaf_at s q
  pub children_t : children_at s' t ≡ s.next ∷ []
  pub children_old : children_at s' s.next ≡ children_at s t
  pub children_other : (q : Ptr) → q ≢ t → q ≢ s.next → children_at s' q ≡ children_at s q
  pub parent_old : parent_at s' s.next ≡ some t
  pub parent_moved : (q : Ptr) → In q (children_at s t) → parent_at s' q ≡ some s.next
  pub parent_other :
      (q : Ptr) → q ≢ s.next → ¬ In q (children_at s t) → parent_at s' q ≡ parent_at s q

pub lt_ne : {m n : ℕ} → m < n → m ≢ n
lt_ne h = omega arith

-- `s'` is `s` with the tail of `t` cut at `front`, and a new node with what was behind it.
record Opened (s s' : Trie) (t : Ptr) (front back : List ℕ) : Type 0 where
  next : s'.next ≡ suc s.next
  head : s'.head ≡ s.head
  tail_t : tail_at s' t ≡ front
  tail_old : tail_at s' s.next ≡ back
  tail_other : (q : Ptr) → q ≢ t → q ≢ s.next → tail_at s' q ≡ tail_at s q
  leaf_old : leaf_at s' s.next ≡ leaf_at s t
  leaf_other : (q : Ptr) → q ≢ s.next → leaf_at s' q ≡ leaf_at s q
  children_old : children_at s' s.next ≡ []
  children_other : (q : Ptr) → q ≢ s.next → children_at s' q ≡ children_at s q
  parent_old : parent_at s' s.next ≡ some t
  parent_other : (q : Ptr) → q ≢ s.next → parent_at s' q ≡ parent_at s q

open_fork-Opened :
    (s : Trie) (t : Ptr) (m : Matched)
    → t ≢ s.next
    → IsText m.front
    → IsText m.tail_left
    → Opened s (open_fork t m s) t m.front m.tail_left
unfolding open_fork Node.set_tail Node.set_is_leaf Node.set_parent
open_fork-Opened s t m apart front_text back_text = record {
  next = refl;
  head = refl;
  tail_t = ground (arith, c_str-text m.front front_text);
  tail_old = ground (arith, c_str-text m.tail_left back_text);
  tail_other = λ q a b. ground arith;
  leaf_old = ground arith;
  leaf_other = λ q a. ground arith;
  children_old = ground arith;
  children_other = λ q a. ground arith;
  parent_old = ground arith;
  parent_other = λ q a. ground arith;
}

-- `s'` is `s` with a node that is no leaf and has no children.
record Ended (s s' : Trie) (t : Ptr) : Type 0 where
  next : s'.next ≡ s.next
  head : s'.head ≡ s.head
  tails : (q : Ptr) → tail_at s' q ≡ tail_at s q
  leaf_t : leaf_at s' t ≡ false
  leaf_other : (q : Ptr) → q ≢ t → leaf_at s' q ≡ leaf_at s q
  children_t : children_at s' t ≡ []
  children_other : (q : Ptr) → q ≢ t → children_at s' q ≡ children_at s q
  parents : (q : Ptr) → parent_at s' q ≡ parent_at s q

end_fork-Ended :
    (s : Trie) (t : Ptr) (nl : List Ptr)
    → children_at s t ≡ nl
    → Ended s (end_fork t (is_empty nl) s) t
unfolding end_fork Node.set_is_leaf Node.kill_children
end_fork-Ended s t [] e = record {
  next = refl;
  head = refl;
  tails = λ q. ground arith;
  leaf_t = ground arith;
  leaf_other = λ q a. ground arith;
  children_t = ground arith;
  children_other = λ q a. ground arith;
  parents = λ q. ground arith;
}
end_fork-Ended s t (c ∷ cs) e = record {
  next = refl;
  head = refl;
  tails = λ q. ground arith;
  leaf_t = ground arith;
  leaf_other = λ q a. ground arith;
  children_t = ground arith;
  children_other = λ q a. ground arith;
  parents = λ q. ground arith;
}

module _ {s : Trie} {h : Ptr} (t : Ptr) (m : Matched) (inv : IsTrie s h) (t_lt : t < s.next)
    (front_text : IsText m.front) (back_text : IsText m.tail_left)
    (own : ¬ In t (children_at s t)) where
  apart : t ≢ s.next
  apart = lt_ne t_lt

  opened : Opened s (open_fork t m s) t m.front m.tail_left
  opened = open_fork-Opened s t m apart front_text back_text

  -- A child of `t` is neither `t` nor the new node.
  child_apart : (q : Ptr) → In q (children_at s t) → (q ≢ t) × (q ≢ s.next)
  child_apart q i =
      ((λ e. own (subst (λ x. In x (children_at s t)) e i)), lt_ne (inv.child_lt t q i))

  val-opened : (q : Ptr) → In q (children_at s t) → val_of s q ≡ val_of (open_fork t m s) q
  unfolding Node.get_val
  val-opened q i = let (a, b) = child_apart q i in ap first_char (sym (opened.tail_other q a b))

  moves :
      Returns
        (λ s'. Moved (open_fork t m s) s' s.next (children_at s t))
        (move_children s.next (children_at s t) (open_fork t m s))
  moves =
      move_children-Moved s.next (children_at s t) (open_fork t m s)
        (rw opened.children_old (Distinct-same (children_at s t) val-opened (inv.distinct t)))
        (rw opened.children_old (omega (arith, inv.room t))) (λ i. (child_apart s.next i).1 refl)

  forked :
      (s2 s3 : Trie)
      → Moved (open_fork t m s) s2 s.next (children_at s t)
      → Ended s2 s3 t
      → Forked s
          (modify t (λ n. record n { children = n.children ++ s.next ∷ [] }) s3)
          t
          m.front
          m.tail_left
  forked s2 s3 moved ended =
      let o = opened in
      record {
        next = ended.next ∙ moved.next ∙ o.next;
        head = ended.head ∙ moved.head ∙ o.head;
        tail_t = linked-tail t ∙ ended.tails t ∙ moved.tails t ∙ o.tail_t;
        tail_old = linked-tail s.next ∙ ended.tails s.next ∙ moved.tails s.next ∙ o.tail_old;
        tail_other = λ q a b. linked-tail q ∙ ended.tails q ∙ moved.tails q ∙ o.tail_other q a b;
        leaf_t = linked-leaf t ∙ ended.leaf_t;
        leaf_old =
            linked-leaf s.next
            ∙ ended.leaf_other s.next (λ e. apart (sym e))
            ∙ moved.leaves s.next
            ∙ o.leaf_old;
        leaf_other =
            λ q a b. linked-leaf q ∙ ended.leaf_other q a ∙ moved.leaves q ∙ o.leaf_other q b;
        children_t = ground (arith, ended.children_t);
        children_old =
            linked-children s.next (λ e. apart (sym e))
            ∙ ended.children_other s.next (λ e. apart (sym e))
            ∙ moved.children_old
            ∙ ap (λ cs. cs ++ children_at s t) o.children_old;
        children_other = λ q a b.
            linked-children q a
            ∙ ended.children_other q a
            ∙ moved.children_other q b
            ∙ o.children_other q b;
        parent_old =
            linked-parent s.next
            ∙ ended.parents s.next
            ∙ moved.parent_other s.next (λ i. (child_apart s.next i).1 refl)
            ∙ o.parent_old;
        parent_moved = λ q i. linked-parent q ∙ ended.parents q ∙ moved.parent_moved q i;
        parent_other = λ q a i.
            linked-parent q ∙ ended.parents q ∙ moved.parent_other q i ∙ o.parent_other q a;
      }
    where
      linked : Trie
      linked = modify t (λ n. record n { children = n.children ++ s.next ∷ [] }) s3

      linked-tail : (q : Ptr) → tail_at linked q ≡ tail_at s3 q
      linked-tail q = ground arith

      linked-leaf : (q : Ptr) → leaf_at linked q ≡ leaf_at s3 q
      linked-leaf q = ground arith

      linked-parent : (q : Ptr) → parent_at linked q ≡ parent_at s3 q
      linked-parent q = ground arith

      linked-children : (q : Ptr) → q ≢ t → children_at linked q ≡ children_at s3 q
      linked-children q a = ground arith

  pub fork_old-Forked : Returns (λ s'. Forked s s' t m.front m.tail_left) (fork_old t m s)
  unfolding fork_old
  fork_old-Forked = rw (opened.children_other t apart) (
      bind moves λ s2 moved.
        let ended =
          end_fork-Ended s2 t (children_at s t)
            (moved.children_other t apart ∙ opened.children_other t apart) in
        let s3 = end_fork t (is_empty (children_at s t)) s2 in
        rw
          (set_child-ok s3 t s.next (first_char m.tail_left)
            (λ d i. absurd (subst (In d) ended.children_t i)) (rw ended.children_t (omega arith)))
          (returns _ (forked s2 s3 moved ended)))
