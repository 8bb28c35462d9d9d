-- ===== src/Trie/Leafs.antt =====
-- What `add` has done to the store when it has made a leaf below a node.
use infix_search.Base.{
  ℕ, suc, ◌<◌, ◌≡◌, ◌≢◌, refl, sym, ap, ◌∙◌, true, some, List, [], ◌∷◌, ◌++◌, In, arith, length,
  subst,
}
use infix_search.Base.Run.{ok, Returns, returns}
use infix_search.Base.Text.{IsText, c_str-text, first_char}
use infix_search.Node
use infix_search.Node.{Ptr, Node, blank}
use infix_search.Trie.{Trie, val_of, modify, alloc, set_child, fork_new}
use infix_search.Trie.Shape.{tail_at, children_at, leaf_at, parent_at}
use infix_search.Trie.Children.{set_child-ok}
use infix_search.Trie.Forks.{lt_ne}

-- `s'` is `s` after a new leaf was made below `t`.
pub record Leafed (s s' : Trie) (t : Ptr) (rest : List ℕ) : Type 0 where
  pub next : s'.next ≡ suc s.next
  pub head : s'.head ≡ s.head
  pub tail_new : tail_at s' s.next ≡ rest
  pub tail_other : (q : Ptr) → q ≢ s.next → tail_at s' q ≡ tail_at s q
  pub leaf_new : leaf_at s' s.next ≡ true
  pub leaf_other : (q : Ptr) → q ≢ s.next → leaf_at s' q ≡ leaf_at s q
  pub children_t : children_at s' t ≡ children_at s t ++ s.next ∷ []
  pub children_new : children_at s' s.next ≡ []
  pub children_other : (q : Ptr) → q ≢ t → q ≢ s.next → children_at s' q ≡ children_at s q
  pub parent_new : parent_at s' s.next ≡ some t
  pub parent_other : (q : Ptr) → q ≢ s.next → parent_at s' q ≡ parent_at s q

-- The second fork, with the `set_parent` that ends the iteration.
pub fork_new-Leafed :
    (s : Trie) (t : Ptr) (rest : List ℕ)
    → t < s.next
    → IsText rest
    → ((d : Ptr) → In d (children_at s t) → d < s.next)
    → ((d : Ptr) → In d (children_at s t) → val_of s d ≢ first_char rest)
    → length (children_at s t) < 126
    → Returns
        (λ (s', child).
          (child ≡ s.next) × Leafed s (modify child (Node.set_parent (some t)) s') t rest)
        (fork_new t rest s)
unfolding fork_new Node.set_tail Node.set_is_leaf Node.set_parent Node.get_val
fork_new-Leafed s t rest t_lt text below new room =
    let child = s.next in
    let apart : t ≢ child = omega arith in
    let s2 = modify child (Node.set_is_leaf true) (modify child (Node.set_tail rest) (alloc s)) in
    let same : children_at s2 t ≡ children_at s t = ground arith in
    let still : (d : Ptr) → d ≢ child → val_of s2 d ≡ val_of s d = λ d ne. ground arith in
    let unlike : (d : Ptr) → In d (children_at s2 t) → val_of s2 d ≢ first_char rest =
      λ d i e. let i' = subst (In d) same i in new d i' (sym (still d (lt_ne (below d i'))) ∙ e) in
    let stored : set_child t (first_char rest) child s2
        ≡ ok (modify t (λ n. record n { children = n.children ++ child ∷ [] }) s2) =
      set_child-ok s2 t child (first_char rest) unlike (omega (arith, ap length same)) in
    rw stored (
      returns _ (
        refl,
        record {
          next = refl;
          head = refl;
          tail_new = ground (arith, c_str-text rest text);
          tail_other = λ q a. ground arith;
          leaf_new = ground arith;
          leaf_other = λ q a. ground arith;
          children_t = ground arith;
          children_new = ground arith;
          children_other = λ q a b. ground arith;
          parent_new = ground arith;
          parent_other = λ q a. ground arith;
        },
      ))
