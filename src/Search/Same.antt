-- ===== src/Search/Same.antt =====
-- Tries that differ in the marks of indexed nodes only, which is what `index_trie` writes.
use infix_search.Base.{ℕ, suc, ◌≡◌, refl, sym, ap, ◌∙◌, subst, true, List, ◌++◌, In, arith}
use infix_search.Node
use infix_search.Node.{Ptr, Node}
use infix_search.Trie.{Trie, modify}
use infix_search.Trie.Shape.{leaf_at, IsTrie, Spells, Stored, at_head, at_child}
use infix_search.Trie.Marks.{SameShape, SameShape-sym, IsTrie-same, Spells-same}
use infix_search.Search.Up.{depth}
use infix_search.Search.Down.{Below, here, down}
use infix_search.Search.Paths.{IsLow, FitsBuffer, HasLeaves}

-- The trie is the same but for the marks of indexed nodes.
pub record Same (s s' : Trie) : Type 0 where
  pub shape : SameShape s s'
  pub leaf : (p : Ptr) → leaf_at s' p ≡ leaf_at s p

pub Same-mark :
    {s s' : Trie} (p : Ptr) → Same s s' → Same s (modify p (Node.set_is_indexed true) s')
unfolding Node.set_is_indexed
Same-mark {s} {s'} p same = record {
  shape = record {
    next = same.shape.next;
    head = same.shape.head;
    tails = λ q. ground (arith, same.shape.tails q, same.shape.tails p);
    children = λ q. ground (arith, same.shape.children q, same.shape.children p);
    parents = λ q. ground (arith, same.shape.parents q, same.shape.parents p);
  };
  leaf = λ q. ground (arith, same.leaf q, same.leaf p);
}

pub Same-refl : (s : Trie) → Same s s
Same-refl s = record {
  shape = record {
    next = refl;
    head = refl;
    tails = λ p. refl;
    children = λ p. refl;
    parents = λ p. refl;
  };
  leaf = λ p. refl;
}

pub Below-same :
    {s s' : Trie} {p q : Ptr} {v : List ℕ} → SameShape s s' → Below s p v q → Below s' p v q
Below-same same (here e e') = here e e'
Below-same same (down {p} {c} {v} i b e) =
    down (subst (In c) (sym (same.children p)) i) (Below-same same b)
      (e ∙ ap (λ t. t ++ v) (sym (same.tails c)))

depth-same :
    {s s' : Trie} {h p : Ptr} {w : List ℕ} (same : SameShape s s') (r : Spells s h w p)
    → depth (Spells-same same r) ≡ depth r
unfolding Spells-same
depth-same same (at_head a e) = refl
depth-same same (at_child r i e) = ap suc (depth-same same r)

back : {s s' : Trie} → Same s s' → SameShape s' s
back same = SameShape-sym same.shape

module _ {s s' : Trie} {h : Ptr} (same : Same s s') where
  pub IsTrie-Same : IsTrie s h → IsTrie s' h
  IsTrie-Same inv = IsTrie-same same.shape inv

  pub FitsBuffer-Same : FitsBuffer s h → FitsBuffer s' h
  FitsBuffer-Same fits w p r = fits w p (Spells-same (back same) r)

  pub IsLow-Same : {n : ℕ} → IsLow s h n → IsLow s' h n
  IsLow-Same low w p r =
      omega (arith, low w p (Spells-same (back same) r), depth-same (back same) r)

  pub Stored-Same : {w : List ℕ} → Stored s' h w → Stored s h w
  Stored-Same (p, r, leaf) = (p, Spells-same (back same) r, sym (same.leaf p) ∙ leaf)

  pub HasLeaves-Same : HasLeaves s h → HasLeaves s' h
  HasLeaves-Same leaves w p r ne =
      let (u, (q, v, b, leaf, e)) = leaves w p (Spells-same (back same) r) ne in
      (u, (q, v, Below-same same.shape b, same.leaf q ∙ leaf, e))
