-- ===== src/Trie/Start.antt =====
-- The trie that the first call of `add` goes to.
use infix_search.Base.{
  ℕ, ◌≡◌, refl, sym, false, List, [], ◌⊎◌, inl, inr, In, arith, subst, ◌==◌, Bool-cases,
}
use infix_search.Base.Text.{c_str, IsText}
use infix_search.Node
use infix_search.Node.{Ptr, Node, blank}
use infix_search.Trie.{Trie, empty, val_of, ensure_head, add}
use infix_search.Trie.Shape.{tail_at, children_at, leaf_at, IsTrie, Distinct, Stored}
use infix_search.Trie.Words.{starred}

-- The trie of a `search_t` that has made its head.
abbrev pub start : Trie
start = (ensure_head empty).0

pub start-children : (q : Ptr) → children_at start q ≡ []
unfolding ensure_head Node.set_tail
start-children q = ground arith

start-leaf : (q : Ptr) → leaf_at start q ≡ false
unfolding ensure_head Node.set_tail
start-leaf q = ground arith

start-star : tail_at start 0 ≡ starred []
unfolding ensure_head Node.set_tail c_str
start-star = refl

start-tail : (q : Ptr) → (tail_at start q ≡ starred []) ⊎ (tail_at start q ≡ [])
unfolding ensure_head Node.set_tail c_str
start-tail q = elim (Bool-cases (q == 0)) [
  | inl e ↦ inl (ground arith)
  | inr e ↦ inr (ground arith)
]

start-IsText : (q : Ptr) → IsText (tail_at start q)
start-IsText q = elim (start-tail q) [
  | inl e ↦ subst IsText (sym e) ((λ a. absurd (omega arith)), tt)
  | inr e ↦ subst IsText (sym e) tt
]

no_child : (p c : Ptr) → ¬ In c (children_at start p)
no_child p c i = subst (In c) (start-children p) i

pub start-IsTrie : IsTrie start 0
unfolding ensure_head
start-IsTrie = record {
  head = refl;
  head_lt = omega arith;
  star = start-star;
  fresh = λ p le. start-children p;
  child_lt = λ p c i. absurd (no_child p c i);
  child_parent = λ p c i. absurd (no_child p c i);
  child_ne_head = λ p c i. absurd (no_child p c i);
  texts = start-IsText;
  distinct = λ p. subst (Distinct (val_of start)) (sym (start-children p)) tt;
  room = λ p. rw (start-children p) (omega arith);
}

-- The first call of `add` goes to a trie that is well-formed and stores nothing.
pub add-first :
    (key : List ℕ)
    → (add key empty ≡ add key start) × IsTrie start 0 × ((w : List ℕ) → ¬ Stored start 0 w)
unfolding add ensure_head
add-first key = (refl, start-IsTrie, λ w (p, r, leaf). cc (start-leaf p))
