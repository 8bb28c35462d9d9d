-- ===== src/Trie/Descend.antt =====
-- One iteration of `add`: the fork that it makes, or the child that it follows.
use infix_search.Base.{
  ℕ, ◌<◌, ◌≡◌, ◌≢◌, ◌↔◌, refl, sym, ap, ◌∙◌, true, some, List, [], ◌∷◌, ◌++◌, ◌⊎◌, inl, inr, In,
  arith, length, subst, ◌==◌, ==_iff, Bool-cases, append-nil,
}
use infix_search.Base.Run.{
  Run, ok, exits, Returns, returns, bind, Ends, stopped, Ends-of_Returns, ◌>>=◌,
}
use infix_search.Base.Text.{IsText, first_char}
use infix_search.Node
use infix_search.Node.{Ptr, Node}
use infix_search.Trie.{Trie, Matched, val_of, modify, alloc, set_child, fork_old, fork_new}
use infix_search.Trie.Shape.{tail_at, children_at, IsTrie, Spells, Stored, Spells-lt, not_own_child}
use infix_search.Trie.Splits.{Split, Stored-split, to_new}
use infix_search.Trie.Growth.{Grown, Stored-grown, to_leaf}
use infix_search.Trie.Grafts.{Grew, by_leaf, by_split}
use infix_search.Trie.Children.{find_child-none}
use infix_search.Trie.Forks.{Forked, fork_old-Forked, lt_ne}
use infix_search.Trie.Leafs.{Leafed, fork_new-Leafed}
use infix_search.Trie.Keeps.{Forked-IsTrie, Leafed-IsTrie}

-- A new leaf `c` with the tail `rest` stores the word `added`, and nothing else has changed.
pub record Adds (s : Trie) (h : Ptr) (added rest : List ℕ) (s' : Trie) (c : Ptr) : Type 0 where
  pub inv : IsTrie s' h
  pub reached : Spells s' h added c
  pub tail_c : tail_at s' c ≡ rest
  pub words : (w : List ℕ) → Stored s' h w ↔ (Stored s h w ⊎ (w ≡ added))
  pub grew : Grew s h s' c

Leafed-Grown :
    {s s' : Trie} {t : Ptr} {rest : List ℕ} → Leafed s s' t rest → Grown s s' t s.next rest
Leafed-Grown l = record {
  new_fresh = omega arith;
  tail_new = l.tail_new;
  leaf_new = l.leaf_new;
  children_new = l.children_new;
  children_t = l.children_t;
  tail_other = l.tail_other;
  leaf_other = l.leaf_other;
  children_other = l.children_other;
}

Forked-Split :
    {s s1 s' : Trie} {t : Ptr} {front back rest : List ℕ}
    → t < s.next
    → tail_at s t ≡ front ++ back
    → Forked s s1 t front back
    → Leafed s1 s' t rest
    → Split s s' t s.next s1.next front back rest
Forked-Split {s} {s1} {s'} {t} t_lt whole f l =
    let n = f.next in
    let t_ne_new : t ≢ s1.next = omega arith in
    let old_ne_new : s.next ≢ s1.next = omega arith in
    let old_ne_t : s.next ≢ t = omega arith in
    record {
      whole = whole;
      old_fresh = omega arith;
      new_fresh = omega arith;
      apart = old_ne_new;
      tail_t = l.tail_other t t_ne_new ∙ f.tail_t;
      leaf_t = l.leaf_other t t_ne_new ∙ f.leaf_t;
      children_t = l.children_t ∙ ap (λ cs. cs ++ s1.next ∷ []) f.children_t;
      tail_old = l.tail_other s.next old_ne_new ∙ f.tail_old;
      leaf_old = l.leaf_other s.next old_ne_new ∙ f.leaf_old;
      children_old = l.children_other s.next old_ne_t old_ne_new ∙ f.children_old;
      tail_new = l.tail_new;
      leaf_new = l.leaf_new;
      children_new = l.children_new;
      tail_other = λ q a b c. l.tail_other q c ∙ f.tail_other q a b;
      leaf_other = λ q a b c. l.leaf_other q c ∙ f.leaf_other q a b;
      children_other = λ q a b c. l.children_other q a c ∙ f.children_other q a b;
    }

-- `set_child` exits where the node has 126 children and none for the character.
set_child-exits :
    (s : Trie) (p c : Ptr) (v : ℕ)
    → ((d : Ptr) → In d (children_at s p) → val_of s d ≢ v)
    → length (children_at s p) ≡ 126
    → set_child p v c s ≡ exits
unfolding set_child Node.set_child Node.child_exists Node.get_child
set_child-exits s p c v new full =
    rw (find_child-none (val_of s) v (children_at s p) new, (==_iff _ 126).1 full) refl

fork_new-exits :
    (s : Trie) (t : Ptr) (rest : List ℕ)
    → t < s.next
    → ((d : Ptr) → In d (children_at s t) → d < s.next)
    → ((d : Ptr) → In d (children_at s t) → val_of s d ≢ first_char rest)
    → length (children_at s t) ≡ 126
    → fork_new t rest s ≡ exits
unfolding fork_new Node.set_tail Node.set_is_leaf Node.get_val
fork_new-exits s t rest t_lt below new full =
    let child = s.next in
    let apart : t ≢ child = omega arith in
    let s2 = modify child (Node.set_is_leaf true) (modify child (Node.set_tail rest) (alloc s)) in
    let same : children_at s2 t ≡ children_at s t = ground arith in
    let still : (d : Ptr) → d ≢ child → val_of s2 d ≡ val_of s d = λ d ne. ground arith in
    rw
      (set_child-exits s2 t child (first_char rest)
        (λ d i e. let i' = subst (In d) same i in new d i' (sym (still d (lt_ne (below d i'))) ∙ e))
        (ap length same ∙ full))
      refl

-- The iteration's end for a new leaf.
abbrev pub link : Ptr → Trie × Ptr → Run (Trie × Ptr)
link t (s', child) = ok (modify child (Node.set_parent (some t)) s', child)

module _ {s : Trie} {h : Ptr} (lead : List ℕ) (t : Ptr) (m : Matched) (inv : IsTrie s h)
    (here : Spells s h (lead ++ tail_at s t) t) (whole : tail_at s t ≡ m.front ++ m.tail_left)
    (text : IsText m.word_left) (front_left : m.front ≢ []) where
  abbrev pub added : List ℕ
  added = lead ++ m.front ++ m.word_left

  t_lt : t < s.next
  t_lt = Spells-lt inv here

  extended :
      {s' : Trie}
      → m.tail_left ≡ []
      → Leafed s s' t m.word_left
      → ((d : Ptr) → In d (children_at s t) → val_of s d ≢ first_char m.word_left)
      → length (children_at s t) < 126
      → Adds s h added m.word_left s' s.next
  extended none_left l unlike room =
      let to_t : Spells s h (lead ++ m.front) t =
        subst (λ u. Spells s h (lead ++ u) t)
          (whole ∙ ap (λ u. m.front ++ u) none_left ∙ append-nil m.front) here in
      let grown = Leafed-Grown l in
      record {
        inv = Leafed-IsTrie inv l t_lt text unlike room;
        reached = to_leaf (lead ++ m.front) inv grown to_t;
        tail_c = l.tail_new;
        words = Stored-grown (lead ++ m.front) inv grown to_t;
        grew =
            by_leaf (lead ++ m.front) to_t
              (λ e.
                front_left (
                  sym (append-nil m.front)
                  ∙ ap (λ u. m.front ++ u) (sym none_left)
                  ∙ sym whole
                  ∙ e))
              grown;
      }

  -- The tail was matched to its end: the leaf goes below `t`.
  pub extend-Adds :
      m.tail_left ≡ []
      → ((d : Ptr) → In d (children_at s t) → val_of s d ≢ first_char m.word_left)
      → Ends
          (λ (s', c). Adds s h added m.word_left s' c)
          (length (children_at s t) ≡ 126)
          (fork_new t m.word_left s >>= link t)
  extend-Adds none_left unlike = elim (Bool-cases (length (children_at s t) == 126)) [
    | inl full ↦
        rw (fork_new-exits s t m.word_left t_lt (inv.child_lt t) unlike ((==_iff _ 126).0 full))
          (stopped ((==_iff _ 126).0 full))
    | inr few ↦
        let room : length (children_at s t) < 126 = ground (arith, inv.room t) in
        Ends-of_Returns (
          bind (fork_new-Leafed s t m.word_left t_lt text (inv.child_lt t) unlike room)
            λ (s', c) (e, l). returns _ (
              subst (λ x. Adds s h added m.word_left (modify c (Node.set_parent (some t)) s') x)
                (sym e) (extended none_left l unlike room)))
  ]

  -- It was not: `t` is split.
  pub split-Adds :
      m.tail_left ≢ []
      → t ≢ h
      → IsText m.front
      → IsText m.tail_left
      → first_char m.front ≡ first_char (tail_at s t)
      → first_char m.tail_left ≢ first_char m.word_left
      → Returns
          (λ (s', c). Adds s h added m.word_left s' c)
          (fork_old t m s >>= λ s1. (fork_new t m.word_left s1 >>= link t))
  unfolding Node.get_val
  split-Adds some_left t_ne_head front_text back_text same_first differ =
      bind (fork_old-Forked t m inv t_lt front_text back_text (not_own_child inv here)) λ s1 f.
        let t_lt1 : t < s1.next = omega (arith, f.next, t_lt) in
        let below1 : (d : Ptr) → In d (children_at s1 t) → d < s1.next = λ d i.
          elim (subst (In d) f.children_t i) [ inl e ↦ omega (arith, f.next) | inr j ↦ absurd j ] in
        let unlike1 : (d : Ptr) → In d (children_at s1 t) → val_of s1 d ≢ first_char m.word_left =
          λ d i a. elim (subst (In d) f.children_t i) [
            | inl e ↦
                differ
                  (ap first_char (sym f.tail_old) ∙ ap (λ x. first_char (tail_at s1 x)) (sym e) ∙ a)
            | inr j ↦ absurd j
          ] in
        let room1 : length (children_at s1 t) < 126 = rw f.children_t (omega arith) in
        let inv1 =
          Forked-IsTrie inv f t_lt t_ne_head (not_own_child inv here) front_text back_text
            same_first in
        bind (fork_new-Leafed s1 t m.word_left t_lt1 text below1 unlike1 room1) λ (s', c) (e, l).
          let split = Forked-Split t_lt whole f l in
          returns _ (
            subst (λ x. Adds s h added m.word_left (modify c (Node.set_parent (some t)) s') x)
              (sym e)
              (record {
                inv = Leafed-IsTrie inv1 l t_lt1 text unlike1 room1;
                reached = to_new lead inv split here t_ne_head;
                tail_c = l.tail_new;
                words = Stored-split lead inv split here t_ne_head;
                grew = by_split lead here t_ne_head front_left some_left split;
              }))
