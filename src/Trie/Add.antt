-- ===== src/Trie/Add.antt =====
-- `add` stores one word and keeps the others: the word that the search for its place spells.
use infix_search.Base.{
  ℕ, zero, suc, ◌+◌, ◌≤◌, ◌≡◌, ◌≢◌, ◌↔◌, refl, sym, ap, ◌∙◌, Bool, true, false, none, some, List,
  [], ◌∷◌, ◌++◌, ◌⊎◌, inl, inr, In, arith, length, subst, is_empty, Bool-cases, Option-cases,
  append_assoc, if◌then◌else◌, ◌&&◌,
}
use infix_search.Base.Run.{ok, Ends, ended, Ends-bind, Ends-of_Returns, Ends-stop, bind_assoc}
use infix_search.Base.Text.{IsText, IsText-split, first_char}
use infix_search.Node
use infix_search.Node.{Ptr, Node}
use infix_search.Trie.{
  Trie, Matched, match_tail, val_of, fork, fork_old, fork_new, choose, descend, add_loop,
}
use infix_search.Trie.Shape.{tail_at, children_at, IsTrie, Spells, at_child, Stored}
use infix_search.Trie.Children.{find_child-some, ne_of_find_child-none}
use infix_search.Trie.Marks.{mark, mark-IsTrie, Stored-mark, reparent}
use infix_search.Trie.Grafts.{Grew}
use infix_search.Trie.Matching.{match_tail-Compares, front-first}
use infix_search.Trie.Descend.{Adds, link, extend-Adds, split-Adds}

-- Some node that a path leads to has as many children as a node can have.
abbrev pub IsFull : Trie → Type 0
IsFull s =
    (h : Ptr) × (w : List ℕ) × (p : Ptr) × (s.head ≡ some h)
    × Spells s h w p
    × (length (children_at s p) ≡ 126)

-- The word that `add` stores for `rest` below the node `t`: it follows the nodes that `add`
-- follows, and takes their tails whole.
unfoldable pub stored_as : Trie → ℕ → Ptr → List ℕ → List ℕ
stored_as s zero t rest = rest
stored_as s (suc fuel) t [] = tail_at s t
stored_as s (suc fuel) t (x ∷ rest) =
    let m = match_tail (tail_at s t) (x ∷ rest) in
    let go : List ℕ = elim (Node.get_child (val_of s) (first_char m.word_left) (s.nodes t)) [
      | some c ↦ tail_at s t ++ stored_as s fuel c m.word_left
      | none ↦ m.front ++ m.word_left
    ] in
    if is_empty m.word_left && is_empty m.tail_left then tail_at s t else go

-- Whether `add` leaves a node for a child before it has matched the node's tail to its end.
unfoldable pub diverts : Trie → ℕ → Ptr → List ℕ → Bool
diverts s zero t rest = false
diverts s (suc fuel) t [] = false
diverts s (suc fuel) t (x ∷ rest) =
    let m = match_tail (tail_at s t) (x ∷ rest) in
    let go : Bool = elim (Node.get_child (val_of s) (first_char m.word_left) (s.nodes t)) [
      | some c ↦
          let onward = diverts s fuel c m.word_left in if is_empty m.tail_left then onward else true
      | none ↦ false
    ] in
    if is_empty m.word_left && is_empty m.tail_left then false else go

match_tail_self :
    (w : List ℕ) → match_tail w w ≡ record { front = w; tail_left = []; word_left = [] }
unfolding match_tail
match_tail_self [] = refl
match_tail_self (x ∷ w) = ground (arith, match_tail_self w)

-- The round after a fork finds the new leaf's tail equal to what is left of the word.
add_loop-leaf :
    (s : Trie) (fuel : ℕ) (c : Ptr) (rest : List ℕ)
    → tail_at s c ≡ rest
    → add_loop (suc fuel) c rest s ≡ ok (s, c)
unfolding add_loop
add_loop-leaf s fuel c [] e = refl
add_loop-leaf s fuel c (x ∷ rest) e = rw (e, match_tail_self (x ∷ rest)) refl

single_front : (x : ℕ) (f b : List ℕ) → x ∷ [] ≡ f ++ b → first_char f ≢ 0 → b ≡ []
single_front x [] b e ne = absurd (ne refl)
single_front x (y ∷ []) [] e ne = refl
single_front x (y ∷ []) (z ∷ b) e ne = cc
single_front x (y ∷ z ∷ f) b e ne = cc

pub ne-nil : (t : List ℕ) → first_char t ≢ 0 → t ≢ []
ne-nil t ne e = ne (ap first_char e)

pub empty-cases : (xs : List ℕ) → (xs ≡ []) ⊎ (xs ≢ [])
empty-cases [] = inl refl
empty-cases (x ∷ xs) = inr (λ e. cc)

pub is_empty-ne : (xs : List ℕ) → xs ≢ [] → is_empty xs ≡ false
is_empty-ne [] ne = absurd (ne refl)
is_empty-ne (x ∷ xs) ne = refl

module _ {s : Trie} {h : Ptr} (inv : IsTrie s h) where
  -- What the loop leaves behind, with the leaf flag that `add` sets at last.
  pub record Stores (word : List ℕ) (out : Trie × Ptr) : Type 0 where
    pub keeps : IsTrie (mark out.1 out.0) h
    pub words : (w : List ℕ) → Stored (mark out.1 out.0) h w ↔ (Stored s h w ⊎ (w ≡ word))
    pub grew : (out.0 ≡ s) ⊎ Grew s h out.0 out.1

  Stores-here : (word : List ℕ) (t : Ptr) → Spells s h word t → Stores word (s, t)
  Stores-here word t here = record {
    keeps = mark-IsTrie t word inv here;
    words = Stored-mark t word inv here;
    grew = inl refl;
  }

  Stores-Adds :
      {word rest : List ℕ} {s' : Trie} {c : Ptr} → Adds s h word rest s' c → Stores word (s', c)
  Stores-Adds {word} {s'} {c} a = record {
    keeps = mark-IsTrie c word a.inv a.reached;
    words = λ w.
        let (f, g) = Stored-mark c word a.inv a.reached w in
        let (f', g') = a.words w in
        (λ x. elim (f x) [ inl y ↦ f' y | inr e ↦ inr e ], λ x. g (inl (g' x)));
    grew = inr a.grew;
  }

  pub follow :
      (lead rest : List ℕ) (t c : Ptr) (v : ℕ)
      → Spells s h (lead ++ tail_at s t) t
      → Node.get_child (val_of s) v (s.nodes t) ≡ some c
      → (In c (children_at s t)) × (first_char (tail_at s c) ≡ v)
  unfolding Node.get_child Node.get_val
  follow lead rest t c v here e = find_child-some (val_of s) v (children_at s t) e

  choose-some :
      (t c : Ptr) (m : Matched)
      → Node.get_child (val_of s) (first_char m.word_left) (s.nodes t) ≡ some c
      → choose t m s ≡ ok (s, c)
  unfolding choose
  choose-some t c m e = ground arith

  choose-none :
      (t : Ptr) (m : Matched)
      → Node.get_child (val_of s) (first_char m.word_left) (s.nodes t) ≡ none
      → choose t m s ≡ fork t m s
  unfolding choose
  choose-none t m e = ground arith

  descend-some :
      (t c : Ptr) (m : Matched)
      → Node.get_child (val_of s) (first_char m.word_left) (s.nodes t) ≡ some c
      → In c (children_at s t)
      → descend t m s ≡ ok (s, c)
  unfolding descend
  descend-some t c m e i = rw (choose-some t c m e, reparent s c t (inv.child_parent t c i)) refl

  -- The front is all of the head's tail, so the head is never split.
  not_head :
      (t : Ptr) (m : Matched)
      → tail_at s t ≡ m.front ++ m.tail_left
      → first_char m.front ≢ 0
      → m.tail_left ≢ []
      → t ≢ h
  not_head t m whole front ne th =
      ne (
        single_front b'*' m.front m.tail_left (sym inv.star ∙ ap (tail_at s) (sym th) ∙ whole)
          front)

  descend-none :
      (t : Ptr) (lead : List ℕ) (m : Matched)
      → Spells s h (lead ++ tail_at s t) t
      → tail_at s t ≡ m.front ++ m.tail_left
      → IsText m.word_left
      → first_char m.front ≡ first_char (tail_at s t)
      → first_char m.front ≢ 0
      → (m.tail_left ≢ [] → first_char m.tail_left ≢ first_char m.word_left)
      → Node.get_child (val_of s) (first_char m.word_left) (s.nodes t) ≡ none
      → Ends
          (λ (s', c). Adds s h (lead ++ m.front ++ m.word_left) m.word_left s' c)
          (IsFull s)
          (descend t m s)
  unfolding descend fork Node.get_child
  descend-none t lead m here whole text same_first front differ none_there =
      let (front_text, back_text) =
        IsText-split m.front m.tail_left (subst IsText whole (inv.texts t)) in
      let unlike =
        ne_of_find_child-none (val_of s) (first_char m.word_left) (children_at s t) none_there in
      rw (choose-none t m none_there) (elim (empty-cases m.tail_left) [
        | inl done ↦ rw (ap is_empty done) (
            Ends-stop (extend-Adds lead t m inv here whole text (ne-nil m.front front) done unlike)
              (λ full. (h, lead ++ tail_at s t, t, inv.head, here, full)))
        | inr left ↦
            rw
              (
                is_empty-ne m.tail_left left,
                bind_assoc (fork_old t m s) (fork_new t m.word_left) (link t),
              )
              (Ends-of_Returns (
                split-Adds lead t m inv here whole text (ne-nil m.front front) left
                  (not_head t m whole front left) front_text back_text same_first (differ left)))
      ])

  pub add_loop-Stores :
      (fuel : ℕ) (t : Ptr) (lead rest : List ℕ)
      → Spells s h (lead ++ tail_at s t) t
      → IsText rest
      → first_char (tail_at s t) ≡ first_char rest
      → length rest + 2 ≤ fuel
      → Ends (Stores (lead ++ stored_as s fuel t rest)) (IsFull s) (add_loop fuel t rest s)
  unfolding add_loop stored_as
  add_loop-Stores zero t lead rest here text first room = absurd (omega arith)
  add_loop-Stores (suc zero) t lead rest here text first room = absurd (omega arith)
  add_loop-Stores (suc (suc fuel)) t lead [] here text first room = ended _ (Stores-here _ t here)
  add_loop-Stores (suc (suc fuel)) t lead (x ∷ rest) here text first room =
      let m = match_tail (tail_at s t) (x ∷ rest) in
      let c = match_tail-Compares (tail_at s t) (x ∷ rest) (inv.texts t) in
      let filled = ne-nil (tail_at s t) (λ e. text.0 (sym first ∙ e)) in
      let (shorter, same_first) = front-first (tail_at s t) (x ∷ rest) filled (λ e. cc) first in
      let (_, left_text) = IsText-split m.front m.word_left (subst IsText c.word_eq text) in
      rw (is_empty-ne (tail_at s t) filled)
        (elim (Bool-cases (is_empty m.word_left && is_empty m.tail_left)) [
          | inl both ↦ rw both (ended _ (Stores-here _ t here))
          | inr some_left ↦
              rw some_left
                (elim (Option-cases
                  (Node.get_child (val_of s) (first_char m.word_left) (s.nodes t))) [
                    | inl none_there ↦
                        rw (none_there, ← append_assoc lead m.front m.word_left)
                          (Ends-bind
                            (descend-none t lead m here c.tail_eq left_text same_first
                              (λ e. text.0 (sym first ∙ sym same_first ∙ e)) c.differ none_there)
                            λ (s', child) adds.
                              rw (add_loop-leaf s' fuel child m.word_left adds.tail_c)
                                (ended _ (Stores-Adds adds)))
                    | inr (child, there) ↦
                        let (below, first') =
                          follow lead rest t child (first_char m.word_left) here there in
                        rw
                          (
                            there,
                            ← append_assoc lead (tail_at s t)
                                (stored_as s (suc fuel) child m.word_left),
                            descend-some t child m there below,
                          )
                          (add_loop-Stores (suc fuel) child (lead ++ tail_at s t) m.word_left
                            (at_child here below refl) left_text first' (omega arith))
                  ])
        ])
