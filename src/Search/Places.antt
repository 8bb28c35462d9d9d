-- ===== src/Search/Places.antt =====
-- Where a stored word contains a pair of characters, the index has a place from which the word goes
-- on with them.
use infix_search.Base.{
  ℕ, suc, ◌+◌, ◌-◌, ◌%◌, ◌≡◌, ◌≢◌, inl, inr, refl, sym, ap, ◌∙◌, subst, Bool, true, false, ◌⊎◌,
  List, [], ◌∷◌, ◌++◌, In, arith, length, drop, append_assoc, append-nil, take-append, drop-length,
  length-append,
}
use infix_search.Node
use infix_search.Node.{Ptr}
use infix_search.Trie.{Trie}
use infix_search.Trie.Shape.{tail_at, children_at, leaf_at, IsTrie, Spells, at_head, at_child}
use infix_search.Search.{TreePos, tree_pos, last_char}
use infix_search.Search.Up.{IsShort, drop-append}
use infix_search.Search.Down.{Below, here, down, Listed}
use infix_search.Search.Paths.{IsFilled, Reads}
use infix_search.Search.Pairs.{TailAt}
use infix_search.Search.Entries.{PairAt, inner, across, below}
use infix_search.Search.Ways.{first_step}

-- Where a pair stands in two texts behind one another.
Cut : List ℕ → List ℕ → List ℕ → ℕ → ℕ → List ℕ → Type 0
Cut t v pre a b r =
    ((r' : List ℕ) × (t ≡ pre ++ (a ∷ b ∷ r')) × (r ≡ r' ++ v))
    ⊎ (((t ≡ pre ++ a ∷ []) × (v ≡ b ∷ r))
        ⊎ ((pre' : List ℕ) × (pre ≡ t ++ pre') × (v ≡ pre' ++ (a ∷ b ∷ r))))

cut : (t v pre : List ℕ) (a b : ℕ) (r : List ℕ) → t ++ v ≡ pre ++ (a ∷ b ∷ r) → Cut t v pre a b r
unfolding Cut
cut [] v pre a b r e = inr (inr (pre, refl, e))
cut (x ∷ []) v [] a b r e = inr (inl (cc e, cc e))
cut (x ∷ y ∷ t) v [] a b r e = inl (t, cc e, cc e)
cut (x ∷ t) v (c ∷ pre) a b r e =
    let x_is : x ≡ c = cc e in
    let rest : t ++ v ≡ pre ++ (a ∷ b ∷ r) = cc e in
    elim (cut t v pre a b r rest) [
      | inl (r', e', e3) ↦ inl (r', cc (x_is, e'), e3)
      | inr (inl (e', e3)) ↦ inr (inl (cc (x_is, e'), e3))
      | inr (inr (pre', e', e3)) ↦ inr (inr (pre', cc (x_is, e'), e3))
    ]

nothing : (pre : List ℕ) (a b : ℕ) (r : List ℕ) → [] ≢ pre ++ (a ∷ b ∷ r)
nothing [] a b r e = cc
nothing (x ∷ pre) a b r e = cc

TailAt-here :
    (p : Ptr) (i : ℕ) (pre : List ℕ) (a b : ℕ) (r : List ℕ)
    → TailAt p i (pre ++ (a ∷ b ∷ r)) a b (tree_pos p (i + length pre))
TailAt-here p i [] a b r = inl (refl, refl, ap (tree_pos p) (omega arith))
TailAt-here p i (x ∷ []) a b r = inr (
    subst (λ k. TailAt p (i + 1) (a ∷ b ∷ r) a b (tree_pos p k)) (omega arith)
      (TailAt-here p (i + 1) [] a b r))
TailAt-here p i (x ∷ y ∷ pre) a b r = inr (
    subst (λ k. TailAt p (i + 1) (y ∷ pre ++ (a ∷ b ∷ r)) a b (tree_pos p k)) (omega arith)
      (TailAt-here p (i + 1) (y ∷ pre) a b r))

last_char-snoc : (pre : List ℕ) (a : ℕ) → last_char (pre ++ a ∷ []) ≡ a
last_char-snoc [] a = refl
last_char-snoc (x ∷ []) a = refl
last_char-snoc (x ∷ y ∷ pre) a =
    let n = length (pre ++ a ∷ []) in
    let shift : suc (suc n) - 1 ≡ suc (suc n - 1) = omega arith in
    rw shift (last_char-snoc (y ∷ pre) a)

Below-snoc :
    {s : Trie} {p q c : Ptr} {v : List ℕ}
    → Below s p v q
    → In c (children_at s q)
    → Below s p (v ++ tail_at s c) c
Below-snoc {s} {c} (here e e') i =
    down (subst (λ x. In c (children_at s x)) (sym e) i) (here refl refl)
      (ap (λ u. u ++ tail_at s c) e' ∙ sym (append-nil (tail_at s c)))
Below-snoc {s} {c} (down {c = d} {v} j b e) i =
    down j (Below-snoc b i)
      (ap (λ u. u ++ tail_at s c) e ∙ append_assoc (tail_at s d) v (tail_at s c))

module _ {s : Trie} {h : Ptr} (inv : IsTrie s h) (short : IsShort s h) (filled : IsFilled s) where
  -- A place of the pair behind `base`, from which a word goes on with `u`.
  abbrev pub Place : Ptr → Bool → List ℕ → ℕ → ℕ → List ℕ → Type 0
  Place p has_parent base a b u =
      (v : TreePos) × PairAt s p has_parent a b v
      × Reads s h base v.node v.index
      × Listed s v.node (drop v.index (tail_at s v.node)) u

  place :
      {x : Ptr} {v w : List ℕ} {q : Ptr} (p : Ptr) (pre : List ℕ) (a b : ℕ) (r r' : List ℕ)
      → Below s p v x
      → leaf_at s x ≡ true
      → Spells s h w q
      → In p (children_at s q)
      → tail_at s p ≡ pre ++ a ∷ r'
      → b ∷ r ≡ r' ++ v
      → PairAt s p true a b (tree_pos p (length pre))
      → Place p true (drop 1 w ++ pre) a b (a ∷ b ∷ r)
  place {x} {v} {w} {q} p pre a b r r' bel leaf path i e e' pair =
      let l = length-append pre (a ∷ r') in
      let small : length pre % 256 ≡ length pre =
        omega (arith, short _ p (at_child path i refl), ap length e, l) in
      (
        tree_pos p (length pre),
        pair,
        rw small (
          w,
          q,
          path,
          i,
          omega (arith, ap length e, l),
          ap (λ t. drop 1 w ++ t) (rw e (sym (take-append (length pre) pre (a ∷ r') refl))),
        ),
        rw small (x, v, bel, leaf, rw (e, drop-length pre (a ∷ r')) (ap (λ t. a ∷ t) e')),
      )

  located :
      {p x : Ptr} {v w : List ℕ} {q : Ptr}
      → Below s p v x
      → leaf_at s x ≡ true
      → Spells s h w q
      → In p (children_at s q)
      → (pre : List ℕ) (a b : ℕ) (r : List ℕ) → Cut (tail_at s p) v pre a b r
      → ((pre' : List ℕ)
          → pre ≡ tail_at s p ++ pre'
          → v ≡ pre' ++ (a ∷ b ∷ r)
          → Place p true (drop 1 w ++ pre) a b (a ∷ b ∷ r))
      → Place p true (drop 1 w ++ pre) a b (a ∷ b ∷ r)
  unfolding Cut Node.get_val
  located {p} bel leaf path i pre a b r (inl (r', e', e3)) go =
      let shift : 0 + length pre ≡ length pre = omega arith in
      let stands =
        subst (λ k. TailAt p 0 (pre ++ (a ∷ b ∷ r')) a b (tree_pos p k)) shift
          (TailAt-here p 0 pre a b r') in
      place p pre a b r (b ∷ r') bel leaf path i e' (ap (λ t. b ∷ t) e3)
        (inner refl (subst (λ t. TailAt p 0 t a b (tree_pos p (length pre))) (sym e') stands))
  located {p} bel leaf path i pre a b r (inr (inl (e', e3))) go =
      let (d, j, first, _) = first_step filled bel leaf (b ∷ []) r (λ z. cc) e3 in
      place p pre a b r [] bel leaf path i e' (sym e3) (
        across d j (
          sym (ap last_char e' ∙ last_char-snoc pre a),
          sym first,
          ap (tree_pos p) (omega (arith, ap length e', length-append pre (a ∷ []))),
        ))
  located bel leaf path i pre a b r (inr (inr (pre', e', e3))) go = go pre' e' e3

  locate :
      {p x : Ptr} {v w : List ℕ} {q : Ptr}
      → Below s p v x
      → leaf_at s x ≡ true
      → Spells s h w q
      → In p (children_at s q)
      → (pre : List ℕ) (a b : ℕ) (r : List ℕ) → tail_at s p ++ v ≡ pre ++ (a ∷ b ∷ r)
      → Place p true (drop 1 w ++ pre) a b (a ∷ b ∷ r)
  locate {p} {v} (here e1 e2) leaf path i pre a b r e =
      located (here e1 e2) leaf path i pre a b r (cut (tail_at s p) v pre a b r e)
        λ pre' e' e3. absurd (nothing pre' a b r (sym e2 ∙ e3))
  locate {p} {v} {w} (down {c = d} j bel e1) leaf path i pre a b r e =
      located (down j bel e1) leaf path i pre a b r (cut (tail_at s p) v pre a b r e) λ pre' e' e3.
        let (pos, pair, reads, listed) =
          locate bel leaf (at_child path i refl) j pre' a b r (sym e1 ∙ e3) in
        (
          pos,
          below d j pair,
          subst (λ u. Reads s h u pos.node pos.index)
              (ap (λ u. u ++ pre') (drop-append inv short (tail_at s p) path)
                ∙ append_assoc (drop 1 w) (tail_at s p) pre'
                ∙ ap (λ u. drop 1 w ++ u) (sym e'))
              reads,
          listed,
        )

  under_head :
      {w : List ℕ} {x : Ptr} → Spells s h w x → (v : List ℕ) × Below s h v x × (w ≡ b'*' ∷ v)
  under_head (at_head a e) = ([], here (sym a) refl, e ∙ inv.star)
  under_head (at_child {c} r i e) =
      let (v, bel, e') = under_head r in
      (v ++ tail_at s c, Below-snoc bel i, e ∙ ap (λ u. u ++ tail_at s c) e')

  from_head :
      {v : List ℕ} {x : Ptr}
      → Below s h v x
      → leaf_at s x ≡ true
      → (pre : List ℕ) (a b : ℕ) (r : List ℕ) → v ≡ pre ++ (a ∷ b ∷ r)
      → Place h false pre a b (a ∷ b ∷ r)
  from_head (here e1 e2) leaf pre a b r e = absurd (nothing pre a b r (sym e2 ∙ e))
  from_head (down {c = d} j bel e1) leaf pre a b r e =
      let (pos, pair, reads, listed) =
        locate bel leaf (at_head refl refl) j pre a b r (sym e1 ∙ e) in
      (
        pos,
        below d j pair,
        subst (λ u. Reads s h u pos.node pos.index) (ap (λ u. drop 1 u ++ pre) inv.star) reads,
        listed,
      )

  -- For a pair of characters in a stored word, the index has a place from which the word goes on
  -- with the pair, behind what stands in front of it.
  pub locate_stored :
      (pre : List ℕ) (a b : ℕ) (r : List ℕ) (x : Ptr)
      → Spells s h (b'*' ∷ pre ++ (a ∷ b ∷ r)) x
      → leaf_at s x ≡ true
      → Place h false pre a b (a ∷ b ∷ r)
  locate_stored pre a b r x path leaf =
      let (v, bel, e) = under_head path in from_head bel leaf pre a b r (ap (drop 1) (sym e))
