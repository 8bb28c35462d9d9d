-- ===== src/Search/Entries.antt =====
-- What `index_trie` puts into `tpm`: the entries of a pair of characters are the places where it
-- stands in the trie.
use infix_search.Base.{
  ℕ, zero, suc, ◌-◌, ◌≡◌, ◌↔◌, ◌⊎◌, inl, inr, refl, sym, ◌∙◌, subst, Bool, true, false, List, [],
  ◌∷◌, In, arith, if◌then◌else◌, is_empty, length,
}
use infix_search.Base.Run.{Run, Returns, returns, weaken, bind}
use infix_search.Node.{Ptr}
use infix_search.Trie.{Trie, val_of}
use infix_search.Trie.Shape.{tail_at, children_at}
use infix_search.Trie.Marks.{val-same}
use infix_search.Search.Down.{Height}
use infix_search.Search.Same.{Same, Same-mark}
use infix_search.Search.{
  TreePos, TreePosMap, push_back, tree_pos, Indexed, index_tail, last_char, index_children,
  index_trie,
}
use infix_search.Search.Pairs.{Lists, TailAt, push_back-Lists, index_tail-Lists, iff_trans}

-- The pair across from `p` to its child `q`.
abbrev AcrossAt : Trie → Ptr → Ptr → ℕ → ℕ → TreePos → Type 0
AcrossAt s p q c d v =
    (c ≡ last_char (tail_at s p)) × (d ≡ val_of s q) × (v ≡ tree_pos p (length (tail_at s p) - 1))

-- The pair of characters stands at `v`, in or below the node: in its own tail if it `has_parent`.
pub data PairAt (s : Trie) : Ptr → Bool → ℕ → ℕ → TreePos → Type 0 where
  inner :
      {p : Ptr} {has_parent : Bool} {c d : ℕ} {v : TreePos}
      → has_parent ≡ true
      → TailAt p 0 (tail_at s p) c d v
      → PairAt s p has_parent c d v
  across :
      {p : Ptr} {has_parent : Bool} {c d : ℕ} {v : TreePos} (q : Ptr)
      → In q (children_at s p)
      → AcrossAt s p q c d v
      → PairAt s p has_parent c d v
  below :
      {p : Ptr} {has_parent : Bool} {c d : ℕ} {v : TreePos} (q : Ptr)
      → In q (children_at s p)
      → PairAt s q true c d v
      → PairAt s p has_parent c d v

-- The run adds these positions to the entries, and leaves the trie but for marks.
abbrev pub Indexes : Trie → Indexed → (ℕ → ℕ → TreePos → Type 0) → Indexed → Type 0
Indexes s x Added x' =
    Same s x'.trie
    × ((c d : ℕ) (v : TreePos) → Lists x'.tpm c d v ↔ (Lists x.tpm c d v ⊎ Added c d v))

ChildAt : Trie → Ptr → List Ptr → ℕ → ℕ → TreePos → Type 0
ChildAt s p cs c d v = (q : Ptr) × In q cs × (AcrossAt s p q c d v ⊎ PairAt s q true c d v)

-- The first loop runs where there is a parent.
own_tail :
    (r : List ℕ) (p : Ptr) (has_parent : Bool) (tpm : TreePosMap) (c d : ℕ) (v : TreePos)
    → Lists (if has_parent then index_tail p 0 (r) tpm else tpm) c d v
      ↔ (Lists tpm c d v ⊎ ((has_parent ≡ true) × TailAt p 0 (r) c d v))
own_tail r p true tpm c d v =
    let (f, g) = index_tail-Lists p 0 (r) tpm c d v in
    (
      λ h. elim (f h) [ inl a ↦ inl a | inr t ↦ inr (refl, t) ],
      λ h. elim h [ inl a ↦ g (inl a) | inr (e, t) ↦ g (inr t) ],
    )
own_tail r p false tpm c d v =
    (λ a. inl a, λ h. elim h [ inl a ↦ a | inr (e, t) ↦ absurd (grind arith) ])

module _ {s : Trie} where
  first_child :
      {A L : Type 0} (p q : Ptr) (cs : List Ptr) (c d : ℕ) (v : TreePos)
      → ((A ⊎ AcrossAt s p q c d v) ⊎ PairAt s q true c d v) ↔ L
      → (L ⊎ ChildAt s p cs c d v) ↔ (A ⊎ ChildAt s p (q ∷ cs) c d v)
  unfolding ChildAt
  first_child p q cs c d v (f, g) = (
    λ h. elim h [
      | inl l ↦ elim (g l) [
        | inl (inl a) ↦ inl a
        | inl (inr e) ↦ inr (q, inl refl, inl e)
        | inr b ↦ inr (q, inl refl, inr b)
      ]
      | inr (r, i, e) ↦ inr (r, inr i, e)
    ],
    λ h. elim h [
      | inl a ↦ inl (f (inl (inl a)))
      | inr (r, inl same, inl e) ↦ inl (f (inl (inr (subst (λ x. AcrossAt s p x c d v) same e))))
      | inr (r, inl same, inr e) ↦ inl (f (inr (subst (λ x. PairAt s x true c d v) same e)))
      | inr (r, inr i, e) ↦ inr (r, i, e)
    ],
  )

  pushed :
      {L : Type 0} (p q : Ptr) (tpm : TreePosMap) (b : ℕ)
      → b ≡ val_of s q
      → (c d : ℕ) (v : TreePos)
      → L ↔ (
          Lists
            (push_back (last_char (tail_at s p)) b (tree_pos p (length (tail_at s p) - 1)) tpm)
            c
            d
            v
          ⊎ PairAt s q true c d v)
      → ((Lists tpm c d v ⊎ AcrossAt s p q c d v) ⊎ PairAt s q true c d v) ↔ L
  pushed p q tpm b e c d v (f, g) =
      let (f', g') =
        push_back-Lists (last_char (tail_at s p)) b c d (tree_pos p (length (tail_at s p) - 1)) v
          tpm in
      (
        λ h. elim h [
          | inl (inl l) ↦ g (inl (g' (inl l)))
          | inl (inr (a, a', a'')) ↦ g (inl (g' (inr (a, a' ∙ sym e, a''))))
          | inr k ↦ g (inr k)
        ],
        λ l. elim (f l) [
          | inl l' ↦ elim (f' l') [
            | inl l'' ↦ inl (inl l'')
            | inr (a, a', a'') ↦ inl (inr (a, a' ∙ e, a''))
          ]
          | inr k ↦ inr k
        ],
      )

  index_children-Indexes :
      (visit : Ptr → Indexed → Run Indexed) (p : Ptr) (cs : List Ptr) (x : Indexed)
      → ((q : Ptr)
          → In q cs
          → (y : Indexed) → Same s y.trie
          → Returns (Indexes s y (PairAt s q true)) (visit q y))
      → ((q : Ptr) → In q cs → is_empty (tail_at s p) ≡ false)
      → Same s x.trie
      → Returns (Indexes s x (ChildAt s p cs)) (index_children visit p (tail_at s p) cs x)
  unfolding index_children ChildAt
  index_children-Indexes visit p [] x each filled same =
      returns x (same, λ c d v. (λ l. inl l, λ h. elim h [ inl l ↦ l | inr (q, i, e) ↦ absurd i ]))
  index_children-Indexes visit p (q ∷ cs) x each filled same =
      let pos = tree_pos p (length (tail_at s p) - 1) in
      rw (filled q (inl refl)) (
        bind
          (each q (inl refl)
            (record x { tpm = push_back (last_char (tail_at s p)) (val_of x.trie q) pos x.tpm })
            same)
          λ y (same', lists).
            weaken
              (index_children-Indexes visit p cs y (λ r i. each r (inr i)) (λ r i. filled r (inr i))
                same')
              λ z (same'', lists'). (
                same'',
                λ c d v. iff_trans (lists' c d v) (
                    first_child p q cs c d v (
                      pushed p q x.tpm (val_of x.trie q) (sym (val-same same.shape q)) c d v
                        (lists c d v))),
              ))

  own_and_children :
      {A B : Type 0} (p : Ptr) (has_parent : Bool) (c d : ℕ) (v : TreePos)
      → (B ↔ (A ⊎ ((has_parent ≡ true) × TailAt p 0 (tail_at s p) c d v)))
      → (B ⊎ ChildAt s p (children_at s p) c d v) ↔ (A ⊎ PairAt s p has_parent c d v)
  unfolding ChildAt
  own_and_children p has_parent c d v (f, g) = (
    λ h. elim h [
      | inl b ↦ elim (f b) [ inl a ↦ inl a | inr (e, t) ↦ inr (inner e t) ]
      | inr (q, i, inl e) ↦ inr (across q i e)
      | inr (q, i, inr e) ↦ inr (below q i e)
    ],
    λ h. elim h [
      | inl a ↦ inl (g (inl a))
      | inr (inner e t) ↦ inl (g (inr (e, t)))
      | inr (across q i e) ↦ inr (q, i, inl e)
      | inr (below q i e) ↦ inr (q, i, inr e)
    ],
  )

  -- On a trie that is less than `fuel` nodes high below `p`, whose nodes with children have tails,
  -- `index_trie` adds the pairs of characters at and below `p` to the entries, each with the places
  -- where it stands, and nothing else; it changes nothing of the trie but the marks.
  pub index_trie-Indexes :
      (fuel : ℕ) (p : Ptr) (has_parent : Bool) (x : Indexed)
      → Height s fuel p
      → ((q r : Ptr) → In r (children_at s q) → is_empty (tail_at s q) ≡ false)
      → Same s x.trie
      → Returns (Indexes s x (PairAt s p has_parent)) (index_trie fuel p has_parent x)
  unfolding index_trie
  index_trie-Indexes zero p has_parent x high filled same = absurd high
  index_trie-Indexes (suc fuel) p has_parent x high filled same =
      let tail : (x.trie.nodes p).tail ≡ tail_at s p = same.shape.tails p in
      let children : (x.trie.nodes p).children ≡ children_at s p = same.shape.children p in
      rw (tail, children)
        (bind
          (index_children-Indexes (λ q. index_trie fuel q true) p (children_at s p) _
            (λ q i y. index_trie-Indexes fuel q true y (high q i) filled) (filled p) same)
          λ y (same', lists). returns _ (
            Same-mark p same',
            λ c d v. iff_trans (lists c d v) (
                own_and_children p has_parent c d v
                  (own_tail (tail_at s p) p has_parent x.tpm c d v)),
          ))
