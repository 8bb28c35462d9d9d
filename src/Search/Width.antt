-- ===== src/Search/Width.antt =====
-- How many children a node has, where the words are made of printable characters.
use infix_search.Base.{
  ℕ, zero, suc, ◌-◌, ◌≤◌, ◌<◌, ◌≡◌, ◌≢◌, ◌⊎◌, inl, inr, refl, sym, ap, ◌∙◌, subst, List, [], ◌∷◌,
  ◌++◌, In, arith, length, ℕ_discrete, append_assoc,
}
use infix_search.Base.Text.{first_char}
use infix_search.Node
use infix_search.Node.{Ptr}
use infix_search.Trie.{Trie, val_of}
use infix_search.Trie.Shape.{tail_at, children_at, Distinct, Spells, at_child, Stored}
use infix_search.Search.Paths.{Spells-Below}
use infix_search.Search.Built.{IsSearchable}

-- The list without the node that has the value `n` under `f`.
abbrev Others : (Ptr → ℕ) → ℕ → List Ptr → List Ptr → Type 0
Others f n cs ds =
    Distinct f ds × ((c : Ptr) → In c ds → In c cs × (f c ≢ n)) × (length cs ≤ suc (length ds))

others : (f : Ptr → ℕ) (n : ℕ) (cs : List Ptr) → Distinct f cs → (ds : List Ptr) × Others f n cs ds
others f n [] distinct = ([], (tt, λ c i. absurd i, omega arith))
others f n (c ∷ cs) (far, distinct) = elim (ℕ_discrete (f c) n) [
  | yes e ↦ (cs, (distinct, λ d i. (inr i, λ e'. far d i (e ∙ sym e')), omega arith))
  | no ne ↦
      let (ds, (distinct', parts, le)) = others f n cs distinct in
      (
        c ∷ ds,
        (
          (λ d i. far d (parts d i).0, distinct'),
          λ d i. elim i [
            | inl e ↦ (inl e, λ e'. ne (ap f (sym e) ∙ e'))
            | inr j ↦ (inr (parts d j).0, (parts d j).1)
          ],
          omega (arith, le),
        ),
      )
]

-- Distinct values below `n` are no more than `n`.
Distinct-le :
    (n : ℕ) (f : Ptr → ℕ) (cs : List Ptr)
    → Distinct f cs
    → ((c : Ptr) → In c cs → f c < n)
    → length cs ≤ n
Distinct-le zero f [] distinct small = omega arith
Distinct-le zero f (c ∷ cs) distinct small = absurd (omega (arith, small c (inl refl)))
Distinct-le (suc n) f cs distinct small =
    let (ds, (distinct', parts, le)) = others f n cs distinct in
    let rest =
      Distinct-le n f ds distinct'
        (λ c i. let (j, ne) = parts c i in omega (arith, small c j, ne)) in
    omega (arith, le, rest)

-- From the blank to the tilde.
abbrev pub IsPrintable : List ℕ → Type 0
IsPrintable [] = Unit
IsPrintable (x ∷ xs) = (32 ≤ x) × (x < 127) × IsPrintable xs

IsPrintable-right : (s t : List ℕ) → IsPrintable (s ++ t) → IsPrintable t
IsPrintable-right [] t h = h
IsPrintable-right (x ∷ s) t h = IsPrintable-right s t h.2

first-printable :
    (s t : List ℕ)
    → IsPrintable (s ++ t)
    → (first_char s ≡ 0) ⊎ ((32 ≤ first_char s) × (first_char s < 127))
first-printable [] t h = inl refl
first-printable (x ∷ s) t h = inr (h.0, h.1)

unshift :
    (a b : ℕ)
    → (a ≡ 0) ⊎ ((32 ≤ a) × (a < 127))
    → (b ≡ 0) ⊎ ((32 ≤ b) × (b < 127))
    → a - 31 ≡ b - 31
    → a ≡ b
unshift a b h h' e = ground arith

module _ {s : Trie} (search : IsSearchable s 0)
    (words : (w : List ℕ) → Stored s 0 w → IsPrintable w) where
  child_value :
      (w : List ℕ) (p c : Ptr)
      → Spells s 0 w p
      → In c (children_at s p)
      → (val_of s c ≡ 0) ⊎ ((32 ≤ val_of s c) × (val_of s c < 127))
  unfolding Node.get_val
  child_value w p c path i =
      let path' : Spells s 0 (w ++ tail_at s c) c = at_child path i refl in
      let (u, (q, v, b, leaf, e)) = search.leaves _ c path' (search.inv.child_ne_head p c i) in
      let word = words ((w ++ tail_at s c) ++ v) (q, Spells-Below b _ path', leaf) in
      first-printable (tail_at s c) v (
        IsPrintable-right w (tail_at s c ++ v)
          (subst IsPrintable (append_assoc w (tail_at s c) v) word))

  -- A node of the trie has at most 96 children.
  pub children-le : (w : List ℕ) (p : Ptr) → Spells s 0 w p → length (children_at s p) ≤ 96
  children-le w p path =
      Distinct-le 96 (λ c. val_of s c - 31) (children_at s p)
        (shifted (children_at s p) (λ c i. child_value w p c path i) (search.inv.distinct p))
        (λ c i. elim (child_value w p c path i) [
          | inl e ↦ omega (arith, e)
          | inr (low, high) ↦ omega (arith, low, high)
        ])
    where
      shifted :
          (cs : List Ptr)
          → ((c : Ptr) → In c cs → (val_of s c ≡ 0) ⊎ ((32 ≤ val_of s c) × (val_of s c < 127)))
          → Distinct (val_of s) cs
          → Distinct (λ c. val_of s c - 31) cs
      shifted [] range distinct = tt
      shifted (c ∷ cs) range (far, distinct) = (
        λ d i e.
            far d i (unshift (val_of s c) (val_of s d) (range c (inl refl)) (range d (inr i)) e),
        shifted cs (λ d i. range d (inr i)) distinct,
      )
