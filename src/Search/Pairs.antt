-- ===== src/Search/Pairs.antt =====
-- The entries of a pair of characters in `tpm`, and what the loop over a tail adds to them.
use infix_search.Base.{
  and_true, ℕ, ◌+◌, ◌≡◌, ◌↔◌, ◌⊎◌, inl, inr, sym, ap, ◌∙◌, ◌&&◌, Bool-cases, List, [], ◌∷◌, ◌++◌,
  arith, ◌==◌, ==_iff,
}
use infix_search.Node.{Ptr}
use infix_search.Search.{TreePos, TreePosMap, entries, push_back, tree_pos, index_tail}

-- A position is in a list of positions.
abbrev pub Holds : TreePos → List TreePos → Type 0
Holds v [] = ⊥
Holds v (u ∷ us) = (v ≡ u) ⊎ Holds v us

Holds-append : (v u : TreePos) (us : List TreePos) → Holds v (us ++ u ∷ []) ↔ (Holds v us ⊎ (v ≡ u))
Holds-append v u [] = (
  λ h. elim h [ inl e ↦ inr e | inr b ↦ absurd b ],
  λ h. elim h [ inl b ↦ absurd b | inr e ↦ inl e ],
)
Holds-append v u (x ∷ us) =
    let (f, g) = Holds-append v u us in
    (
      λ h. elim h [
        | inl e ↦ inl (inl e)
        | inr i ↦ elim (f i) [ inl j ↦ inl (inr j) | inr e ↦ inr e ]
      ],
      λ h. elim h [ inl (inl e) ↦ inl e | inl (inr i) ↦ inr (g (inl i)) | inr e ↦ inr (g (inr e)) ],
    )

-- The entries of a pair.
abbrev pub Lists : TreePosMap → ℕ → ℕ → TreePos → Type 0
Lists tpm c d v = Holds v (entries (tpm c d))

pub push_back-Lists :
    (a b c d : ℕ) (u v : TreePos) (tpm : TreePosMap)
    → Lists (push_back a b u tpm) c d v ↔ (Lists tpm c d v ⊎ ((c ≡ a) × (d ≡ b) × (v ≡ u)))
unfolding push_back
push_back-Lists a b c d u v tpm = elim (Bool-cases (a == c && b == d)) [
  | inl hit ↦
      let (e, e') = and_true (a == c) (b == d) hit in
      let ac = (==_iff a c).0 e in
      let bd = (==_iff b d).0 e' in
      let (f, g) = Holds-append v u (entries (tpm a b)) in
      let same : entries (tpm c d) ≡ entries (tpm a b) =
        ap (λ k. entries (tpm k d)) (sym ac) ∙ ap (λ k. entries (tpm a k)) (sym bd) in
      rw (hit, same)
        (
          λ h. elim (f h) [ inl i ↦ inl i | inr eq ↦ inr (sym ac, sym bd, eq) ],
          λ h. elim h [ inl i ↦ g (inl i) | inr (_, _, eq) ↦ g (inr eq) ],
        )
  | inr miss ↦
      rw miss (λ h. inl h, λ h. elim h [ inl i ↦ i | inr (ac, bd, eq) ↦ absurd (grind arith) ])
]

-- `r` stands at the index `i` of the tail of `p`, and the pair at the index of `v`.
abbrev pub TailAt : Ptr → ℕ → List ℕ → ℕ → ℕ → TreePos → Type 0
TailAt p i [] c d v = ⊥
TailAt p i (a ∷ []) c d v = ⊥
TailAt p i (a ∷ b ∷ r) c d v =
    ((c ≡ a) × (d ≡ b) × (v ≡ tree_pos p i)) ⊎ TailAt p (i + 1) (b ∷ r) c d v

regroup : {A B C D : Type 0} → (B ↔ (A ⊎ C)) → ((B ⊎ D) ↔ (A ⊎ (C ⊎ D)))
regroup (f, g) = (
  λ h. elim h [ inl b ↦ elim (f b) [ inl a ↦ inl a | inr c ↦ inr (inl c) ] | inr d ↦ inr (inr d) ],
  λ h. elim h [ inl a ↦ inl (g (inl a)) | inr (inl c) ↦ inl (g (inr c)) | inr (inr d) ↦ inr d ],
)

pub iff_trans : {A B C : Type 0} → (A ↔ B) → (B ↔ C) → (A ↔ C)
iff_trans (f, g) (f', g') = (λ a. f' (f a), λ c. g (g' c))

pub never : {A : Type 0} → A ↔ (A ⊎ ⊥)
never = (λ a. inl a, λ h. elim h [ inl a ↦ a | inr b ↦ absurd b ])

pub index_tail-Lists :
    (p : Ptr) (i : ℕ) (r : List ℕ) (tpm : TreePosMap) (c d : ℕ) (v : TreePos)
    → Lists (index_tail p i r tpm) c d v ↔ (Lists tpm c d v ⊎ TailAt p i r c d v)
unfolding index_tail
index_tail-Lists p i [] tpm c d v = never
index_tail-Lists p i (a ∷ []) tpm c d v = never
index_tail-Lists p i (a ∷ b ∷ r) tpm c d v =
    iff_trans (index_tail-Lists p (i + 1) (b ∷ r) (push_back a b (tree_pos p i) tpm) c d v)
      (regroup (push_back-Lists a b c d (tree_pos p i) v tpm))
