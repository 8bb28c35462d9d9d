-- ===== src/Search/Down.antt =====
-- `traverse_down_util` lists what the leaves below a node spell, each of them and nothing else.
use infix_search.Base.{
  ℕ, zero, suc, ◌+◌, ◌<◌, ◌≡◌, ◌↔◌, ◌⊎◌, inl, inr, refl, sym, ap, ◌∙◌, Bool, true, false,
  Bool-cases, List, [], ◌∷◌, ◌++◌, In, arith, leb, if◌then◌else◌, length, drop, append_assoc,
  append-nil, subst,
}
use infix_search.Base.Run.{Run, Returns, returns, bind}
use infix_search.Base.Text.{IsText-drop, IsText, IsText-append, c_str, c_str-text}
use infix_search.Node.{Ptr}
use infix_search.Trie.{Trie}
use infix_search.Trie.Shape.{tail_at, children_at, leaf_at, IsTrie}
use infix_search.Search.{down_children, traverse_down_util}

-- A word is in a list of words.
abbrev pub Has : List ℕ → List (List ℕ) → Type 0
Has u [] = ⊥
Has u (x ∷ xs) = (u ≡ x) ⊎ Has u xs

pub Has-append : (u : List ℕ) (xs ys : List (List ℕ)) → Has u (xs ++ ys) ↔ (Has u xs ⊎ Has u ys)
Has-append u [] ys = (λ i. inr i, λ i. elim i [ inl a ↦ absurd a | inr j ↦ j ])
Has-append u (x ∷ xs) ys =
    let (f, g) = Has-append u xs ys in
    (
      λ i. elim i [
        | inl e ↦ inl (inl e)
        | inr j ↦ elim (f j) [ inl k ↦ inl (inr k) | inr k ↦ inr k ]
      ],
      λ i. elim i [ inl (inl e) ↦ inl e | inl (inr k) ↦ inr (g (inl k)) | inr k ↦ inr (g (inr k)) ],
    )

-- The tails on the way down from a node, without its own, spell a word.
pub data Below (s : Trie) : Ptr → List ℕ → Ptr → Type 0 where
  here : {p q : Ptr} {w : List ℕ} → p ≡ q → w ≡ [] → Below s p w q
  down :
      {p c q : Ptr} {v w : List ℕ}
      → In c (children_at s p)
      → Below s c v q
      → w ≡ tail_at s c ++ v
      → Below s p w q

-- What a leaf at or below `p` spells behind `front`, which ends with the tail of `p`.
abbrev pub Listed : Trie → Ptr → List ℕ → List ℕ → Type 0
Listed s p front u =
    (q : Ptr) × (v : List ℕ) × Below s p v q × (leaf_at s q ≡ true) × (u ≡ front ++ v)

-- The part of the trie below `p` is less than `n` nodes high.
abbrev pub Height : Trie → ℕ → Ptr → Type 0
Height s zero p = ⊥
Height s (suc n) p = (c : Ptr) → In c (children_at s p) → Height s n c

-- What `p` and the nodes below it spell behind `front` has room in an array of 100 characters.
abbrev pub FitsBelow : Trie → Ptr → List ℕ → Type 0
FitsBelow s p front = (q : Ptr) (v : List ℕ) → Below s p v q → length (front ++ v) < 100

module _ (visit : Ptr → Run (List (List ℕ))) (Target : Ptr → List ℕ → Type 0) where
  down_children-Returns :
      (cs : List Ptr)
      → ((c : Ptr) → In c cs → Returns (λ found. (u : List ℕ) → Has u found ↔ Target c u) (visit c))
      → Returns
          (λ found. (u : List ℕ) → Has u found ↔ ((c : Ptr) × In c cs × Target c u))
          (down_children visit cs)
  unfolding down_children
  down_children-Returns [] each = returns [] (λ u. (λ h. absurd h, λ (c, i, _). absurd i))
  down_children-Returns (c ∷ cs) each = bind (each c (inl refl)) λ found is.
      bind (down_children-Returns cs (λ d i. each d (inr i))) λ rest is'.
        returns (found ++ rest) λ u. (
          λ h. elim ((Has-append u found rest).0 h) [
            | inl a ↦ (c, inl refl, (is u).0 a)
            | inr b ↦ let (d, i, t) = (is' u).0 b in (d, inr i, t)
          ],
          λ (d, i, t). elim i [
            | inl e ↦ (Has-append u found rest).1 (inl ((is u).1 (subst (λ x. Target x u) e t)))
            | inr j ↦ (Has-append u found rest).1 (inr ((is' u).1 (d, j, t)))
          ],
        )

module _ {s : Trie} where
  Listed-cases :
      (p : Ptr) (front u : List ℕ)
      → Listed s p front u ↔ (
          ((leaf_at s p ≡ true) × (u ≡ front))
          ⊎ ((c : Ptr) × In c (children_at s p) × Listed s c (front ++ tail_at s c) u))
  Listed-cases p front u = (split, join)
    where
      split :
          Listed s p front u
          → ((leaf_at s p ≡ true) × (u ≡ front))
            ⊎ ((c : Ptr) × In c (children_at s p) × Listed s c (front ++ tail_at s c) u)
      split (q, v, here same none_left, leaf, e) =
          inl (ap (leaf_at s) same ∙ leaf, e ∙ ap (λ x. front ++ x) none_left ∙ append-nil front)
      split (q, v, down {c} {v = v'} i b e', leaf, e) = inr (
        c,
        i,
        (q, v', b, leaf, e ∙ ap (λ x. front ++ x) e' ∙ sym (append_assoc front (tail_at s c) v')),
      )

      join :
          ((leaf_at s p ≡ true) × (u ≡ front))
            ⊎ ((c : Ptr) × In c (children_at s p) × Listed s c (front ++ tail_at s c) u)
          → Listed s p front u
      join (inl (leaf, e)) = (p, [], here refl refl, leaf, e ∙ sym (append-nil front))
      join (inr (c, i, (q, v, b, leaf, e))) =
          (q, tail_at s c ++ v, down i b refl, leaf, e ∙ append_assoc front (tail_at s c) v)

has_room :
    (l : List ℕ) (leaf : Bool)
    → length l < 100
    → leb (length l + (if leaf then 1 else 0)) 100 ≡ true
has_room l true le = ground arith
has_room l false le = ground arith

-- The word at `p`, if it is a leaf, and what the children list are what is listed from `p`.
module _ {s : Trie} (p : Ptr) (front : List ℕ) (text : IsText front) (found : List (List ℕ)) where
  Has-here :
      ((u : List ℕ)
        → Has u found ↔ ((c : Ptr) × In c (children_at s p) × Listed s c (front ++ tail_at s c) u))
      → (u : List ℕ)
      → Has u ((if leaf_at s p then c_str front ∷ [] else []) ++ found) ↔ Listed s p front u
  Has-here is u = elim (Bool-cases (leaf_at s p)) [
    | inl leaf ↦ rw leaf (
      λ h. elim h [
        | inl e ↦ (Listed-cases p front u).1 (inl (leaf, e ∙ c_str-text front text))
        | inr k ↦ (Listed-cases p front u).1 (inr ((is u).0 k))
      ],
      λ l. elim ((Listed-cases p front u).0 l) [
        | inl (_, e) ↦ inl (e ∙ sym (c_str-text front text))
        | inr k ↦ inr ((is u).1 k)
      ],
    )
    | inr none_here ↦ rw none_here (
      λ k. (Listed-cases p front u).1 (inr ((is u).0 k)),
      λ l. elim ((Listed-cases p front u).0 l) [
        | inl (leaf, _) ↦ absurd (grind arith)
        | inr k ↦ (is u).1 k
      ],
    )
  ]

module _ {s : Trie} {h : Ptr} (inv : IsTrie s h) where
  -- On a well-formed trie, from a node that less than `fuel` generations lie below, behind a path
  -- without NUL: `traverse_down_util` lists what the leaves at and below the node spell behind the
  -- path and the rest of the node's tail, and nothing else, if all that fits the array.
  pub traverse_down_util-Listed :
      (fuel : ℕ) (p : Ptr) (index : ℕ) (path : List ℕ)
      → IsText path
      → Height s fuel p
      → FitsBelow s p (path ++ drop index (tail_at s p))
      → Returns
          (λ found. (u : List ℕ) → Has u found ↔ Listed s p (path ++ drop index (tail_at s p)) u)
          (traverse_down_util fuel s p index path)
  unfolding traverse_down_util
  traverse_down_util-Listed zero p index path text high fits = absurd high
  traverse_down_util-Listed (suc fuel) p index path text high fits =
      let path' = path ++ drop index (tail_at s p) in
      let text' =
        IsText-append path (drop index (tail_at s p)) text
          (IsText-drop index (tail_at s p) (inv.texts p)) in
      let room : leb (length path' + (if leaf_at s p then 1 else 0)) 100 ≡ true =
        has_room path' (leaf_at s p)
          (subst (λ l. length l < 100) (append-nil path') (fits p [] (here refl refl))) in
      let each =
        down_children-Returns (λ c. traverse_down_util fuel s c 0 path')
          (λ c u. Listed s c (path' ++ tail_at s c) u) (children_at s p)
          (λ c i. traverse_down_util-Listed fuel c 0 path' text' (high c i) (λ q v b.
            subst (λ l. length l < 100) (sym (append_assoc path' (tail_at s c) v))
              (fits q (tail_at s c ++ v) (down i b refl)))) in
      rw room (
        bind each λ found is.
          returns ((if leaf_at s p then c_str path' ∷ [] else []) ++ found)
            (Has-here p path' text' found is))
