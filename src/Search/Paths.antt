-- ===== src/Search/Paths.antt =====
-- Where a search stands in the trie, and what `find_path_util` reports there.
use infix_search.Base.{
  is_empty, false, ℕ, zero, suc, ◌+◌, ◌<◌, ◌≤◌, ◌≡◌, ◌≢◌, ◌↔◌, refl, sym, ap, ◌∙◌, subst, true,
  some, List, [], ◌∷◌, ◌++◌, In, arith, leb, length, take, drop, append_assoc, append-nil,
  length-append,
}
use infix_search.Base.Run.{Returns}
use infix_search.Base.Text.{IsText}
use infix_search.Node.{Ptr}
use infix_search.Trie.{Trie}
use infix_search.Trie.Shape.{tail_at, children_at, IsTrie, Spells, Stored, at_head, at_child}
use infix_search.Search.{TreePos, suffixes_of}
use infix_search.Search.Up.{IsShort, depth, Spells-starred}
use infix_search.Search.Down.{
  Has, Below, here, down, Listed, Height, FitsBelow, traverse_down_util-Listed,
}

-- Paths are shorter than `n` nodes, and spell at most 100 characters with the "*" of the head.
abbrev pub IsLow : Trie → Ptr → ℕ → Type 0
IsLow s h n = (w : List ℕ) (p : Ptr) (r : Spells s h w p) → suc (depth r) < n

abbrev pub FitsBuffer : Trie → Ptr → Type 0
FitsBuffer s h = (w : List ℕ) (p : Ptr) → Spells s h w p → length w ≤ 100

pub FitsBuffer-IsShort : {s : Trie} {h : Ptr} → IsTrie s h → FitsBuffer s h → IsShort s h
FitsBuffer-IsShort {s} {h} inv fits w p (at_head a e) = rw (a, inv.star) (omega arith)
FitsBuffer-IsShort {s} inv fits w p (at_child {v} r i e) =
    let l = length-append v (tail_at s p) in omega (arith, ap length e, fits w p (at_child r i e))

-- Below the head, there is a leaf at or under each node that a path leads to.
abbrev pub HasLeaves : Trie → Ptr → Type 0
HasLeaves s h = (w : List ℕ) (p : Ptr) → Spells s h w p → p ≢ h → (u : List ℕ) × Listed s p [] u

-- Nodes with children have tails.
abbrev pub IsFilled : Trie → Type 0
IsFilled s = (p c : Ptr) → In c (children_at s p) → is_empty (tail_at s p) ≡ false

-- `u` leads to the first `i` characters of the tail of `p`.
abbrev pub Reads : Trie → Ptr → List ℕ → Ptr → ℕ → Type 0
Reads s h u p i =
    (v : List ℕ) × (q : Ptr) × Spells s h v q
    × In p (children_at s q)
    × (i ≤ length (tail_at s p))
    × (u ≡ drop 1 v ++ take i (tail_at s p))

pub take-drop : (i : ℕ) (t : List ℕ) → take i t ++ drop i t ≡ t
take-drop zero t = refl
take-drop (suc i) [] = refl
take-drop (suc i) (x ∷ t) = ap (λ u. x ∷ u) (take-drop i t)

-- The words found contain the key behind `base`, and the trie stores them.
abbrev pub Contain : Trie → Ptr → List ℕ → List ℕ → List (List ℕ) → Type 0
Contain s h base key ks =
    (u : List ℕ) → Has u ks → Stored s h (b'*' ∷ u) × ((post : List ℕ) × (u ≡ base ++ key ++ post))

module _ {s : Trie} {h : Ptr} where
  pub Spells-Below :
      {p q : Ptr} {v : List ℕ}
      → Below s p v q
      → (w : List ℕ) → Spells s h w p
      → Spells s h (w ++ v) q
  Spells-Below {q} (here e e') w r =
      subst (λ x. Spells s h (w ++ x) q) (sym e')
        (subst (λ x. Spells s h x q) (sym (append-nil w)) (subst (λ x. Spells s h w x) e r))
  Spells-Below {q} (down {c} {v = v'} i b e) w r =
      subst (λ x. Spells s h x q) (append_assoc w (tail_at s c) v' ∙ ap (λ x. w ++ x) (sym e))
        (Spells-Below b (w ++ tail_at s c) (at_child r i refl))

  pub IsLow-Height :
      (n fuel : ℕ) (w : List ℕ) (p : Ptr) (r : Spells s h w p)
      → IsLow s h n
      → n ≤ depth r + fuel
      → Height s fuel p
  IsLow-Height n zero w p r low le = absurd (omega (arith, low w p r))
  IsLow-Height n (suc fuel) w p r low le =
      λ c i. IsLow-Height n fuel (w ++ tail_at s c) c (at_child r i refl) low (omega arith)

module _ {s : Trie} {h : Ptr} (inv : IsTrie s h) (short : IsShort s h) where
  pub Reads-Spells :
      {u : List ℕ} {p : Ptr} {i : ℕ}
      → Reads s h u p i
      → Spells s h (b'*' ∷ u ++ drop i (tail_at s p)) p
  Reads-Spells {p} {i} (v, q, r, j, le, e) =
      subst (λ x. Spells s h x p)
        (ap (λ x. x ++ tail_at s p) (Spells-starred inv short r)
          ∙ ap (λ x. b'*' ∷ x)
              (ap (λ x. drop 1 v ++ x) (sym (take-drop i (tail_at s p)))
                ∙ sym (append_assoc (drop 1 v) (take i (tail_at s p)) (drop i (tail_at s p)))
                ∙ ap (λ x. x ++ drop i (tail_at s p)) (sym e)))
        (at_child r j refl)

  module _ (base key : List ℕ) (p : Ptr) (i : ℕ) (at : Reads s h (base ++ key) p i) where
    pub whole : Spells s h (b'*' ∷ base ++ (key ++ drop i (tail_at s p))) p
    whole =
        subst (λ x. Spells s h (b'*' ∷ x) p) (append_assoc base key (drop i (tail_at s p)))
          (Reads-Spells at)

    -- What is listed below a place that the key leads to contains the key.
    pub Listed-Contain :
        (u : List ℕ)
        → Listed s p (key ++ drop i (tail_at s p)) u
        → Stored s h (b'*' ∷ base ++ u) × ((post : List ℕ) × (base ++ u ≡ base ++ key ++ post))
    Listed-Contain u (q, v, b, leaf, e) = (
      (
        q,
        subst (λ x. Spells s h x q)
            (ap (λ x. b'*' ∷ x)
              (append_assoc base (key ++ drop i (tail_at s p)) v ∙ ap (λ x. base ++ x) (sym e)))
            (Spells-Below b _ whole),
        leaf,
      ),
      (
        drop i (tail_at s p) ++ v,
        ap (λ x. base ++ x) (e ∙ append_assoc key (drop i (tail_at s p)) v)
            ∙ sym (append_assoc base key (drop i (tail_at s p) ++ v)),
      ),
    )

    below_fits : FitsBuffer s h → FitsBelow s p (key ++ drop i (tail_at s p))
    below_fits fits q v b =
        let room = fits _ q (Spells-Below b _ whole) in
        let l = length-append base (key ++ drop i (tail_at s p)) in
        let l' = length-append (base ++ (key ++ drop i (tail_at s p))) v in
        let l'' = length-append (key ++ drop i (tail_at s p)) v in omega arith

    key_fits : FitsBuffer s h → length key < 100
    key_fits fits =
        let room = fits _ p whole in
        let l = length-append base (key ++ drop i (tail_at s p)) in
        let l' = length-append key (drop i (tail_at s p)) in omega arith

    pub suffixes_of-Listed :
        (fuel : ℕ) (start : TreePos)
        → IsText key
        → FitsBuffer s h
        → IsLow s h fuel
        → Returns
            (λ found. (u : List ℕ) → Has u found ↔ Listed s p (key ++ drop i (tail_at s p)) u)
            (suffixes_of fuel s start key (some p) i)
    unfolding suffixes_of
    suffixes_of-Listed fuel start text fits low =
        let fits' : leb (length key) 100 ≡ true = ground (arith, key_fits fits) in
        rw fits' (
          traverse_down_util-Listed inv fuel p i key text
            (IsLow-Height fuel fuel _ p whole low (omega arith)) (below_fits fits))
