-- ===== src/Search/Overflow.antt =====
-- When `traverse_down_util` writes beyond its array of 100 characters.
use infix_search.Base.{
  ℕ, zero, suc, ◌+◌, ◌≤◌, ◌<◌, ◌≡◌, ◌⊎◌, inl, inr, refl, sym, ap, ◌∙◌, subst, Bool, true, false,
  Bool-cases, List, [], ◌∷◌, ◌++◌, In, arith, leb, if◌then◌else◌, length, drop, append_assoc,
  append-nil,
}
use infix_search.Base.Run.{Run, fault, ◌>>=◌, Returns, returns, bind}
use infix_search.Node.{Ptr}
use infix_search.Trie.{Trie}
use infix_search.Trie.Shape.{tail_at, children_at, leaf_at}
use infix_search.Search.{down_children, traverse_down_util}
use infix_search.Search.Down.{Below, here, down, Height}

-- The run has a result, or a fault.
abbrev Settles : {A : Type 0} → Run A → Type 0
Settles r = Returns (λ a. Unit {0}) r ⊎ (r ≡ fault)

Settles-bind :
    {A B : Type 0} {r : Run A} {k : A → Run B}
    → Settles r
    → ((a : A) → Settles (k a))
    → Settles (r >>= k)
Settles-bind (inl (returns a _)) next = next a
Settles-bind {k} (inr e) next = inr (ap (λ r. r >>= k) e)

fault_behind :
    {A B : Type 0} {r : Run A} {k : A → Run B}
    → Settles r
    → ((a : A) → k a ≡ fault)
    → (r >>= k) ≡ fault
fault_behind (inl (returns a _)) next = next a
fault_behind {k} (inr e) next = ap (λ r. r >>= k) e

fault_first : {A B : Type 0} {r : Run A} (k : A → Run B) → r ≡ fault → (r >>= k) ≡ fault
fault_first k e = ap (λ r. r >>= k) e

module _ (visit : Ptr → Run (List (List ℕ))) where
  down_children-Settles :
      (cs : List Ptr) → ((c : Ptr) → In c cs → Settles (visit c)) → Settles (down_children visit cs)
  unfolding down_children
  down_children-Settles [] each = inl (returns [] tt)
  down_children-Settles (c ∷ cs) each = Settles-bind (each c (inl refl)) λ found.
      Settles-bind (down_children-Settles cs (λ d i. each d (inr i))) λ rest. inl (returns _ tt)

  down_children-fault :
      (c : Ptr) (cs : List Ptr)
      → ((d : Ptr) → In d cs → Settles (visit d))
      → In c cs
      → visit c ≡ fault
      → down_children visit cs ≡ fault
  unfolding down_children
  down_children-fault c [] each i e = absurd i
  down_children-fault c (d ∷ cs) each (inl same) e = fault_first _ (ap visit (sym same) ∙ e)
  down_children-fault c (d ∷ cs) each (inr i) e =
      fault_behind (each d (inl refl))
        λ found. fault_first _ (down_children-fault c cs (λ x j. each x (inr j)) i e)

  down_children-done :
      (cs : List Ptr)
      → ((c : Ptr) → In c cs → Returns (λ found. Unit {0}) (visit c))
      → Returns (λ found. Unit {0}) (down_children visit cs)
  unfolding down_children
  down_children-done [] each = returns [] tt
  down_children-done (c ∷ cs) each =
      bind (each c (inl refl))
        λ found _. bind (down_children-done cs (λ d i. each d (inr i))) λ rest _. returns _ tt

-- The characters that a path needs in the array: one more, for NUL, at a leaf.
abbrev pub needed : Bool → List ℕ → ℕ
needed leaf l = length l + (if leaf then 1 else 0)

has_room : (leaf : Bool) (l : List ℕ) → needed leaf l ≤ 100 → leb (needed leaf l) 100 ≡ true
has_room leaf l le = ground arith

no_room : (leaf : Bool) (l : List ℕ) → 100 < needed leaf l → leb (needed leaf l) 100 ≡ false
no_room leaf l lt = ground arith

module _ (s : Trie) where
  traverse_down_util-Settles :
      (fuel : ℕ) (p : Ptr) (index : ℕ) (path : List ℕ)
      → Height s fuel p
      → Settles (traverse_down_util fuel s p index path)
  unfolding traverse_down_util
  traverse_down_util-Settles zero p index path high = absurd high
  traverse_down_util-Settles (suc fuel) p index path high =
      let path' = path ++ drop index (tail_at s p) in
      elim (Bool-cases (leb (needed (leaf_at s p) path') 100)) [
        | inl room ↦ rw room (
            Settles-bind
              (down_children-Settles (λ c. traverse_down_util fuel s c 0 path') (children_at s p)
                (λ c i. traverse_down_util-Settles fuel c 0 path' (high c i)))
              λ found. inl (returns _ tt))
        | inr full ↦ rw full (inr refl)
      ]

  traverse_down_util-fault :
      (fuel : ℕ) (p : Ptr) (index : ℕ) (path : List ℕ) (q : Ptr) (v : List ℕ)
      → Height s fuel p
      → Below s p v q
      → 100 < needed (leaf_at s q) ((path ++ drop index (tail_at s p)) ++ v)
      → traverse_down_util fuel s p index path ≡ fault
  unfolding traverse_down_util
  traverse_down_util-fault zero p index path q v high b long = absurd high
  traverse_down_util-fault (suc fuel) p index path q v high (here same none_left) long =
      let path' = path ++ drop index (tail_at s p) in
      let at_p : needed (leaf_at s q) (path' ++ v) ≡ needed (leaf_at s p) path' =
        ap (λ x. needed (leaf_at s x) (path' ++ v)) (sym same)
        ∙ ap (λ x. needed (leaf_at s p) (path' ++ x)) none_left
        ∙ ap (needed (leaf_at s p)) (append-nil path') in
      rw (no_room (leaf_at s p) path' (subst (λ x. 100 < x) at_p long)) refl
  traverse_down_util-fault (suc fuel) p index path q w high (down {c} {v} i b e) long =
      let path' = path ++ drop index (tail_at s p) in
      let visit = λ (c : Ptr). traverse_down_util fuel s c 0 path' in
      let at_c : path' ++ w ≡ (path' ++ tail_at s c) ++ v =
        ap (λ x. path' ++ x) e ∙ sym (append_assoc path' (tail_at s c) v) in
      let below : visit c ≡ fault =
        traverse_down_util-fault fuel c 0 path' q v (high c i) b
          (subst (λ x. 100 < needed (leaf_at s q) x) at_c long) in
      elim (Bool-cases (leb (needed (leaf_at s p) path') 100)) [
        | inl room ↦ rw room (
            fault_first _ (
              down_children-fault visit c (children_at s p)
                (λ d j. traverse_down_util-Settles fuel d 0 path' (high d j)) i below))
        | inr full ↦ rw full refl
      ]

  traverse_down_util-done :
      (fuel : ℕ) (p : Ptr) (index : ℕ) (path : List ℕ)
      → Height s fuel p
      → ((q : Ptr) (v : List ℕ)
          → Below s p v q
          → needed (leaf_at s q) ((path ++ drop index (tail_at s p)) ++ v) ≤ 100)
      → Returns (λ found. Unit {0}) (traverse_down_util fuel s p index path)
  unfolding traverse_down_util
  traverse_down_util-done zero p index path high fits = absurd high
  traverse_down_util-done (suc fuel) p index path high fits =
      let path' = path ++ drop index (tail_at s p) in
      let here_fits : needed (leaf_at s p) path' ≤ 100 =
        subst (λ x. needed (leaf_at s p) x ≤ 100) (append-nil path') (fits p [] (here refl refl)) in
      rw (has_room (leaf_at s p) path' here_fits) (
        bind
          (down_children-done (λ c. traverse_down_util fuel s c 0 path') (children_at s p)
            (λ c i. traverse_down_util-done fuel c 0 path' (high c i) (λ q v b.
              subst (λ x. needed (leaf_at s q) x ≤ 100) (sym (append_assoc path' (tail_at s c) v))
                (fits q (tail_at s c ++ v) (down i b refl)))))
          λ found _. returns _ tt)

  -- On a trie that is less than `fuel` nodes high below the node, `traverse_down_util` returns if
  -- every path from the node down has room in an array of 100 characters, with NUL behind it at a
  -- leaf, and it writes beyond the array if one has not.
  pub traverse_down_util-fits :
      (fuel : ℕ) (p : Ptr) (index : ℕ) (path : List ℕ)
      → Height s fuel p
      → (((q : Ptr) (v : List ℕ)
            → Below s p v q
            → needed (leaf_at s q) ((path ++ drop index (tail_at s p)) ++ v) ≤ 100)
          → Returns (λ found. Unit {0}) (traverse_down_util fuel s p index path))
        × ((q : Ptr) (v : List ℕ)
            → Below s p v q
            → 100 < needed (leaf_at s q) ((path ++ drop index (tail_at s p)) ++ v)
            → traverse_down_util fuel s p index path ≡ fault)
  traverse_down_util-fits fuel p index path high = (
    traverse_down_util-done fuel p index path high,
    λ q v. traverse_down_util-fault fuel p index path q v high,
  )
