-- ===== src/Search/Finds.antt =====
-- The end of `find_path_util`: what `finish` adds is stored and contains the key.
use infix_search.Base.{
  ℕ, ◌+◌, ◌≡◌, ◌↔◌, inl, inr, refl, sym, ap, ◌∙◌, subst, true, false, Option, none, some, List, [],
  ◌∷◌, ◌++◌, map, arith, leb, is_empty, length, take, drop, append-nil, length-append,
}
use infix_search.Base.Run.{ok, Returns, returns, weaken, bind}
use infix_search.Base.Text.{IsText, IsText-append, IsText-split, c_str-text}
use infix_search.Node.{Ptr}
use infix_search.Trie.{Trie}
use infix_search.Trie.Shape.{tail_at, leaf_at, IsTrie, Spells, Stored, at_head, at_child}
use infix_search.Search.{TreePos, Found, traverse_up, suffixes_of, finish}
use infix_search.Search.Up.{IsShort, traverse_up-Spells}
use infix_search.Search.Down.{Has, Listed}
use infix_search.Search.Paths.{
  IsLow, FitsBuffer, HasLeaves, Reads, Contain, Reads-Spells, whole, Listed-Contain,
  suffixes_of-Listed,
}

Has-map :
    (base u : List ℕ) (xs : List (List ℕ))
    → Has u (map (λ x. base ++ x) xs)
    → (x : List ℕ) × Has x xs × (u ≡ base ++ x)
Has-map base u [] h = absurd h
Has-map base u (x ∷ xs) (inl e) = (x, inl refl, e)
Has-map base u (x ∷ xs) (inr h) = let (y, i, e) = Has-map base u xs h in (y, inr i, e)

-- The run adds words that contain the key behind `base` and that the trie stores.
abbrev pub IsSound : Trie → Ptr → List ℕ → List ℕ → Found → Found → Type 0
IsSound s h base key f f' =
    (ks : List (List ℕ)) × (f'.found_keys ≡ f.found_keys ++ ks) × Contain s h base key ks

module _ {s : Trie} {h : Ptr} (inv : IsTrie s h) (short : IsShort s h) (fits : FitsBuffer s h) where
  Spells-IsText : {w : List ℕ} {p : Ptr} → Spells s h w p → IsText w
  Spells-IsText (at_head {w} e e') = subst IsText (sym e') (inv.texts h)
  Spells-IsText (at_child {v} {w} {p} {c} r i e) =
      subst IsText (sym e) (IsText-append v (tail_at s c) (Spells-IsText r) (inv.texts c))

  module _ (fuel : ℕ) (low : IsLow s h fuel) (start : TreePos) (base key : List ℕ)
      (begins : Reads s h base start.node start.index) where
    pub base-IsText : IsText base
    base-IsText = (IsText-split base _ (Spells-IsText (Reads-Spells inv short begins)).1).0

    pub base_fits : leb (length base + 1) 100 ≡ true
    base_fits =
        let room = fits _ start.node (Reads-Spells inv short begins) in
        let l = length-append base (drop start.index (tail_at s start.node)) in ground arith

    pub up_to_base : traverse_up fuel s start.node start.index [] ≡ ok base
    up_to_base =
        let (v, q, r, i, le, e) = begins in
        traverse_up-Spells inv short fuel r start.node start.index [] i le (low _ q r)
        ∙ ap (λ x. ok (drop 1 v ++ x)) (append-nil (take start.index (tail_at s start.node)))
        ∙ ap ok (sym e)

    finish-IsSound :
        (at : Option Ptr) (i : ℕ) (f : Found)
        → Returns
            (λ found.
              (is_empty found ≡ false)
              × ((x : List ℕ)
                  → Has x found
                  → Stored s h (b'*' ∷ base ++ x)
                    × ((post : List ℕ) × (base ++ x ≡ base ++ key ++ post))))
            (suffixes_of fuel s start key at i)
        → Returns (IsSound s h base key f) (finish fuel s start key at i f)
    unfolding finish
    finish-IsSound at i f suffixes =
        rw (up_to_base, c_str-text base base-IsText, base_fits)
          (bind suffixes λ found (some_found, each). rw some_found (
            returns _ (
              map (λ x. base ++ x) found,
              refl,
              λ u has.
                  let (x, i, e) = Has-map base u found has in
                  let (stored, (post, e')) = each x i in
                  (subst (λ y. Stored s h (b'*' ∷ y)) (sym e) stored, (post, e ∙ e')),
            )))

    pub some_below :
        (p : Ptr) (front : List ℕ) (found : List (List ℕ))
        → (u : List ℕ) × Listed s p [] u
        → ((u : List ℕ) → Has u found ↔ Listed s p front u)
        → is_empty found ≡ false
    some_below p front [] (u, (q, v, b, leaf, e)) is =
        absurd ((is (front ++ v)).1 (q, v, b, leaf, refl))
    some_below p front (x ∷ found) leaf is = refl

    pub finish-some :
        (p : Ptr) (i : ℕ) (f : Found)
        → HasLeaves s h
        → IsText key
        → Reads s h (base ++ key) p i
        → Returns (IsSound s h base key f) (finish fuel s start key (some p) i f)
    finish-some p i f leaves text at =
        let (v, q, r, j, _, _) = at in
        finish-IsSound (some p) i f (
          weaken (suffixes_of-Listed inv short base key p i at fuel start text fits low) λ found is.
            (
              some_below p _ found
                  (leaves _ p (whole inv short base key p i at) (inv.child_ne_head q p j)) is,
              λ x has. Listed-Contain inv short base key p i at x ((is x).0 has),
            ))

    pub finish-none :
        (p : Ptr) (i : ℕ) (f : Found)
        → leaf_at s p ≡ true
        → drop i (tail_at s p) ≡ []
        → Reads s h (base ++ key) p i
        → Returns (IsSound s h base key f) (finish fuel s start key none i f)
    unfolding suffixes_of
    finish-none p i f leaf end at = finish-IsSound none i f (
        returns _ (
          refl,
          λ x has. elim has [
            | inl e ↦ (
              (
                p,
                subst (λ y. Spells s h (b'*' ∷ base ++ y) p)
                    (ap (λ y. key ++ y) end ∙ append-nil key ∙ sym e)
                    (whole inv short base key p i at),
                leaf,
              ),
              ([], ap (λ y. base ++ y) e ∙ sym (append-nil (base ++ key))),
            )
            | inr none_left ↦ absurd none_left
          ],
        ))
