-- ===== src/Search/Ways.antt =====
-- What goes on from a place of the trie, and what the end of `find_path_util` finds of it.
use infix_search.Base.{
  ℕ, ◌≡◌, ◌≢◌, inl, inr, refl, sym, ap, ◌∙◌, Bool, true, false, if◌then◌else◌, some, List, [], ◌∷◌,
  ◌++◌, In, map, is_empty, drop, append_assoc, append-nil, none,
}
use infix_search.Base.Run.{Returns, returns, bind}
use infix_search.Base.Text.{IsText, first_char, c_str-text}
use infix_search.Node.{Ptr}
use infix_search.Trie.{Trie}
use infix_search.Trie.Shape.{tail_at, children_at, leaf_at, IsTrie, Distinct, Stored}
use infix_search.Trie.Add.{empty-cases, is_empty-ne}
use infix_search.Search.{TreePos, Found, suffixes_of, finish}
use infix_search.Search.Up.{IsShort}
use infix_search.Search.Down.{Has, Has-append, Below, here, down, Listed}
use infix_search.Search.Paths.{
  IsLow, FitsBuffer, HasLeaves, IsFilled, Reads, whole, suffixes_of-Listed,
}
use infix_search.Search.Finds.{base-IsText, base_fits, up_to_base, some_below}

pub same_first :
    (xs v ys post : List ℕ)
    → xs ≢ []
    → ys ≢ []
    → xs ++ v ≡ ys ++ post
    → first_char xs ≡ first_char ys
same_first [] v ys post left left' e = absurd (left refl)
same_first (x ∷ xs) v [] post left left' e = absurd (left' refl)
same_first (x ∷ xs) v (y ∷ ys) post left left' e = ap first_char e

Has-mapped :
    (base u : List ℕ) (xs : List (List ℕ)) → Has u xs → Has (base ++ u) (map (λ x. base ++ x) xs)
Has-mapped base u [] h = absurd h
Has-mapped base u (x ∷ xs) (inl e) = inl (ap (λ y. base ++ y) e)
Has-mapped base u (x ∷ xs) (inr h) = inr (Has-mapped base u xs h)

pub Distinct-unique :
    (f : Ptr → ℕ) (cs : List Ptr) (c d : Ptr)
    → Distinct f cs
    → In c cs
    → In d cs
    → f c ≡ f d
    → c ≡ d
Distinct-unique f [] c d distinct i j e = absurd i
Distinct-unique f (x ∷ cs) c d (far, distinct) (inl a) (inl b) e = a ∙ sym b
Distinct-unique f (x ∷ cs) c d (far, distinct) (inl a) (inr j) e =
    absurd (far d j (ap f (sym a) ∙ e))
Distinct-unique f (x ∷ cs) c d (far, distinct) (inr i) (inl b) e =
    absurd (far c i (ap f (sym b) ∙ sym e))
Distinct-unique f (x ∷ cs) c d (far, distinct) (inr i) (inr j) e =
    Distinct-unique f cs c d distinct i j e

keep_false : (b : Bool) → (if b then false else false) ≡ false
keep_false true = refl
keep_false false = refl

no_more : (ys post : List ℕ) → ys ≢ [] → [] ≢ ys ++ post
no_more [] post left e = left refl
no_more (y ∷ ys) post left e = cc

-- A way down that spells something leads through a child with its first character.
pub first_step :
    {s : Trie} {p q : Ptr} {v : List ℕ}
    → IsFilled s
    → Below s p v q
    → leaf_at s q ≡ true
    → (ys post : List ℕ) → ys ≢ []
    → v ≡ ys ++ post
    → (d : Ptr) × In d (children_at s p)
      × (first_char (tail_at s d) ≡ first_char ys)
      × Listed s d (tail_at s d) v
first_step filled (here e e') leaf ys post left e3 = absurd (no_more ys post left (sym e' ∙ e3))
first_step {s} filled (down {c = d} {q} {v = v'} j b e) leaf ys post left e3 =
    elim (empty-cases (tail_at s d)) [
      | inr some_tail ↦ (
        d,
        j,
        same_first (tail_at s d) v' ys post some_tail left (sym e ∙ e3),
        (q, v', b, leaf, e),
      )
      | inl no_tail ↦ absurd (
          no_more ys post left
            (sym (stays b no_tail) ∙ ap (λ x. x ++ v') (sym no_tail) ∙ sym e ∙ e3))
    ]
  where
    stays : {d q : Ptr} {v : List ℕ} → Below s d v q → tail_at s d ≡ [] → v ≡ []
    stays (here e e') no_tail = e'
    stays {d} (down {c} k b e) no_tail = cc (filled d c k, ap is_empty no_tail)

-- A stored word that ends with the key at this place is longer than the key, and no stored word
-- goes on behind it.
abbrev pub EndsAt : Trie → Ptr → List ℕ → List ℕ → Type 0
EndsAt s h base key =
    Stored s h (b'*' ∷ base ++ key)
    → (base ≢ []) × ((post : List ℕ) → Stored s h (b'*' ∷ base ++ (key ++ post)) → post ≡ [])

-- No exact match was met, and every word that goes on from the place with `sub_key` was found.
abbrev pub FindsAll : Trie → List ℕ → List ℕ → List ℕ → Ptr → ℕ → Found → Type 0
FindsAll s base done sub_key p i f =
    (f.exact_match ≡ false)
    × ((u post : List ℕ)
        → Listed s p (drop i (tail_at s p)) u
        → u ≡ sub_key ++ post
        → Has (base ++ (done ++ u)) f.found_keys)

module _ {s : Trie} {h : Ptr} (inv : IsTrie s h) (short : IsShort s h) (fits : FitsBuffer s h)
    (leaves : HasLeaves s h) (filled : IsFilled s) (fuel : ℕ) (low : IsLow s h fuel)
    (start : TreePos) (base key : List ℕ) (begins : Reads s h base start.node start.index) where
  pub finish-FindsAll :
      (p : Ptr) (i : ℕ) (f : Found)
      → IsText key
      → Reads s h (base ++ key) p i
      → f.exact_match ≡ false
      → Returns (FindsAll s base key [] p i) (finish fuel s start key (some p) i f)
  unfolding finish
  finish-FindsAll p i f text at new =
      rw
        (
          up_to_base inv short fits fuel low start base key begins,
          c_str-text base (base-IsText inv short fits fuel low start base key begins),
          base_fits inv short fits fuel low start base key begins,
          new,
        )
        (bind (suffixes_of-Listed inv short base key p i at fuel start text fits low) λ found is.
          let some_found =
            some_below inv short fits fuel low start base key begins p _ found
              (leaves _ p (whole inv short base key p i at) (inv.child_ne_head at.1 p at.3)) is in
          rw some_found (
            returns _ (
              keep_false (is_empty base),
              λ u post (q, v, b, leaf, e) e'.
                  (Has-append _ f.found_keys (map (λ x. base ++ x) found)).1 (
                    inr (
                      Has-mapped base (key ++ u) found (
                        (is (key ++ u)).1 (
                          q,
                          v,
                          b,
                          leaf,
                          ap (λ x. key ++ x) e ∙ sym (append_assoc key (drop i (tail_at s p)) v),
                        )))),
            )))

  -- Where nothing goes on, the key itself is all that is found.
  pub finish-none-FindsAll :
      (p : Ptr) (i : ℕ) (f : Found)
      → base ≢ []
      → ((u : List ℕ) → Listed s p (drop i (tail_at s p)) u → u ≡ [])
      → Returns (FindsAll s base key [] p i) (finish fuel s start key none i f)
  unfolding finish suffixes_of
  finish-none-FindsAll p i f behind last =
      rw
        (
          up_to_base inv short fits fuel low start base key begins,
          c_str-text base (base-IsText inv short fits fuel low start base key begins),
          base_fits inv short fits fuel low start base key begins,
          is_empty-ne base behind,
        )
        (returns _ (
          refl,
          λ u post listed e. (Has-append _ f.found_keys ((base ++ key) ∷ [])).1 (
              inr (
                inl (
                  ap (λ x. base ++ (key ++ x)) (last u listed)
                  ∙ ap (λ x. base ++ x) (append-nil key)))),
        ))
