-- ===== src/Search/Exact.antt =====
-- `find_path` finds each stored word that contains the query, unless the query is one itself or
-- ends one that another begins with.
use infix_search.Base.{
  ℕ, ◌+◌, ◌-◌, ◌≡◌, ◌≢◌, ◌↔◌, inl, inr, refl, sym, ap, ◌∙◌, subst, Bool, true, false, Option-cases,
  none, List, [], ◌∷◌, ◌++◌, In, arith, leb, if◌then◌else◌, length, take, drop, append_assoc,
  append-nil,
}
use infix_search.Base.Run.{Run, Returns, Returns-both, returns, bind, weaken}
use infix_search.Base.Text.{IsText}
use infix_search.Node.{Ptr}
use infix_search.Trie.{Trie}
use infix_search.Trie.Shape.{tail_at, IsTrie, Spells, parent_unique, Spells-unique, at_head}
use infix_search.Trie.Marks.{SameShape, SameShape-sym, Spells-same, val-same}
use infix_search.Search.{
  Indexed, TreePos, TreePosMap, Found, find_each, find_path, entries, index_trie, last_char,
  tree_pos,
}
use infix_search.Search.Down.{Has, Has-append, Listed}
use infix_search.Search.Paths.{
  IsLow, FitsBuffer, HasLeaves, IsFilled, Reads, FitsBuffer-IsShort, IsLow-Height,
}
use infix_search.Search.Rounds.{find_path_util-IsSound}
use infix_search.Search.Ways.{EndsAt}
use infix_search.Search.Complete.{find_path_util-FindsAll}
use infix_search.Search.Queries.{ArePositions, IsIndex, Answers, find_path-AddsAnswers}
use infix_search.Search.Pairs.{Holds, Lists, TailAt}
use infix_search.Search.Entries.{PairAt, inner, across, below, index_trie-Indexes}
use infix_search.Search.Places.{locate_stored}
use infix_search.Search.Same.{
  Same-refl, IsTrie-Same, FitsBuffer-Same, HasLeaves-Same, IsLow-Same, Stored-Same,
}
use infix_search.Search.Index.{index_trie-IsIndex}

unless :
    {P : Found → Type 0} (b : Bool) (r : Run Found) {r' : Run Found}
    → b ≡ false
    → Returns P r'
    → Returns P (if b then r else r')
unless true r e h = cc
unless false r e h = h

-- A stored word that ends with the key is longer than the key, and no stored word goes on behind
-- it.
abbrev pub EndsWell : Trie → Ptr → List ℕ → Type 0
EndsWell s h key = (pre : List ℕ) → EndsAt s h pre key

-- No exact match was met, nothing found before is lost, and every word that goes on from one of
-- the positions with the key was found.
abbrev Meets : Trie → Ptr → List ℕ → List TreePos → Found → Found → Type 0
Meets s h key nl f f' =
    (f'.exact_match ≡ false)
    × ((x : List ℕ) → Has x f.found_keys → Has x f'.found_keys)
    × ((v : TreePos)
        → Holds v nl
        → (base u post : List ℕ) → Reads s h base v.node v.index
        → Listed s v.node (drop v.index (tail_at s v.node)) u
        → u ≡ key ++ post
        → Has (base ++ u) f'.found_keys)

module _ {s : Trie} {h : Ptr} (inv : IsTrie s h) (fits : FitsBuffer s h) (leaves : HasLeaves s h)
    (filled : IsFilled s) (fuel : ℕ) (low : IsLow s h fuel) where
  Reads-unique : (b b' : List ℕ) (p : Ptr) (i : ℕ) → Reads s h b p i → Reads s h b' p i → b ≡ b'
  Reads-unique b b' p i (v, q, r, j, le, e) (v', q', r', j', le', e') =
      let same = parent_unique inv q' q p j' j in
      let one_word = Spells-unique inv r (subst (λ x. Spells s h v' x) same r') in
      e ∙ ap (λ x. drop 1 x ++ take i (tail_at s p)) one_word ∙ sym e'

  find_each-Meets :
      (key : List ℕ) (nl : List TreePos) (f : Found)
      → IsText key
      → EndsWell s h key
      → ArePositions s h nl
      → f.exact_match ≡ false
      → Returns (Meets s h key nl f) (find_each fuel s key nl f)
  unfolding find_each
  find_each-Meets key [] f text alone places new = returns f (new, λ x has. has, λ v i. absurd i)
  find_each-Meets key (v ∷ nl) f text alone ((base, begins, inside, small), places) new =
      let fits_char : leb 128 v.index ≡ false = ground arith in
      let short = FitsBuffer-IsShort inv fits in
      let begins' = subst (λ u. Reads s h u v.node v.index) (sym (append-nil base)) begins in
      rw fits_char (
        bind
          (Returns-both
            (find_path_util-IsSound inv short fits fuel low v base key begins (length key + 1)
              v.node v.index [] key f leaves text refl begins' inside (omega arith))
            (find_path_util-FindsAll inv short fits leaves filled fuel low v base key begins text
              (alone base) (length key + 1) v.node v.index [] key f refl begins' inside
              (omega arith) new))
          λ f' ((ks, e, _), (new', finds)). unless f'.exact_match _ new' (
            weaken (find_each-Meets key nl f' text alone places new') λ f'' (new'', grows, all). (
              new'',
              λ x has.
                  grows x
                    (subst (λ xs. Has x xs) (sym e) ((Has-append x f.found_keys ks).1 (inl has))),
              λ v' i base' u post reads listed e'. elim i [
                | inr j ↦ all v' j base' u post reads listed e'
                | inl same ↦
                    let reads' = subst (λ y. Reads s h base' y.node y.index) same reads in
                    let listed' =
                      subst (λ y. Listed s y.node (drop y.index (tail_at s y.node)) u) same
                        listed in
                    grows (base' ++ u) (
                      subst (λ b. Has (b ++ u) f'.found_keys)
                        (Reads-unique base base' v.node v.index begins reads')
                        (finds u post listed' e'))
              ],
            )))

  -- Every stored word that contains the query is found.
  find_path-FindsStored :
      (tpm : TreePosMap) (a b : ℕ) (key : List ℕ) (found : List (List ℕ))
      → IsIndex s h tpm
      → ((v : TreePos) → PairAt s h false a b v → Lists tpm a b v)
      → IsText (a ∷ b ∷ key)
      → a ≢ b'*'
      → EndsWell s h (a ∷ b ∷ key)
      → Returns
          (λ found'. (u : List ℕ) → Answers s h (a ∷ b ∷ key) u → Has u found')
          (find_path fuel (record { trie = s; tpm = tpm }) (a ∷ b ∷ key) found)
  unfolding find_path
  find_path-FindsStored tpm a b key found index full text ne alone = elim (Option-cases (tpm a b)) [
    | inl none_there ↦ rw none_there (
        returns found λ u answer.
          let (pre, post, v, pair, _, _, _) = placed u answer in
          absurd (subst (λ o. Holds v (entries o)) none_there (full v pair)))
    | inr (nl, there) ↦ rw there (
        bind (find_each-Meets (a ∷ b ∷ key) nl _ text alone (index a b nl ne there) refl)
          λ f (_, _, all). returns _ λ u answer.
            let (pre, post, v, pair, reads, listed, e) = placed u answer in
            subst (λ x. Has x f.found_keys) (sym e)
              (all v (subst (λ o. Holds v (entries o)) there (full v pair)) pre
                (a ∷ b ∷ (key ++ post)) post reads listed refl))
  ]
    where
      placed :
          (u : List ℕ)
          → Answers s h (a ∷ b ∷ key) u
          → (pre : List ℕ) × (post : List ℕ) × (v : TreePos) × PairAt s h false a b v
            × Reads s h pre v.node v.index
            × Listed s v.node (drop v.index (tail_at s v.node)) (a ∷ b ∷ (key ++ post))
            × (u ≡ pre ++ (a ∷ b ∷ (key ++ post)))
      placed u ((x, path, leaf), (pre, post, e)) =
          let e' : u ≡ pre ++ (a ∷ b ∷ (key ++ post)) = e ∙ append_assoc pre (a ∷ b ∷ key) post in
          let (v, pair, reads, listed) =
            locate_stored inv (FitsBuffer-IsShort inv fits) filled pre a b (key ++ post) x
              (subst (λ y. Spells s h (b'*' ∷ y) x) e' path) leaf in
          (pre, post, v, pair, reads, listed, e')

-- A pair stands in tries of one shape at the same places.
PairAt-same :
    {s s' : Trie} {p : Ptr} {has_parent : Bool} {c d : ℕ} {v : TreePos}
    → SameShape s s'
    → PairAt s p has_parent c d v
    → PairAt s' p has_parent c d v
PairAt-same {p} {c} {d} {v} same (inner e t) =
    inner e (subst (λ r. TailAt p 0 r c d v) (sym (same.tails p)) t)
PairAt-same {p} same (across q i (e, e', e'')) = across q (subst (In q) (sym (same.children p)) i) (
  e ∙ ap last_char (sym (same.tails p)),
  e' ∙ val-same same q,
  e'' ∙ ap (λ r. tree_pos p (length r - 1)) (sym (same.tails p)),
)
PairAt-same {p} same (below q i b) =
    below q (subst (In q) (sym (same.children p)) i) (PairAt-same same b)

-- The index finds exactly the stored words that contain the query, if it has two characters, is no
-- stored word and ends none that another begins with.
abbrev pub ServesAll : Trie → Ptr → ℕ → Indexed → Type 0
ServesAll s h fuel x =
    (a b : ℕ) (key : List ℕ)
    → IsText (a ∷ b ∷ key)
    → a ≢ b'*'
    → EndsWell s h (a ∷ b ∷ key)
    → Returns (λ found. (u : List ℕ) → Has u found ↔ Answers s h (a ∷ b ∷ key) u)
        (find_path fuel x (a ∷ b ∷ key) [])

module _ {s : Trie} {h : Ptr} (inv : IsTrie s h) (fits : FitsBuffer s h) (filled : IsFilled s)
    (leaves : HasLeaves s h) (fuel : ℕ) (low : IsLow s h fuel) where
  IsFilled-same : {s' : Trie} → SameShape s s' → IsFilled s'
  IsFilled-same same p c i = rw (same.tails p) (filled p c (subst (In c) (same.children p) i))

  pub index_trie-ServesAll :
      Returns
        (λ x. ServesAll s h fuel x)
        (index_trie fuel h false (record { trie = s; tpm = λ a b. none }))
  index_trie-ServesAll =
      let high = IsLow-Height fuel fuel (tail_at s h) h (at_head refl refl) low (omega arith) in
      weaken
        (Returns-both (index_trie-IsIndex inv fits filled fuel high)
          (index_trie-Indexes fuel h false _ high filled (Same-refl s)))
        λ x ((same, index), (_, lists)) a b key text ne alone.
          let back : SameShape x.trie s = SameShape-sym same.shape in
          let inv' = IsTrie-Same same inv in
          let fits' = FitsBuffer-Same same fits in
          let leaves' = HasLeaves-Same same leaves in
          let low' = IsLow-Same same low in
          weaken
            (Returns-both
              (find_path-AddsAnswers inv' fits' leaves' fuel low' x.tpm a (b ∷ key) [] index text
                ne)
              (find_path-FindsStored inv' fits' leaves' (IsFilled-same same.shape) fuel low' x.tpm a
                b key [] index (λ v pair. (lists a b v).1 (inr (PairAt-same back pair))) text ne
                (λ pre stored.
                  let (longer, last) = alone pre (Stored-Same same stored) in
                  (longer, λ post goes_on. last post (Stored-Same same goes_on)))))
            λ found ((ks, e, sound), full) u. (
              λ has.
                  let (kept, parts) = sound u (subst (λ xs. Has u xs) e has) in
                  (Stored-Same same kept, parts),
              λ ((q, r, leaf), parts).
                  full u ((q, Spells-same same.shape r, same.leaf q ∙ leaf), parts),
            )
