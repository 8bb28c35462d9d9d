-- ===== src/Search/Queries.antt =====
-- What `find_path` returns: keys of the trie that contain the query.
use infix_search.Base.{
  ℕ, ◌+◌, ◌<◌, ◌≡◌, ◌≢◌, inl, inr, refl, sym, ap, ◌∙◌, subst, Bool, true, false, Option-cases, some,
  List, [], ◌∷◌, ◌++◌, arith, leb, if◌then◌else◌, length, append_assoc, append-nil,
}
use infix_search.Base.Run.{Run, Returns, returns, bind, weaken}
use infix_search.Base.Text.{IsText, first_char}
use infix_search.Node.{Ptr}
use infix_search.Trie.{Trie}
use infix_search.Trie.Shape.{tail_at, IsTrie, Stored}
use infix_search.Search.{TreePos, TreePosMap, Found, find_each, find_path}
use infix_search.Search.Down.{Has, Has-append}
use infix_search.Search.Paths.{IsLow, FitsBuffer, HasLeaves, Reads, FitsBuffer-IsShort}
use infix_search.Search.Rounds.{find_path_util-IsSound}

-- Positions in the tails below the head, whose indices fit a `char`.
abbrev pub ArePositions : Trie → Ptr → List TreePos → Type 0
ArePositions s h [] = Unit
ArePositions s h (v ∷ nl) =
    ((base : List ℕ) × Reads s h base v.node v.index
      × (v.index < length (tail_at s v.node))
      × (v.index < 128))
    × ArePositions s h nl

-- What `tpm` holds under a pair that does not begin with the "*" of the head.
abbrev pub IsIndex : Trie → Ptr → TreePosMap → Type 0
IsIndex s h tpm = (a b : ℕ) (nl : List TreePos) → a ≢ b'*' → tpm a b ≡ some nl → ArePositions s h nl

-- The trie stores the word, and the query is a part of it.
abbrev pub Answers : Trie → Ptr → List ℕ → List ℕ → Type 0
Answers s h key u =
    Stored s h (b'*' ∷ u) × ((pre : List ℕ) × (post : List ℕ) × (u ≡ pre ++ key ++ post))

abbrev pub AddsAnswers : Trie → Ptr → List ℕ → List (List ℕ) → List (List ℕ) → Type 0
AddsAnswers s h key found found' =
    (ks : List (List ℕ)) × (found' ≡ found ++ ks) × ((u : List ℕ) → Has u ks → Answers s h key u)

either :
    {P : Found → Type 0} {r r' : Run Found} (b : Bool)
    → Returns P r
    → Returns P r'
    → Returns P (if b then r else r')
either true h h' = h
either false h h' = h'

module _ {s : Trie} {h : Ptr} (inv : IsTrie s h) (fits : FitsBuffer s h) (leaves : HasLeaves s h)
    (fuel : ℕ) (low : IsLow s h fuel) where
  find_each-AddsAnswers :
      (key : List ℕ) (nl : List TreePos) (f : Found)
      → IsText key
      → ArePositions s h nl
      → Returns (λ f'. AddsAnswers s h key f.found_keys f'.found_keys) (find_each fuel s key nl f)
  unfolding find_each
  find_each-AddsAnswers key [] f text places =
      returns f ([], sym (append-nil f.found_keys), λ u has. absurd has)
  find_each-AddsAnswers key (v ∷ nl) f text ((base, begins, inside, small), places) =
      let fits_char : leb 128 v.index ≡ false = ground arith in
      rw fits_char (
        bind
          (find_path_util-IsSound inv (FitsBuffer-IsShort inv fits) fits fuel low v base key begins
            (length key + 1) v.node v.index [] key f leaves text refl
            (subst (λ u. Reads s h u v.node v.index) (sym (append-nil base)) begins) inside
            (omega arith))
          λ f' (ks, e, each).
            let answers : (u : List ℕ) → Has u ks → Answers s h key u =
              (λ u has. let (stored, (post, e')) = each u has in (stored, (base, post, e'))) in
            either f'.exact_match (returns f' (ks, e, answers)) (
              weaken (find_each-AddsAnswers key nl f' text places) λ f'' (ks', e', each'). (
                ks ++ ks',
                e' ∙ ap (λ u. u ++ ks') e ∙ append_assoc f.found_keys ks ks',
                λ u has. elim ((Has-append u ks ks').0 has) [
                  | inl i ↦ answers u i
                  | inr i ↦ each' u i
                ],
              )))

  -- On a well-formed trie whose nodes below the head have leaves at or below them, whose words have
  -- less than 100 characters, with an index of positions in the tails below the head and more
  -- rounds than the trie is high, `find_path` for a query without NUL that does not begin with "*"
  -- returns without a fault, and what it adds are stored keys that contain the query.
  pub find_path-AddsAnswers :
      (tpm : TreePosMap) (a : ℕ) (key : List ℕ) (found : List (List ℕ))
      → IsIndex s h tpm
      → IsText (a ∷ key)
      → a ≢ b'*'
      → Returns
          (AddsAnswers s h (a ∷ key) found)
          (find_path fuel (record { trie = s; tpm = tpm }) (a ∷ key) found)
  unfolding find_path
  find_path-AddsAnswers tpm a key found index text ne =
      elim (Option-cases (tpm a (first_char key))) [
        | inl e ↦ rw e (returns found ([], sym (append-nil found), λ u has. absurd has))
        | inr (nl, e) ↦ rw e (
            bind (find_each-AddsAnswers (a ∷ key) nl _ text (index a (first_char key) nl ne e))
              λ f adds. returns _ adds)
      ]
