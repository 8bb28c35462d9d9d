-- ===== src/Search/Answered.antt =====
-- What `find_path` answers by the index of a trie that `search_t` has built.
use infix_search.Base.{ℕ, ◌<◌, ◌≢◌, none, List, [], ◌∷◌, false, length, arith, subst}
use infix_search.Base.Run.{Returns, Returns-both, Returns-under, weaken}
use infix_search.Base.Text.{IsText}
use infix_search.Node.{Ptr}
use infix_search.Trie.{Trie}
use infix_search.Search.{Indexed, find_path, index_trie}
use infix_search.Search.Down.{Has}
use infix_search.Search.Queries.{Answers}
use infix_search.Search.Index.{Serves}
use infix_search.Search.Exact.{EndsWell, ServesAll}
use infix_search.Search.Built.{IsBuilt, HasShortWords, IsBuilt-Serves, IsBuilt-ServesAll}

-- The words are stored and contain the query. They are all that do, if the query has two
-- characters, is no stored word and ends none that another begins with.
abbrev pub IsAnswered : Trie → Ptr → List ℕ → List (List ℕ) → Type 0
IsAnswered s h key ws =
    ((u : List ℕ) → Has u ws → Answers s h key u)
    × ((1 < length key) × EndsWell s h key → (u : List ℕ) → Answers s h key u → Has u ws)

abbrev pub AnswersAll : Trie → Ptr → ℕ → Indexed → Type 0
AnswersAll s h fuel x =
    (a : ℕ) (key : List ℕ)
    → IsText (a ∷ key)
    → a ≢ b'*'
    → Returns (IsAnswered s h (a ∷ key)) (find_path fuel x (a ∷ key) [])

serves_all :
    {s : Trie} {h : Ptr} (fuel : ℕ) (x : Indexed)
    → Serves s h fuel x
    → ServesAll s h fuel x
    → AnswersAll s h fuel x
serves_all {s} {h} fuel x serves all a key text ne =
    Returns-under
      (weaken (serves a key [] text ne) (λ found (ks, e, each) u has. each u (subst (Has u) e has)))
      (full key text)
  where
    full :
        (key : List ℕ)
        → IsText (a ∷ key)
        → (1 < length (a ∷ key)) × EndsWell s h (a ∷ key)
        → Returns
            (λ found. (u : List ℕ) → Answers s h (a ∷ key) u → Has u found)
            (find_path fuel x (a ∷ key) [])
    full [] text (long, alone) = absurd (omega (arith, long))
    full (b ∷ key) text (long, alone) =
        weaken (all a b key text ne alone) (λ found iff u answer. (iff u).1 answer)

pub IsBuilt-AnswersAll :
    {s : Trie}
    → IsBuilt s
    → HasShortWords s 0
    → Returns
        (λ x. AnswersAll s 0 102 x)
        (index_trie 102 0 false (record { trie = s; tpm = λ a b. none }))
IsBuilt-AnswersAll built short =
    weaken (Returns-both (IsBuilt-Serves built short) (IsBuilt-ServesAll built short))
      (λ x (serves, all). serves_all 102 x serves all)
