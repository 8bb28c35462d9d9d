-- ===== src/Search/Branches.antt =====
-- The example of README.md: two keys that part behind "MSP103020". `index_trie` takes the pairs of
-- every tail, so a query behind the branch point is found, too.
use infix_search.Base.{ℕ, ◌≡◌, refl, none, false, List, [], ◌∷◌}
use infix_search.Base.Run.{Run, ok, ◌>>=◌}
use infix_search.Trie.{empty, add}
use infix_search.Search.{index_trie, find_path}
use infix_search.Search.Tests.{search_runs}

-- "MSP103020".
abbrev common : List ℕ → List ℕ
common rest = b'M' ∷ b'S' ∷ b'P' ∷ b'1' ∷ b'0' ∷ b'3' ∷ b'0' ∷ b'2' ∷ b'0' ∷ rest

-- "ABD", "MSP1030200ABD", "MSP1030201ADF".
abbrev abd : List ℕ
abd = b'A' ∷ b'B' ∷ b'D' ∷ []

abbrev first_key : List ℕ
first_key = common (b'0' ∷ abd)

abbrev second_key : List ℕ
second_key = common (b'1' ∷ b'A' ∷ b'D' ∷ b'F' ∷ [])

abbrev found : List ℕ → Run (List (List ℕ))
found query = add first_key empty >>= λ s. add second_key s >>= λ s'.
    index_trie 102 0 false (record { trie = s'; tpm = λ a b. none }) >>= λ x.
    find_path 102 x query []

found-abd : found abd ≡ ok (first_key ∷ [])
unfolding search_runs
found-abd = refl

found-common : found (b'P' ∷ b'1' ∷ b'0' ∷ b'3' ∷ []) ≡ ok (first_key ∷ second_key ∷ [])
unfolding search_runs
found-common = refl
