-- ===== src/Rows/Input.antt =====
-- `read_input` makes an index that `find_path` finds the dictionary's keys by.
use infix_search.Base.{inl, ℕ, ◌≡◌, ◌≢◌, refl, sym, ◌∙◌, subst, none, some, List, [], ◌∷◌}
use infix_search.Base.Run.{
  Run, ok, fault, exits, out_of_fuel, Ends, ended, Ends-bind, Ends-known, Ends-of_Returns, ◌>>=◌,
  ok-injective,
}
use infix_search.Trie.{empty, add}
use infix_search.Trie.Start.{add-first}
use infix_search.Search.{Indexed}
use infix_search.Search.Answered.{AnswersAll, IsBuilt-AnswersAll}
use infix_search.Search.Built.{IsBuilt, at_start, by_add, IsBuilt-IsSearchable, HasShortWords}
use infix_search.Rows.{lines, key_of, RowLookupMap, Loading, read_lines, read_input}
use infix_search.Rows.Lines.{KeysAreTexts, FullAt, row_at, last_row, read_lines-last_row}

pub bind-ok {ℓ κ} :
    {A : Type ℓ} {B : Type κ} (m : Run A) (f : A → Run B) {b : B}
    → (m >>= f) ≡ ok b
    → (a : A) × (m ≡ ok a) × (f a ≡ ok b)
bind-ok fault f e = cc
bind-ok exits f e = cc
bind-ok out_of_fuel f e = cc
bind-ok (ok a) f e = (a, refl, e)

read_lines-IsBuilt :
    (ls : List (List ℕ)) (x y : Loading)
    → IsBuilt x.trie
    → KeysAreTexts ls
    → read_lines ls x ≡ ok y
    → IsBuilt y.trie
unfolding read_lines
read_lines-IsBuilt [] x y built texts e = subst (λ z. IsBuilt z.trie) (ok-injective e) built
read_lines-IsBuilt (l ∷ ls) x y built texts e =
    let (trie, added, rest) = bind-ok (add (key_of l) x.trie) _ e in
    read_lines-IsBuilt ls _ y (by_add (key_of l) built texts.0 added) texts.1 rest

-- A `search_t` that was constructed.
abbrev pub unread : Loading
unread = record { trie = empty; rows = λ key. none; pos = 0 }

abbrev pub unindexed : Indexed
unindexed = record { trie = empty; tpm = λ a b. none }

pub first-IsBuilt :
    (ls : List (List ℕ)) (y : Loading)
    → ls ≢ []
    → KeysAreTexts ls
    → read_lines ls unread ≡ ok y
    → IsBuilt y.trie
unfolding read_lines
first-IsBuilt [] y some_line texts e = absurd (some_line refl)
first-IsBuilt (l ∷ ls) y some_line texts e =
    let (trie, added, rest) = bind-ok (add (key_of l) empty) _ e in
    read_lines-IsBuilt ls _ y
      (by_add (key_of l) at_start texts.0 (sym (add-first (key_of l)).0 ∙ added)) texts.1 rest

-- `find_path` answers by the trie of the file's keys, and the entries are the last rows of their
-- keys.
abbrev pub IsLoaded : List ℕ → Indexed × RowLookupMap → Type 0
IsLoaded file (x, rows) =
    ((y : Loading) × (read_lines (lines file) unread ≡ ok y) × AnswersAll y.trie 0 102 x)
    × ((key : List ℕ) → row_at file (rows key) ≡ last_row key none (lines file))

module _ (file : List ℕ) (some_line : lines file ≢ []) (texts : KeysAreTexts (lines file))
    (short : (y : Loading) → read_lines (lines file) unread ≡ ok y → HasShortWords y.trie 0) where
  -- On a new `search_t`, for a dictionary of at least one line, whose keys hold no NUL and lead to
  -- words of less than 100 characters: `read_input` with 102 rounds for `index_trie` ends with an
  -- index by which `find_path` on an empty vector finds, for each query without NUL that does not
  -- begin with "*", keys that contain the query and are stored in the trie of the file's lines, all
  -- of them if the query has two characters, is no stored key and ends none that another begins
  -- with, and with an entry for the last row of each key and no other. It exits only at a line
  -- before which a node of the trie has 126 children.
  pub read_input-IsLoaded :
      Ends
        (IsLoaded file)
        (FullAt (lines file) unread)
        (read_input 102 (some file) unindexed (λ key. none))
  unfolding read_input
  read_input-IsLoaded =
      Ends-bind (Ends-known (read_lines-last_row file empty (inl refl) texts))
        λ y ((last, ready), e).
          let built = first-IsBuilt (lines file) y some_line texts e in
          let search = IsBuilt-IsSearchable built in
          rw search.inv.head (
            Ends-bind (Ends-of_Returns (IsBuilt-AnswersAll built (short y e)))
              λ x serves. ended _ ((y, e, serves), last))
