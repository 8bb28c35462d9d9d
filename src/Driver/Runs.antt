-- ===== src/Driver/Runs.antt =====
-- What `search_t::run` prints for "trie".
use infix_search.Base.{ℕ, ◌+◌, ◌≡◌, ◌≢◌, refl, true, Option, none, some, List, [], ◌∷◌, length}
use infix_search.Base.Run.{ok, Returns, returns, bind, weaken, Ends, Ends-bind, Ends-of_Returns}
use infix_search.Base.Text.{IsText}
use infix_search.Trie.{Trie}
use infix_search.Search.{Indexed}
use infix_search.Search.Built.{HasShortWords}
use infix_search.Search.Answered.{IsAnswered, AnswersAll}
use infix_search.Rows.{lines, str_eq, Loading, read_lines, read_query}
use infix_search.Rows.Lines.{FullAt, row_at, last_row}
use infix_search.Rows.Prints.{
  AreRows, EndsInNul, AreRows-KeysAreTexts, Prints, IsBuffer, extract_row-Prints,
}
use infix_search.Rows.Input.{unread, read_input-IsLoaded}
use infix_search.Driver.{Options, Entry, Block, print_found, answer_each, run, trie_algorithm}

-- The entries are numbered from `i` on, one for each of the words, each with the word's row.
abbrev pub AreEntries : List ℕ → ℕ → List (List ℕ) → List Entry → Type 0
AreEntries file i [] [] = Unit
AreEntries file i [] (e ∷ es) = ⊥
AreEntries file i (w ∷ ws) [] = ⊥
AreEntries file i (w ∷ ws) (e ∷ es) =
    (e.number ≡ i)
    × (e.word ≡ w)
    × Prints (last_row w none (lines file)) e.row
    × AreEntries file (i + 1) ws es

module _ (file : List ℕ) (rows : List ℕ → Option (ℕ × ℕ)) (n : ℕ) (are : AreRows n (lines file))
    (last : (key : List ℕ) → row_at file (rows key) ≡ last_row key none (lines file)) where
  print_found-AreEntries :
      (i : ℕ) (ws : List (List ℕ)) (buffer : List ℕ)
      → IsBuffer n buffer
      → Returns
          (λ (es, buffer'). AreEntries file i ws es × IsBuffer n buffer')
          (print_found file rows i ws buffer)
  unfolding print_found
  print_found-AreEntries i [] buffer is = returns _ (tt, is)
  print_found-AreEntries i (w ∷ ws) buffer is =
      bind (extract_row-Prints file rows n are last w buffer is) λ (row, buffer') (prints, is').
        bind (print_found-AreEntries (i + 1) ws buffer' is')
          λ (es, buffer'') (entries, is''). returns _ ((refl, refl, prints, entries), is'')

-- A query that `find_path` can be given.
abbrev IsQuery : List ℕ → Type 0
IsQuery [] = ⊥
IsQuery (a ∷ key) = IsText (a ∷ key) × (a ≢ b'*')

abbrev pub AreQueries : List (List ℕ) → Type 0
AreQueries [] = Unit
AreQueries (key ∷ keys) = IsQuery key × AreQueries keys

-- The block of a query lists words of which `P` holds for the query.
abbrev pub IsBlock : List ℕ → (List ℕ → List (List ℕ) → Type 0) → List ℕ → Block → Type 0
IsBlock file P key b =
    (b.key ≡ key)
    × (b.lines ≡ [])
    × ((ws : List (List ℕ)) × AreEntries file 0 ws b.entries × P key ws)

abbrev pub AreBlocks :
    List ℕ → (List ℕ → List (List ℕ) → Type 0) → List (List ℕ) → List Block → Type 0
AreBlocks file P [] [] = Unit
AreBlocks file P [] (b ∷ bs) = ⊥
AreBlocks file P (key ∷ keys) [] = ⊥
AreBlocks file P (key ∷ keys) (b ∷ bs) = IsBlock file P key b × AreBlocks file P keys bs

module _ (file : List ℕ) (rows : List ℕ → Option (ℕ × ℕ)) (n : ℕ) (are : AreRows n (lines file))
    (last : (key : List ℕ) → row_at file (rows key) ≡ last_row key none (lines file)) (s : Trie)
    (fuel : ℕ) (x : Indexed) (answers : AnswersAll s 0 fuel x) where
  answer_each-AreBlocks :
      (keys : List (List ℕ)) (buffer : List ℕ)
      → AreQueries keys
      → IsBuffer n buffer
      → Returns (AreBlocks file (IsAnswered s 0) keys) (answer_each file rows fuel x keys buffer)
  unfolding answer_each
  answer_each-AreBlocks [] buffer queries is = returns _ tt
  answer_each-AreBlocks ([] ∷ keys) buffer (query, queries) is = absurd query
  answer_each-AreBlocks ((a ∷ key) ∷ keys) buffer ((text, ne), queries) is =
      bind (answers a key text ne) λ found answered.
        bind (print_found-AreEntries file rows n are last 0 found buffer is)
          λ (es, buffer') (entries, is').
            bind (answer_each-AreBlocks keys buffer' queries is')
              λ bs blocks. returns _ ((refl, refl, (found, entries, answered)), blocks)

module _ (files : List ℕ → Option (List ℕ)) (o : Options) (file queries : List ℕ)
    (chosen : o.algorithm ≡ trie_algorithm) (dict : files o.dict_file ≡ some file)
    (asked : files o.query_file ≡ some queries) (some_line : lines file ≢ [])
    (short : (y : Loading) → read_lines (lines file) unread ≡ ok y → HasShortWords y.trie 0)
    (buffer : List ℕ) (are : AreRows (length buffer) (lines file)) (nul : EndsInNul buffer) where
  -- `run` of a new `search_t` for "trie", with 102 rounds, a dictionary of at least one line, whose
  -- lines hold no NUL and are shorter than the row buffer, which ends with NUL, and lead to words
  -- of less than 100 characters, and with queries that hold a character, no NUL, and do not begin
  -- with "*": it ends without a fault, and prints a block for each query, in their order. The
  -- entries of a block are numbered from 0, their words contain the query and are stored in the
  -- trie of the dictionary's lines, all such words if the query has two characters, is no stored
  -- word and ends none that another begins with, and what stands behind a word is the last row with
  -- this key, perhaps with more behind it, or "Not found." if there is none. It exits only at a
  -- line before which a node of the trie has 126 children.
  pub run-AreBlocks :
      AreQueries (lines queries)
      → Ends
          (λ out.
            (y : Loading) × (read_lines (lines file) unread ≡ ok y)
            × AreBlocks file (IsAnswered y.trie 0) (lines queries) out)
          (FullAt (lines file) unread)
          (run files 102 buffer o)
  unfolding run read_query str_eq
  run-AreBlocks asks =
      let algorithm : str_eq o.algorithm trie_algorithm ≡ true = rw chosen refl in
      rw (algorithm, asked, dict)
        (Ends-bind
          (read_input-IsLoaded file some_line
            (AreRows-KeysAreTexts (length buffer) (lines file) are) short)
          λ (x, rows) ((y, e, serves), last). Ends-of_Returns (
            weaken
              (answer_each-AreBlocks file rows (length buffer) are last y.trie 102 x serves
                (lines queries) buffer asks (refl, nul))
              λ out blocks. (y, e, blocks)))
