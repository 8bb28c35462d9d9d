-- ===== src/Driver/Lookups.antt =====
-- What `search_t::run` prints for "trie", said of the lines of the dictionary alone.
use infix_search.Base.{ℕ, ◌≡◌, ◌≢◌, Option, some, List, [], ◌∷◌, length}
use infix_search.Base.Run.{Returns, Ends, Ends-weaken, Ends-Returns}
use infix_search.Trie.{empty}
use infix_search.Rows.{lines}
use infix_search.Rows.Lines.{FullAt}
use infix_search.Rows.Prints.{AreRows, EndsInNul, AreRows-KeysAreTexts}
use infix_search.Rows.Input.{unread}
use infix_search.Rows.Printable.{ArePrintable, never-FullAt}
use infix_search.Rows.Keys.{
  AreShort, IsUndiverted, IsLookup, read_lines-HasShortWords, IsAnswered-IsLookup,
}
use infix_search.Driver.{Options, Block, run, trie_algorithm}
use infix_search.Driver.Runs.{AreQueries, AreBlocks, run-AreBlocks}

AreBlocks-weaken :
    {P Q : List ℕ → List (List ℕ) → Type 0} (file : List ℕ) (keys : List (List ℕ)) (bs : List Block)
    → ((key : List ℕ) (ws : List (List ℕ)) → P key ws → Q key ws)
    → AreBlocks file P keys bs
    → AreBlocks file Q keys bs
AreBlocks-weaken file [] [] f are = tt
AreBlocks-weaken file [] (b ∷ bs) f are = absurd are
AreBlocks-weaken file (key ∷ keys) [] f are = absurd are
AreBlocks-weaken file (key ∷ keys) (b ∷ bs) f ((k, l, (ws, entries, p)), are) =
    ((k, l, (ws, entries, f key ws p)), AreBlocks-weaken file keys bs f are)

module _ (files : List ℕ → Option (List ℕ)) (o : Options) (file queries : List ℕ)
    (chosen : o.algorithm ≡ trie_algorithm) (dict : files o.dict_file ≡ some file)
    (asked : files o.query_file ≡ some queries) (some_line : lines file ≢ [])
    (short : AreShort (lines file)) (fine : IsUndiverted (lines file) empty) (buffer : List ℕ)
    (are : AreRows (length buffer) (lines file)) (nul : EndsInNul buffer) where
  -- `run` of a new `search_t` for "trie", with 102 rounds, a dictionary of at least one line, whose
  -- lines hold no NUL and are shorter than the row buffer, which ends with NUL, whose keys have
  -- less than 100 characters, and of which `add` never follows a child in the middle of a tail, and
  -- with queries that hold a character, no NUL, and do not begin with "*": it ends without a fault,
  -- and prints a block for each query, in their order. The entries of a block are numbered from 0,
  -- their words are keys of the dictionary that contain the query, all of them if the query has two
  -- characters, is no key and ends no key that another begins with, and behind a word stands the
  -- last row with this key, perhaps with more behind it. It exits only at a line before which a
  -- node of the trie has 126 children.
  pub run-finds_all :
      AreQueries (lines queries)
      → Ends
          (λ out. AreBlocks file (IsLookup (lines file)) (lines queries) out)
          (FullAt (lines file) unread)
          (run files 102 buffer o)
  run-finds_all asks =
      let texts = AreRows-KeysAreTexts (length buffer) (lines file) are in
      Ends-weaken
        (run-AreBlocks files o file queries chosen dict asked some_line
          (λ y e. read_lines-HasShortWords (lines file) some_line texts fine y e short) buffer are
          nul asks)
        λ out (y, e, blocks).
          AreBlocks-weaken file (lines queries) out
            (IsAnswered-IsLookup (lines file) some_line texts fine y e) blocks

  -- `run` of a new `search_t` for "trie" has a result, with 102 rounds, for a dictionary of at
  -- least one line, whose lines hold no NUL and are shorter than the row buffer, which ends with
  -- NUL, whose keys have less than 100 characters, all of them from the blank to the tilde, and of
  -- which `add` never follows a child in the middle of a tail, and for queries that hold a
  -- character, no NUL, and do not begin with "*": it neither faults, nor exits, nor runs out of
  -- rounds. It prints a block for each query, in their order, whose entries are numbered from 0 and
  -- whose words are keys of the dictionary that contain the query, all of them if the query has two
  -- characters, is no key and ends no key that another begins with; behind a word stands the last
  -- row with this key, perhaps with more behind it.
  pub run-Returns :
      ArePrintable (lines file)
      → AreQueries (lines queries)
      → Returns
          (λ out. AreBlocks file (IsLookup (lines file)) (lines queries) out)
          (run files 102 buffer o)
  run-Returns printable asks = Ends-Returns (run-finds_all asks) (
      never-FullAt (lines file) (AreRows-KeysAreTexts (length buffer) (lines file) are) fine
        printable)
