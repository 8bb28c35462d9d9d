-- ===== src/Driver/Linear.antt =====
-- What `search_t::run` prints for "linear", and how the words that it prints for "trie" relate to
-- it.
use infix_search.Base.{
  ℕ, ◌+◌, ◌<◌, ◌≡◌, ◌≢◌, ◌↔◌, refl, ap, ◌∙◌, inl, inr, Option, some, List, [], ◌∷◌, map, length,
}
use infix_search.Base.Run.{Returns, returns, bind, weaken, Ends, Ends-weaken}
use infix_search.Trie.{empty}
use infix_search.Search.Down.{Has}
use infix_search.Rows.{lines, key_of, str_eq, read_query}
use infix_search.Rows.Lines.{FullAt}
use infix_search.Rows.Prints.{AreRows, EndsInNul}
use infix_search.Rows.Input.{unread}
use infix_search.Rows.Scans.{Contains, line-Contains, find_in_file-Contains}
use infix_search.Rows.Keys.{AreShort, IsUndiverted, IsLookup, EndsKeys, keys_of}
use infix_search.Driver.{Options, Entry, Block, scan_each, run, trie_algorithm, linear_algorithm}
use infix_search.Driver.Runs.{AreQueries, AreEntries, IsBlock, AreBlocks}
use infix_search.Driver.Lookups.{run-finds_all}

-- The block of a query has the lines of the file that contain the query, and no entries.
abbrev IsScan : List ℕ → List ℕ → Block → Type 0
IsScan file key b =
    (b.key ≡ key)
    × (b.entries ≡ [])
    × ((l : List ℕ) → Has l b.lines ↔ (Has l (lines file) × Contains l key))

abbrev AreScans : List ℕ → List (List ℕ) → List Block → Type 0
AreScans file [] [] = Unit
AreScans file [] (b ∷ bs) = ⊥
AreScans file (key ∷ keys) [] = ⊥
AreScans file (key ∷ keys) (b ∷ bs) = IsScan file key b × AreScans file keys bs

scan_each-AreScans :
    (file : List ℕ) (keys : List (List ℕ))
    → Returns (AreScans file keys) (scan_each keys (some file))
unfolding scan_each
scan_each-AreScans file [] = returns _ tt
scan_each-AreScans file (key ∷ keys) = bind (find_in_file-Contains key file) λ found contains.
    bind (scan_each-AreScans file keys) λ bs scans. returns _ ((refl, refl, contains), scans)

run-AreScans :
    (files : List ℕ → Option (List ℕ)) (fuel : ℕ) (buffer : List ℕ) (o : Options)
    (file queries : List ℕ)
    → files o.dict_file ≡ some file
    → files o.query_file ≡ some queries
    → Returns
        (AreScans file (lines queries))
        (run files fuel buffer (record o { algorithm = linear_algorithm }))
unfolding run read_query str_eq
run-AreScans files fuel buffer o file queries dict asked =
    rw (asked, dict) (scan_each-AreScans file (lines queries))

-- The words of a block's entries.
abbrev words_of : List Entry → List (List ℕ)
words_of es = map (λ e. e.word) es

AreEntries-words :
    (file : List ℕ) (i : ℕ) (ws : List (List ℕ)) (es : List Entry)
    → AreEntries file i ws es
    → words_of es ≡ ws
AreEntries-words file i [] [] are = refl
AreEntries-words file i [] (e ∷ es) are = absurd are
AreEntries-words file i (w ∷ ws) [] are = absurd are
AreEntries-words file i (w ∷ ws) (e ∷ es) (_, same, _, are) =
    ap (λ u. u ∷ words_of es) same ∙ ap (λ us. w ∷ us) (AreEntries-words file (i + 1) ws es are)

-- What the two algorithms print for a query: each word of the index is the key of a line of the
-- scan; and the key of each such line is a word of the index, if it contains the query, the query
-- has two characters, is no key and ends no key that another begins with.
abbrev AreAlike : List ℕ → Block → Block → Type 0
AreAlike file b b' =
    (b.key ≡ b'.key)
    × ((u : List ℕ)
        → Has u (words_of b.entries)
        → (l : List ℕ) × Has l b'.lines × (key_of l ≡ u) × Contains u b.key)
    × ((1 < length b.key) × EndsKeys (lines file) b.key
        → (l : List ℕ) → Has l b'.lines
        → Contains (key_of l) b.key
        → Has (key_of l) (words_of b.entries))

abbrev pub AreAllAlike : List ℕ → List Block → List Block → Type 0
AreAllAlike file [] [] = Unit
AreAllAlike file [] (b' ∷ bs') = ⊥
AreAllAlike file (b ∷ bs) [] = ⊥
AreAllAlike file (b ∷ bs) (b' ∷ bs') = AreAlike file b b' × AreAllAlike file bs bs'

Has-keys_of : (l : List ℕ) (ls : List (List ℕ)) → Has l ls → Has (key_of l) (keys_of ls)
Has-keys_of l [] has = absurd has
Has-keys_of l (x ∷ ls) (inl e) = inl (ap key_of e)
Has-keys_of l (x ∷ ls) (inr has) = inr (Has-keys_of l ls has)

module _ (file : List ℕ) where
  alike :
      (key : List ℕ) (b b' : Block)
      → IsBlock file (IsLookup (lines file)) key b
      → IsScan file key b'
      → AreAlike file b b'
  alike key b b' (e, _, (ws, are, (sound, full))) (e', _, scan) =
      let words = AreEntries-words file 0 ws b.entries are in
      rw (e, e', words)
        (
          refl,
          λ u has.
              let ((l, there, k, _), parts) = sound u has in
              (l, (scan l).1 (there, line-Contains l key (rw k parts)), k, parts),
          λ alone l has parts.
              full alone (key_of l) (Has-keys_of l (lines file) ((scan l).0 has).0) parts,
        )

  all_alike :
      (keys : List (List ℕ)) (bs bs' : List Block)
      → AreBlocks file (IsLookup (lines file)) keys bs
      → AreScans file keys bs'
      → AreAllAlike file bs bs'
  all_alike [] [] [] blocks scans = tt
  all_alike [] [] (b' ∷ bs') blocks scans = absurd scans
  all_alike [] (b ∷ bs) bs' blocks scans = absurd blocks
  all_alike (key ∷ keys) [] bs' blocks scans = absurd blocks
  all_alike (key ∷ keys) (b ∷ bs) [] blocks scans = absurd scans
  all_alike (key ∷ keys) (b ∷ bs) (b' ∷ bs') (block, blocks) (scan, scans) =
      (alike key b b' block scan, all_alike keys bs bs' blocks scans)

module _ (files : List ℕ → Option (List ℕ)) (o : Options) (file queries : List ℕ)
    (dict : files o.dict_file ≡ some file) (asked : files o.query_file ≡ some queries)
    (some_line : lines file ≢ []) (short : AreShort (lines file))
    (fine : IsUndiverted (lines file) empty) (buffer : List ℕ)
    (are : AreRows (length buffer) (lines file)) (nul : EndsInNul buffer) where
  -- "trie" and "linear" agree: for a dictionary of at least one line, whose lines hold no NUL and
  -- are shorter than the row buffer, which ends with NUL, whose keys have less than 100 characters,
  -- and of which `add` never follows a child in the middle of a tail, and with queries that hold a
  -- character, no NUL, and do not begin with "*". Unless `run` for "trie" exits, at a line before
  -- which a node of the trie has 126 children, both end without a fault, and for each query, in
  -- their order, the words that "trie" prints contain it and are keys of lines that "linear"
  -- prints, and all keys that contain it of such lines, if it has two characters, is no key and
  -- ends no key that another begins with.
  pub run-AreAllAlike :
      AreQueries (lines queries)
      → Ends
          (λ out.
            Returns
              (AreAllAlike file out)
              (run files 102 buffer (record o { algorithm = linear_algorithm })))
          (FullAt (lines file) unread)
          (run files 102 buffer (record o { algorithm = trie_algorithm }))
  run-AreAllAlike asks =
      Ends-weaken
        (run-finds_all files (record o { algorithm = trie_algorithm }) file queries refl dict asked
          some_line short fine buffer are nul asks)
        λ out blocks.
          weaken (run-AreScans files 102 buffer o file queries dict asked)
            (λ out' scans. all_alike file (lines queries) out out' blocks scans)
