-- ===== src/Service/Dictionaries.antt =====
-- `findMatches` on a slave, said of the lines of its dictionary alone.
use infix_search.Base.{ℕ, ◌≡◌, ◌≢◌, subst, ◌∙◌, none, some, List, [], ◌∷◌}
use infix_search.Base.Run.{ok, Ends, Ends-result, Returns, weaken}
use infix_search.Base.Text.{IsText}
use infix_search.Trie.{empty}
use infix_search.Search.Answered.{IsAnswered}
use infix_search.Rows.{lines, Loading, read_lines, read_input}
use infix_search.Rows.Lines.{FullAt}
use infix_search.Rows.Prints.{AreRows, IsBuffer, AreRows-KeysAreTexts}
use infix_search.Rows.Input.{unread, unindexed, IsLoaded, read_input-IsLoaded}
use infix_search.Rows.Keys.{
  IsLookup, AreShort, IsUndiverted, read_lines-HasShortWords, IsAnswered-IsLookup,
}
use infix_search.Service.{Handler, type_slave, find_matches, Container, Called}
use infix_search.Service.Slaves.{IsSlave, ArePrinted, find_matches-IsSlave}

-- A dictionary that `add` loses no key of, whose rows fit a buffer of `n` characters: a line at
-- least, no NUL, keys of less than 100 characters, none of which is diverted.
pub record IsDictionary (n : ℕ) (file : List ℕ) : Type 0 where
  pub some_line : lines file ≢ []
  pub short : AreShort (lines file)
  pub straight : IsUndiverted (lines file) empty
  pub rows : AreRows n (lines file)

-- A slave that has read the dictionary `file`: its index and its map are what `read_input` makes
-- of the file on a new `search_t`, and its row buffer of `n` characters ends with NUL.
pub record HasDictionary (file : List ℕ) (n : ℕ) (x : Handler) : Type 0 where
  pub dictionary : IsDictionary n file
  pub slave : x.service_type ≡ type_slave
  pub reads : x.search.file ≡ file
  pub loads :
      read_input 102 (some file) unindexed (λ key. none) ≡ ok (x.search.indexed, x.search.rows)
  pub buffer : IsBuffer n x.search.row_buffer

-- The rows of some words that `findMatches` may return for the query.
abbrev pub AreMatches : List ℕ → List ℕ → List (List ℕ) → Type 0
AreMatches file key rs = (ws : List (List ℕ)) × ArePrinted file ws rs × IsLookup (lines file) key ws

module _ {file : List ℕ} {n : ℕ} (dictionary : IsDictionary n file) where
  open dictionary use {some_line, short, straight, rows}

  pub dictionary-IsLoaded :
      Ends
        (IsLoaded file)
        (FullAt (lines file) unread)
        (read_input 102 (some file) unindexed (λ key. none))
  dictionary-IsLoaded =
      let texts = AreRows-KeysAreTexts n (lines file) rows in
      read_input-IsLoaded file some_line texts
        (λ y e. read_lines-HasShortWords (lines file) some_line texts straight y e short)

  -- The words of the trie of the lines are their keys.
  looks_up :
      (y : Loading)
      → read_lines (lines file) unread ≡ ok y
      → (key : List ℕ) (ws : List (List ℕ)) → IsAnswered y.trie 0 key ws
      → IsLookup (lines file) key ws
  looks_up y e =
      IsAnswered-IsLookup (lines file) some_line (AreRows-KeysAreTexts n (lines file) rows) straight
        y e

HasDictionary-IsSlave :
    {file : List ℕ} {n : ℕ} {x : Handler}
    → HasDictionary file n x
    → (y : Loading) × (read_lines (lines file) unread ≡ ok y) × IsSlave y.trie n 102 x
HasDictionary-IsSlave has =
    let ((y, e, serves), last) = Ends-result (dictionary-IsLoaded has.dictionary) _ has.loads in
    (
      y,
      e,
      record {
        slave = has.slave;
        serves = serves;
        last = λ key. rw has.reads (last key);
        short = rw has.reads has.dictionary.rows;
        buffer = has.buffer;
      },
    )

module _ (answer : Container → List ℕ → Called) (order : List ℕ) where
  pub find_matches-HasDictionary :
      (file : List ℕ) (n a : ℕ) (key : List ℕ) (x : Handler)
      → HasDictionary file n x
      → IsText (a ∷ key)
      → a ≢ b'*'
      → Returns
          (λ (rs, x'). AreMatches file (a ∷ key) rs × HasDictionary file n x')
          (find_matches answer 102 order (a ∷ key) [] x)
  find_matches-HasDictionary file n a key x has text ne =
      let (y, e, is) = HasDictionary-IsSlave has in
      weaken (find_matches-IsSlave answer y.trie n 102 order a key x is text ne)
        λ (rs, x') ((ws, printed, answered), is', (indexed, rows, same, buffer)). (
          (
            ws,
            subst (λ f. ArePrinted f ws rs) has.reads printed,
            looks_up has.dictionary y e (a ∷ key) ws answered,
          ),
          record {
            dictionary = has.dictionary;
            slave = is'.slave;
            reads = same ∙ has.reads;
            loads = rw (indexed, rows) has.loads;
            buffer = buffer;
          },
        )
