-- ===== src/Service/Slaves.antt =====
-- `findMatches` on a slave: the rows of the keys that its own dictionary has for the query.
use infix_search.Base.{ℕ, ◌≡◌, ◌≢◌, refl, none, List, [], ◌∷◌}
use infix_search.Base.Run.{Returns, returns, bind}
use infix_search.Base.Text.{IsText}
use infix_search.Trie.{Trie}
use infix_search.Search.Answered.{IsAnswered, AnswersAll}
use infix_search.Rows.{lines}
use infix_search.Rows.Lines.{row_at, last_row}
use infix_search.Rows.Prints.{AreRows, Prints, IsBuffer, extract_row-Prints}
use infix_search.Service.{
  Loaded, Handler, type_slave, extract_rows, find_matches, Container, Called,
}

-- The handler of a slave whose dictionary is loaded: its index answers by the trie `s`, its
-- entries are the last rows of their keys, and the rows fit its buffer of `n` characters.
pub record IsSlave (s : Trie) (n fuel : ℕ) (x : Handler) : Type 0 where
  pub slave : x.service_type ≡ type_slave
  pub serves : AnswersAll s 0 fuel x.search.indexed
  pub last :
      (key : List ℕ)
      → row_at x.search.file (x.search.rows key) ≡ last_row key none (lines x.search.file)
  pub short : AreRows n (lines x.search.file)
  pub buffer : IsBuffer n x.search.row_buffer

-- One row for each of the words.
abbrev pub ArePrinted : List ℕ → List (List ℕ) → List (List ℕ) → Type 0
ArePrinted file [] [] = Unit
ArePrinted file [] (r ∷ rs) = ⊥
ArePrinted file (w ∷ ws) [] = ⊥
ArePrinted file (w ∷ ws) (r ∷ rs) = Prints (last_row w none (lines file)) r × ArePrinted file ws rs

-- The search has another row buffer.
abbrev Refilled : ℕ → Loaded → Loaded → Type 0
Refilled n y y' =
    (y'.indexed ≡ y.indexed) × (y'.rows ≡ y.rows) × (y'.file ≡ y.file) × IsBuffer n y'.row_buffer

module _ (n : ℕ) where
  extract_rows-ArePrinted :
      (ws : List (List ℕ)) (y : Loaded)
      → ((key : List ℕ) → row_at y.file (y.rows key) ≡ last_row key none (lines y.file))
      → AreRows n (lines y.file)
      → IsBuffer n y.row_buffer
      → Returns (λ (rs, y'). ArePrinted y.file ws rs × Refilled n y y') (extract_rows ws y)
  unfolding extract_rows
  extract_rows-ArePrinted [] y last short is = returns _ (tt, (refl, refl, refl, is))
  extract_rows-ArePrinted (w ∷ ws) y last short is =
      bind (extract_row-Prints y.file y.rows n short last w y.row_buffer is)
        λ (r, buffer) (prints, is').
          bind (extract_rows-ArePrinted ws (record y { row_buffer = buffer }) last short is')
            λ (rs, y') (printed, refilled). returns _ ((prints, printed), refilled)

module _ (answer : Container → List ℕ → Called) (s : Trie) (n fuel : ℕ) (order : List ℕ) where
  -- On a slave whose dictionary is loaded, for a query without NUL that holds a character and does
  -- not begin with "*", and an empty vector: `findMatches` ends without a fault. What it returns is
  -- a row for each of some keys that the trie stores and that contain the query, all such keys if
  -- the query has two characters, is no stored key and ends none that another begins with: the last
  -- row with this key, perhaps with more behind it, or "Not found." if there is none. The slave is
  -- as ready for the next query as before: only its row buffer may be another.
  pub find_matches-IsSlave :
      (a : ℕ) (key : List ℕ) (x : Handler)
      → IsSlave s n fuel x
      → IsText (a ∷ key)
      → a ≢ b'*'
      → Returns
          (λ (rs, x').
            ((ws : List (List ℕ)) × ArePrinted x.search.file ws rs × IsAnswered s 0 (a ∷ key) ws)
            × IsSlave s n fuel x'
            × Refilled n x.search x'.search)
          (find_matches answer fuel order (a ∷ key) [] x)
  unfolding find_matches
  find_matches-IsSlave a key x is text ne = rw is.slave (
      bind (is.serves a key text ne) λ found answered.
        bind (extract_rows-ArePrinted n found x.search is.last is.short is.buffer)
          λ (rs, y) (printed, (indexed, rows, reads, buffer)). returns _ (
            (found, printed, answered),
            record {
              slave = refl;
              serves = rw indexed is.serves;
              last = λ k. rw (rows, reads) (is.last k);
              short = rw reads is.short;
              buffer = buffer;
            },
            (indexed, rows, reads, buffer),
          ))
