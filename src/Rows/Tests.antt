-- ===== src/Rows/Tests.antt =====
-- A dictionary of two rows, and the theorems about rows at it.
use infix_search.Base.{
  if◌then◌else◌, ℕ, ◌≡◌, ◌↔◌, inl, refl, Option, none, some, List, [], ◌∷◌, ◌++◌, arith, drop,
  replicate,
}
use infix_search.Base.Run.{ok, Ends, Returns, ◌>>=◌}
use infix_search.Base.Text.{c_str}
use infix_search.Trie.{empty}
use infix_search.Rows.{
  lines, key_of, str_eq, store, Loading, read_lines, has_nul, row_of, extract_row, starts_with,
  find, matching, find_in_file,
}
use infix_search.Rows.Lines.{Ready, FullAt, row_at, last_row, read_lines-last_row}
use infix_search.Search.Down.{Has}
use infix_search.Rows.Scans.{Contains, find_in_file-Contains}
use infix_search.Rows.Extract.{extract_row-Row, extract_row-leftover}

rows_run : ℕ → ℕ
unfolding lines key_of str_eq store c_str has_nul row_of extract_row starts_with find matching
    find_in_file last_row
rows_run n = n

-- "ab", a tab, "1x", a newline, "cd", a tab, "2".
abbrev file : List ℕ
file = b'a' ∷ b'b' ∷ 9 ∷ b'1' ∷ b'x' ∷ 10 ∷ b'c' ∷ b'd' ∷ 9 ∷ b'2' ∷ []

abbrev loading : Loading
loading = record { trie = empty; rows = λ key. none; pos = 0 }

abbrev ab : List ℕ
ab = b'a' ∷ b'b' ∷ []

abbrev cd : List ℕ
cd = b'c' ∷ b'd' ∷ []

abbrev long : List ℕ
long = b'a' ∷ b'b' ∷ 9 ∷ b'1' ∷ b'x' ∷ []

abbrev short : List ℕ
short = b'c' ∷ b'd' ∷ 9 ∷ b'2' ∷ []

abbrev rows : List ℕ → Option (ℕ × ℕ)
rows key = if str_eq cd key then some (6, 4) else if str_eq ab key then some (0, 5) else none

abbrev row_buffer : List ℕ
row_buffer = replicate 10 0

file_lines : lines file ≡ long ∷ short ∷ []
unfolding rows_run
file_lines = refl

d-found : find_in_file (b'd' ∷ []) (some file) ≡ ok (short ∷ [])
unfolding rows_run
d-found = refl

read_lines-last_row_example :
    Ends
      (λ y.
        ((key : List ℕ) → row_at file (y.rows key) ≡ last_row key none (lines file)) × Ready y.trie)
      (FullAt (lines file) loading)
      (read_lines (lines file) loading)
unfolding rows_run
read_lines-last_row_example = read_lines-last_row file empty (inl refl) (omega arith)

extract_row-Row_example :
    Returns
      (λ (found, buffer).
        (found ≡ long ++ c_str (drop 5 row_buffer))
        × (buffer ≡ long ++ drop 5 row_buffer)
        × ((found ≡ long) ↔ (c_str (drop 5 row_buffer) ≡ [])))
      (extract_row file rows ab row_buffer)
unfolding rows_run
extract_row-Row_example =
    extract_row-Row file rows ab long row_buffer refl (omega arith) (omega arith) refl

-- "cd", a tab and "2" come back with the "x" of the row before.
extract_row-leftover_example :
    Returns
      (λ (found, _). found ≡ short ++ b'x' ∷ [])
      (extract_row file rows ab row_buffer >>= λ (_, buffer). extract_row file rows cd buffer)
unfolding rows_run
extract_row-leftover_example =
    extract_row-leftover file rows ab cd long short row_buffer refl refl (omega arith) (omega arith)
      (omega arith) (omega arith) refl

find_in_file-Contains_example :
    Returns
      (λ found. (l : List ℕ) → Has l found ↔ (Has l (lines file) × Contains l (b'd' ∷ [])))
      (find_in_file (b'd' ∷ []) (some file))
find_in_file-Contains_example = find_in_file-Contains (b'd' ∷ []) file
