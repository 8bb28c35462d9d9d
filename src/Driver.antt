-- ===== src/Driver.antt =====
-- The command line program: `main` (cpp/driver.cpp) and `search_t::run` (cpp/search.cpp). What is
-- printed to `cout` is a list of blocks, one to a query; `run_simple` is the branch under `simple`.
-- `files` gives the bytes behind a name, `none` where it cannot be opened. `argv[argc]` is `NULL`,
-- which no `string` can be made of. The usage text and timing are left out.
pub mod Args
pub mod Runs
pub mod Lookups
pub mod Linear
pub mod Tests
use infix_search.Base.{
  ℕ, zero, suc, ◌+◌, Bool, true, false, Option, none, some, List, [], ◌∷◌, if◌then◌else◌,
}
use infix_search.Base.Run.{Run, ok, fault, ◌>>=◌}
use infix_search.Trie.{Trie, empty, add}
use infix_search.Search.{Indexed, find_path}
use infix_search.Rows.{
  str_eq, RowLookupMap, bytes_of, read_input, read_query, extract_row, find_in_file,
}

-- "--algorithm", "--dict", "--query".
abbrev pub algorithm_option : List ℕ
algorithm_option = b'-' ∷ b'-' ∷ b'a' ∷ b'l' ∷ b'g' ∷ b'o' ∷ b'r' ∷ b'i' ∷ b't' ∷ b'h' ∷ b'm' ∷ []

abbrev pub dict_option : List ℕ
dict_option = b'-' ∷ b'-' ∷ b'd' ∷ b'i' ∷ b'c' ∷ b't' ∷ []

abbrev pub query_option : List ℕ
query_option = b'-' ∷ b'-' ∷ b'q' ∷ b'u' ∷ b'e' ∷ b'r' ∷ b'y' ∷ []

pub record Options : Type 0 where
  pub algorithm : List ℕ
  pub dict_file : List ℕ
  pub query_file : List ℕ

abbrev no_options : Options
no_options = record { algorithm = []; dict_file = []; query_file = [] }

-- `argv[arg+1]`, as a `string`.
unfoldable pub next_arg : List (List ℕ) → Run (List ℕ)
next_arg [] = fault
next_arg (v ∷ args) = ok v

-- The body of the loop over `argv`, for an argument and those behind it.
unfoldable pub set_option : List ℕ → List (List ℕ) → Options → Run Options
set_option arg args o =
    if str_eq arg algorithm_option
    then (next_arg args >>= λ v. ok (record o { algorithm = v }))
    else if str_eq arg dict_option
    then (next_arg args >>= λ v. ok (record o { dict_file = v }))
    else if str_eq arg query_option
    then (next_arg args >>= λ v. ok (record o { query_file = v }))
    else ok o

-- The loop. The value of an option is looked at as an option, too.
unfoldable pub read_args : List (List ℕ) → Options → Run Options
read_args [] o = ok o
read_args (arg ∷ args) o = set_option arg args o >>= λ o'. read_args args o'

-- A key found, with its number and its row.
pub record Entry : Type 0 where
  pub number : ℕ
  pub word : List ℕ
  pub row : List ℕ

-- "Result for key", and what is printed below it: entries by the index, or lines of the file.
pub record Block : Type 0 where
  pub key : List ℕ
  pub entries : List Entry
  pub lines : List (List ℕ)

module _ (file : List ℕ) (rows : RowLookupMap) where
  -- The inner loop of `run`, from the number `i` on; `row_buffer` goes from row to row.
  unfoldable pub print_found : ℕ → List (List ℕ) → List ℕ → Run (List Entry × List ℕ)
  print_found i [] row_buffer = ok ([], row_buffer)
  print_found i (word ∷ found_keys) row_buffer =
      extract_row file rows word row_buffer >>= λ (row, buffer).
      print_found (i + 1) found_keys buffer >>= λ (rest, buffer').
      ok (record { number = i; word = word; row = row } ∷ rest, buffer')

  -- The loop over the queries, by the index.
  unfoldable pub answer_each : ℕ → Indexed → List (List ℕ) → List ℕ → Run (List Block)
  answer_each fuel x [] row_buffer = ok []
  answer_each fuel x (key ∷ keys) row_buffer = find_path fuel x key [] >>= λ found_keys.
      print_found 0 found_keys row_buffer >>= λ (found, buffer).
      answer_each fuel x keys buffer >>= λ blocks.
      ok (record { key = key; entries = found; lines = [] } ∷ blocks)

-- The loop over the queries, line by line.
unfoldable pub scan_each : List (List ℕ) → Option (List ℕ) → Run (List Block)
scan_each [] dict = ok []
scan_each (key ∷ keys) dict = find_in_file key dict >>= λ found. scan_each keys dict >>= λ blocks.
    ok (record { key = key; entries = []; lines = found } ∷ blocks)

-- "trie", "linear".
abbrev pub trie_algorithm : List ℕ
trie_algorithm = b't' ∷ b'r' ∷ b'i' ∷ b'e' ∷ []

abbrev pub linear_algorithm : List ℕ
linear_algorithm = b'l' ∷ b'i' ∷ b'n' ∷ b'e' ∷ b'a' ∷ b'r' ∷ []

-- "baby", "bad", "bank", "box", "dad", "dance", "abdade", "abdadoma", "dadomb".
abbrev simple_words : List (List ℕ)
simple_words =
    (b'b' ∷ b'a' ∷ b'b' ∷ b'y' ∷ [])
    ∷ (b'b' ∷ b'a' ∷ b'd' ∷ [])
    ∷ (b'b' ∷ b'a' ∷ b'n' ∷ b'k' ∷ [])
    ∷ (b'b' ∷ b'o' ∷ b'x' ∷ [])
    ∷ (b'd' ∷ b'a' ∷ b'd' ∷ [])
    ∷ (b'd' ∷ b'a' ∷ b'n' ∷ b'c' ∷ b'e' ∷ [])
    ∷ (b'a' ∷ b'b' ∷ b'd' ∷ b'a' ∷ b'd' ∷ b'e' ∷ [])
    ∷ (b'a' ∷ b'b' ∷ b'd' ∷ b'a' ∷ b'd' ∷ b'o' ∷ b'm' ∷ b'a' ∷ [])
    ∷ (b'd' ∷ b'a' ∷ b'd' ∷ b'o' ∷ b'm' ∷ b'b' ∷ [])
    ∷ []

unfoldable pub add_each : List (List ℕ) → Trie → Run Trie
add_each [] s = ok s
add_each (word ∷ words) s = add word s >>= λ s'. add_each words s'

-- The branch of `run` under `simple`: what it finds for "ade", by an index that is not made.
unfoldable pub run_simple : ℕ → Run (List (List ℕ))
run_simple fuel = add_each simple_words empty >>= λ s.
    find_path fuel (record { trie = s; tpm = λ a b. none }) (b'a' ∷ b'd' ∷ b'e' ∷ []) []

module _ (files : List ℕ → Option (List ℕ)) (fuel : ℕ) where
  -- `run` of a new `search_t` with `simple` off, whose buffer holds `row_buffer`.
  unfoldable pub run : List ℕ → Options → Run (List Block)
  run row_buffer o =
      if str_eq o.algorithm trie_algorithm
      then (read_query (files o.query_file) [] >>= λ keys.
          read_input fuel (files o.dict_file) (record { trie = empty; tpm = λ a b. none })
            (λ key. none)
          >>= λ (x, rows). answer_each (bytes_of (files o.dict_file)) rows fuel x keys row_buffer)
      else if str_eq o.algorithm linear_algorithm
      then (read_query (files o.query_file) [] >>= λ keys. scan_each keys (files o.dict_file))
      else ok []

  -- `main`, of the arguments behind the program's name: what it prints, and its status.
  unfoldable pub main : List ℕ → List (List ℕ) → Run (List Block × ℕ)
  main row_buffer [] = ok ([], 1)
  main row_buffer (arg ∷ args) =
      read_args (arg ∷ args) no_options >>= λ o. run row_buffer o >>= λ out. ok (out, 0)
