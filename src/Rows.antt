-- ===== src/Rows.antt =====
-- The dictionary file and its rows (cpp/search.cpp): `read_input`, `extract_row`, `read_query` and
-- `find_in_file`. A file is the list of its bytes, `none` where it cannot be opened. `mapfile.txt`
-- and what is printed to `cerr` are left out. Offsets do not wrap around.
pub mod Strings
pub mod Lines
pub mod Extract
pub mod Input
pub mod Keys
pub mod Printable
pub mod Prints
pub mod Scans
pub mod Tests
use infix_search.Base.{
  ℕ, zero, suc, ◌+◌, Bool, true, false, ◌&&◌, ◌||◌, Option, none, some, List, [], ◌∷◌, ◌++◌, ◌==◌,
  leb, if◌then◌else◌, length, take, drop,
}
use infix_search.Base.Run.{Run, ok, fault, exits, ◌>>=◌}
use infix_search.Base.Text.{c_str}
use infix_search.Trie.{Trie, add}
use infix_search.Search.{Indexed, index_trie}

pub begin_line : ℕ → List (List ℕ) → List (List ℕ)
begin_line c [] = (c ∷ []) ∷ []
begin_line c (l ∷ ls) = (c ∷ l) ∷ ls

-- What `getline` reads from a file, line by line.
unfoldable pub lines : List ℕ → List (List ℕ)
unfolding begin_line
lines [] = []
lines (c ∷ cs) = let rest = lines cs in if c == b'\n' then [] ∷ rest else begin_line c rest

-- `line.substr(0, delim_pos)`, or the line if it has no tab.
unfoldable pub key_of : List ℕ → List ℕ
key_of [] = []
key_of (c ∷ l) = let rest = key_of l in if c == b'\t' then [] else c ∷ rest

unfoldable pub str_eq : List ℕ → List ℕ → Bool
str_eq [] [] = true
str_eq [] (y ∷ ys) = false
str_eq (x ∷ xs) [] = false
str_eq (x ∷ xs) (y ∷ ys) = x == y && str_eq xs ys

-- `row_lookup_map_t`: offset and length of the row of a key, `none` for `end()`.
abbrev pub RowLookupMap : Type 0
RowLookupMap = List ℕ → Option (ℕ × ℕ)

-- `row_lookup_map[mpn] = p`.
unfoldable pub store : List ℕ → ℕ × ℕ → RowLookupMap → RowLookupMap
store mpn p rows key = if str_eq mpn key then some p else rows key

pub record Loading : Type 0 where
  pub trie : Trie
  pub rows : RowLookupMap
  pub pos : ℕ

-- The loop of `read_input`.
unfoldable pub read_lines : List (List ℕ) → Loading → Run Loading
read_lines [] x = ok x
read_lines (line ∷ ls) x = add (key_of line) x.trie >>= λ trie. read_lines ls (record {
  trie = trie;
  rows = store (key_of line) (x.pos, length line) x.rows;
  pos = x.pos + length line + 1;
})

-- `read_input` on the trie and the rows there are. Without a line `head` may be `NULL`.
unfoldable pub read_input :
    ℕ → Option (List ℕ) → Indexed → RowLookupMap → Run (Indexed × RowLookupMap)
read_input fuel none x rows = exits
read_input fuel (some file) x rows =
    read_lines (lines file) (record { trie = x.trie; rows = rows; pos = 0 }) >>= λ y.
    elim y.trie.head [
      | none ↦ fault
      | some h ↦ index_trie fuel h false (record x { trie = y.trie }) >>= λ z. ok (z, y.rows)
    ]

-- What `fread` reads: the bytes of `pFile`, which `read_input` has opened.
abbrev pub bytes_of : Option (List ℕ) → List ℕ
bytes_of none = []
bytes_of (some file) = file

-- "Not found."
abbrev pub not_found : List ℕ
not_found = b'N' ∷ b'o' ∷ b't' ∷ b' ' ∷ b'f' ∷ b'o' ∷ b'u' ∷ b'n' ∷ b'd' ∷ b'.' ∷ []

unfoldable pub has_nul : List ℕ → Bool
has_nul [] = false
has_nul (c ∷ cs) = c == 0 || has_nul cs

-- What `extract_row` does with the entry that it finds. `fread` into `row_buffer` keeps the bytes
-- behind those read, and the whole is then taken as a string.
unfoldable pub row_of : List ℕ → Option (ℕ × ℕ) → List ℕ → Run (List ℕ × List ℕ)
row_of file none row_buffer = ok (not_found, row_buffer)
row_of file (some (offset, len)) row_buffer =
    let row = take len (drop offset file) in
    let buffer = row ++ drop (length row) row_buffer in
    if leb (length row) (length row_buffer) && has_nul buffer
    then ok (c_str buffer, buffer)
    else fault

-- `file` is what `pFile` reads.
unfoldable pub extract_row : List ℕ → RowLookupMap → List ℕ → List ℕ → Run (List ℕ × List ℕ)
extract_row file rows key row_buffer = row_of file (rows key) row_buffer

-- `read_query` behind the keys there are.
unfoldable pub read_query : Option (List ℕ) → List (List ℕ) → Run (List (List ℕ))
read_query none keys = exits
read_query (some file) keys = ok (keys ++ lines file)

unfoldable pub starts_with : List ℕ → List ℕ → Bool
starts_with [] line = true
starts_with (k ∷ key) [] = false
starts_with (k ∷ key) (c ∷ line) = k == c && starts_with key line

-- `line.find(key) != string::npos`.
unfoldable pub find : List ℕ → List ℕ → Bool
find key [] = starts_with key []
find key (c ∷ line) = starts_with key (c ∷ line) || find key line

unfoldable pub matching : List ℕ → List (List ℕ) → List (List ℕ)
matching key [] = []
matching key (line ∷ ls) = let rest = matching key ls in if find key line then line ∷ rest else rest

-- The lines that `find_in_file` prints. `found` is never set.
unfoldable pub find_in_file : List ℕ → Option (List ℕ) → Run (List (List ℕ))
find_in_file key none = exits
find_in_file key (some file) = ok (matching key (lines file))
