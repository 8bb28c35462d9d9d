-- ===== src/Driver/Tests.antt =====
-- The program at a dictionary of one line, "ab", a tab, "1", and the query "b".
use infix_search.Base.{
  ℕ, ◌≡◌, ◌≢◌, refl, subst, Option, some, List, [], ◌∷◌, arith, if◌then◌else◌, replicate, inl, inr,
  ap, sym, ◌∙◌,
}
use infix_search.Base.Run.{ok, Ends, Ends-result, ok-injective, Returns}
use infix_search.Trie.{Trie, empty, add}
use infix_search.Trie.Words.{add-Stored, starred, stored_word}
use infix_search.Trie.Start.{add-first, start-IsTrie, start}
use infix_search.Trie.Tests.{add_runs, result}
use infix_search.Search.Built.{HasShortWords}
use infix_search.Search.Answered.{IsAnswered}
use infix_search.Rows.{lines, key_of, str_eq, store, Loading, read_lines}
use infix_search.Rows.Lines.{FullAt, KeysAreTexts}
use infix_search.Rows.Input.{unread}
use infix_search.Search.{find_path}
use infix_search.Driver.{
  add_each, run_simple, Options, next_arg, set_option, read_args, trie_algorithm, linear_algorithm,
  run,
}
use infix_search.Driver.Args.{Setting, algorithm, dict, query}
use infix_search.Rows.Prints.{AreRows}
use infix_search.Driver.Lookups.{run-finds_all, run-Returns}
use infix_search.Rows.Printable.{ArePrintable}
use infix_search.Driver.Linear.{AreAllAlike, run-AreAllAlike}
use infix_search.Rows.Keys.{AreShort, IsUndiverted, IsLookup}
use infix_search.Driver.Runs.{AreBlocks, AreQueries, run-AreBlocks}

program_runs : ℕ → ℕ
unfolding lines key_of str_eq store next_arg set_option read_args
program_runs n = n

-- "d" and "q", the names of the two files.
abbrev dict_name : List ℕ
dict_name = b'd' ∷ []

abbrev query_name : List ℕ
query_name = b'q' ∷ []

abbrev settings : List (Setting × List ℕ)
settings = (algorithm, trie_algorithm) ∷ (dict, dict_name) ∷ (query, query_name) ∷ []

abbrev pub row : List ℕ
row = b'a' ∷ b'b' ∷ 9 ∷ b'1' ∷ []

abbrev ab : List ℕ
ab = b'a' ∷ b'b' ∷ []

row_lines : lines row ≡ row ∷ []
unfolding program_runs
row_lines = refl

abbrev one_word : Trie
one_word = result (add ab start)

one-done : add ab start ≡ ok one_word
unfolding add_runs
one-done = refl

one_stored : stored_word start 0 ab ≡ starred ab
unfolding add_runs
one_stored = refl

one-HasShortWords : HasShortWords one_word 0
one-HasShortWords w stored =
    let (inv, words) = Ends-result (add-Stored ab start-IsTrie (omega arith)) one_word one-done in
    elim ((words w).0 stored) [
      | inl before ↦ absurd ((add-first ab).2 w before)
      | inr e ↦ rw (e, one_stored) (omega arith)
    ]

row-read : (y : Loading) → read_lines (lines row) unread ≡ ok y → y.trie ≡ one_word
unfolding program_runs read_lines
row-read y e =
    let r : add ab empty ≡ ok one_word = (add-first ab).0 ∙ one-done in
    ap (λ z. z.trie) (sym (ok-injective (rw r at e)))

pub row-HasShortWords :
    (y : Loading) → read_lines (lines row) unread ≡ ok y → HasShortWords y.trie 0
row-HasShortWords y e = subst (λ s. HasShortWords s 0) (sym (row-read y e)) one-HasShortWords

pub row-some_line : lines row ≢ []
unfolding program_runs
row-some_line e = cc

row-KeysAreTexts : KeysAreTexts (lines row)
unfolding program_runs
row-KeysAreTexts = omega arith

pub row-AreRows : AreRows 10 (lines row)
unfolding program_runs
row-AreRows = omega arith

b-AreQueries : AreQueries (lines (b'b' ∷ []))
unfolding program_runs
b-AreQueries = omega arith

abbrev files : List ℕ → Option (List ℕ)
files file_name = if str_eq file_name dict_name then some row else some (b'b' ∷ [])

abbrev options : Options
options = record { algorithm = trie_algorithm; dict_file = dict_name; query_file = query_name }

dict-file : files dict_name ≡ some row
unfolding program_runs
dict-file = refl

query-file : files query_name ≡ some (b'b' ∷ [])
unfolding program_runs
query-file = refl

run-AreBlocks_example :
    Ends
      (λ out.
        (y : Loading) × (read_lines (lines row) unread ≡ ok y)
        × AreBlocks row (IsAnswered y.trie 0) (lines (b'b' ∷ [])) out)
      (FullAt (lines row) unread)
      (run files 102 (replicate 10 0) options)
run-AreBlocks_example =
    run-AreBlocks files options row (b'b' ∷ []) refl dict-file query-file row-some_line
      row-HasShortWords (replicate 10 0) row-AreRows refl b-AreQueries

pub row-IsUndiverted : IsUndiverted (lines row) empty
unfolding program_runs add_runs
row-IsUndiverted = (refl, λ s' e. tt)

pub row-AreShort : AreShort (lines row)
unfolding program_runs
row-AreShort = omega arith

run-finds_all_example :
    Ends
      (λ out. AreBlocks row (IsLookup (lines row)) (lines (b'b' ∷ [])) out)
      (FullAt (lines row) unread)
      (run files 102 (replicate 10 0) options)
run-finds_all_example =
    run-finds_all files options row (b'b' ∷ []) refl dict-file query-file row-some_line row-AreShort
      row-IsUndiverted (replicate 10 0) row-AreRows refl b-AreQueries

run-AreAllAlike_example :
    Ends
      (λ out.
        Returns
          (AreAllAlike row out)
          (run files 102 (replicate 10 0) (record options { algorithm = linear_algorithm })))
      (FullAt (lines row) unread)
      (run files 102 (replicate 10 0) (record options { algorithm = trie_algorithm }))
run-AreAllAlike_example =
    run-AreAllAlike files options row (b'b' ∷ []) dict-file query-file row-some_line row-AreShort
      row-IsUndiverted (replicate 10 0) row-AreRows refl b-AreQueries

row-ArePrintable : ArePrintable (lines row)
unfolding program_runs
row-ArePrintable = omega arith

run-Returns_example :
    Returns
      (λ out. AreBlocks row (IsLookup (lines row)) (lines (b'b' ∷ [])) out)
      (run files 102 (replicate 10 0) options)
run-Returns_example =
    run-Returns files options row (b'b' ∷ []) refl dict-file query-file row-some_line row-AreShort
      row-IsUndiverted (replicate 10 0) row-AreRows refl row-ArePrintable b-AreQueries

-- The words that `run` adds under `simple` are not indexed, so it finds nothing.
simple_finds_nothing : (fuel : ℕ) → run_simple fuel ≡ ok []
unfolding run_simple add_each add_runs find_path
simple_finds_nothing fuel = refl
