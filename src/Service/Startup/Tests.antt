-- ===== src/Service/Startup/Tests.antt =====
-- A slave over a dataset of one line, "ab", a tab, "1".
use infix_search.Base.{
  ℕ, ◌^◌, ◌-◌, ◌≡◌, refl, Option, none, some, List, [], ◌∷◌, ◌++◌, arith, if◌then◌else◌, replicate,
}
use infix_search.Base.Run.{ok, fault, Ends, Ends-result, Returns, result_or}
use infix_search.Search.Tests.{search_runs}
use infix_search.Rows.{
  str_eq, lines, key_of, store, read_lines, read_input, has_nul, row_of, extract_row,
}
use infix_search.Rows.Lines.{FullAt}
use infix_search.Rows.Input.{unread}
use infix_search.Driver.Tests.{row, row-some_line, row-AreRows, row-AreShort, row-IsUndiverted}
use infix_search.Service.{Container, Handler, Called, returned, extract_rows, find_matches}
use infix_search.Service.Dictionaries.{IsDictionary, HasDictionary, AreMatches}
use infix_search.Service.Numbers.{skip_spaces, read_digits, atoi}
use infix_search.Service.Startup.{
  Config, Setting, port, service_type, dataset, Server, unset, option_of, parse_args, construct,
  start_server, serving, main,
}
use infix_search.Service.Startup.Arguments.{
  name, args_of, AreNumbers, HasLatest, parse_args-args_of,
}
use infix_search.Service.Startup.Slaves.{start_server-HasDictionary, main-finds_nothing}

unfoldable pub startup_runs : ℕ → ℕ
unfolding str_eq skip_spaces read_digits atoi option_of parse_args search_runs lines key_of store
    read_lines read_input construct start_server row_of extract_row extract_rows find_matches
    has_nul
startup_runs n = n

-- Blanks, "-", "12" and "x".
minus_twelve : atoi (b' ' ∷ b'-' ∷ b'1' ∷ b'2' ∷ b'x' ∷ []) ≡ ok (2 ^ 32 - 12)
unfolding startup_runs
minus_twelve = refl

-- "--type 1 --dataset --port --port 90", where the dataset is named as an option is.
abbrev settings : List (Setting × List ℕ)
settings = (service_type, b'1' ∷ []) ∷ (dataset, name port) ∷ (port, b'9' ∷ b'0' ∷ []) ∷ []

abbrev config : Config
config = record { service_type = 1; port = 90; dataset = name port }

settings-AreNumbers : AreNumbers settings
unfolding startup_runs
settings-AreNumbers = ((1, refl), ((90, refl), tt))

parse_args-args_of_example :
    ((c : Config) × (parse_args (args_of settings) unset ≡ ok c) × HasLatest settings unset c)
    × ((s : Setting) → parse_args (args_of settings ++ name s ∷ []) unset ≡ fault)
parse_args-args_of_example = parse_args-args_of settings unset settings-AreNumbers

settings-parsed : parse_args (args_of settings) unset ≡ ok config
unfolding startup_runs
settings-parsed = refl

abbrev answer : Container → List ℕ → Called
answer c key = returned []

main-finds_nothing_example :
    (server : Server) × (main (replicate 10 0) (args_of settings) ≡ ok (serving server))
    × (server.socket_port ≡ 8080)
    × ((a : ℕ) (key : List ℕ)
        → find_matches answer 102 [] (a ∷ key) [] server.handler ≡ ok ([], server.handler))
main-finds_nothing_example =
    main-finds_nothing answer 102 [] (replicate 10 0) (name service_type)
      ((b'1' ∷ []) ∷ args_of ((dataset, name port) ∷ (port, b'9' ∷ b'0' ∷ []) ∷ [])) config
      settings-parsed refl

abbrev files : List ℕ → Option (List ℕ)
files file_name = if str_eq file_name (name port) then some row else none

data_file : files (name port) ≡ some row
unfolding startup_runs
data_file = refl

row-IsDictionary : IsDictionary 10 row
row-IsDictionary = record {
  some_line = row-some_line;
  short = row-AreShort;
  straight = row-IsUndiverted;
  rows = row-AreRows;
}

start_server-HasDictionary_example :
    Ends
      (λ server.
        HasDictionary row 10 server.handler
        × (server.socket_port ≡ 90)
        × Returns
            (λ (rs, x). AreMatches row (b'b' ∷ []) rs × HasDictionary row 10 x)
            (find_matches answer 102 [] (b'b' ∷ []) [] server.handler))
      (FullAt (lines row) unread)
      (start_server files 102 (construct (replicate 10 0) config))
start_server-HasDictionary_example =
    start_server-HasDictionary files config row refl data_file (replicate 10 0) row-IsDictionary
      refl answer [] b'b' [] (omega arith) (omega arith)

-- The slave that this server has.
abbrev new_slave : Handler
new_slave = construct (replicate 10 0) config

abbrev pub slave : Handler
slave =
    (result_or (start_server files 102 new_slave)
      (record { handler = new_slave; socket_port = 0 })).handler

slave-started : start_server files 102 new_slave ≡ ok (record { handler = slave; socket_port = 90 })
unfolding startup_runs
slave-started = refl

pub slave-HasDictionary : HasDictionary row 10 slave
slave-HasDictionary =
    (Ends-result
      (start_server-HasDictionary files config row refl data_file (replicate 10 0) row-IsDictionary
        refl answer [] b'b' [] (omega arith) (omega arith))
      _ slave-started).0
