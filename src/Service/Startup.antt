-- ===== src/Service/Startup.antt =====
-- How the service starts (thrift/service-cpp/RemoteInfixSearch_server.cpp): `main` with its loop
-- over the arguments, the handler's constructor, `start_server` and `start_http_server`. `files`
-- gives the bytes behind a name, `none` where it cannot be opened. The servers are the Thrift
-- library's: what is kept of one is the handler behind it and the port of its socket. `argv[argc]`
-- is `NULL`, which neither `atoi` nor a `string` takes. What is printed is left out.
pub mod Slaves
pub mod Arguments
pub mod Tests
use infix_search.Base.{ℕ, ◌-◌, ◌^◌, Option, none, some, List, [], ◌∷◌, ◌==◌, if◌then◌else◌}
use infix_search.Base.Run.{Run, ok, fault, ◌>>=◌}
use infix_search.Trie.{empty}
use infix_search.Rows.{str_eq, bytes_of, read_input}
use infix_search.Service.{Handler, type_slave}
use infix_search.Service.Numbers.{atoi}

-- "--port", "--type", "--dataset".
abbrev pub port_option : List ℕ
port_option = b'-' ∷ b'-' ∷ b'p' ∷ b'o' ∷ b'r' ∷ b't' ∷ []

abbrev pub type_option : List ℕ
type_option = b'-' ∷ b'-' ∷ b't' ∷ b'y' ∷ b'p' ∷ b'e' ∷ []

abbrev pub dataset_option : List ℕ
dataset_option = b'-' ∷ b'-' ∷ b'd' ∷ b'a' ∷ b't' ∷ b'a' ∷ b's' ∷ b'e' ∷ b't' ∷ []

-- The local variables of `main`; each is -1, or empty, at first.
pub record Config : Type 0 where
  pub service_type : ℕ
  pub port : ℕ
  pub dataset : List ℕ

abbrev pub unset : Config
unset = record { service_type = 2 ^ 32 - 1; port = 2 ^ 32 - 1; dataset = [] }

pub data Setting : Type 0 where
  port service_type dataset : Setting

-- The tests of the loop's body.
unfoldable pub option_of : List ℕ → Option Setting
option_of arg =
    if str_eq arg port_option
    then some port
    else if str_eq arg type_option
    then some service_type
    else if str_eq arg dataset_option
    then some dataset
    else none

-- The branches of the loop's body, for the argument behind the option.
abbrev pub put : Setting → List ℕ → Config → Run Config
put port v c = atoi v >>= λ n. ok (record c { port = n })
put service_type v c = atoi v >>= λ n. ok (record c { service_type = n })
put dataset v c = ok (record c { dataset = v })

-- The loop. Unlike that of the command line program it skips the value of an option.
unfoldable pub parse_args : List (List ℕ) → Config → Run Config
parse_args [] c = ok c
parse_args (arg ∷ []) c = elim (option_of arg) [ none ↦ ok c | some s ↦ fault ]
parse_args (arg ∷ v ∷ args) c = elim (option_of arg) [
  | none ↦ parse_args (v ∷ args) c
  | some s ↦ put s v c >>= λ c'. parse_args args c'
]

-- The constructor, with `search` as its own constructor makes it; `row_buffer` is not initialised.
unfoldable pub construct : List ℕ → Config → Handler
construct row_buffer c = record {
  search = record {
    indexed = record { trie = empty; tpm = λ a b. none };
    rows = λ key. none;
    file = [];
    row_buffer = row_buffer;
  };
  service_type = c.service_type;
  port = c.port;
  dataset = c.dataset;
  host_list = [];
}

-- A server on which `serve` is called.
pub record Server : Type 0 where
  pub handler : Handler
  pub socket_port : ℕ

unfoldable pub start_server : (List ℕ → Option (List ℕ)) → ℕ → Handler → Run Server
start_server files fuel x =
    if x.service_type == type_slave
    then (read_input fuel (files x.dataset) x.search.indexed x.search.rows >>= λ (indexed, rows).
        ok (record {
          handler = record x {
            search = record x.search {
              indexed = indexed;
              rows = rows;
              file = bytes_of (files x.dataset);
            };
          };
          socket_port = x.port;
        }))
    else ok (record { handler = x; socket_port = x.port })

unfoldable pub start_http_server : Handler → Server
start_http_server x = record { handler = x; socket_port = 8080 }

-- What `main` comes to: the usage text, with status 1, or a server that it does not come back from.
pub data Launch : Type 0 where
  usage : Launch
  serving : Server → Launch

-- `main`, of the arguments behind the program's name.
unfoldable pub main : List ℕ → List (List ℕ) → Run Launch
main row_buffer [] = ok usage
main row_buffer (arg ∷ args) =
    parse_args (arg ∷ args) unset >>= λ c. ok (serving (start_http_server (construct row_buffer c)))
