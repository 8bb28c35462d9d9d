-- ===== src/Service/Startup/Slaves.antt =====
-- What a slave knows when it starts to serve.
use infix_search.Base.{ℕ, ◌≡◌, ◌≢◌, refl, Option, some, List, [], ◌∷◌, length}
use infix_search.Base.Run.{ok, Ends, ended, Ends-bind, Ends-known, Ends-weaken, Returns}
use infix_search.Base.Text.{IsText}
use infix_search.Search.{find_path}
use infix_search.Rows.{lines}
use infix_search.Rows.Lines.{FullAt}
use infix_search.Rows.Prints.{EndsInNul}
use infix_search.Rows.Input.{unread}
use infix_search.Service.{Container, Called, type_slave, find_matches, extract_rows}
use infix_search.Service.Dictionaries.{
  IsDictionary, HasDictionary, AreMatches, dictionary-IsLoaded, find_matches-HasDictionary,
}
use infix_search.Service.Startup.{
  Config, Server, unset, parse_args, construct, start_server, start_http_server, serving, main,
}

module _ (files : List ℕ → Option (List ℕ)) (c : Config) (file : List ℕ)
    (slave : c.service_type ≡ type_slave) (data_file : files c.dataset ≡ some file)
    (buffer : List ℕ) (dictionary : IsDictionary (length buffer) file) (nul : EndsInNul buffer)
    (answer : Container → List ℕ → Called) (order : List ℕ) where
  reads_dataset :
      Ends
        (λ server.
          HasDictionary file (length buffer) server.handler × (server.socket_port ≡ c.port))
        (FullAt (lines file) unread)
        (start_server files 102 (construct buffer c))
  unfolding start_server construct
  reads_dataset =
      rw (slave, data_file)
        (Ends-bind (Ends-known (dictionary-IsLoaded dictionary)) λ (x, rows) (_, loads). ended _ (
          record {
            dictionary = dictionary;
            slave = refl;
            reads = refl;
            loads = loads;
            buffer = (refl, nul);
          },
          refl,
        ))

  -- `start_server` on a new handler of a slave, with 102 rounds, a dataset of at least one line,
  -- whose lines hold no NUL and are shorter than the row buffer, which ends with NUL, whose keys
  -- have less than 100 characters, and of which `add` never follows a child in the middle of a
  -- tail: behind the configured port then stands a slave that has read this dataset, and that
  -- answers `findMatches`, for a query without NUL that holds a character and does not begin with
  -- "*", and an empty vector, without a fault by a row for each of some keys of the dataset that
  -- contain the query, all of them if the query has two characters, is no key and ends no key that
  -- another begins with. `start_server` exits only at a line before which a node of the trie has
  -- 126 children.
  pub start_server-HasDictionary :
      (a : ℕ) (key : List ℕ)
      → IsText (a ∷ key)
      → a ≢ b'*'
      → Ends
          (λ server.
            HasDictionary file (length buffer) server.handler
            × (server.socket_port ≡ c.port)
            × Returns
                (λ (rs, x). AreMatches file (a ∷ key) rs × HasDictionary file (length buffer) x)
                (find_matches answer 102 order (a ∷ key) [] server.handler))
          (FullAt (lines file) unread)
          (start_server files 102 (construct buffer c))
  start_server-HasDictionary a key text ne = Ends-weaken reads_dataset λ server (has, socket). (
    has,
    socket,
    find_matches-HasDictionary answer order file (length buffer) a key server.handler has text ne,
  )

module _ (answer : Container → List ℕ → Called) (fuel : ℕ) (order : List ℕ) where
  -- `main` as a slave, whatever dataset and port the arguments name: it serves at port 8080, and
  -- `findMatches` answers every query that holds a character with nothing, as no dataset was read.
  pub main-finds_nothing :
      (buffer : List ℕ) (arg : List ℕ) (args : List (List ℕ)) (c : Config)
      → parse_args (arg ∷ args) unset ≡ ok c
      → c.service_type ≡ type_slave
      → (server : Server) × (main buffer (arg ∷ args) ≡ ok (serving server))
        × (server.socket_port ≡ 8080)
        × ((a : ℕ) (key : List ℕ)
            → find_matches answer fuel order (a ∷ key) [] server.handler ≡ ok ([], server.handler))
  unfolding main start_http_server construct find_matches find_path extract_rows
  main-finds_nothing buffer arg args c parsed slave =
      (start_http_server (construct buffer c), rw parsed refl, refl, λ a key. rw slave refl)
