-- ===== src/Service.antt =====
-- The handler of the search service (thrift/service-cpp/RemoteInfixSearch_server.cpp, and its copy
-- in thrift/service-cpp/client.cpp). A master has a list of workers and asks each of them; a slave
-- searches its own dictionary. `answer` stands for the call of a worker over Thrift. Ports are the
-- unsigned values of an `int`. What is printed is left out.
pub mod Workers
pub mod Registered
pub mod Masters
pub mod Slaves
pub mod Dictionaries
pub mod Histories
pub mod Numbers
pub mod Startup
pub mod Tests
use infix_search.Base.{
  ℕ, zero, suc, Bool, true, false, ◌&&◌, Option, none, some, List, [], ◌∷◌, ◌++◌, map, ◌==◌,
  if◌then◌else◌, is_empty,
}
use infix_search.Base.Run.{Run, ok, fault, ◌>>=◌}
use infix_search.Search.{Indexed, find_path}
use infix_search.Rows.{RowLookupMap, str_eq, extract_row}

-- The host and the port of a `thrift_container_t`; the connection belongs to them.
pub record Container : Type 0 where
  pub host : List ℕ
  pub port : ℕ

-- What the handler uses of its `search_t`. `file` is what `pFile` reads.
pub record Loaded : Type 0 where
  pub indexed : Indexed
  pub rows : RowLookupMap
  pub file : List ℕ
  pub row_buffer : List ℕ

pub record Handler : Type 0 where
  pub search : Loaded
  pub service_type : ℕ
  pub port : ℕ
  pub dataset : List ℕ
  pub host_list : List Container

abbrev pub type_slave : ℕ
type_slave = 1

unfoldable pub is_at : List ℕ → ℕ → Container → Bool
is_at host port container = str_eq container.host host && container.port == port

unfoldable pub is_registered : List ℕ → ℕ → List Container → Bool
is_registered host port [] = false
is_registered host port (container ∷ hosts) =
    let rest = is_registered host port hosts in if is_at host port container then true else rest

-- `registerService`, on `host_list`.
unfoldable pub register_service : List ℕ → ℕ → List Container → List Container
register_service host port hosts =
    if is_registered host port hosts
    then hosts
    else hosts ++ record { host = host; port = port } ∷ []

-- `deregisterService`, on `host_list`.
unfoldable pub deregister_service : List ℕ → ℕ → List Container → List Container
deregister_service host port [] = []
deregister_service host port (container ∷ hosts) =
    let rest = deregister_service host port hosts in
    if is_at host port container then rest else container ∷ rest

-- What the call of a worker gives: the matches, or a `TException`, with the matches read so far.
pub data Called : Type 0 where
  returned : List (List ℕ) → Called
  thrown : List (List ℕ) → Called

-- `delegator_t`.
pub record Delegator : Type 0 where
  pub key : List ℕ
  pub container : Container
  pub matches : List (List ℕ)

unfoldable pub read_of : Called → List (List ℕ)
read_of (returned matches) = matches
read_of (thrown matches) = matches

-- The delegators of `findMatches`, before they run.
unfoldable pub delegators : List ℕ → List Container → List Delegator
delegators key [] = []
delegators key (container ∷ hosts) =
    record { key = key; container = container; matches = [] } ∷ delegators key hosts

-- The loop that joins the matches.
unfoldable pub joined : List Delegator → List (List ℕ)
joined [] = []
joined (d ∷ ds) = d.matches ++ joined ds

-- `_return[i] = search.extract_row(_return[i])`, in order.
unfoldable pub extract_rows : List (List ℕ) → Loaded → Run (List (List ℕ) × Loaded)
extract_rows [] search = ok ([], search)
extract_rows (found ∷ more) search =
    extract_row search.file search.rows found search.row_buffer >>= λ (row, row_buffer).
    extract_rows more (record search { row_buffer = row_buffer }) >>= λ (rows, search').
    ok (row ∷ rows, search')

module _ (answer : Container → List ℕ → Called) where
  -- `delegator_t::operator()`.
  unfoldable pub call : Delegator → Delegator
  call d = record d { matches = read_of (answer d.container d.key) }

  unfoldable pub call_at : ℕ → List Delegator → List Delegator
  call_at i [] = []
  call_at zero (d ∷ ds) = call d ∷ ds
  call_at (suc i) (d ∷ ds) = d ∷ call_at i ds

  -- `findMatchesThreaded`: the pool runs the delegators in some order, and waits for them.
  unfoldable pub find_matches_threaded : List ℕ → List Delegator → List Delegator
  find_matches_threaded [] ds = ds
  find_matches_threaded (i ∷ order) ds = find_matches_threaded order (call_at i ds)

  -- `findMatches`. What it gets in `_return` stays there on a master without workers.
  unfoldable pub find_matches :
      ℕ → List ℕ → List ℕ → List (List ℕ) → Handler → Run (List (List ℕ) × Handler)
  find_matches fuel order key found x =
      if x.service_type == type_slave
      then (find_path fuel x.search.indexed key found >>= λ found'.
          extract_rows found' x.search >>= λ (rows, search).
          ok (rows, record x { search = search }))
      else if is_empty x.host_list
      then ok (found, x)
      else ok (joined (find_matches_threaded order (delegators key x.host_list)), x)
