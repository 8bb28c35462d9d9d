-- ===== src/Thrift/Fleet/Tests.antt =====
-- A master over one slave, which serves the dictionary of one line.
use infix_search.Base.{ℕ, zero, suc, ◌<◌, ◌≡◌, refl, none, inl, List, [], ◌∷◌, In, arith, replicate}
use infix_search.Base.Run.{Returns}
use infix_search.Trie.{empty}
use infix_search.Driver.Tests.{row}
use infix_search.Service.{Container, Called, returned, Handler, find_matches}
use infix_search.Service.Workers.{worker}
use infix_search.Service.Startup.Tests.{startup_runs, slave, slave-HasDictionary}
use infix_search.Thrift.{RemoteInfixSearchIf}
use infix_search.Thrift.Tokens.{tokens, tokens-IsFaithful}
use infix_search.Thrift.Tests.{serve, serve-Dispatches}
use infix_search.Thrift.Remote.{Bounded, remote_answer}
use infix_search.Thrift.Fleet.{FromEach, slave_at, find_matches-FromEach}

abbrev host : Container
host = worker (b'a' ∷ []) 1

abbrev pub asked : Container → List ℕ → Called
asked c key = returned []

abbrev pub iface : Container → RemoteInfixSearchIf Handler
iface = slave_at asked [] 0

abbrev pub master : Handler
master = record {
  search = record {
    indexed = record { trie = empty; tpm = λ x y. none };
    rows = λ key. none;
    file = [];
    row_buffer = replicate 1000 0;
  };
  service_type = 0;
  port = 9090;
  dataset = [];
  host_list = host ∷ [];
}

pub all_run : (j : ℕ) → j < 1 → In j (0 ∷ [])
all_run zero less = inl refl
all_run (suc j) less = absurd (omega arith)

answer-Bounded : Bounded tokens iface (λ c. slave) [] (λ c. serve (iface c)) 0 (b'b' ∷ []) host
unfolding startup_runs
answer-Bounded = omega arith

find_matches-FromEach_example :
    Returns
      (λ (rs, x'). FromEach (λ c. row) (b'b' ∷ []) (host ∷ []) rs × (x' ≡ master))
      (find_matches
        (remote_answer tokens iface (λ c. slave) [] (λ c. serve (iface c)) 0 (λ c key. []))
        5
        (0 ∷ [])
        (b'b' ∷ [])
        []
        master)
find_matches-FromEach_example =
    find_matches-FromEach tokens (λ c. slave) [] (λ c. serve (iface c)) 0 asked [] 0 (λ c key. [])
      tokens-IsFaithful (λ c. serve-Dispatches (iface c)) (λ c. row) 10 5 (0 ∷ []) b'b' [] [] master
      (λ e. absurd (omega (arith, e))) refl all_run (slave-HasDictionary, tt) (answer-Bounded, tt)
      (omega arith) (omega arith)
