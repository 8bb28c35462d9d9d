-- ===== src/Thrift/Fleet.antt =====
-- The whole service: a master, its workers' connections, and slaves with dictionaries behind them.
pub mod Tests
use infix_search.Base.{
  ℕ, suc, ◌<◌, ◌≡◌, ◌≢◌, refl, false, List, [], ◌∷◌, ◌++◌, is_empty, length, In,
}
use infix_search.Base.Run.{Run, ok, Returns, returns}
use infix_search.Base.Text.{IsText}
use infix_search.Thrift.{TProtocol, IsFaithful, Try, RemoteInfixSearchIf}
use infix_search.Thrift.Handlers.{served_run, service_handler}
use infix_search.Thrift.Client.Calls.{Dispatches}
use infix_search.Thrift.Remote.{
  Each, Bounded, matches_of, remote_answer, local_answer, find_matches-local,
}
use infix_search.Service.{Container, Called, Handler, type_slave, read_of, find_matches}
use infix_search.Service.Masters.{answers}
use infix_search.Service.Dictionaries.{HasDictionary, AreMatches, find_matches-HasDictionary}

pub matches_of-served :
    (Q : List (List ℕ) → Type 0) (R : Handler → Type 0) {r : Run (List (List ℕ) × Handler)}
    → Returns (λ (rs, x). Q rs × R x) r
    → Q (matches_of (served_run r))
matches_of-served Q R (returns (rs, x) (q, _)) = q

module _ (file : Container → List ℕ) where
  -- The rows of each worker's dictionary, in the order of the list.
  abbrev pub FromEach : List ℕ → List Container → List (List ℕ) → Type 0
  FromEach key [] rs = rs ≡ []
  FromEach key (c ∷ hosts) rs =
      (here : List (List ℕ)) × (rest : List (List ℕ)) × (rs ≡ here ++ rest)
      × AreMatches (file c) key here
      × FromEach key hosts rest

-- The handlers of the slaves, with what they would ask workers of their own.
abbrev pub slave_at :
    (Container → List ℕ → Called) → List ℕ → ℕ → Container → RemoteInfixSearchIf Handler
slave_at asked order unspecified c = service_handler asked 102 order unspecified

module _ (P : TProtocol) (state : Container → Handler) (end : P.Wire)
    (serve : Container → P.Wire → Handler → Try (P.Wire × Handler)) (rounds : ℕ)
    (asked : Container → List ℕ → Called) (order : List ℕ) (unspecified : ℕ) where
  abbrev slaves : Container → RemoteInfixSearchIf Handler
  slaves = slave_at asked order unspecified

  module _ (left : Container → List ℕ → List (List ℕ)) (faithful : IsFaithful P)
      (dispatches : (c : Container)
        → Dispatches P (slaves c) (suc (suc (suc rounds))) end (serve c))
      (file : Container → List ℕ) (n : ℕ) where
    answers-FromEach :
        (a : ℕ) (key : List ℕ) (hosts : List Container)
        → Each (λ c. HasDictionary (file c) n (state c)) hosts
        → IsText (a ∷ key)
        → a ≢ b'*'
        → FromEach file
            (a ∷ key)
            hosts
            (answers (local_answer P slaves state end serve rounds) (a ∷ key) hosts)
    unfolding answers read_of
    answers-FromEach a key [] have text ne = refl
    answers-FromEach a key (c ∷ hosts) (has, have) text ne = (
      _,
      _,
      refl,
      matches_of-served (AreMatches (file c) (a ∷ key)) (HasDictionary (file c) n)
          (find_matches-HasDictionary asked order (file c) n a key (state c) has text ne),
      answers-FromEach a key hosts have text ne,
    )

    -- A master whose workers are slaves that have read dictionaries, reached through client and
    -- processor over a faithful protocol: for a query without NUL that holds a character and does
    -- not begin with "*", `findMatches` returns, one worker behind the other in the order of the
    -- list, rows of each worker's dictionary: for some keys of it that contain the query, all of
    -- them if the query has two characters, is no key and ends no key that another begins with, the
    -- last row with this key, perhaps with more behind it. This is so if the result of each worker
    -- has less than 2^31 strings, the pool runs every call, and there is a worker.
    pub find_matches-FromEach :
        (fuel : ℕ) (calls : List ℕ) (a : ℕ) (key : List ℕ) (found : List (List ℕ)) (x : Handler)
        → x.service_type ≢ type_slave
        → is_empty x.host_list ≡ false
        → ((j : ℕ) → j < length x.host_list → In j calls)
        → Each (λ c. HasDictionary (file c) n (state c)) x.host_list
        → Each (Bounded P slaves state end serve rounds (a ∷ key)) x.host_list
        → IsText (a ∷ key)
        → a ≢ b'*'
        → Returns
            (λ (rs, x'). FromEach file (a ∷ key) x.host_list rs × (x' ≡ x))
            (find_matches
              (remote_answer P slaves state end serve rounds left)
              fuel
              calls
              (a ∷ key)
              found
              x)
    find_matches-FromEach fuel calls a key found x master some_worker complete have bounded text
          ne =
        rw
          (find_matches-local P slaves state end serve rounds left faithful dispatches fuel calls
            (a ∷ key) found x master some_worker complete bounded)
          (returns _ (answers-FromEach a key x.host_list have text ne, refl))
