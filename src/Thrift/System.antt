-- ===== src/Thrift/System.antt =====
-- The whole service over time: a master after any requests, and slaves with dictionaries behind the
-- connections of the workers that are registered then.
pub mod Tests
use infix_search.Base.{ℕ, suc, ◌<◌, ◌≡◌, ◌↔◌, ◌≢◌, true, subst, sym, List, [], ◌∷◌, length, In}
use infix_search.Base.Run.{Returns, weaken}
use infix_search.Base.Text.{IsText}
use infix_search.Search.Down.{Has}
use infix_search.Thrift.{TProtocol, IsFaithful, Try}
use infix_search.Thrift.Client.Calls.{Dispatches}
use infix_search.Thrift.Remote.{Bounded, matches_of, remote_answer, remote-one}
use infix_search.Thrift.Fleet.{slave_at, matches_of-served}
use infix_search.Service.{Container, Called, Handler, type_slave, read_of, find_matches}
use infix_search.Service.Workers.{worker}
use infix_search.Service.Histories.{Request, is_live, Reaches, find_matches-live}
use infix_search.Service.Dictionaries.{HasDictionary, AreMatches, find_matches-HasDictionary}

-- What is returned for the query comes from the dictionaries of the live workers, and from each.
abbrev pub AnswersLive : (Container → List ℕ) → List Request → List ℕ → List (List ℕ) → Type 0
AnswersLive file rs key found =
    ((m : List ℕ)
      → Has m found
      → (host : List ℕ) × (port : ℕ) × (is_live rs host port ≡ true)
        × ((ms : List (List ℕ)) × AreMatches (file (worker host port)) key ms × Has m ms))
    × ((host : List ℕ) (port : ℕ)
        → is_live rs host port ≡ true
        → (ms : List (List ℕ)) × AreMatches (file (worker host port)) key ms
          × ((m : List ℕ) → Has m ms → Has m found))

module _ (P : TProtocol) (state : Container → Handler) (end : P.Wire)
    (serve : Container → P.Wire → Handler → Try (P.Wire × Handler)) (rounds : ℕ)
    (asked : Container → List ℕ → Called) (order : List ℕ) (unspecified : ℕ)
    (left : Container → List ℕ → List (List ℕ)) (faithful : IsFaithful P)
    (dispatches : (c : Container)
      → Dispatches P (slave_at asked order unspecified c) (suc (suc (suc rounds))) end (serve c))
    (file : Container → List ℕ) (n : ℕ) where
  -- A slave that has read a dictionary, and returns less than 2^31 rows for the query.
  abbrev IsReady : List ℕ → Container → Type 0
  IsReady key c =
      HasDictionary (file c) n (state c)
      × Bounded P (slave_at asked order unspecified) state end serve rounds key c

  abbrev matches_at : List ℕ → Container → List (List ℕ)
  matches_at key c = matches_of ((slave_at asked order unspecified c).find_matches [] key (state c))

  matches_at-AreMatches :
      (a : ℕ) (key : List ℕ) (c : Container)
      → IsReady (a ∷ key) c
      → IsText (a ∷ key)
      → a ≢ b'*'
      → AreMatches (file c) (a ∷ key) (matches_at (a ∷ key) c)
  matches_at-AreMatches a key c (has, bound) text ne =
      matches_of-served (AreMatches (file c) (a ∷ key)) (HasDictionary (file c) n)
        (find_matches-HasDictionary asked order (file c) n a key (state c) has text ne)

  abbrev answer : Container → List ℕ → Called
  answer = remote_answer P (slave_at asked order unspecified) state end serve rounds left

  read_of-answer :
      (key : List ℕ) (c : Container) → IsReady key c → read_of (answer c key) ≡ matches_at key c
  read_of-answer key c (has, bound) =
      remote-one P (slave_at asked order unspecified) state end serve rounds left faithful
        dispatches key c bound

  -- What the answers of the live workers hold is what their own handlers find.
  FromLive-AnswersLive :
      (rs : List Request) (a : ℕ) (key : List ℕ) (found : List (List ℕ))
      → ((host : List ℕ) (port : ℕ)
          → is_live rs host port ≡ true
          → IsReady (a ∷ key) (worker host port))
      → IsText (a ∷ key)
      → a ≢ b'*'
      → ((m : List ℕ)
          → Has m found ↔ (
              (host : List ℕ) × (port : ℕ) × (is_live rs host port ≡ true)
              × Has m (read_of (answer (worker host port) (a ∷ key)))))
      → AnswersLive file rs (a ∷ key) found
  FromLive-AnswersLive rs a key found ready text ne from = (
    λ m has.
        let (host, port, live, has') = (from m).0 has in
        (
          host,
          port,
          live,
          (
            matches_at (a ∷ key) (worker host port),
            matches_at-AreMatches a key (worker host port) (ready host port live) text ne,
            subst (Has m) (read_of-answer (a ∷ key) (worker host port) (ready host port live)) has',
          ),
        ),
    λ host port live. (
      matches_at (a ∷ key) (worker host port),
      matches_at-AreMatches a key (worker host port) (ready host port live) text ne,
      λ m has. (from m).1 (
        host,
        port,
        live,
        subst (Has m) (sym (read_of-answer (a ∷ key) (worker host port) (ready host port live)))
            has,
      ),
    ),
  )

  -- On a master that had no workers, after any sequence of requests, where each live worker, that
  -- is, each that the latest request that names it has registered, is a slave that has read a
  -- dictionary and returns less than 2^31 rows, reached through client and processor over a
  -- faithful protocol: for a query without NUL that holds a character and does not begin with "*",
  -- `findMatches` returns, once the pool has run every call, rows of the live workers'
  -- dictionaries, and from each of these, for some keys of it that contain the query, all of them
  -- if the query has two characters, is no key and ends no key that another begins with, the last
  -- row with this key, perhaps with more behind it.
  pub find_matches-AnswersLive :
      (fuel : ℕ) (x y : Handler) (rs : List Request) (calls : List ℕ) (a : ℕ) (key : List ℕ)
      → x.service_type ≢ type_slave
      → x.host_list ≡ []
      → Reaches answer fuel x rs y
      → ((j : ℕ) → j < length y.host_list → In j calls)
      → ((host : List ℕ) (port : ℕ)
          → is_live rs host port ≡ true
          → IsReady (a ∷ key) (worker host port))
      → IsText (a ∷ key)
      → a ≢ b'*'
      → Returns
          (λ (found, z). (z ≡ y) × AnswersLive file rs (a ∷ key) found)
          (find_matches answer fuel calls (a ∷ key) [] y)
  find_matches-AnswersLive fuel x y rs calls a key master none_yet reaches complete ready text ne =
      weaken (find_matches-live answer fuel x y rs calls (a ∷ key) master none_yet reaches complete)
        λ (found, z) (same, from). (same, FromLive-AnswersLive rs a key found ready text ne from)
