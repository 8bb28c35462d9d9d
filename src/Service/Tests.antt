-- ===== src/Service/Tests.antt =====
-- A master with two workers, and the theorems about the service at it.
use infix_search.Base.{
  true, ◌↔◌, if◌then◌else◌, ℕ, zero, suc, ◌<◌, ◌≡◌, ◌≢◌, ◌⊎◌, refl, inl, inr, none, List, [], ◌∷◌,
  arith, replicate, In,
}
use infix_search.Base.Run.{ok, Returns}
use infix_search.Rows.{str_eq}
use infix_search.Trie.{empty}
use infix_search.Service.{
  Container, Handler, Called, returned, thrown, read_of, is_at, is_registered, register_service,
  deregister_service, find_matches, find_matches_threaded, call_at, call, delegators, joined,
}
use infix_search.Service.Workers.{worker}
use infix_search.Service.Registered.{
  IsWorker, AreOnce, IsDistinct-AreOnce, register_service-Registers, deregister_service-Removes,
}
use infix_search.Service.Histories.{
  Request, registering, deregistering, finding, is_live, Reaches, at_first, served,
  find_matches-live,
}
use infix_search.Search.Down.{Has}
use infix_search.Service.Masters.{answers, find_matches-answers}

service_runs : ℕ → ℕ
unfolding str_eq is_at is_registered register_service deregister_service read_of answers
service_runs n = n

abbrev a : List ℕ
a = b'a' ∷ []

abbrev b : List ℕ
b = b'b' ∷ []

abbrev two_workers : List Container
two_workers = worker a 1 ∷ worker b 1 ∷ []

-- Each worker finds its own name; the second fails after it has sent it.
abbrev answer : Container → List ℕ → Called
answer c key = if str_eq c.host a then returned (c.host ∷ []) else thrown (c.host ∷ [])

abbrev master : Handler
master = record {
  search = record {
    indexed = record { trie = empty; tpm = λ x y. none };
    rows = λ key. none;
    file = [];
    row_buffer = replicate 1000 0;
  };
  service_type = 0;
  port = 9090;
  dataset = [];
  host_list = two_workers;
}

two_workers-AreOnce : AreOnce two_workers
unfolding service_runs
two_workers-AreOnce = IsDistinct-AreOnce two_workers (refl, (refl, tt))

register_service-Registers_example :
    AreOnce (register_service b 2 two_workers)
    × ((c : Container)
        → IsWorker c (register_service b 2 two_workers)
          ↔ (IsWorker c two_workers ⊎ (c ≡ worker b 2)))
register_service-Registers_example = register_service-Registers b 2 two_workers two_workers-AreOnce

deregister_service-Removes_example :
    AreOnce (deregister_service b 1 two_workers)
    × ((c : Container)
        → IsWorker c (deregister_service b 1 two_workers)
          ↔ (IsWorker c two_workers × (c ≢ worker b 1)))
deregister_service-Removes_example = deregister_service-Removes b 1 two_workers two_workers-AreOnce

all_called : (j : ℕ) → j < 2 → In j (1 ∷ 0 ∷ [])
all_called zero less = inr (inl refl)
all_called (suc zero) less = inl refl
all_called (suc (suc j)) less = absurd (omega arith)

-- The second worker is called first, and fails.
find_matches-answers_example :
    find_matches answer 5 (1 ∷ 0 ∷ []) b [] master ≡ ok (a ∷ b ∷ [], master)
unfolding service_runs
find_matches-answers_example =
    find_matches-answers answer 5 (1 ∷ 0 ∷ []) b [] master (λ e. absurd (omega (arith, e))) refl
      all_called

-- The master without its workers registers them, the latter first, deregisters "a", and searches.
abbrev idle : Handler
idle = record master { host_list = [] }

abbrev requests : List Request
requests = finding (0 ∷ []) b ∷ deregistering a 1 ∷ registering a 1 ∷ registering b 1 ∷ []

abbrev left : Handler
left = record master { host_list = worker b 1 ∷ [] }

left-reached : Reaches answer 5 idle requests left
unfolding service_runs find_matches find_matches_threaded call_at call delegators joined
left-reached = served _ (served _ (served _ (served _ at_first refl) refl) refl) refl

first_called : (j : ℕ) → j < 1 → In j (0 ∷ [])
first_called zero less = inl refl
first_called (suc j) less = absurd (omega arith)

find_matches-live_example :
    Returns
      (λ (found, z).
        (z ≡ left)
        × ((m : List ℕ)
            → Has m found ↔ (
                (host : List ℕ) × (port : ℕ) × (is_live requests host port ≡ true)
                × Has m (read_of (answer (worker host port) b)))))
      (find_matches answer 5 (0 ∷ []) b [] left)
find_matches-live_example =
    find_matches-live answer 5 idle left requests (0 ∷ []) b (λ e. absurd (omega (arith, e))) refl
      left-reached first_called
