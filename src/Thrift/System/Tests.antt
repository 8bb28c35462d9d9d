-- ===== src/Thrift/System/Tests.antt =====
-- A master that registers two workers and deregisters one, and the slave behind the other.
use infix_search.Base.{ℕ, ◌≡◌, refl, List, [], ◌∷◌, arith}
use infix_search.Base.Run.{Returns}
use infix_search.Rows.{str_eq}
use infix_search.Driver.Tests.{row}
use infix_search.Service.{
  Container, Called, Handler, is_at, is_registered, register_service, deregister_service,
  find_matches,
}
use infix_search.Service.Workers.{worker}
use infix_search.Service.Histories.{Request, registering, deregistering, Reaches, at_first, served}
use infix_search.Service.Startup.Tests.{startup_runs, slave, slave-HasDictionary}
use infix_search.Thrift.Tokens.{tokens, tokens-IsFaithful}
use infix_search.Thrift.Tests.{serve, serve-Dispatches}
use infix_search.Thrift.Remote.{Bounded, remote_answer}
use infix_search.Thrift.Fleet.Tests.{asked, iface, all_run, master}
use infix_search.Thrift.System.{AnswersLive, find_matches-AnswersLive}

abbrev a : List ℕ
a = b'a' ∷ []

abbrev b : List ℕ
b = b'b' ∷ []

abbrev idle : Handler
idle = record master { host_list = [] }

abbrev left : Handler
left = record master { host_list = worker a 1 ∷ [] }

abbrev requests : List Request
requests = deregistering b 1 ∷ registering b 1 ∷ registering a 1 ∷ []

abbrev remote : Container → List ℕ → Called
remote = remote_answer tokens iface (λ c. slave) [] (λ c. serve (iface c)) 0 (λ c key. [])

left-reached : Reaches remote 5 idle requests left
unfolding str_eq is_at is_registered register_service deregister_service
left-reached = served _ (served _ (served _ at_first refl) refl) refl

each-Bounded : (c : Container) → Bounded tokens iface (λ c. slave) [] (λ c. serve (iface c)) 0 b c
unfolding startup_runs
each-Bounded c = omega arith

find_matches-AnswersLive_example :
    Returns
      (λ (found, z). (z ≡ left) × AnswersLive (λ c. row) requests b found)
      (find_matches remote 5 (0 ∷ []) b [] left)
find_matches-AnswersLive_example =
    find_matches-AnswersLive tokens (λ c. slave) [] (λ c. serve (iface c)) 0 asked [] 0
      (λ c key. []) tokens-IsFaithful (λ c. serve-Dispatches (iface c)) (λ c. row) 10 5 idle left
      requests (0 ∷ []) b'b' [] (λ e. absurd (omega (arith, e))) refl left-reached all_run
      (λ host port live. (slave-HasDictionary, each-Bounded (worker host port))) (omega arith)
      (omega arith)
