-- ===== src/Thrift/Handlers.antt =====
-- Handlers of the service: `RemoteInfixSearchNull` and `RemoteInfixSearchMultiface`
-- (thrift/service-cpp/RemoteInfixSearch.h), and the server's `RemoteInfixSearchHandler`.
pub mod Multi
use infix_search.Base.{ℕ, List, [], ◌∷◌}
use infix_search.Base.Run.{Run, ok, fault, exits, out_of_fuel}
use infix_search.Thrift.{Served, served, threw, died, RemoteInfixSearchIf}
use infix_search.Service
use infix_search.Service.{Container, Handler, Called}

-- `RemoteInfixSearchNull`. `findMatches` leaves its vector as it is.
abbrev null : {S : Type 0} → RemoteInfixSearchIf S
null = record {
  ping = λ s. served 0 s;
  find_matches = λ found key s. served found s;
  register_service = λ host port s. served 0 s;
  deregister_service = λ host port s. served 0 s;
}

infixl 5 ◌>>=◌
abbrev pub ◌>>=◌ : {S A B : Type 0} → Served S A → (A → S → Served S B) → Served S B
served a s >>= rest = rest a s
threw what s >>= rest = threw what s
died >>= rest = died

-- `RemoteInfixSearchMultiface`: every method calls that of each interface, and returns what the
-- last one does. Without an interface, `ifaces_[0]` is read.
unfoldable pub ping_each : {S : Type 0} → List (RemoteInfixSearchIf S) → S → Served S ℕ
ping_each [] s = died
ping_each (f ∷ []) s = f.ping s
ping_each (f ∷ g ∷ fs) s = f.ping s >>= λ _ s'. ping_each (g ∷ fs) s'

unfoldable pub find_matches_each :
    {S : Type 0}
    → List (RemoteInfixSearchIf S)
    → List (List ℕ)
    → List ℕ
    → S
    → Served S (List (List ℕ))
find_matches_each [] found key s = died
find_matches_each (f ∷ []) found key s = f.find_matches found key s
find_matches_each (f ∷ g ∷ fs) found key s =
    f.find_matches found key s >>= λ found' s'. find_matches_each (g ∷ fs) found' key s'

unfoldable pub register_service_each :
    {S : Type 0} → List (RemoteInfixSearchIf S) → List ℕ → ℕ → S → Served S ℕ
register_service_each [] host port s = died
register_service_each (f ∷ []) host port s = f.register_service host port s
register_service_each (f ∷ g ∷ fs) host port s =
    f.register_service host port s >>= λ _ s'. register_service_each (g ∷ fs) host port s'

unfoldable pub deregister_service_each :
    {S : Type 0} → List (RemoteInfixSearchIf S) → List ℕ → ℕ → S → Served S ℕ
deregister_service_each [] host port s = died
deregister_service_each (f ∷ []) host port s = f.deregister_service host port s
deregister_service_each (f ∷ g ∷ fs) host port s =
    f.deregister_service host port s >>= λ _ s'. deregister_service_each (g ∷ fs) host port s'

abbrev pub multiface : {S : Type 0} → List (RemoteInfixSearchIf S) → RemoteInfixSearchIf S
multiface ifaces = record {
  ping = ping_each ifaces;
  find_matches = find_matches_each ifaces;
  register_service = register_service_each ifaces;
  deregister_service = deregister_service_each ifaces;
}

abbrev pub served_run : {S A : Type 0} → Run (A × S) → Served S A
served_run (ok (a, s)) = served a s
served_run fault = died
served_run exits = died
served_run out_of_fuel = died

-- `RemoteInfixSearchHandler`. `registerService` and `deregisterService` end without a `return`:
-- `unspecified` is what their callers get.
abbrev pub service_handler :
    (Container → List ℕ → Called) → ℕ → List ℕ → ℕ → RemoteInfixSearchIf Handler
service_handler answer fuel order unspecified = record {
  ping = λ x. served 0 x;
  find_matches = λ found key x. served_run (Service.find_matches answer fuel order key found x);
  register_service = λ host port x.
      served unspecified (record x { host_list = Service.register_service host port x.host_list });
  deregister_service = λ host port x.
      served unspecified
        (record x { host_list = Service.deregister_service host port x.host_list });
}
