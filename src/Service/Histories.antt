-- ===== src/Service/Histories.antt =====
-- The requests that a master serves, one after the other, and what it answers after them.
use infix_search.Base.{
  ℕ, ◌<◌, ◌≡◌, ◌≢◌, ◌↔◌, inl, inr, refl, sym, ap, ◌∙◌, subst, true, false, Bool, Bool-cases, List,
  [], ◌∷◌, length, In, if◌then◌else◌, ==_ne, not, ◌&&◌, ◌||◌, is_empty,
}
use infix_search.Base.Run.{Run, ok, Returns, returns, ◌>>=◌, ok-injective}
use infix_search.Search.Down.{Has, Has-append}
use infix_search.Service.{
  Container, Handler, type_slave, Called, read_of, is_at, is_registered, register_service,
  deregister_service, find_matches,
}
use infix_search.Service.Workers.{
  IsDistinct, worker, is_at-true, is_at_self, register_service-IsDistinct,
  deregister_service-IsDistinct,
}
use infix_search.Service.Masters.{answers, find_matches-answers}

-- The calls of the service that may change it; `calls` is the order in which the pool runs its
-- part.
pub data Request : Type 0 where
  registering deregistering : List ℕ → ℕ → Request
  finding : (calls key : List ℕ) → Request

-- The latest request that names the worker decides whether it is registered. The latest stands
-- first.
abbrev pub is_live : List Request → List ℕ → ℕ → Bool
is_live [] host port = false
is_live (registering host' port' ∷ rs) host port =
    let before = is_live rs host port in
    if is_at host port (worker host' port') then true else before
is_live (deregistering host' port' ∷ rs) host port =
    let before = is_live rs host port in
    if is_at host port (worker host' port') then false else before
is_live (finding calls key ∷ rs) host port = is_live rs host port

or_if : (a b : Bool) → (a || b) ≡ (if a then true else b)
or_if true b = refl
or_if false b = refl

and_if : (a b : Bool) → (not a && b) ≡ (if a then false else b)
and_if true b = refl
and_if false b = refl

none_registered : (host : List ℕ) (port : ℕ) → is_registered host port [] ≡ false
unfolding is_registered
none_registered host port = refl

true_else : (a : Bool) {b : Bool} → b ≡ true → (if a then true else b) ≡ true
true_else true e = refl
true_else false e = e

empty-nil : (hosts : List Container) → is_empty hosts ≡ true → hosts ≡ []
empty-nil [] e = refl
empty-nil (c ∷ hosts) e = cc

module _ (answer : Container → List ℕ → Called) (fuel : ℕ) where
  abbrev serve_request : Request → Handler → Run Handler
  serve_request (registering host port) x =
      ok (record x { host_list = register_service host port x.host_list })
  serve_request (deregistering host port) x =
      ok (record x { host_list = deregister_service host port x.host_list })
  serve_request (finding calls key) x =
      find_matches answer fuel calls key [] x >>= λ (found, x'). ok x'

  -- The handler `y` is what the requests make of `x`.
  pub data Reaches (x : Handler) : List Request → Handler → Type 0 where
    at_first : Reaches x [] x
    served :
        {rs : List Request} {y z : Handler} (r : Request)
        → Reaches x rs y
        → serve_request r y ≡ ok z
        → Reaches x (r ∷ rs) z

  -- What holds of the handler after these requests.
  record Follows (x : Handler) (rs : List Request) (y : Handler) : Type 0 where
    kind : y.service_type ≡ x.service_type
    distinct : IsDistinct y.host_list
    live : (host : List ℕ) (port : ℕ) → is_registered host port y.host_list ≡ is_live rs host port

  serve_request-find :
      (calls key : List ℕ) (y : Handler)
      → y.service_type ≢ type_slave
      → serve_request (finding calls key) y ≡ ok y
  unfolding find_matches
  serve_request-find calls key y master =
      let other = ==_ne y.service_type type_slave master in
      elim (Bool-cases (is_empty y.host_list)) [
        | inl e ↦ rw (other, e) refl
        | inr e ↦ rw (other, e) refl
      ]

  served-Follows :
      (x y z : Handler) (rs : List Request) (r : Request)
      → x.service_type ≢ type_slave
      → Follows x rs y
      → serve_request r y ≡ ok z
      → Follows x (r ∷ rs) z
  served-Follows x y z rs (registering host port) master follows e =
      let (distinct, registers) =
        register_service-IsDistinct host port y.host_list follows.distinct in
      subst (Follows x (registering host port ∷ rs)) (ok-injective e) (record {
        kind = follows.kind;
        distinct = distinct;
        live = λ host' port'.
            registers host' port'
            ∙ ap (λ b. is_at host' port' (worker host port) || b) (follows.live host' port')
            ∙ or_if (is_at host' port' (worker host port)) _;
      })
  served-Follows x y z rs (deregistering host port) master follows e =
      let (distinct, removes) =
        deregister_service-IsDistinct host port y.host_list follows.distinct in
      subst (Follows x (deregistering host port ∷ rs)) (ok-injective e) (record {
        kind = follows.kind;
        distinct = distinct;
        live = λ host' port'.
            removes host' port'
            ∙ ap (λ b. not (is_at host' port' (worker host port)) && b) (follows.live host' port')
            ∙ and_if (is_at host' port' (worker host port)) _;
      })
  served-Follows x y z rs (finding calls key) master follows e =
      let same : y ≡ z =
        ok-injective
          (sym (serve_request-find calls key y (λ slave. master (sym follows.kind ∙ slave))) ∙ e) in
      subst (Follows x (finding calls key ∷ rs)) same
        (record { kind = follows.kind; distinct = follows.distinct; live = follows.live })

  Reaches-Follows :
      (x y : Handler) (rs : List Request)
      → x.service_type ≢ type_slave
      → x.host_list ≡ []
      → Reaches x rs y
      → Follows x rs y
  Reaches-Follows x y rs master none_yet at_first = record {
    kind = refl;
    distinct = rw none_yet tt;
    live = λ host port. ap (is_registered host port) none_yet ∙ none_registered host port;
  }
  Reaches-Follows x z _ master none_yet (served {rs} {y} r before e) =
      served-Follows x y z rs r master (Reaches-Follows x y rs master none_yet before) e

  -- The answers of workers are those of the registered ones.
  answers-registered :
      (key : List ℕ) (hosts : List Container) (m : List ℕ)
      → Has m (answers answer key hosts) ↔ (
          (host : List ℕ) × (port : ℕ) × (is_registered host port hosts ≡ true)
          × Has m (read_of (answer (worker host port) key)))
  unfolding answers is_registered
  answers-registered key [] m = (λ has. absurd has, λ (host, port, e, has). cc)
  answers-registered key (c ∷ hosts) m =
      let (f, g) = answers-registered key hosts m in
      let (split, join) = Has-append m (read_of (answer c key)) (answers answer key hosts) in
      (
        λ has. elim (split has) [
          | inl own ↦ (c.host, c.port, rw (is_at_self c) refl, own)
          | inr other ↦
              let (host, port, e, has') = f other in
              (host, port, true_else (is_at host port c) e, has')
        ],
        λ (host, port, e, has). elim (Bool-cases (is_at host port c)) [
          | inl at ↦
              let (same_host, same_port) = is_at-true host port c at in
              join (
                inl (
                  subst (λ p. Has m (read_of (answer (worker c.host p) key))) (sym same_port)
                    (subst (λ h. Has m (read_of (answer (worker h port) key))) (sym same_host)
                      has)))
          | inr away ↦ join (inr (g (host, port, rw away at e, has)))
        ],
      )

  find_matches-all :
      (calls key : List ℕ) (y : Handler)
      → y.service_type ≢ type_slave
      → ((j : ℕ) → j < length y.host_list → In j calls)
      → find_matches answer fuel calls key [] y ≡ ok (answers answer key y.host_list, y)
  unfolding find_matches answers
  find_matches-all calls key y master complete = elim (Bool-cases (is_empty y.host_list)) [
    | inl e ↦
        rw (==_ne y.service_type type_slave master, e)
          (ap (λ hosts. ok (answers answer key hosts, y)) (sym (empty-nil y.host_list e)))
    | inr e ↦ find_matches-answers answer fuel calls key [] y master e complete
  ]

  -- On a master that had no workers, after any sequence of requests: `findMatches` returns, once
  -- the pool has run every delegator, exactly the matches that come from a live worker, that is,
  -- from one which the latest request that names it has registered. The master is left as it was.
  pub find_matches-live :
      (x y : Handler) (rs : List Request) (calls key : List ℕ)
      → x.service_type ≢ type_slave
      → x.host_list ≡ []
      → Reaches x rs y
      → ((j : ℕ) → j < length y.host_list → In j calls)
      → Returns
          (λ (found, z).
            (z ≡ y)
            × ((m : List ℕ)
                → Has m found ↔ (
                    (host : List ℕ) × (port : ℕ) × (is_live rs host port ≡ true)
                    × Has m (read_of (answer (worker host port) key)))))
          (find_matches answer fuel calls key [] y)
  find_matches-live x y rs calls key master none_yet reaches complete =
      let follows = Reaches-Follows x y rs master none_yet reaches in
      rw (find_matches-all calls key y (λ slave. master (sym follows.kind ∙ slave)) complete) (
        returns _ (
          refl,
          λ m.
              let (f, g) = answers-registered key y.host_list m in
              (
                λ has.
                    let (host, port, e, has') = f has in
                    (host, port, sym (follows.live host port) ∙ e, has'),
                λ (host, port, e, has). g (host, port, follows.live host port ∙ e, has),
              ),
        ))
