-- ===== src/Service/Workers.antt =====
-- The list of workers is a set: `registerService` adds a worker, and `deregisterService` removes
-- it.
use infix_search.Base.{
  and_true, ℕ, ◌≡◌, inl, inr, refl, sym, ap, ◌∙◌, true, false, not, ◌&&◌, ◌||◌, Bool-cases, List,
  [], ◌∷◌, ◌++◌, ◌==◌, ==_iff, arith, append-nil,
}
use infix_search.Rows.{str_eq}
use infix_search.Rows.Strings.{str_eq_self, str_eq-true}
use infix_search.Service.{Container, is_at, is_registered, register_service, deregister_service}

-- The list names no worker twice.
abbrev pub IsDistinct : List Container → Type 0
IsDistinct [] = Unit
IsDistinct (c ∷ hosts) = (is_registered c.host c.port hosts ≡ false) × IsDistinct hosts

abbrev pub worker : List ℕ → ℕ → Container
worker host port = record { host = host; port = port }

pub is_at-true :
    (host : List ℕ) (port : ℕ) (c : Container)
    → is_at host port c ≡ true
    → (c.host ≡ host) × (c.port ≡ port)
unfolding is_at
is_at-true host port c e =
    let (a, b) = and_true (str_eq c.host host) (c.port == port) e in
    (str_eq-true c.host host a, (==_iff c.port port).0 b)

pub is_at_self : (c : Container) → is_at c.host c.port c ≡ true
unfolding is_at
is_at_self c = rw (str_eq_self c.host) ((==_iff c.port c.port).1 refl)

-- Two names for one worker stand in the same lists.
same_worker :
    (host host' : List ℕ) (port port' : ℕ) (hosts : List Container)
    → is_at host' port' (worker host port) ≡ true
    → is_registered host' port' hosts ≡ is_registered host port hosts
same_worker host host' port port' hosts e =
    let (a, b) = is_at-true host' port' (worker host port) e in
    ap (λ h. is_registered h port' hosts) (sym a) ∙ ap (λ p. is_registered host p hosts) (sym b)

is_at_swap :
    (host host' : List ℕ) (port port' : ℕ)
    → is_at host' port' (worker host port) ≡ true
    → is_at host port (worker host' port') ≡ true
is_at_swap host host' port port' e =
    let (a, b) = is_at-true host' port' (worker host port) e in
    ap (λ h. is_at host port (worker h port')) (sym a)
    ∙ ap (λ p. is_at host port (worker host p)) (sym b)
    ∙ is_at_self (worker host port)

is_at_symm :
    (host host' : List ℕ) (port port' : ℕ)
    → is_at host' port' (worker host port) ≡ is_at host port (worker host' port')
is_at_symm host host' port port' =
    ground (arith, is_at_swap host host' port port', is_at_swap host' host port' port)

module _ (host : List ℕ) (port : ℕ) where
  is_registered-append :
      (xs ys : List Container)
      → is_registered host port (xs ++ ys)
        ≡ (is_registered host port xs || is_registered host port ys)
  unfolding is_registered
  is_registered-append [] ys = refl
  is_registered-append (c ∷ xs) ys = ground (arith, is_registered-append xs ys)

module _ (host : List ℕ) (port : ℕ) where
  deregister-absent :
      (hosts : List Container)
      → is_registered host port hosts ≡ false
      → deregister_service host port hosts ≡ hosts
  unfolding is_registered deregister_service
  deregister-absent [] e = refl
  deregister-absent (c ∷ hosts) e = ground (arith, deregister-absent hosts)

  deregister-append :
      (xs ys : List Container)
      → deregister_service host port (xs ++ ys)
        ≡ deregister_service host port xs ++ deregister_service host port ys
  unfolding deregister_service
  deregister-append [] ys = refl
  deregister-append (c ∷ xs) ys = ground (arith, deregister-append xs ys)

  at_worker :
      (host' : List ℕ) (port' : ℕ) (c : Container)
      → is_at host port c ≡ true
      → is_at host' port' c ≡ is_at host' port' (worker host port)
  at_worker host' port' c e =
      let (a, b) = is_at-true host port c e in
      ap (λ h. is_at host' port' (worker h c.port)) a
      ∙ ap (λ p. is_at host' port' (worker host p)) b

  registered_after :
      (host' : List ℕ) (port' : ℕ) (hosts : List Container)
      → is_registered host' port' (register_service host port hosts)
        ≡ (is_at host' port' (worker host port) || is_registered host' port' hosts)
  unfolding register_service is_registered
  registered_after host' port' hosts = ground (
    arith,
    same_worker host host' port port' hosts,
    is_registered-append host' port' hosts (worker host port ∷ []),
  )

  registered_left :
      (host' : List ℕ) (port' : ℕ) (hosts : List Container)
      → is_registered host' port' (deregister_service host port hosts)
        ≡ (not (is_at host' port' (worker host port)) && is_registered host' port' hosts)
  unfolding deregister_service is_registered
  registered_left host' port' [] = ground arith
  registered_left host' port' (c ∷ hosts) = ground (
    arith,
    registered_left host' port' hosts,
    at_worker host' port' c,
    is_at_swap host host' port port',
    is_at-true host' port' c,
  )

IsDistinct-append :
    (hosts : List Container) (c : Container)
    → IsDistinct hosts
    → is_registered c.host c.port hosts ≡ false
    → IsDistinct (hosts ++ c ∷ [])
unfolding is_registered
IsDistinct-append [] c distinct absent = (refl, tt)
IsDistinct-append (x ∷ hosts) c distinct absent = (
  ground (
    arith,
    distinct.0,
    is_registered-append x.host x.port hosts (c ∷ []),
    is_at_symm x.host c.host x.port c.port,
    absent,
  ),
  IsDistinct-append hosts c distinct.1 (ground (arith, absent)),
)

IsDistinct-deregister :
    (host : List ℕ) (port : ℕ) (hosts : List Container)
    → IsDistinct hosts
    → IsDistinct (deregister_service host port hosts)
unfolding deregister_service
IsDistinct-deregister host port [] distinct = tt
IsDistinct-deregister host port (c ∷ hosts) distinct = elim (Bool-cases (is_at host port c)) [
  | inl e ↦ rw e (IsDistinct-deregister host port hosts distinct.1)
  | inr e ↦ rw e (
    ground (arith, registered_left host port c.host c.port hosts, distinct.0),
    IsDistinct-deregister host port hosts distinct.1,
  )
]

-- After `registerService` exactly the workers before it and the new one are registered, and none
-- twice if none was.
pub register_service-IsDistinct :
    (host : List ℕ) (port : ℕ) (hosts : List Container)
    → IsDistinct hosts
    → IsDistinct (register_service host port hosts)
      × ((host' : List ℕ) (port' : ℕ)
          → is_registered host' port' (register_service host port hosts)
            ≡ (is_at host' port' (worker host port) || is_registered host' port' hosts))
unfolding register_service
register_service-IsDistinct host port hosts distinct = (
  elim (Bool-cases (is_registered host port hosts)) [
    | inl e ↦ rw e distinct
    | inr e ↦ rw e (IsDistinct-append hosts (worker host port) distinct e)
  ],
  λ host' port'. registered_after host port host' port' hosts,
)

-- After `deregisterService` exactly the other workers are registered, and none twice if none was.
pub deregister_service-IsDistinct :
    (host : List ℕ) (port : ℕ) (hosts : List Container)
    → IsDistinct hosts
    → IsDistinct (deregister_service host port hosts)
      × ((host' : List ℕ) (port' : ℕ)
          → is_registered host' port' (deregister_service host port hosts)
            ≡ (not (is_at host' port' (worker host port)) && is_registered host' port' hosts))
deregister_service-IsDistinct host port hosts distinct = (
  IsDistinct-deregister host port hosts distinct,
  λ host' port'. registered_left host port host' port' hosts,
)

-- Registering a new worker and deregistering it gives back the list of workers.
deregister-register :
    (host : List ℕ) (port : ℕ) (hosts : List Container)
    → is_registered host port hosts ≡ false
    → deregister_service host port (register_service host port hosts) ≡ hosts
unfolding register_service deregister_service
deregister-register host port hosts absent =
    rw
      (
        absent,
        deregister-append host port hosts (worker host port ∷ []),
        deregister-absent host port hosts absent,
        is_at_self (worker host port),
      )
      (append-nil hosts)
