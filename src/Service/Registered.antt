-- ===== src/Service/Registered.antt =====
-- Which workers stand in the list after `registerService` and `deregisterService`, said of the
-- list alone.
use infix_search.Base.{
  ℕ, ◌≡◌, ◌≢◌, ◌↔◌, ◌⊎◌, inl, inr, refl, sym, ap, ◌∙◌, subst, Bool, true, false, arith, not, ◌&&◌,
  ◌||◌, Bool-cases, and_true, List, [], ◌∷◌,
}
use infix_search.Service.{Container, is_at, is_registered, register_service, deregister_service}
use infix_search.Service.Workers.{
  IsDistinct, worker, is_at-true, is_at_self, register_service-IsDistinct,
  deregister_service-IsDistinct,
}

-- The worker stands in the list.
abbrev pub IsWorker : Container → List Container → Type 0
IsWorker c [] = ⊥
IsWorker c (x ∷ hosts) = (c ≡ x) ⊎ IsWorker c hosts

-- No worker stands in the list twice.
abbrev pub AreOnce : List Container → Type 0
AreOnce [] = Unit
AreOnce (c ∷ hosts) = ¬ IsWorker c hosts × AreOnce hosts

is_at-same : (c x : Container) → is_at c.host c.port x ≡ true → c ≡ x
is_at-same c x e =
    let (a, b) = is_at-true c.host c.port x e in
    ap (λ h. worker h c.port) (sym a) ∙ ap (λ p. worker x.host p) (sym b)

is_at_refl : (c x : Container) → c ≡ x → is_at c.host c.port x ≡ true
is_at_refl c x e = subst (λ y. is_at c.host c.port y ≡ true) e (is_at_self c)

or_true : (a b : Bool) → (a || b) ≡ true → (a ≡ true) ⊎ (b ≡ true)
or_true true b e = inl refl
or_true false b e = inr e

true_or : (a b : Bool) → b ≡ true → (a || b) ≡ true
true_or true b e = refl
true_or false b e = e

not_holds : (a : Bool) → not a ≡ true → a ≢ true
not_holds true e = cc
not_holds false e = λ e'. cc

not_ne : (a : Bool) → a ≢ true → not a ≡ true
not_ne true ne = absurd (ne refl)
not_ne false ne = refl

is_registered-IsWorker :
    (c : Container) (hosts : List Container)
    → is_registered c.host c.port hosts ≡ true
    → IsWorker c hosts
unfolding is_registered
is_registered-IsWorker c [] e = cc
is_registered-IsWorker c (x ∷ hosts) e = elim (Bool-cases (is_at c.host c.port x)) [
  | inl here ↦ inl (is_at-same c x here)
  | inr there ↦ inr (is_registered-IsWorker c hosts (rw there at e))
]

worker_registered :
    (c : Container) (hosts : List Container)
    → IsWorker c hosts
    → is_registered c.host c.port hosts ≡ true
unfolding is_registered
worker_registered c [] is = absurd is
worker_registered c (x ∷ hosts) (inl e) = rw (is_at_refl c x e) refl
worker_registered c (x ∷ hosts) (inr is) = ground (arith, worker_registered c hosts is)

AreOnce-IsDistinct : (hosts : List Container) → AreOnce hosts → IsDistinct hosts
AreOnce-IsDistinct [] once = tt
AreOnce-IsDistinct (c ∷ hosts) (new, once) = (
  elim (Bool-cases (is_registered c.host c.port hosts)) [
    | inl e ↦ absurd (new (is_registered-IsWorker c hosts e))
    | inr e ↦ e
  ],
  AreOnce-IsDistinct hosts once,
)

pub IsDistinct-AreOnce : (hosts : List Container) → IsDistinct hosts → AreOnce hosts
IsDistinct-AreOnce [] distinct = tt
IsDistinct-AreOnce (c ∷ hosts) (new, distinct) =
    ((λ is. cc (new, worker_registered c hosts is)), IsDistinct-AreOnce hosts distinct)

-- After `registerService` exactly the workers before it and the one with this host and port stand
-- in the list, and none twice if none did.
pub register_service-Registers :
    (host : List ℕ) (port : ℕ) (hosts : List Container)
    → AreOnce hosts
    → AreOnce (register_service host port hosts)
      × ((c : Container)
          → IsWorker c (register_service host port hosts)
            ↔ (IsWorker c hosts ⊎ (c ≡ worker host port)))
register_service-Registers host port hosts once =
    let (distinct, after) =
      register_service-IsDistinct host port hosts (AreOnce-IsDistinct hosts once) in
    let hosts' = register_service host port hosts in
    (
      IsDistinct-AreOnce hosts' distinct,
      λ c. (
        λ is.
            elim (or_true (is_at c.host c.port (worker host port)) _
              (sym (after c.host c.port) ∙ worker_registered c hosts' is)) [
                | inl new ↦ inr (is_at-same c (worker host port) new)
                | inr old ↦ inl (is_registered-IsWorker c hosts old)
              ],
        λ h. is_registered-IsWorker c hosts' (
            after c.host c.port ∙ elim h [
              | inl old ↦
                  true_or (is_at c.host c.port (worker host port)) _ (worker_registered c hosts old)
              | inr new ↦
                  ap (λ b. b || is_registered c.host c.port hosts)
                    (is_at_refl c (worker host port) new)
            ]),
      ),
    )

-- After `deregisterService` exactly the workers before it but the one with this host and port stand
-- in the list, and none twice if none did.
pub deregister_service-Removes :
    (host : List ℕ) (port : ℕ) (hosts : List Container)
    → AreOnce hosts
    → AreOnce (deregister_service host port hosts)
      × ((c : Container)
          → IsWorker c (deregister_service host port hosts)
            ↔ (IsWorker c hosts × (c ≢ worker host port)))
deregister_service-Removes host port hosts once =
    let (distinct, after) =
      deregister_service-IsDistinct host port hosts (AreOnce-IsDistinct hosts once) in
    let hosts' = deregister_service host port hosts in
    (
      IsDistinct-AreOnce hosts' distinct,
      λ c. (
        λ is.
            let (other, old) =
              and_true (not (is_at c.host c.port (worker host port))) _
                (sym (after c.host c.port) ∙ worker_registered c hosts' is) in
            (
              is_registered-IsWorker c hosts old,
              λ e. not_holds _ other (is_at_refl c (worker host port) e),
            ),
        λ (old, other). is_registered-IsWorker c hosts' (
            after c.host c.port
            ∙ ap (λ b. b && is_registered c.host c.port hosts)
                (not_ne (is_at c.host c.port (worker host port))
                  (λ e. other (is_at-same c (worker host port) e)))
            ∙ worker_registered c hosts old),
      ),
    )
