-- ===== src/Base/Run.antt =====
-- The outcome of code that may read outside an object (`fault`), call `exit` (`exits`), or be
-- given too few rounds for a loop (`out_of_fuel`).
use mathlib.Core.Path.{◌≡◌, refl, subst}

pub data Run {ℓ} (A : Type ℓ) : Type ℓ where
  fault : Run A
  exits : Run A
  out_of_fuel : Run A
  ok : A → Run A

-- The rest of a function, after a part that may not come back.
infixl 5 ◌>>=◌
abbrev pub ◌>>=◌ {ℓ κ} : {R : Type ℓ} {S : Type κ} → Run R → (R → Run S) → Run S
fault >>= rest = fault
exits >>= rest = exits
out_of_fuel >>= rest = out_of_fuel
ok r >>= rest = rest r

-- Total correctness: the run ends with a result of which `P` holds.
pub data Returns {ℓ κ} {A : Type ℓ} (P : A → Type κ) : Run A → Type (ℓ ⊔ κ) where
  returns : (a : A) → P a → Returns P (ok a)

module _ {ℓ κ} {A : Type ℓ} {P : A → Type κ} where
  pub bind {ι μ} :
      {B : Type ι} {Q : B → Type μ} {r : Run A} {k : A → Run B}
      → Returns P r
      → ((a : A) → P a → Returns Q (k a))
      → Returns Q (r >>= k)
  bind (returns a p) next = next a p

  pub weaken {μ} : {Q : A → Type μ} {r : Run A} → Returns P r → ((a : A) → P a → Q a) → Returns Q r
  weaken (returns a p) f = returns a (f a p)

-- The run ends with a result of which `P` holds, or the process exits and `Q` holds.
pub data Ends {ℓ κ} {A : Type ℓ} (P : A → Type κ) (Q : Type κ) : Run A → Type (ℓ ⊔ κ) where
  ended : (a : A) → P a → Ends P Q (ok a)
  stopped : Q → Ends P Q exits

module _ {ℓ κ} {A : Type ℓ} {P : A → Type κ} {Q : Type κ} where
  pub Ends-bind {ι} :
      {B : Type ι} {R : B → Type κ} {r : Run A} {k : A → Run B}
      → Ends P Q r
      → ((a : A) → P a → Ends R Q (k a))
      → Ends R Q (r >>= k)
  Ends-bind (ended a p) next = next a p
  Ends-bind (stopped q) next = stopped q

  pub Ends-of_Returns : {r : Run A} → Returns P r → Ends P Q r
  Ends-of_Returns (returns a p) = ended a p

module _ {ℓ κ} {A : Type ℓ} {P : A → Type κ} {Q R : Type κ} where
  pub Ends-stop : {r : Run A} → Ends P Q r → (Q → R) → Ends P R r
  Ends-stop (ended a p) f = ended a p
  Ends-stop (stopped q) f = stopped (f q)

pub bind_assoc {ℓ κ ι} :
    {A : Type ℓ} {B : Type κ} {C : Type ι} (m : Run A) (f : A → Run B) (g : B → Run C)
    → (m >>= f >>= g) ≡ (m >>= λ a. f a >>= g)
bind_assoc (ok a) f g = refl
bind_assoc fault f g = refl
bind_assoc exits f g = refl
bind_assoc out_of_fuel f g = refl

pub Ends-weaken {ℓ κ} :
    {A : Type ℓ} {P R : A → Type κ} {Q : Type κ} {r : Run A}
    → Ends P Q r
    → ((a : A) → P a → R a)
    → Ends R Q r
Ends-weaken (ended a p) f = ended a (f a p)
Ends-weaken (stopped q) f = stopped q

pub ok-injective {ℓ} : {A : Type ℓ} {a b : A} → ok a ≡ ok b → a ≡ b
ok-injective e = cc

pub Ends-result {ℓ κ} :
    {A : Type ℓ} {P : A → Type κ} {Q : Type κ} {r : Run A} → Ends P Q r → (a : A) → r ≡ ok a → P a
Ends-result {P} (ended b p) a e = subst P (ok-injective e) p
Ends-result (stopped q) a e = cc

-- The result that the run ends with, too.
pub Ends-known {ℓ} :
    {A : Type ℓ} {P : A → Type ℓ} {Q : Type ℓ} {r : Run A}
    → Ends P Q r
    → Ends (λ a. P a × (r ≡ ok a)) Q r
Ends-known (ended a p) = ended a (p, refl)
Ends-known (stopped q) = stopped q

Returns-ok {ℓ κ} : {A : Type ℓ} {P : A → Type κ} {a : A} → Returns P (ok a) → P a
Returns-ok (returns a p) = p

pub Returns-both {ℓ κ} :
    {A : Type ℓ} {P Q : A → Type κ} {r : Run A}
    → Returns P r
    → Returns Q r
    → Returns (λ a. P a × Q a) r
Returns-both (returns a p) h = returns a (p, Returns-ok h)

-- What a run returns under a condition, beside what it returns in any case.
pub Returns-under {ℓ κ} :
    {A : Type ℓ} {P Q : A → Type κ} {H : Type κ} {r : Run A}
    → Returns P r
    → (H → Returns Q r)
    → Returns (λ a. P a × (H → Q a)) r
Returns-under (returns a p) f = returns a (p, λ h. Returns-ok (f h))

-- The result of a run that has one.
abbrev pub result_or {ℓ} : {A : Type ℓ} → Run A → A → A
result_or (ok a) d = a
result_or fault d = d
result_or exits d = d
result_or out_of_fuel d = d

pub Returns-result_or {ℓ κ} :
    {A : Type ℓ} {P : A → Type κ} {r : Run A} → Returns P r → (d : A) → P (result_or r d)
Returns-result_or (returns a p) d = p

pub Ends-Returns {ℓ κ} :
    {A : Type ℓ} {P : A → Type κ} {Q : Type κ} {r : Run A} → Ends P Q r → ¬ Q → Returns P r
Ends-Returns (ended a p) never = returns a p
Ends-Returns (stopped q) never = absurd (never q)
