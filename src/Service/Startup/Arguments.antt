-- ===== src/Service/Startup/Arguments.antt =====
-- The arguments of the service.
use infix_search.Base.{ℕ, ◌≡◌, refl, sym, ap, ◌∙◌, Option, none, some, List, [], ◌∷◌, ◌++◌}
use infix_search.Base.Run.{ok, fault, ◌>>=◌}
use infix_search.Rows.{str_eq}
use infix_search.Service.Numbers.{atoi}
use infix_search.Service.Startup.{
  Config, Setting, port, service_type, dataset, port_option, type_option, dataset_option, option_of,
  put, parse_args,
}

abbrev pub name : Setting → List ℕ
name port = port_option
name service_type = type_option
name dataset = dataset_option

-- The arguments that give these settings.
abbrev pub args_of : List (Setting × List ℕ) → List (List ℕ)
args_of [] = []
args_of ((s, v) ∷ settings) = name s ∷ v ∷ args_of settings

-- The value that is given for a setting, if it is the named one.
abbrev pub given : Setting → Setting → List ℕ → Option (List ℕ)
given port port v = some v
given service_type service_type v = some v
given dataset dataset v = some v
given _ _ v = none

-- The last value that is given for the setting.
abbrev pub latest : Setting → List (Setting × List ℕ) → Option (List ℕ)
latest s [] = none
latest s ((t, v) ∷ settings) = elim (latest s settings) [ none ↦ given s t v | some u ↦ some u ]

-- `n` is the number that a value spells, and the number before where no value is given.
abbrev pub Reads : Option (List ℕ) → ℕ → ℕ → Type 0
Reads none old n = n ≡ old
Reads (some v) old n = atoi v ≡ ok n

abbrev pub value_or : Option (List ℕ) → List ℕ → List ℕ
value_or none old = old
value_or (some v) old = v

-- The values of "--port" and "--type" spell numbers that an `int` holds.
abbrev pub AreNumbers : List (Setting × List ℕ) → Type 0
AreNumbers [] = Unit
AreNumbers ((port, v) ∷ settings) = ((n : ℕ) × (atoi v ≡ ok n)) × AreNumbers settings
AreNumbers ((service_type, v) ∷ settings) = ((n : ℕ) × (atoi v ≡ ok n)) × AreNumbers settings
AreNumbers ((dataset, v) ∷ settings) = AreNumbers settings

-- The configuration `c'` is `c` with each setting's latest value.
abbrev pub HasLatest : List (Setting × List ℕ) → Config → Config → Type 0
HasLatest settings c c' =
    Reads (latest port settings) c.port c'.port
    × Reads (latest service_type settings) c.service_type c'.service_type
    × (c'.dataset ≡ value_or (latest dataset settings) c.dataset)

Reads-later :
    (later own : Option (List ℕ)) (old mid n : ℕ)
    → Reads own old mid
    → Reads later mid n
    → Reads (elim later [ none ↦ own | some u ↦ some u ]) old n
Reads-later none none old mid n first last = last ∙ first
Reads-later none (some v) old mid n first last = first ∙ ap ok (sym last)
Reads-later (some u) own old mid n first last = last

value_later :
    (later own : Option (List ℕ)) (old : List ℕ)
    → value_or later (value_or own old) ≡ value_or (elim later [ none ↦ own | some u ↦ some u ]) old
value_later none own old = refl
value_later (some u) own old = refl

parse_args-name : (s : Setting) (c : Config) → parse_args (name s ∷ []) c ≡ fault
unfolding parse_args option_of str_eq
parse_args-name port c = refl
parse_args-name service_type c = refl
parse_args-name dataset c = refl

parse_args-step :
    (s : Setting) (v : List ℕ) (args : List (List ℕ)) (c : Config)
    → parse_args (name s ∷ v ∷ args) c ≡ (put s v c >>= λ c'. parse_args args c')
unfolding parse_args option_of str_eq
parse_args-step port v args c = refl
parse_args-step service_type v args c = refl
parse_args-step dataset v args c = refl

-- The first setting leads from `c` to `c1`, and the others from there to `c'`.
HasLatest-step :
    (s : Setting) (v : List ℕ) (settings : List (Setting × List ℕ)) (c c1 c' : Config)
    → Reads (given port s v) c.port c1.port
    → Reads (given service_type s v) c.service_type c1.service_type
    → (c1.dataset ≡ value_or (given dataset s v) c.dataset)
    → HasLatest settings c1 c'
    → HasLatest ((s, v) ∷ settings) c c'
HasLatest-step s v settings c c1 c' at_port at_type at_dataset (port_is, type_is, dataset_is) = (
  Reads-later (latest port settings) (given port s v) c.port c1.port c'.port at_port port_is,
  Reads-later (latest service_type settings) (given service_type s v) c.service_type c1.service_type
      c'.service_type at_type type_is,
  dataset_is
      ∙ ap (value_or (latest dataset settings)) at_dataset
      ∙ value_later (latest dataset settings) (given dataset s v) c.dataset,
)

-- The arguments that give settings, whose ports and types are numbers that an `int` holds, are read
-- as a configuration with each setting's latest value, or what stood there where none is given. An
-- argument behind the name of an option is its value, even one that spells an option. With the name
-- of an option behind them, `NULL` is read as its value.
pub parse_args-args_of :
    (settings : List (Setting × List ℕ)) (c : Config)
    → AreNumbers settings
    → ((c' : Config) × (parse_args (args_of settings) c ≡ ok c') × HasLatest settings c c')
      × ((s : Setting) → parse_args (args_of settings ++ name s ∷ []) c ≡ fault)
unfolding parse_args
parse_args-args_of [] c numbers = ((c, refl, (refl, refl, refl)), λ s. parse_args-name s c)
parse_args-args_of ((port, v) ∷ settings) c ((n, e), numbers) =
    let c1 : Config = record c { port = n } in
    let ((c', parsed, is), cut) = parse_args-args_of settings c1 numbers in
    (
      (
        c',
        parse_args-step port v (args_of settings) c ∙ rw e parsed,
        HasLatest-step port v settings c c1 c' e refl refl is,
      ),
      λ t. parse_args-step port v (args_of settings ++ name t ∷ []) c ∙ rw e (cut t),
    )
parse_args-args_of ((service_type, v) ∷ settings) c ((n, e), numbers) =
    let c1 : Config = record c { service_type = n } in
    let ((c', parsed, is), cut) = parse_args-args_of settings c1 numbers in
    (
      (
        c',
        parse_args-step service_type v (args_of settings) c ∙ rw e parsed,
        HasLatest-step service_type v settings c c1 c' refl e refl is,
      ),
      λ t. parse_args-step service_type v (args_of settings ++ name t ∷ []) c ∙ rw e (cut t),
    )
parse_args-args_of ((dataset, v) ∷ settings) c numbers =
    let c1 : Config = record c { dataset = v } in
    let ((c', parsed, is), cut) = parse_args-args_of settings c1 numbers in
    (
      (
        c',
        parse_args-step dataset v (args_of settings) c ∙ parsed,
        HasLatest-step dataset v settings c c1 c' refl refl refl is,
      ),
      λ t. parse_args-step dataset v (args_of settings ++ name t ∷ []) c ∙ cut t,
    )
