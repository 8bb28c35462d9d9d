-- ===== src/Driver/Args.antt =====
-- The arguments of the command line program.
use infix_search.Base.{ℕ, ◌≡◌, refl, false, Bool-cases, inl, inr, List, [], ◌∷◌, ◌++◌}
use infix_search.Base.Run.{ok, fault}
use infix_search.Rows.{str_eq}
use infix_search.Driver.{
  Options, algorithm_option, dict_option, query_option, next_arg, set_option, read_args,
}

pub data Setting : Type 0 where
  algorithm dict query : Setting

abbrev pub name : Setting → List ℕ
name algorithm = algorithm_option
name dict = dict_option
name query = query_option

abbrev put : Setting → List ℕ → Options → Options
put algorithm v o = record o { algorithm = v }
put dict v o = record o { dict_file = v }
put query v o = record o { query_file = v }

-- The arguments that give these settings.
abbrev pub args_of : List (Setting × List ℕ) → List (List ℕ)
args_of [] = []
args_of ((s, v) ∷ settings) = name s ∷ v ∷ args_of settings

abbrev pub put_all : List (Setting × List ℕ) → Options → Options
put_all [] o = o
put_all ((s, v) ∷ settings) o = put_all settings (put s v o)

-- Not the name of an option.
abbrev IsPlain : List ℕ → Type 0
IsPlain v =
    (str_eq v algorithm_option ≡ false)
    × (str_eq v dict_option ≡ false)
    × (str_eq v query_option ≡ false)

abbrev ArePlain : List (Setting × List ℕ) → Type 0
ArePlain [] = Unit
ArePlain ((s, v) ∷ settings) = IsPlain v × ArePlain settings

set_option-name :
    (s : Setting) (v : List ℕ) (args : List (List ℕ)) (o : Options)
    → set_option (name s) (v ∷ args) o ≡ ok (put s v o)
unfolding set_option next_arg str_eq
set_option-name algorithm v args o = refl
set_option-name dict v args o = refl
set_option-name query v args o = refl

set_option-plain :
    (v : List ℕ) (args : List (List ℕ)) (o : Options) → IsPlain v → set_option v args o ≡ ok o
unfolding set_option
set_option-plain v args o (a, d, q) = rw (a, d, q) refl

-- The arguments made of settings whose values are no names of options are read as these settings:
-- of two for one option, the last counts.
read_args-args_of :
    (settings : List (Setting × List ℕ)) (o : Options)
    → ArePlain settings
    → read_args (args_of settings) o ≡ ok (put_all settings o)
unfolding read_args
read_args-args_of [] o plain = refl
read_args-args_of ((s, v) ∷ settings) o (plain, rest) =
    rw
      (
        set_option-name s v (args_of settings) o,
        set_option-plain v (args_of settings) (put s v o) plain,
      )
      (read_args-args_of settings (put s v o) rest)

set_option-more :
    (arg v : List ℕ) (args : List (List ℕ)) (o : Options)
    → (o' : Options) × (set_option arg (v ∷ args) o ≡ ok o')
unfolding set_option next_arg
set_option-more arg v args o = elim (Bool-cases (str_eq arg algorithm_option)) [
  | inl a ↦ (record o { algorithm = v }, rw a refl)
  | inr a ↦ elim (Bool-cases (str_eq arg dict_option)) [
    | inl d ↦ (record o { dict_file = v }, rw (a, d) refl)
    | inr d ↦ elim (Bool-cases (str_eq arg query_option)) [
      | inl q ↦ (record o { query_file = v }, rw (a, d, q) refl)
      | inr q ↦ (o, rw (a, d, q) refl)
    ]
  ]
]

-- The name of an option as the last argument makes a `string` of `NULL`, whatever stands before.
read_args-cut :
    (args : List (List ℕ)) (s : Setting) (o : Options) → read_args (args ++ name s ∷ []) o ≡ fault
unfolding read_args set_option next_arg str_eq
read_args-cut [] algorithm o = refl
read_args-cut [] dict o = refl
read_args-cut [] query o = refl
read_args-cut (arg ∷ []) s o =
    let (o', e) = set_option-more arg (name s) [] o in rw e (read_args-cut [] s o')
read_args-cut (arg ∷ v ∷ args) s o =
    let (o', e) = set_option-more arg v (args ++ name s ∷ []) o in
    rw e (read_args-cut (v ∷ args) s o')
