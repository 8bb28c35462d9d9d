-- ===== src/Service/Numbers.antt =====
-- `atoi`, which the `main` of thrift/service-cpp/RemoteInfixSearch_server.cpp reads numbers with:
-- the C library's function, as its standard describes it. An `int` has 32 bits and is kept as its
-- unsigned value. A number that does not fit is undefined behaviour, a fault here.
use infix_search.Base.{
  ℕ, suc, ◌+◌, ◌-◌, ◌*◌, ◌^◌, ◌%◌, ◌≤◌, ◌<◌, ◌≡◌, refl, Bool, true, false, ◌&&◌, ◌||◌, List, [],
  ◌∷◌, ◌++◌, length, ap, ◌∙◌, ◌==◌, ltb, leb, if◌then◌else◌, arith,
}
use infix_search.Base.Run.{Run, ok, fault}
use native.Mathlib.Numerals.{unary_clauses}

-- `isspace`: the blank, and tab to carriage return.
abbrev is_space : ℕ → Bool
is_space c = c == b' ' || leb 9 c && leb c 13

abbrev is_digit : ℕ → Bool
is_digit c = leb b'0' c && leb c b'9'

unfoldable pub skip_spaces : List ℕ → List ℕ
skip_spaces [] = []
skip_spaces (c ∷ s) = let rest = skip_spaces s in if is_space c then rest else c ∷ s

-- The digits up to the first other character, behind the number `n`.
unfoldable pub read_digits : ℕ → List ℕ → ℕ
read_digits n [] = n
read_digits n (c ∷ s) =
    let more = read_digits (n * 10 + (c - b'0')) s in if is_digit c then more else n

abbrev positive : ℕ → Run ℕ
positive n = if ltb n (2 ^ 31) then ok n else fault

abbrev negative : ℕ → Run ℕ
negative n = if leb n (2 ^ 31) then ok ((2 ^ 32 - n) % 2 ^ 32) else fault

abbrev read_signed : List ℕ → Run ℕ
read_signed [] = ok 0
read_signed (c ∷ s) =
    if c == b'-'
    then negative (read_digits 0 s)
    else if c == b'+'
    then positive (read_digits 0 s)
    else positive (read_digits 0 (c ∷ s))

unfoldable pub atoi : List ℕ → Run ℕ
atoi s = read_signed (skip_spaces s)

pub data Sign : Type 0 where
  unsigned plus minus : Sign

abbrev sign_text : Sign → List ℕ
sign_text unsigned = []
sign_text plus = b'+' ∷ []
sign_text minus = b'-' ∷ []

abbrev AreSpaces : List ℕ → Type 0
AreSpaces [] = Unit
AreSpaces (c ∷ s) = (is_space c ≡ true) × AreSpaces s

abbrev AreDigits : List ℕ → Type 0
AreDigits [] = Unit
AreDigits (c ∷ s) = (b'0' ≤ c) × (c ≤ b'9') × AreDigits s

-- The text does not go on with a digit.
abbrev EndsDigits : List ℕ → Type 0
EndsDigits [] = Unit
EndsDigits (c ∷ s) = is_digit c ≡ false

-- The number that the digits spell, each at its power of ten.
abbrev value : List ℕ → ℕ
value [] = 0
value (c ∷ s) = (c - b'0') * 10 ^ length s + value s

-- Whether an `int` holds the number, and which one it then is.
abbrev pub Fits : Sign → ℕ → Type 0
Fits unsigned n = n < 2 ^ 31
Fits plus n = n < 2 ^ 31
Fits minus n = n ≤ 2 ^ 31

abbrev pub as_int : Sign → ℕ → ℕ
as_int unsigned n = n
as_int plus n = n
as_int minus n = (2 ^ 32 - n) % 2 ^ 32

skip_spaces-append :
    (spaces s : List ℕ) → AreSpaces spaces → skip_spaces (spaces ++ s) ≡ skip_spaces s
unfolding skip_spaces
skip_spaces-append [] s h = refl
skip_spaces-append (c ∷ spaces) s (space, h) = rw (space, skip_spaces-append spaces s h) refl

spread : (n d k v : ℕ) → (n * 10 + d) * 10 ^ k + v ≡ n * 10 ^ suc k + (d * 10 ^ k + v)
spread n d k v = simp unary_clauses (omega arith)

read_digits-digit :
    (n c : ℕ) (s : List ℕ)
    → b'0' ≤ c
    → c ≤ b'9'
    → read_digits n (c ∷ s) ≡ read_digits (n * 10 + (c - b'0')) s
unfolding read_digits
read_digits-digit n c s low high = ground arith

read_digits-value :
    (n : ℕ) (digits rest : List ℕ)
    → AreDigits digits
    → EndsDigits rest
    → read_digits n (digits ++ rest) ≡ n * 10 ^ length digits + value digits
unfolding read_digits
read_digits-value n [] [] h end = omega arith
read_digits-value n [] (c ∷ rest) h end = rw end (omega arith)
read_digits-value n (c ∷ digits) rest (low, high, h) end =
    read_digits-digit n c (digits ++ rest) low high
    ∙ read_digits-value (n * 10 + (c - b'0')) digits rest h end
    ∙ spread n (c - b'0') (length digits) (value digits)

digit-first :
    (c : ℕ) (s : List ℕ)
    → b'0' ≤ c
    → c ≤ b'9'
    → (skip_spaces (c ∷ s) ≡ c ∷ s) × (read_signed (c ∷ s) ≡ positive (read_digits 0 (c ∷ s)))
unfolding skip_spaces
digit-first c s low high = ground arith

module _ (d : ℕ) (digits rest : List ℕ) (are : AreDigits (d ∷ digits)) (end : EndsDigits rest) where
  read_digits-all : read_digits 0 (d ∷ digits ++ rest) ≡ value (d ∷ digits)
  read_digits-all = omega (arith, read_digits-value 0 (d ∷ digits) rest are end)

  abbrev held : Sign → Run ℕ
  held unsigned = positive (value (d ∷ digits))
  held plus = positive (value (d ∷ digits))
  held minus = negative (value (d ∷ digits))

  read_signed-value :
      (sign : Sign) → read_signed (skip_spaces (sign_text sign ++ d ∷ (digits ++ rest))) ≡ held sign
  unfolding skip_spaces
  read_signed-value unsigned =
      let (first, reads) = digit-first d (digits ++ rest) are.0 are.1 in
      rw (first, reads, read_digits-all) refl
  read_signed-value plus = rw read_digits-all refl
  read_signed-value minus = rw read_digits-all refl

  held-Fits :
      (sign : Sign)
      → (Fits sign (value (d ∷ digits)) → held sign ≡ ok (as_int sign (value (d ∷ digits))))
        × (¬ Fits sign (value (d ∷ digits)) → held sign ≡ fault)
  held-Fits unsigned = (λ h. ground arith, λ h. ground arith)
  held-Fits plus = (λ h. ground arith, λ h. ground arith)
  held-Fits minus = (λ h. ground arith, λ h. ground arith)

  atoi-held :
      (spaces : List ℕ) (sign : Sign)
      → AreSpaces spaces
      → atoi (spaces ++ (sign_text sign ++ d ∷ (digits ++ rest))) ≡ held sign
  unfolding atoi
  atoi-held spaces sign blank =
      ap read_signed (skip_spaces-append spaces (sign_text sign ++ d ∷ (digits ++ rest)) blank)
      ∙ read_signed-value sign

  -- `atoi` of blanks, a sign or none, at least one digit and no digit behind them: it returns the
  -- number that the digits spell, each at its power of ten, with its sign, if an `int` holds it,
  -- and is undefined otherwise.
  atoi-Fits :
      (spaces : List ℕ) (sign : Sign)
      → AreSpaces spaces
      → (Fits sign (value (d ∷ digits))
          → atoi (spaces ++ (sign_text sign ++ d ∷ (digits ++ rest)))
            ≡ ok (as_int sign (value (d ∷ digits))))
        × (¬ Fits sign (value (d ∷ digits))
            → atoi (spaces ++ (sign_text sign ++ d ∷ (digits ++ rest))) ≡ fault)
  atoi-Fits spaces sign blank = rw (atoi-held spaces sign blank) (held-Fits sign)
