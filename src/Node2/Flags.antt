-- ===== src/Node2/Flags.antt =====
-- The flag byte `data[METADATA_INDEX]`: what `|=` and `&=` with a flag's mask do to each flag.
use Prim.Native.Nat.{bit_and, bit_or}
use infix_search.Base.{
  false, ℕ_discrete, subst, sym, if◌then◌else◌, ℕ, zero, suc, ◌/◌, ◌%◌, ◌<◌, ◌≡◌, refl, Bool, true,
  ◌&&◌, arith, leb, ◌==◌, ==_iff,
}

-- Whether a test holds of each of the `n` numbers before `top`, counted down.
tested : (ℕ → Bool) → ℕ → Bool
tested test zero = true
tested test (suc top) = let below = tested test top in if test top then below else false

tested-lt :
    (test : ℕ → Bool) (top byte : ℕ) → byte < top → tested test top ≡ true → test byte ≡ true
unfolding tested
tested-lt test zero byte lt all = elim lt [ ]
tested-lt test (suc top) byte lt all = elim (ℕ_discrete byte top) [
  | yes last ↦ subst (λ b. test b ≡ true) (sym last) (ground arith)
  | no other ↦ tested-lt test top byte (omega arith) (ground arith)
]

-- `b` is a byte with its lowest bit set, and its second bit as in `m`.
abbrev sets_lowest : ℕ → ℕ → Bool
sets_lowest m b = leb b 255 && (b % 2 == 1 && b / 2 % 2 == m / 2 % 2)

abbrev sets_second : ℕ → ℕ → Bool
sets_second m b = leb b 255 && (b / 2 % 2 == 1 && b % 2 == m % 2)

lowest_table : tested (λ m. sets_lowest m (bit_or m 1)) 256 ≡ true
unfolding tested
lowest_table = refl

second_table : tested (λ m. sets_second m (bit_or m 2)) 256 ≡ true
unfolding tested
second_table = refl

clear_table : tested (λ m. bit_and m 0 == 0) 256 ≡ true
unfolding tested
clear_table = refl

pub bit_or-one :
    (m : ℕ) → m < 256 → (bit_or m 1 < 256) × (bit_or m 1 % 2 ≡ 1) × (bit_or m 1 / 2 % 2 ≡ m / 2 % 2)
bit_or-one m h = ground (arith, tested-lt (λ m. sets_lowest m (bit_or m 1)) 256 m h lowest_table)

pub bit_or-two :
    (m : ℕ) → m < 256 → (bit_or m 2 < 256) × (bit_or m 2 / 2 % 2 ≡ 1) × (bit_or m 2 % 2 ≡ m % 2)
bit_or-two m h = ground (arith, tested-lt (λ m. sets_second m (bit_or m 2)) 256 m h second_table)

pub bit_and-zero : (m : ℕ) → m < 256 → bit_and m 0 ≡ 0
bit_and-zero m h = (==_iff _ 0).0 (tested-lt (λ m. bit_and m 0 == 0) 256 m h clear_table)
