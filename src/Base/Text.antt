-- ===== src/Base/Text.antt =====
-- C strings in byte buffers: what `strlen`, `strcpy` and the conversion to `string` read.
use infix_search.Base.Tests.{◌==◌, if◌then◌else◌}
use mathlib.Core.Path.{◌≡◌, refl}
use mathlib.Core.Logic.{◌≢◌}
use infix_search.Base.Lists.{drop}
use Prim.Native.Nat.{ℕ, zero, suc}
use mathlib.Core.List.{List, [], ◌∷◌, ◌++◌}
use native.Mathlib.Omega.{arith}

-- The bytes up to the first NUL, which `string(p)` copies.
unfoldable pub c_str : List ℕ → List ℕ
c_str [] = []
c_str (x ∷ xs) = let rest = c_str xs in if x == 0 then [] else x ∷ rest

-- The text holds no NUL.
abbrev pub IsText : List ℕ → Type 0
IsText [] = Unit {0}
IsText (x ∷ xs) = (x ≢ 0) × IsText xs

-- `s[i]` of a `string`, at the first position of what is left: NUL at the end.
abbrev pub first_char : List ℕ → ℕ
first_char [] = 0
first_char (x ∷ xs) = x

pub c_str-terminated : (t junk : List ℕ) → IsText t → c_str (t ++ 0 ∷ junk) ≡ t
unfolding c_str
c_str-terminated [] junk h = refl
c_str-terminated (x ∷ t) junk h = ground (arith, c_str-terminated t junk h.1)

pub c_str-text : (t : List ℕ) → IsText t → c_str t ≡ t
unfolding c_str
c_str-text [] h = refl
c_str-text (x ∷ t) h = ground (arith, c_str-text t h.1)

pub IsText-append : (s t : List ℕ) → IsText s → IsText t → IsText (s ++ t)
IsText-append [] t hs ht = ht
IsText-append (x ∷ s) t hs ht = (hs.0, IsText-append s t hs.1 ht)

pub IsText-split : (s t : List ℕ) → IsText (s ++ t) → IsText s × IsText t
IsText-split [] t h = (tt, h)
IsText-split (x ∷ s) t h = let (hs, ht) = IsText-split s t h.1 in ((h.0, hs), ht)

pub IsText-drop : (n : ℕ) (t : List ℕ) → IsText t → IsText (drop n t)
IsText-drop zero t h = h
IsText-drop (suc n) [] h = tt
IsText-drop (suc n) (x ∷ t) h = IsText-drop n t h.1
