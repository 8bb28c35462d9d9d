-- ===== src/Rows/Strings.antt =====
-- `==` of two strings is equality.
use infix_search.Base.{and_true, ℕ, ◌≡◌, refl, ap, ◌∙◌, true, List, [], ◌∷◌, ◌==◌, ==_iff, arith}
use infix_search.Rows.{str_eq}

pub str_eq_self : (s : List ℕ) → str_eq s s ≡ true
unfolding str_eq
str_eq_self [] = refl
str_eq_self (x ∷ s) = ground (arith, str_eq_self s)

pub str_eq-true : (s t : List ℕ) → str_eq s t ≡ true → s ≡ t
unfolding str_eq
str_eq-true [] [] e = refl
str_eq-true [] (y ∷ t) e = absurd (grind arith)
str_eq-true (x ∷ s) [] e = absurd (grind arith)
str_eq-true (x ∷ s) (y ∷ t) e =
    let (same, rest) = and_true (x == y) (str_eq s t) e in
    ap (λ u. u ∷ s) ((==_iff x y).0 same) ∙ ap (λ u. y ∷ u) (str_eq-true s t rest)
