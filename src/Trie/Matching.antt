-- ===== src/Trie/Matching.antt =====
-- The inner loop of `add`, which compares a tail with the word.
use infix_search.Base.{
  ℕ, ◌≡◌, ◌≢◌, refl, List, [], ◌∷◌, ◌++◌, arith, length, ap, inl, inr, Bool-cases, ◌==◌, ◌<◌, ◌≤◌,
  ==_iff, subst,
}
use infix_search.Base.Text.{IsText, first_char}
use infix_search.Trie.{Matched, match_tail}

-- The front is common, and what is left begins with different characters.
pub record Compares (tail word : List ℕ) (m : Matched) : Type 0 where
  pub tail_eq : tail ≡ m.front ++ m.tail_left
  pub word_eq : word ≡ m.front ++ m.word_left
  pub differ : m.tail_left ≢ [] → first_char m.tail_left ≢ first_char m.word_left

Compares-cons :
    (x : ℕ) (t w : List ℕ) (m : Matched)
    → Compares t w m
    → Compares (x ∷ t) (x ∷ w) (record m { front = x ∷ m.front })
Compares-cons x t w m c = record {
  tail_eq = ap (λ u. x ∷ u) c.tail_eq;
  word_eq = ap (λ u. x ∷ u) c.word_eq;
  differ = c.differ;
}

pub match_tail-Compares : (t w : List ℕ) → IsText t → Compares t w (match_tail t w)
unfolding match_tail
match_tail-Compares [] w text = record {
  tail_eq = refl;
  word_eq = refl;
  differ = λ ne. absurd (ne refl);
}
match_tail-Compares (x ∷ t) [] text = record {
  tail_eq = refl;
  word_eq = refl;
  differ = λ _. text.0;
}
match_tail-Compares (x ∷ t) (y ∷ w) text = elim (Bool-cases (x == y)) [
  | inl hit ↦ rw hit (
      subst
        (λ z.
          Compares (x ∷ t) (z ∷ w) (record (match_tail t w) { front = x ∷ (match_tail t w).front }))
        ((==_iff x y).0 hit)
        (Compares-cons x t w (match_tail t w) (match_tail-Compares t w text.1)))
  | inr miss ↦
      rw miss
        (record { tail_eq = refl; word_eq = refl; differ = λ _ e. cc ((==_iff x y).1 e, miss) })
]

length-word_left : (t w : List ℕ) → length (match_tail t w).word_left ≤ length w
unfolding match_tail
length-word_left [] w = omega arith
length-word_left (x ∷ t) [] = omega arith
length-word_left (x ∷ t) (y ∷ w) = ground (arith, length-word_left t w)

-- A tail and a word that begin with the same character have a front, which begins with it too.
pub front-first :
    (t w : List ℕ)
    → t ≢ []
    → w ≢ []
    → first_char t ≡ first_char w
    → (length (match_tail t w).word_left < length w)
      × (first_char (match_tail t w).front ≡ first_char t)
unfolding match_tail
front-first [] w nt nw e = absurd (nt refl)
front-first (x ∷ t) [] nt nw e = absurd (nw refl)
front-first (x ∷ t) (y ∷ w) nt nw e = ground (arith, length-word_left t w)
