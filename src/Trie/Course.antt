-- ===== src/Trie/Course.antt =====
-- Where the walk of `add` stays on course, so that the tails it follows spell the word.
use mathlib.Core.List.{append_cancel_left}
use infix_search.Base.{
  ℕ, zero, suc, ◌<◌, ◌≡◌, ◌≢◌, refl, sym, ap, ◌∙◌, Bool, true, false, List, [], ◌∷◌, ◌++◌, inl, inr,
  arith, length, subst, is_empty, Bool-cases, Option-cases, append_assoc, append-nil, if◌then◌else◌,
  ◌&&◌,
}
use infix_search.Base.Text.{IsText, IsText-split, first_char}
use infix_search.Node
use infix_search.Node.{Ptr, Node, blank}
use infix_search.Trie.{Trie, Matched, match_tail, val_of}
use infix_search.Trie.Shape.{tail_at, IsTrie, Spells, at_child}
use infix_search.Trie.Matching.{Compares, match_tail-Compares, front-first}
use infix_search.Trie.Add.{stored_as, diverts, follow, ne-nil}

-- Where the tail was not matched to its end, what is stored differs from the word.
off_course :
    (front back left onward : List ℕ)
    → back ≢ []
    → first_char back ≢ first_char left
    → (front ++ back) ++ onward ≢ front ++ left
off_course front [] left onward ne differ e = ne refl
off_course front (x ∷ back) left onward ne differ e = differ (
    ap first_char (
      append_cancel_left front (x ∷ back ++ onward) left
        (sym (append_assoc front (x ∷ back) onward) ∙ e)))

-- Whether the search for a word's place stays on course says whether it stores the word.
abbrev pub OnCourse : List ℕ → List ℕ → Bool → Type 0
OnCourse stored word diverted =
    (diverted ≡ false → stored ≡ word) × (diverted ≡ true → stored ≢ word)

both_empty : (a b : List ℕ) → (is_empty a && is_empty b) ≡ true → (a ≡ []) × (b ≡ [])
both_empty [] [] e = (refl, refl)
both_empty [] (x ∷ b) e = cc
both_empty (x ∷ a) b e = cc

matched :
    (tail word : List ℕ) (m : Matched)
    → Compares tail word m
    → (m.word_left ≡ []) × (m.tail_left ≡ [])
    → tail ≡ word
matched tail word m c (w, t) = c.tail_eq ∙ ap (λ u. m.front ++ u) (t ∙ sym w) ∙ sym c.word_eq

OnCourse-follow :
    (front back left onward tail word : List ℕ) (d : Bool)
    → tail ≡ front ++ back
    → word ≡ front ++ left
    → (back ≢ [] → first_char back ≢ first_char left)
    → OnCourse onward left d
    → OnCourse (tail ++ onward) word (if is_empty back then d else true)
OnCourse-follow front [] left onward tail word d te we differ ih =
    let te' : tail ≡ front = te ∙ append-nil front in
    (
      λ e. ap (λ u. u ++ onward) te' ∙ ap (λ u. front ++ u) (ih.0 e) ∙ sym we,
      λ e a.
          ih.1 e (append_cancel_left front onward left (sym (ap (λ u. u ++ onward) te') ∙ a ∙ we)),
    )
OnCourse-follow front (x ∷ back) left onward tail word d te we differ ih = (
  λ e. cc,
  λ e a.
      off_course front (x ∷ back) left onward (λ n. cc) (differ (λ n. cc))
        (sym (ap (λ u. u ++ onward) te) ∙ a ∙ we),
)

module _ {s : Trie} {h : Ptr} (inv : IsTrie s h) where
  ends_here : (t : Ptr) → first_char (tail_at s t) ≡ 0 → tail_at s t ≡ []
  ends_here t e = nul_first (tail_at s t) (inv.texts t) e
    where
      nul_first : (u : List ℕ) → IsText u → first_char u ≡ 0 → u ≡ []
      nul_first [] text e = refl
      nul_first (x ∷ u) text e = absurd (text.0 e)

  pub on_course :
      (fuel : ℕ) (t : Ptr) (lead rest : List ℕ)
      → Spells s h (lead ++ tail_at s t) t
      → IsText rest
      → first_char (tail_at s t) ≡ first_char rest
      → length rest < fuel
      → OnCourse (stored_as s fuel t rest) rest (diverts s fuel t rest)
  unfolding stored_as diverts
  on_course zero t lead rest here text first room = absurd (omega arith)
  on_course (suc fuel) t lead [] here text first room = (λ _. ends_here t first, λ e. cc)
  on_course (suc fuel) t lead (x ∷ rest) here text first room =
      let m = match_tail (tail_at s t) (x ∷ rest) in
      let c = match_tail-Compares (tail_at s t) (x ∷ rest) (inv.texts t) in
      let filled = ne-nil (tail_at s t) (λ e. text.0 (sym first ∙ e)) in
      let (shorter, same_first) = front-first (tail_at s t) (x ∷ rest) filled (λ e. cc) first in
      let (_, left_text) = IsText-split m.front m.word_left (subst IsText c.word_eq text) in
      elim (Bool-cases (is_empty m.word_left && is_empty m.tail_left)) [
        | inl both ↦ rw both (
          λ _. matched (tail_at s t) (x ∷ rest) m c (both_empty m.word_left m.tail_left both),
          λ e. cc,
        )
        | inr some_left ↦
            rw some_left
              (elim (Option-cases
                (Node.get_child (val_of s) (first_char m.word_left) (s.nodes t))) [
                  | inl none_there ↦ rw none_there (λ _. sym c.word_eq, λ e. cc)
                  | inr (child, there) ↦
                      let (below, first') =
                        follow inv lead rest t child (first_char m.word_left) here there in
                      let ih =
                        on_course fuel child (lead ++ tail_at s t) m.word_left
                          (at_child here below refl) left_text first' (omega arith) in
                      rw there (
                        OnCourse-follow m.front m.tail_left m.word_left _ (tail_at s t) (x ∷ rest) _
                          c.tail_eq c.word_eq c.differ ih)
                ])
      ]
