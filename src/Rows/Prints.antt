-- ===== src/Rows/Prints.antt =====
-- `extract_row` again and again, into one row buffer.
use infix_search.Base.{
  ℕ, zero, suc, ◌<◌, ◌≡◌, refl, sym, ap, ◌∙◌, subst, true, Bool-cases, Option, none, some,
  Option-cases, List, [], ◌∷◌, ◌++◌, ◌==◌, inl, inr, length, take, drop, arith,
}
use infix_search.Base.Run.{Returns, returns, weaken}
use infix_search.Base.Text.{IsText}
use infix_search.Rows.{lines, key_of, str_eq, not_found, has_nul, row_of, extract_row}
use infix_search.Rows.Lines.{KeysAreTexts, row_at, last_row}
use infix_search.Rows.Extract.{extract_row-Row}

-- Lines without NUL that are shorter than the buffer.
abbrev pub AreRows : ℕ → List (List ℕ) → Type 0
AreRows n [] = Unit
AreRows n (l ∷ ls) = IsText l × (length l < n) × AreRows n ls

abbrev pub EndsInNul : List ℕ → Type 0
EndsInNul [] = ⊥
EndsInNul (b ∷ []) = b ≡ 0
EndsInNul (b ∷ b' ∷ buffer) = EndsInNul (b' ∷ buffer)

EndsInNul-cons : (b : ℕ) (buffer : List ℕ) → EndsInNul buffer → EndsInNul (b ∷ buffer)
EndsInNul-cons b [] nul = absurd nul
EndsInNul-cons b (b' ∷ buffer) nul = nul

EndsInNul-has_nul :
    (k : ℕ) (buffer : List ℕ)
    → k < length buffer
    → EndsInNul buffer
    → has_nul (drop k buffer) ≡ true
unfolding has_nul
EndsInNul-has_nul k [] less nul = absurd nul
EndsInNul-has_nul zero (b ∷ []) less nul = ground arith
EndsInNul-has_nul (suc k) (b ∷ []) less nul = absurd (omega arith)
EndsInNul-has_nul zero (b ∷ b' ∷ buffer) less nul =
    ground (arith, EndsInNul-has_nul zero (b' ∷ buffer) (omega arith) nul)
EndsInNul-has_nul (suc k) (b ∷ b' ∷ buffer) less nul =
    EndsInNul-has_nul k (b' ∷ buffer) (omega arith) nul

-- The buffer after a row was read into it.
overlay :
    (row buffer : List ℕ)
    → length row < length buffer
    → EndsInNul buffer
    → EndsInNul (row ++ drop (length row) buffer)
      × (length (row ++ drop (length row) buffer) ≡ length buffer)
overlay [] buffer less nul = (nul, refl)
overlay (x ∷ row) [] less nul = absurd nul
overlay (x ∷ row) (b ∷ []) less nul = absurd (omega arith)
overlay (x ∷ row) (b ∷ b' ∷ buffer) less nul =
    let (nul', same) = overlay row (b' ∷ buffer) (omega arith) nul in
    (EndsInNul-cons x (row ++ drop (length row) (b' ∷ buffer)) nul', ap suc same)

key_of-IsText : (l : List ℕ) → IsText l → IsText (key_of l)
unfolding key_of
key_of-IsText [] text = tt
key_of-IsText (c ∷ l) text = elim (Bool-cases (c == b'\t')) [
  | inl e ↦ rw e tt
  | inr e ↦ rw e (text.0, key_of-IsText l text.1)
]

pub AreRows-KeysAreTexts : (n : ℕ) (ls : List (List ℕ)) → AreRows n ls → KeysAreTexts ls
AreRows-KeysAreTexts n [] rows = tt
AreRows-KeysAreTexts n (l ∷ ls) (text, less, rows) =
    (key_of-IsText l text, AreRows-KeysAreTexts n ls rows)

-- The row, if there is one, is such a line.
abbrev IsRow : ℕ → Option (List ℕ) → Type 0
IsRow n none = Unit
IsRow n (some l) = IsText l × (length l < n)

IsRow-last_row :
    (n : ℕ) (key : List ℕ) (row : Option (List ℕ)) (ls : List (List ℕ))
    → IsRow n row
    → AreRows n ls
    → IsRow n (last_row key row ls)
unfolding last_row
IsRow-last_row n key row [] is rows = is
IsRow-last_row n key row (l ∷ ls) is (text, less, rows) =
    elim (Bool-cases (str_eq (key_of l) key)) [
      | inl e ↦ rw e (IsRow-last_row n key (some l) ls (text, less) rows)
      | inr e ↦ rw e (IsRow-last_row n key row ls is rows)
    ]

-- What is printed as the row: the last line with the key, perhaps with more behind it.
abbrev pub Prints : Option (List ℕ) → List ℕ → Type 0
Prints none row = row ≡ not_found
Prints (some l) row = (rest : List ℕ) × (row ≡ l ++ rest)

abbrev pub IsBuffer : ℕ → List ℕ → Type 0
IsBuffer n buffer = (length buffer ≡ n) × EndsInNul buffer

module _ (file : List ℕ) (rows : List ℕ → Option (ℕ × ℕ)) (n : ℕ) (are : AreRows n (lines file))
    (last : (key : List ℕ) → row_at file (rows key) ≡ last_row key none (lines file)) where
  pub extract_row-Prints :
      (w buffer : List ℕ)
      → IsBuffer n buffer
      → Returns
          (λ (row, buffer'). Prints (last_row w none (lines file)) row × IsBuffer n buffer')
          (extract_row file rows w buffer)
  unfolding extract_row row_of
  extract_row-Prints w buffer (same, nul) = elim (Option-cases (rows w)) [
    | inl e ↦ rw (e, sym (last w) ∙ ap (row_at file) e) (returns _ (refl, (same, nul)))
    | inr (entry, e) ↦
        let l = take entry.1 (drop entry.0 file) in
        let at : row_at file (rows w) ≡ some l = ap (row_at file) e in
        let is_last : last_row w none (lines file) ≡ some l = sym (last w) ∙ at in
        let (text, less) = subst (IsRow n) is_last (IsRow-last_row n w none (lines file) tt are) in
        let (nul', same') = overlay l buffer (omega arith) nul in
        weaken
          (extract_row-Row file rows w l buffer at text (omega arith)
            (EndsInNul-has_nul (length l) buffer (omega arith) nul))
          λ (row, buffer') (found, is, _). (
            subst (λ o. Prints o row) (sym is_last) (_, found),
            subst (IsBuffer n) (sym is) (same' ∙ same, nul'),
          )
  ]
