-- ===== src/Rows/Extract.antt =====
-- `extract_row` returns the row, and behind it what an earlier row left in `row_buffer`.
use infix_search.Base.{
  ℕ, zero, suc, ◌<◌, ◌≤◌, ◌≡◌, ◌↔◌, refl, ap, ◌∙◌, true, Option, none, some, List, [], ◌∷◌, ◌++◌,
  leb, arith, length, take, drop, length-append, append-nil,
}
use infix_search.Base.Run.{ok, Returns, returns, ◌>>=◌}
use infix_search.Base.Text.{IsText, IsText-drop, c_str}
use infix_search.Rows.{RowLookupMap, has_nul, row_of, extract_row}
use infix_search.Rows.Lines.{row_at}

c_str-append : (row rest : List ℕ) → IsText row → c_str (row ++ rest) ≡ row ++ c_str rest
unfolding c_str
c_str-append [] rest text = refl
c_str-append (x ∷ row) rest text = ground (arith, c_str-append row rest text.1)

has_nul-append : (row rest : List ℕ) → has_nul rest ≡ true → has_nul (row ++ rest) ≡ true
unfolding has_nul
has_nul-append [] rest h = h
has_nul-append (x ∷ row) rest h = ground (arith, has_nul-append row rest h)

append_cancel_left : (xs ys : List ℕ) → xs ++ ys ≡ xs → ys ≡ []
append_cancel_left [] ys e = e
append_cancel_left (x ∷ xs) ys e = append_cancel_left xs ys (ap (drop 1) e)

drop-append-less : (n : ℕ) (xs ys : List ℕ) → n ≤ length xs → drop n (xs ++ ys) ≡ drop n xs ++ ys
drop-append-less zero xs ys h = refl
drop-append-less (suc n) [] ys h = absurd (omega arith)
drop-append-less (suc n) (x ∷ xs) ys h = drop-append-less n xs ys (omega arith)

row_or : Option (List ℕ) → List ℕ
row_or none = []
row_or (some row) = row

module _ (file : List ℕ) (rows : RowLookupMap) where
  at_entry :
      (e : Option (ℕ × ℕ)) (row : List ℕ)
      → row_at file e ≡ some row
      → (offset : ℕ) × (len : ℕ) × (e ≡ some (offset, len)) × (take len (drop offset file) ≡ row)
  unfolding row_or
  at_entry none row e = absurd (grind arith)
  at_entry (some (offset, len)) row e = (offset, len, refl, ap row_or e)

  extract_row-row :
      (key row row_buffer : List ℕ)
      → row_at file (rows key) ≡ some row
      → IsText row
      → length row < length row_buffer
      → has_nul (drop (length row) row_buffer) ≡ true
      → extract_row file rows key row_buffer
        ≡ ok (row ++ c_str (drop (length row) row_buffer), row ++ drop (length row) row_buffer)
  unfolding extract_row row_of
  extract_row-row key row row_buffer at text room nul =
      let (offset, len, e, e') = at_entry (rows key) row at in
      let fits : leb (length row) (length row_buffer) ≡ true = ground arith in
      rw
        (
          e,
          e',
          fits,
          has_nul-append row (drop (length row) row_buffer) nul,
          c_str-append row (drop (length row) row_buffer) text,
        )
        refl

  -- A row without NUL that is shorter than the buffer is returned, followed by what the buffer
  -- holds behind it up to the next NUL; so it is returned exactly if the buffer holds a NUL there.
  pub extract_row-Row :
      (key row row_buffer : List ℕ)
      → row_at file (rows key) ≡ some row
      → IsText row
      → length row < length row_buffer
      → has_nul (drop (length row) row_buffer) ≡ true
      → Returns
          (λ (found, buffer).
            (found ≡ row ++ c_str (drop (length row) row_buffer))
            × (buffer ≡ row ++ drop (length row) row_buffer)
            × ((found ≡ row) ↔ (c_str (drop (length row) row_buffer) ≡ [])))
          (extract_row file rows key row_buffer)
  extract_row-Row key row row_buffer at text room nul =
      let rest = c_str (drop (length row) row_buffer) in
      rw (extract_row-row key row row_buffer at text room nul) (
        returns _ (
          refl,
          refl,
          (λ e. append_cancel_left row rest e, λ e. ap (λ u. row ++ u) e ∙ append-nil row),
        ))

  -- After a longer row, a shorter one comes back with the end of the longer one.
  pub extract_row-leftover :
      (key key' long short row_buffer : List ℕ)
      → row_at file (rows key) ≡ some long
      → row_at file (rows key') ≡ some short
      → IsText long
      → IsText short
      → length short < length long
      → length long < length row_buffer
      → has_nul (drop (length long) row_buffer) ≡ true
      → Returns
          (λ (found, _).
            found ≡ short ++ (drop (length short) long ++ c_str (drop (length long) row_buffer)))
          (extract_row file rows key row_buffer >>= λ (_, buffer).
            extract_row file rows key' buffer)
  extract_row-leftover key key' long short row_buffer at at' text text' less room nul =
      let rest = drop (length long) row_buffer in
      let left = drop-append-less (length short) long rest (omega arith) in
      let nul' : has_nul (drop (length short) (long ++ rest)) ≡ true =
        rw left (has_nul-append (drop (length short) long) rest nul) in
      rw
        (
          extract_row-row key long row_buffer at text room nul,
          extract_row-row key' short (long ++ rest) at' text'
              (omega (arith, less, length-append long rest)) nul',
        )
        (returns _ (
          ap (λ u. short ++ u)
            (ap c_str left
              ∙ c_str-append (drop (length short) long) rest
                  (IsText-drop (length short) long text))))
