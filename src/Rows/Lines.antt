-- ===== src/Rows/Lines.antt =====
-- `read_input` finds the rows: the entry of a key is the last line of the file with that key.
use infix_search.Base.{
  ℕ, ◌+◌, ◌≡◌, ◌⊎◌, inl, inr, refl, sym, ap, ◌∙◌, Bool-cases, Option, none, some, List, [], ◌∷◌,
  ◌++◌, ◌==◌, ==_iff, arith, if◌then◌else◌, length, take, drop, append_assoc, append-nil,
  length-append, drop-length,
}
use infix_search.Base.Run.{ok, Ends, ended, Ends-bind, Ends-stop, Ends-weaken, Ends-known}
use infix_search.Base.Text.{IsText}
use infix_search.Node.{Ptr}
use infix_search.Trie.{Trie, empty, add}
use infix_search.Trie.Shape.{IsTrie}
use infix_search.Trie.Add.{IsFull}
use infix_search.Trie.Words.{add-Stored}
use infix_search.Trie.Start.{start-IsTrie, start-children, add-first}
use infix_search.Rows.{begin_line, lines, key_of, str_eq, RowLookupMap, store, Loading, read_lines}

-- The text is these lines, each but the last with its newline.
abbrev pub Splits : List ℕ → List (List ℕ) → Type 0
Splits text [] = text ≡ []
Splits text (l ∷ ls) =
    ((rest : List ℕ) × (text ≡ l ++ b'\n' ∷ rest) × Splits rest ls) ⊎ ((text ≡ l) × (ls ≡ []))

begin_line-Splits :
    (c : ℕ) (cs : List ℕ) (ls : List (List ℕ)) → Splits cs ls → Splits (c ∷ cs) (begin_line c ls)
unfolding begin_line
begin_line-Splits c cs [] h = inr (ap (λ x. c ∷ x) h, refl)
begin_line-Splits c cs (l ∷ ls) (inl (rest, e, more)) = inl (rest, ap (λ x. c ∷ x) e, more)
begin_line-Splits c cs (l ∷ ls) (inr (e, e')) = inr (ap (λ x. c ∷ x) e, e')

lines-Splits : (text : List ℕ) → Splits text (lines text)
unfolding lines
lines-Splits [] = refl
lines-Splits (c ∷ cs) = elim (Bool-cases (c == b'\n')) [
  | inl e ↦ rw e (inl (cs, ap (λ x. x ∷ cs) ((==_iff c 10).0 e), lines-Splits cs))
  | inr e ↦ rw e (begin_line-Splits c cs (lines cs) (lines-Splits cs))
]

-- The last of the lines that has the key, or else `row`.
unfoldable pub last_row : List ℕ → Option (List ℕ) → List (List ℕ) → Option (List ℕ)
last_row key row [] = row
last_row key row (l ∷ ls) = last_row key (if str_eq (key_of l) key then some l else row) ls

-- What `file` holds at an entry of `row_lookup_map`.
abbrev pub row_at : List ℕ → Option (ℕ × ℕ) → Option (List ℕ)
row_at file none = none
row_at file (some (offset, len)) = some (take len (drop offset file))

take-length : (xs ys : List ℕ) → take (length xs) (xs ++ ys) ≡ xs
take-length [] ys = refl
take-length (x ∷ xs) ys = ap (λ u. x ∷ u) (take-length xs ys)

-- A `search_t` that was constructed, or has words.
abbrev pub Ready : Trie → Type 0
Ready s = (s ≡ empty) ⊎ ((h : Ptr) × IsTrie s h)

add-Ready : (key : List ℕ) (s : Trie) → IsText key → Ready s → Ends Ready (IsFull s) (add key s)
add-Ready key s text (inl e) =
    rw (e, (add-first key).0)
      (Ends-stop (Ends-weaken (add-Stored key start-IsTrie text) (λ s' p. inr (0, p.0)))
        (λ (h, w, p, _, _, full). absurd (omega (arith, full, ap length (start-children p)))))
add-Ready key s text (inr (h, inv)) = Ends-weaken (add-Stored key inv text) (λ s' p. inr (h, p.0))

abbrev pub KeysAreTexts : List (List ℕ) → Type 0
KeysAreTexts [] = Unit
KeysAreTexts (l ∷ ls) = IsText (key_of l) × KeysAreTexts ls

-- Some lines before the last one lead to a trie with a node that has 126 children.
abbrev pub FullAt : List (List ℕ) → Loading → Type 0
FullAt ls x =
    (before : List (List ℕ)) × (l : List ℕ) × (after : List (List ℕ)) × (y : Loading) × (ls
      ≡ before ++ l ∷ after)
    × (read_lines before x ≡ ok y)
    × IsFull y.trie

module _ (file : List ℕ) where
  -- `pos` stands at the first of the lines.
  abbrev At : List (List ℕ) → ℕ → Type 0
  At [] pos = Unit
  At (l ∷ ls) pos =
      (done : List ℕ) × (text : List ℕ) × Splits text (l ∷ ls)
      × (file ≡ done ++ text)
      × (pos ≡ length done)

  next_At :
      (l : List ℕ) (ls : List (List ℕ)) (pos : ℕ) → At (l ∷ ls) pos → At ls (pos + length l + 1)
  next_At l [] pos at = tt
  next_At l (l' ∷ ls) pos (done, text, inl (rest, e, more), e', e'') = (
    done ++ (l ++ b'\n' ∷ []),
    rest,
    more,
    e'
        ∙ ap (λ u. done ++ u) (e ∙ sym (append_assoc l (b'\n' ∷ []) rest))
        ∙ sym (append_assoc done (l ++ b'\n' ∷ []) rest),
    omega (arith, e'', length-append done (l ++ b'\n' ∷ []), length-append l (b'\n' ∷ [])),
  )
  next_At l (l' ∷ ls) pos (done, text, inr (e, e3), e', e'') = absurd (omega (arith, ap length e3))

  row_here :
      (l : List ℕ) (ls : List (List ℕ)) (pos : ℕ)
      → At (l ∷ ls) pos
      → take (length l) (drop pos file) ≡ l
  row_here l ls pos (done, text, inl (rest, e, more), e', e'') =
      rw (e', e, e'', drop-length done (l ++ b'\n' ∷ rest)) (take-length l (b'\n' ∷ rest))
  row_here l ls pos (done, text, inr (e, e3), e', e'') =
      rw (e', e, e'', drop-length done l)
        (ap (take (length l)) (sym (append-nil l)) ∙ take-length l [])

  -- The entries are the last rows of their keys.
  abbrev AreLast : (List ℕ → Option (List ℕ)) → RowLookupMap → Type 0
  AreLast seen rows = (key : List ℕ) → row_at file (rows key) ≡ seen key

  store-AreLast :
      (l : List ℕ) (pos : ℕ) (seen : List ℕ → Option (List ℕ)) (rows : RowLookupMap)
      → take (length l) (drop pos file) ≡ l
      → AreLast seen rows
      → AreLast
          (λ key. if str_eq (key_of l) key then some l else seen key)
          (store (key_of l) (pos, length l) rows)
  unfolding store
  store-AreLast l pos seen rows here last key = elim (Bool-cases (str_eq (key_of l) key)) [
    | inl e ↦ rw e (ap some here)
    | inr e ↦ rw e (last key)
  ]

  read_lines-AreLast :
      (ls : List (List ℕ)) (x : Loading) (seen : List ℕ → Option (List ℕ))
      → At ls x.pos
      → AreLast seen x.rows
      → Ready x.trie
      → KeysAreTexts ls
      → Ends
          (λ y. AreLast (λ key. last_row key (seen key) ls) y.rows × Ready y.trie)
          (FullAt ls x)
          (read_lines ls x)
  unfolding read_lines last_row
  read_lines-AreLast [] x seen at last ready texts = ended x (last, ready)
  read_lines-AreLast (l ∷ ls) x seen at last ready texts =
      Ends-bind
        (Ends-stop (Ends-known (add-Ready (key_of l) x.trie texts.0 ready))
          (λ full. ([], l, ls, x, refl, refl, full)))
        λ trie (ready', e).
          Ends-stop
            (read_lines-AreLast ls _ (λ key. if str_eq (key_of l) key then some l else seen key)
              (next_At l ls x.pos at)
              (store-AreLast l x.pos seen x.rows (row_here l ls x.pos at) last) ready' texts.1)
            (λ (before, l', after, y, e', e'', full).
              (l ∷ before, l', after, y, ap (λ u. l ∷ u) e', rw e e'', full))

  first_At : (ls : List (List ℕ)) → Splits file ls → At ls 0
  first_At [] splits = tt
  first_At (l ∷ ls) splits = ([], file, splits, refl, refl)

  -- `read_input` on a well-formed or new trie, without entries before: the entry of a key is the
  -- offset and length of the last line of the file that has the key, and there is none for other
  -- keys. The loop exits only at a line before which a node of the trie has 126 children.
  pub read_lines-last_row :
      (s : Trie)
      → Ready s
      → KeysAreTexts (lines file)
      → Ends
          (λ y.
            ((key : List ℕ) → row_at file (y.rows key) ≡ last_row key none (lines file))
            × Ready y.trie)
          (FullAt (lines file) (record { trie = s; rows = λ key. none; pos = 0 }))
          (read_lines (lines file) (record { trie = s; rows = λ key. none; pos = 0 }))
  read_lines-last_row s ready texts =
      read_lines-AreLast (lines file) _ (λ key. none) (first_At (lines file) (lines-Splits file))
        (λ key. refl) ready texts
