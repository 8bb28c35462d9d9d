-- ===== src/Rows/Scans.antt =====
-- `find_in_file` prints the lines that contain the query; a row that the trie finds is one of them.
use infix_search.Base.{
  ℕ, ◌≡◌, ◌↔◌, ◌⊎◌, inl, inr, refl, sym, ap, ◌∙◌, subst, Bool, true, false, Bool-cases, ◌||◌,
  Option, none, some, List, [], ◌∷◌, ◌++◌, ◌==◌, ==_iff, and_true, append_assoc,
}
use infix_search.Base.Run.{Returns, returns}
use infix_search.Search.Down.{Has}
use infix_search.Rows.{lines, key_of, str_eq, starts_with, find, matching, find_in_file}
use infix_search.Rows.Lines.{last_row}
use infix_search.Rows.Strings.{str_eq-true}

-- The line contains the key.
abbrev pub Contains : List ℕ → List ℕ → Type 0
Contains line key = (pre : List ℕ) × (post : List ℕ) × (line ≡ pre ++ key ++ post)

StartsWith : List ℕ → List ℕ → Type 0
StartsWith line key = (post : List ℕ) × (line ≡ key ++ post)

starts_with_iff : (key line : List ℕ) → (starts_with key line ≡ true) ↔ StartsWith line key
unfolding starts_with StartsWith
starts_with_iff [] line = (λ e. (line, refl), λ s. refl)
starts_with_iff (k ∷ key) [] = (λ e. cc, λ (post, e). cc)
starts_with_iff (k ∷ key) (c ∷ line) =
    let (f, g) = starts_with_iff key line in
    (
      λ e.
          let (same, rest) = and_true (k == c) (starts_with key line) e in
          let (post, e') = f rest in (post, cc ((==_iff k c).0 same, e')),
      λ (post, e).
          let same : k ≡ c = cc e in
          let rest : line ≡ key ++ post = cc e in rw ((==_iff k c).1 same, g (post, rest)) refl,
    )

or_true : (a b : Bool) → (a || b) ≡ true → (a ≡ true) ⊎ (b ≡ true)
or_true true b e = inl refl
or_true false b e = inr e

find_iff : (key line : List ℕ) → (find key line ≡ true) ↔ Contains line key
unfolding find StartsWith
find_iff key [] =
    let (f, g) = starts_with_iff key [] in
    (λ e. let (post, e') = f e in ([], post, e'), λ (pre, post, e). at_end pre post e)
  where
    at_end : (pre post : List ℕ) → [] ≡ pre ++ key ++ post → starts_with key [] ≡ true
    at_end [] post e = (starts_with_iff key []).1 (post, e)
    at_end (x ∷ pre) post e = cc
find_iff key (c ∷ line) =
    let (f, g) = starts_with_iff key (c ∷ line) in
    (
      λ e. elim (or_true (starts_with key (c ∷ line)) (find key line) e) [
        | inl here ↦ let (post, e') = f here in ([], post, e')
        | inr later ↦
            let (pre, post, e') = (find_iff key line).0 later in (c ∷ pre, post, ap (λ u. c ∷ u) e')
      ],
      λ (pre, post, e). onward (find_iff key line).1 pre post e,
    )
  where
    onward :
        (Contains line key → find key line ≡ true)
        → (pre post : List ℕ) → c ∷ line ≡ pre ++ key ++ post
        → (starts_with key (c ∷ line) || find key line) ≡ true
    onward later [] post e = rw ((starts_with_iff key (c ∷ line)).1 (post, e)) refl
    onward later (x ∷ pre) post e =
        let found = later (pre, post, cc e) in
        elim (Bool-cases (starts_with key (c ∷ line))) [
          | inl a ↦ rw a refl
          | inr a ↦ rw (a, found) refl
        ]

matching-Has :
    (key : List ℕ) (ls : List (List ℕ)) (l : List ℕ)
    → Has l (matching key ls) ↔ (Has l ls × Contains l key)
unfolding matching
matching-Has key [] l = (λ h. absurd h, λ (h, c). absurd h)
matching-Has key (x ∷ ls) l =
    let (f, g) = matching-Has key ls l in
    elim (Bool-cases (find key x)) [
      | inl e ↦ rw e (
        λ h. elim h [
          | inl same ↦ (inl same, subst (λ u. Contains u key) (sym same) ((find_iff key x).0 e))
          | inr i ↦ let (h', c) = f i in (inr h', c)
        ],
        λ (h, c). elim h [ inl same ↦ inl same | inr i ↦ inr (g (i, c)) ],
      )
      | inr e ↦ rw e (
        λ h. let (h', c) = f h in (inr h', c),
        λ (h, c). elim h [
          | inl same ↦ absurd (cc (e, (find_iff key x).1 (subst (λ u. Contains u key) same c)))
          | inr i ↦ g (i, c)
        ],
      )
    ]

-- `find_in_file` on a file that can be opened prints the lines that contain the key, and no other.
pub find_in_file-Contains :
    (key file : List ℕ)
    → Returns
        (λ found. (l : List ℕ) → Has l found ↔ (Has l (lines file) × Contains l key))
        (find_in_file key (some file))
unfolding find_in_file
find_in_file-Contains key file = returns _ (matching-Has key (lines file))

-- The last row of a word that contains the query is printed for the query, line by line.
key_of-prefix : (l : List ℕ) → (rest : List ℕ) × (l ≡ key_of l ++ rest)
unfolding key_of
key_of-prefix [] = ([], refl)
key_of-prefix (c ∷ l) = elim (Bool-cases (c == b'\t')) [
  | inl e ↦ rw e (c ∷ l, refl)
  | inr e ↦ let (rest, e') = key_of-prefix l in rw e (rest, ap (λ u. c ∷ u) e')
]

pub line-Contains : (l key : List ℕ) → Contains (key_of l) key → Contains l key
line-Contains l key (pre, post, e) =
    let (rest, prefix) = key_of-prefix l in
    (pre, post ++ rest, prefix ∙ ap (λ u. u ++ rest) e ∙ append_assoc (pre ++ key) post rest)

some_injective : {l m : List ℕ} → some l ≡ some m → l ≡ m
some_injective e = cc

pub last_row-Has :
    (w : List ℕ) (row : Option (List ℕ)) (ls : List (List ℕ)) (l : List ℕ)
    → last_row w row ls ≡ some l
    → (row ≡ some l) ⊎ (Has l ls × (key_of l ≡ w))
unfolding last_row
last_row-Has w row [] l e = inl e
last_row-Has w row (x ∷ ls) l e = elim (Bool-cases (str_eq (key_of x) w)) [
  | inl same ↦ elim (last_row-Has w (some x) ls l (rw same at e)) [
    | inl here ↦
        let x_is = some_injective here in
        inr (inl (sym x_is), ap key_of (sym x_is) ∙ str_eq-true (key_of x) w same)
    | inr (i, k) ↦ inr (inr i, k)
  ]
  | inr other ↦ elim (last_row-Has w row ls l (rw other at e)) [
    | inl before ↦ inl before
    | inr (i, k) ↦ inr (inr i, k)
  ]
]

-- For a word that contains the query: the word's row, if the dictionary has one, is among the
-- lines that `find_in_file` prints for the query.
find_in_file-last_row :
    (key file w pre post l : List ℕ)
    → w ≡ pre ++ key ++ post
    → last_row w none (lines file) ≡ some l
    → Returns (Has l) (find_in_file key (some file))
unfolding find_in_file
find_in_file-last_row key file w pre post l e at = elim (last_row-Has w none (lines file) l at) [
  | inl before ↦ cc
  | inr (i, k) ↦
      returns _ ((matching-Has key (lines file) l).1 (i, line-Contains l key (pre, post, k ∙ e)))
]
