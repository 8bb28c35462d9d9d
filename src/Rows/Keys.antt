-- ===== src/Rows/Keys.antt =====
-- The words of a dictionary's trie are its keys, where `add` loses none of them.
use infix_search.Base.{
  ℕ, ◌<◌, ◌≡◌, ◌≢◌, ◌↔◌, ◌⊎◌, inl, inr, refl, sym, ap, ◌∙◌, subst, false, none, some, List, [], ◌∷◌,
  ◌++◌, true, map, length, arith, Option, Bool-cases,
}
use infix_search.Base.Run.{ok, Ends-result, ok-injective}
use infix_search.Trie.{Trie, empty, ensure_head, add}
use infix_search.Trie.Shape.{IsTrie, Stored}
use infix_search.Trie.Words.{starred, diverted, ensure_head-some, add-inserts}
use infix_search.Trie.Start.{start, add-first}
use infix_search.Search.Down.{Has}
use infix_search.Search.Built.{HasShortWords}
use infix_search.Search.Answered.{IsAnswered}
use infix_search.Rows.{key_of, str_eq, Loading, read_lines}
use infix_search.Rows.Lines.{KeysAreTexts, last_row}
use infix_search.Rows.Strings.{str_eq_self}
use infix_search.Rows.Input.{unread, bind-ok}
use infix_search.Rows.Scans.{Contains, last_row-Has}

abbrev pub keys_of : List (List ℕ) → List (List ℕ)
keys_of ls = map key_of ls

-- `add` finds the place of each line's key without following a child in the middle of a tail, from
-- the trie `s` on.
abbrev pub IsUndiverted : List (List ℕ) → Trie → Type 0
IsUndiverted [] s = Unit
IsUndiverted (l ∷ ls) s =
    (diverted (ensure_head s).0 0 (key_of l) ≡ false)
    × ((s' : Trie) → add (key_of l) s ≡ ok s' → IsUndiverted ls s')

-- The words are these keys.
abbrev IsKey : List (List ℕ) → List ℕ → Type 0
IsKey keys w = (u : List ℕ) × Has u keys × (w ≡ starred u)

read_lines-IsKey :
    (ls : List (List ℕ)) (x y : Loading)
    → IsTrie x.trie 0
    → KeysAreTexts ls
    → IsUndiverted ls x.trie
    → read_lines ls x ≡ ok y
    → (w : List ℕ) → Stored y.trie 0 w ↔ (Stored x.trie 0 w ⊎ IsKey (keys_of ls) w)
unfolding read_lines
read_lines-IsKey [] x y inv texts fine e w =
    let same : x ≡ y = ok-injective e in
    (
      λ stored. inl (subst (λ z. Stored z.trie 0 w) (sym same) stored),
      λ h. elim h [
        | inl stored ↦ subst (λ z. Stored z.trie 0 w) same stored
        | inr (u, has, _) ↦ absurd has
      ],
    )
read_lines-IsKey (l ∷ ls) x y inv texts fine e w =
    let (trie, added, rest) = bind-ok (add (key_of l) x.trie) _ e in
    let straight =
      subst (λ s. diverted s 0 (key_of l) ≡ false)
        (ap (λ z. z.0) (ensure_head-some x.trie 0 inv.head)) fine.0 in
    let (inv', words) = Ends-result (add-inserts (key_of l) inv texts.0 straight) trie added in
    let (f, g) = read_lines-IsKey ls _ y inv' texts.1 (fine.1 trie added) rest w in
    (
      λ stored. elim (f stored) [
        | inl mid ↦ elim ((words w).0 mid) [
          | inl old ↦ inl old
          | inr this ↦ inr (key_of l, inl refl, this)
        ]
        | inr (u, has, e') ↦ inr (u, inr has, e')
      ],
      λ h. elim h [
        | inl old ↦ g (inl ((words w).1 (inl old)))
        | inr (u, inl this, e') ↦ g (inl ((words w).1 (inr (e' ∙ ap starred this))))
        | inr (u, inr has, e') ↦ g (inr (u, has, e'))
      ],
    )

-- Each key has less than 100 characters.
abbrev pub AreShort : List (List ℕ) → Type 0
AreShort [] = Unit
AreShort (l ∷ ls) = (length (key_of l) < 100) × AreShort ls

Has-short : (ls : List (List ℕ)) (u : List ℕ) → AreShort ls → Has u (keys_of ls) → length u < 100
Has-short [] u short has = absurd has
Has-short (l ∷ ls) u short (inl e) = rw e short.0
Has-short (l ∷ ls) u short (inr has) = Has-short ls u short.1 has

last_row-stays :
    (u r : List ℕ) (ls : List (List ℕ)) → (l : List ℕ) × (last_row u (some r) ls ≡ some l)
unfolding last_row
last_row-stays u r [] = (r, refl)
last_row-stays u r (x ∷ ls) = elim (Bool-cases (str_eq (key_of x) u)) [
  | inl e ↦ rw e (last_row-stays u x ls)
  | inr e ↦ rw e (last_row-stays u r ls)
]

last_row-found :
    (u : List ℕ) (ls : List (List ℕ)) (row : Option (List ℕ))
    → Has u (keys_of ls)
    → (l : List ℕ) × (last_row u row ls ≡ some l)
unfolding last_row
last_row-found u [] row has = absurd has
last_row-found u (x ∷ ls) row (inl e) =
    let same : str_eq (key_of x) u ≡ true = subst (λ v. str_eq v u ≡ true) e (str_eq_self u) in
    rw same (last_row-stays u x ls)
last_row-found u (x ∷ ls) row (inr has) = last_row-found u ls _ has

-- One of the lines is the last row with this key.
abbrev HasRow : List (List ℕ) → List ℕ → Type 0
HasRow ls u = (l : List ℕ) × Has l ls × (key_of l ≡ u) × (last_row u none ls ≡ some l)

Has-HasRow : (u : List ℕ) (ls : List (List ℕ)) → Has u (keys_of ls) → HasRow ls u
Has-HasRow u ls has =
    let (l, found) = last_row-found u ls none has in
    elim (last_row-Has u none ls l found) [ inl before ↦ cc | inr (i, k) ↦ (l, i, k, found) ]

-- A key that ends with the query is longer than it, and no key goes on behind it.
abbrev pub EndsKeys : List (List ℕ) → List ℕ → Type 0
EndsKeys ls key =
    (pre : List ℕ)
    → Has (pre ++ key) (keys_of ls)
    → (pre ≢ []) × ((post : List ℕ) → Has (pre ++ (key ++ post)) (keys_of ls) → post ≡ [])

-- The words contain the query and are keys of the lines, which have a row. They are all such keys,
-- if the query has two characters, is no key and ends no key that another begins with.
abbrev pub IsLookup : List (List ℕ) → List ℕ → List (List ℕ) → Type 0
IsLookup ls key ws =
    ((u : List ℕ) → Has u ws → HasRow ls u × Contains u key)
    × ((1 < length key) × EndsKeys ls key
        → (u : List ℕ) → Has u (keys_of ls)
        → Contains u key
        → Has u ws)

starred-injective : {u v : List ℕ} → starred u ≡ starred v → u ≡ v
starred-injective e = cc

from_empty :
    (l : List ℕ) (ls : List (List ℕ)) (y : Loading)
    → read_lines (l ∷ ls) unread ≡ ok y
    → read_lines (l ∷ ls) (record unread { trie = start }) ≡ ok y
unfolding read_lines
from_empty l ls y e = rw (add-first (key_of l)).0 at e

IsUndiverted-start :
    (l : List ℕ) (ls : List (List ℕ)) → IsUndiverted (l ∷ ls) empty → IsUndiverted (l ∷ ls) start
unfolding ensure_head
IsUndiverted-start l ls (here, later) = (here, λ s' e. later s' ((add-first (key_of l)).0 ∙ e))

module _ (y : Loading) where
  pub words-keys :
      (ls : List (List ℕ))
      → ls ≢ []
      → KeysAreTexts ls
      → IsUndiverted ls empty
      → read_lines ls unread ≡ ok y
      → (w : List ℕ) → Stored y.trie 0 w ↔ IsKey (keys_of ls) w
  words-keys [] some_line texts fine e w = absurd (some_line refl)
  words-keys (l ∷ ls) some_line texts fine e w =
      let (first, start_inv, none_stored) = add-first (key_of l) in
      let (f, g) =
        read_lines-IsKey (l ∷ ls) (record unread { trie = start }) y start_inv texts
          (IsUndiverted-start l ls fine) (from_empty l ls y e) w in
      (
        λ stored. elim (f stored) [ inl old ↦ absurd (none_stored w old) | inr key ↦ key ],
        λ key. g (inr key),
      )

module _ (ls : List (List ℕ)) (some_line : ls ≢ []) (texts : KeysAreTexts ls)
    (fine : IsUndiverted ls empty) (y : Loading) (e : read_lines ls unread ≡ ok y) where
  pub read_lines-HasShortWords : AreShort ls → HasShortWords y.trie 0
  read_lines-HasShortWords short w stored =
      let (u, has, e') = (words-keys y ls some_line texts fine e w).0 stored in
      rw e' (omega (arith, Has-short ls u short has))

  Stored-Has : (u : List ℕ) → Stored y.trie 0 (starred u) → Has u (keys_of ls)
  Stored-Has u stored =
      let (v, has, e') = (words-keys y ls some_line texts fine e (starred u)).0 stored in
      subst (λ x. Has x (keys_of ls)) (sym (starred-injective e')) has

  Has-Stored : (u : List ℕ) → Has u (keys_of ls) → Stored y.trie 0 (starred u)
  Has-Stored u has = (words-keys y ls some_line texts fine e (starred u)).1 (u, has, refl)

  pub IsAnswered-IsLookup :
      (key : List ℕ) (ws : List (List ℕ)) → IsAnswered y.trie 0 key ws → IsLookup ls key ws
  IsAnswered-IsLookup key ws (sound, full) = (
    λ u has. let (stored, parts) = sound u has in (Has-HasRow u ls (Stored-Has u stored), parts),
    λ (long, alone) u has parts.
        full
          (
            long,
            λ pre ends.
                let (longer, last) = alone pre (Stored-Has (pre ++ key) ends) in
                (longer, λ post on. last post (Stored-Has (pre ++ (key ++ post)) on)),
          )
          u (Has-Stored u has, parts),
  )
