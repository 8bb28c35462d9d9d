-- ===== src/Rows/Printable.antt =====
-- Where the keys are made of printable characters, no node of the trie is ever full.
use infix_search.Base.{
  ℕ, ◌≡◌, ◌≢◌, inl, inr, sym, ap, ◌∙◌, subst, none, some, List, [], ◌∷◌, ◌++◌, arith, length,
}
use infix_search.Base.Run.{ok, ok-injective}
use infix_search.Node.{Ptr}
use infix_search.Trie.{Trie, empty}
use infix_search.Trie.Shape.{children_at, Spells}
use infix_search.Search.Down.{Has}
use infix_search.Search.Built.{IsBuilt-IsSearchable}
use infix_search.Search.Width.{IsPrintable, children-le}
use infix_search.Rows.{key_of, Loading, read_lines}
use infix_search.Rows.Lines.{KeysAreTexts, FullAt}
use infix_search.Rows.Input.{unread, first-IsBuilt}
use infix_search.Rows.Keys.{keys_of, IsUndiverted, words-keys}

abbrev pub ArePrintable : List (List ℕ) → Type 0
ArePrintable [] = Unit
ArePrintable (l ∷ ls) = IsPrintable (key_of l) × ArePrintable ls

KeysAreTexts-front : (ls rest : List (List ℕ)) → KeysAreTexts (ls ++ rest) → KeysAreTexts ls
KeysAreTexts-front [] rest h = tt
KeysAreTexts-front (l ∷ ls) rest (h, hs) = (h, KeysAreTexts-front ls rest hs)

ArePrintable-front : (ls rest : List (List ℕ)) → ArePrintable (ls ++ rest) → ArePrintable ls
ArePrintable-front [] rest h = tt
ArePrintable-front (l ∷ ls) rest (h, hs) = (h, ArePrintable-front ls rest hs)

IsUndiverted-front :
    (ls rest : List (List ℕ)) (s : Trie) → IsUndiverted (ls ++ rest) s → IsUndiverted ls s
IsUndiverted-front [] rest s h = tt
IsUndiverted-front (l ∷ ls) rest s (h, hs) = (h, λ s' e. IsUndiverted-front ls rest s' (hs s' e))

Has-IsPrintable :
    (ls : List (List ℕ)) (u : List ℕ) → ArePrintable ls → Has u (keys_of ls) → IsPrintable u
Has-IsPrintable [] u are has = absurd has
Has-IsPrintable (l ∷ ls) u (h, hs) (inl e) = subst IsPrintable (sym e) h
Has-IsPrintable (l ∷ ls) u (h, hs) (inr has) = Has-IsPrintable ls u hs has

some_injective : {p q : Ptr} → some p ≡ some q → p ≡ q
some_injective e = cc

none-some : {p : Ptr} → none ≡ some p → ⊥
none-some e = cc

not_full :
    (ls : List (List ℕ)) (y : Loading) (h p : Ptr) (w : List ℕ)
    → KeysAreTexts ls
    → IsUndiverted ls empty
    → ArePrintable ls
    → read_lines ls unread ≡ ok y
    → y.trie.head ≡ some h
    → Spells y.trie h w p
    → length (children_at y.trie p) ≢ 126
unfolding read_lines
not_full [] y h p w texts fine printable e head path full =
    absurd (none-some (ap (λ z. z.trie.head) (ok-injective e) ∙ head))
not_full (l ∷ ls) y h p w texts fine printable e head path full =
    let search = IsBuilt-IsSearchable (first-IsBuilt (l ∷ ls) y (λ e'. cc) texts e) in
    let path' =
      subst (λ x. Spells y.trie x w p) (some_injective (sym head ∙ search.inv.head)) path in
    let le =
      children-le search
        (λ v stored.
          let (u, has, e') = (words-keys y (l ∷ ls) (λ e'. cc) texts fine e v).0 stored in
          subst IsPrintable (sym e')
            (omega arith, omega arith, Has-IsPrintable (l ∷ ls) u printable has))
        w p path' in
    omega (arith, le, full)

pub never-FullAt :
    (ls : List (List ℕ))
    → KeysAreTexts ls
    → IsUndiverted ls empty
    → ArePrintable ls
    → ¬ FullAt ls unread
never-FullAt ls texts fine printable (before, l, after, y, e, e', (h, w, p, head, path, full)) =
    not_full before y h p w (KeysAreTexts-front before (l ∷ after) (subst KeysAreTexts e texts))
      (IsUndiverted-front before (l ∷ after) empty (subst (λ x. IsUndiverted x empty) e fine))
      (ArePrintable-front before (l ∷ after) (subst ArePrintable e printable)) e' head path full
