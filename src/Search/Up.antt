-- ===== src/Search/Up.antt =====
-- `traverse_up` reads the word that leads to a position of the trie, without the "*" of the head.
use infix_search.Base.{
  ℕ, zero, suc, ◌-◌, ◌<◌, ◌≤◌, ◌≡◌, ◌≢◌, refl, sym, ap, ◌∙◌, some, List, [], ◌∷◌, ◌++◌, arith, ◌==◌,
  ==_ne, ==_refl, if◌then◌else◌, length, get_or, take, drop, append_assoc, In,
}
use infix_search.Base.Run.{ok}
use infix_search.Node.{Ptr}
use infix_search.Trie.{Trie}
use infix_search.Trie.Shape.{tail_at, parent_at, children_at, IsTrie, Spells, at_head, at_child}
use infix_search.Search.{push_tail, count_to, traverse_up}

take-get_or :
    (xs : List ℕ) (k : ℕ) (st : List ℕ)
    → k < length xs
    → take k xs ++ get_or xs k 0 ∷ st ≡ take (suc k) xs ++ st
take-get_or [] k st h = absurd (omega arith)
take-get_or (x ∷ xs) zero st h = refl
take-get_or (x ∷ xs) (suc k) st h = ap (λ u. x ∷ u) (take-get_or xs k st (omega arith))

pub take_all : (xs : List ℕ) → take (length xs) xs ≡ xs
take_all [] = refl
take_all (x ∷ xs) = ap (λ u. x ∷ u) (take_all xs)

push_tail-take :
    (k : ℕ) (tail st : List ℕ) → k ≤ length tail → push_tail k tail st ≡ take k tail ++ st
unfolding push_tail
push_tail-take zero tail st h = refl
push_tail-take (suc k) tail st h =
    push_tail-take k tail (get_or tail k 0 ∷ st) (omega arith) ∙ take-get_or tail k st h

count_all : (len : ℕ) → len ≤ 128 → (if len == 0 then 0 else count_to (len - 1)) ≡ len
count_all len h = ground arith

-- The indices into the tails that a path leads to fit a `char`.
abbrev pub IsShort : Trie → Ptr → Type 0
IsShort s h = (w : List ℕ) (p : Ptr) → Spells s h w p → length (tail_at s p) ≤ 128

-- The number of nodes above the end of a path.
abbrev pub depth : {s : Trie} {h : Ptr} {w : List ℕ} {p : Ptr} → Spells s h w p → ℕ
depth (at_head a e) = 0
depth (at_child r i e) = suc (depth r)

module _ {s : Trie} {h : Ptr} (inv : IsTrie s h) (short : IsShort s h) where
  up_head :
      (fuel : ℕ) (p : Ptr) (k : ℕ) (st : List ℕ) → p ≡ h → traverse_up (suc fuel) s p k st ≡ ok st
  unfolding traverse_up
  up_head fuel p k st e = rw (inv.head, e, ==_refl h) refl

  up_child :
      (fuel : ℕ) (p c : Ptr) (k : ℕ) (st : List ℕ)
      → c ≢ h
      → parent_at s c ≡ some p
      → k ≤ length (tail_at s c)
      → length (tail_at s p) ≤ 128
      → traverse_up (suc fuel) s c k st
        ≡ traverse_up fuel s p (length (tail_at s p)) (take k (tail_at s c) ++ st)
  unfolding traverse_up
  up_child fuel p c k st ne e h small =
      rw
        (
          inv.head,
          ==_ne c _ ne,
          e,
          count_all (length (tail_at s p)) small,
          push_tail-take k (tail_at s c) st h,
        )
        refl

  -- Every word begins with the "*" of the head.
  pub Spells-starred : {w : List ℕ} {p : Ptr} → Spells s h w p → w ≡ b'*' ∷ drop 1 w
  Spells-starred (at_head a e) = e ∙ inv.star ∙ ap (λ u. b'*' ∷ drop 1 u) (sym (e ∙ inv.star))
  Spells-starred (at_child {v} {w} {c} r i e) =
      let e' : w ≡ b'*' ∷ drop 1 v ++ tail_at s c =
        e ∙ ap (λ u. u ++ tail_at s c) (Spells-starred r) in
      e' ∙ ap (λ u. b'*' ∷ drop 1 u) (sym e')

  pub drop-append :
      {v : List ℕ} {p : Ptr} (t : List ℕ) → Spells s h v p → drop 1 (v ++ t) ≡ drop 1 v ++ t
  drop-append t r = ap (λ u. drop 1 (u ++ t)) (Spells-starred r)

  traverse_up_all :
      (fuel : ℕ) {w : List ℕ} {p : Ptr} (r : Spells s h w p) (st : List ℕ)
      → depth r < fuel
      → traverse_up fuel s p (length (tail_at s p)) st ≡ ok (drop 1 w ++ st)
  traverse_up_all zero r st room = absurd (omega arith)
  traverse_up_all (suc fuel) (at_head {p} a e) st room =
      up_head fuel p (length (tail_at s p)) st a
      ∙ ap (λ u. ok (drop 1 u ++ st)) (sym (e ∙ inv.star))
  traverse_up_all (suc fuel) (at_child {v} {w} {p} {c} r i e) st room =
      up_child fuel p c (length (tail_at s c)) st (inv.child_ne_head p c i) (inv.child_parent p c i)
        (omega arith) (short v p r)
      ∙ traverse_up_all fuel r (take (length (tail_at s c)) (tail_at s c) ++ st) (omega arith)
      ∙ ap ok (
          ap (λ u. drop 1 v ++ (u ++ st)) (take_all (tail_at s c))
          ∙ sym (append_assoc (drop 1 v) (tail_at s c) st)
          ∙ ap (λ u. u ++ st) (sym (ap (λ u. drop 1 u) e ∙ drop-append (tail_at s c) r)))

  -- On a well-formed trie whose tails, where a path leads to them, have at most 128 characters, and
  -- with more rounds than nodes on the way: from the first `k` characters of a node's tail,
  -- `traverse_up` reads the word that leads to them, that of the parent without its "*" and these
  -- characters.
  pub traverse_up-Spells :
      (fuel : ℕ) {v : List ℕ} {p : Ptr} (r : Spells s h v p) (c : Ptr) (k : ℕ) (st : List ℕ)
      → In c (children_at s p)
      → k ≤ length (tail_at s c)
      → suc (depth r) < fuel
      → traverse_up fuel s c k st ≡ ok (drop 1 v ++ (take k (tail_at s c) ++ st))
  traverse_up-Spells zero r c k st i le room = absurd (omega arith)
  traverse_up-Spells (suc fuel) {v} {p} r c k st i le room =
      up_child fuel p c k st (inv.child_ne_head p c i) (inv.child_parent p c i) le (short v p r)
      ∙ traverse_up_all fuel r (take k (tail_at s c) ++ st) (omega arith)
