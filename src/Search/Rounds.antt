-- ===== src/Search/Rounds.antt =====
-- The rounds of `find_path_util`: from a place of the trie it adds stored words that contain the
-- key.
use infix_search.Base.{
  ℕ, zero, suc, ◌+◌, ◌<◌, ◌≤◌, ◌≡◌, ◌≢◌, inl, inr, refl, sym, ap, ◌∙◌, subst, true, false,
  Bool-cases, Option-cases, List, [], ◌∷◌, ◌++◌, In, arith, is_empty, length, take, drop,
  append_assoc, append-nil, length-append, take-append, drop-length,
}
use infix_search.Base.Run.{Returns, returns}
use infix_search.Base.Text.{IsText, IsText-split, IsText-drop, first_char}
use infix_search.Node
use infix_search.Node.{Ptr, Node}
use infix_search.Trie.{Trie, Matched, match_tail, val_of}
use infix_search.Trie.Shape.{tail_at, children_at, leaf_at, IsTrie, at_child}
use infix_search.Trie.Add.{follow}
use infix_search.Trie.Matching.{Compares, match_tail-Compares}
use infix_search.Search.{TreePos, Found, matched, onward, find_path_util}
use infix_search.Search.Up.{IsShort, drop-append}
use infix_search.Search.Paths.{take-drop, IsLow, FitsBuffer, HasLeaves, Reads}
use infix_search.Search.Finds.{IsSound, finish-some, finish-none}

-- Where the rest of a tail behind its first `i` characters begins with `front`.
pub split_more :
    (i : ℕ) (t front rest : List ℕ)
    → drop i t ≡ front ++ rest
    → i ≤ length t
    → (take (i + length front) t ≡ take i t ++ front)
      × (drop (i + length front) t ≡ rest)
      × (i + length front ≤ length t)
split_more zero t front rest e le =
    let z : 0 + length front ≡ length front = omega arith in
    rw (e, z)
      (
        take-append (length front) front rest refl,
        drop-length front rest,
        omega (arith, length-append front rest),
      )
split_more (suc i) [] front rest e le = absurd (omega arith)
split_more (suc i) (x ∷ t) front rest e le =
    let (a, b, c) = split_more i t front rest e (omega arith) in
    let z : suc i + length front ≡ suc (i + length front) = omega arith in
    rw z (ap (λ u. x ∷ u) a, b, omega arith)

zero_le : {n : ℕ} → 0 ≤ n
zero_le = omega arith

left_behind : (i : ℕ) (t : List ℕ) → i < length t → 1 ≤ length (drop i t)
left_behind zero t h = omega arith
left_behind (suc i) [] h = absurd (omega arith)
left_behind (suc i) (x ∷ t) h = left_behind i t (omega arith)

pub empty_list : (xs : List ℕ) → is_empty xs ≡ true → xs ≡ []
empty_list [] e = refl
empty_list (x ∷ xs) e = absurd (grind arith)

pub first-IsText : (xs : List ℕ) → IsText xs → is_empty xs ≡ false → first_char xs ≢ 0
first-IsText [] text e = absurd (grind arith)
first-IsText (x ∷ xs) text e = text.0

module _ (done sub_key : List ℕ) {key : List ℕ} (m : Matched)
    (word : sub_key ≡ m.front ++ m.word_left) (e : done ++ sub_key ≡ key) where
  -- What is left of the key goes on behind what was matched of it.
  pub rest_eq : (done ++ m.front) ++ m.word_left ≡ key
  rest_eq = append_assoc done m.front m.word_left ∙ ap (λ u. done ++ u) (sym word) ∙ e

  pub front_eq : m.word_left ≡ [] → done ++ m.front ≡ key
  front_eq end =
      sym (append-nil (done ++ m.front)) ∙ ap (λ u. (done ++ m.front) ++ u) (sym end) ∙ rest_eq

  pub word_left-IsText : IsText key → IsText m.word_left
  word_left-IsText text =
      (IsText-split (done ++ m.front) m.word_left (subst IsText (sym rest_eq) text)).1

pub some_char : (xs : List ℕ) → first_char xs ≢ 0 → 1 ≤ length xs
some_char [] ne = absurd (ne refl)
some_char (x ∷ xs) ne = omega arith

-- A round that matches the tail to its end takes a character of the key.
pub shorter :
    (i : ℕ) (t sub_key : List ℕ) (m : Matched)
    → Compares (drop i t) sub_key m
    → m.tail_left ≡ []
    → i < length t
    → (rounds : ℕ) → length sub_key < suc rounds
    → length m.word_left < rounds
shorter i t sub_key m c end inside rounds room = omega (
  arith,
  left_behind i t inside,
  ap length c.tail_eq ∙ length-append m.front m.tail_left,
  ap length end,
  ap length c.word_eq ∙ length-append m.front m.word_left,
)

module _ {s : Trie} {h : Ptr} (inv : IsTrie s h) (short : IsShort s h) (fits : FitsBuffer s h) where
  module _ (fuel : ℕ) (low : IsLow s h fuel) (start : TreePos) (base key : List ℕ)
      (begins : Reads s h base start.node start.index) where
    module _ (p : Ptr) (i : ℕ) (done sub_key : List ℕ) (m : Matched)
        (c : Compares (drop i (tail_at s p)) sub_key m) (at : Reads s h (base ++ done) p i) where
      pub read_more : Reads s h (base ++ (done ++ m.front)) p (i + length m.front)
      read_more =
          let (v, q, r, j, le, e) = at in
          let (a, _, b) = split_more i (tail_at s p) m.front m.tail_left c.tail_eq le in
          (
            v,
            q,
            r,
            j,
            b,
            sym (append_assoc base done m.front)
                ∙ ap (λ u. u ++ m.front) e
                ∙ append_assoc (drop 1 v) (take i (tail_at s p)) m.front
                ∙ ap (λ u. drop 1 v ++ u) (sym a),
          )

      pub read_child :
          (d : Ptr)
          → m.tail_left ≡ []
          → In d (children_at s p)
          → Reads s h (base ++ (done ++ m.front)) d 0
      read_child d end k =
          let (v, q, r, j, b, e) = read_more in
          let (_, e', _) = split_more i (tail_at s p) m.front m.tail_left c.tail_eq at.4 in
          (
            v ++ tail_at s p,
            p,
            at_child r j refl,
            k,
            zero_le,
            e
                ∙ ap (λ u. drop 1 v ++ u)
                    (sym (append-nil (take (i + length m.front) (tail_at s p)))
                      ∙ ap (λ u. take (i + length m.front) (tail_at s p) ++ u) (sym (e' ∙ end))
                      ∙ take-drop (i + length m.front) (tail_at s p))
                ∙ sym (drop-append inv short (tail_at s p) r)
                ∙ sym (append-nil (drop 1 (v ++ tail_at s p))),
          )

      matched-IsSound :
          (f : Found)
          → HasLeaves s h
          → IsText key
          → done ++ sub_key ≡ key
          → m.word_left ≡ []
          → Returns (IsSound s h base key f) (matched fuel s start key p i m f)
      unfolding matched
      matched-IsSound f leaves text e end =
          let all = front_eq done sub_key m c.word_eq e end in
          let at' = subst (λ u. Reads s h (base ++ u) p (i + length m.front)) all read_more in
          let (_, left, _) = split_more i (tail_at s p) m.front m.tail_left c.tail_eq at.4 in
          elim (Bool-cases (leaf_at s p)) [
            | inr e' ↦ rw e' (
                finish-some inv short fits fuel low start base key begins p (i + length m.front) _
                  leaves text at')
            | inl leaf ↦ elim (Bool-cases (is_empty m.tail_left)) [
              | inr e' ↦
                  rw (leaf, e')
                    (finish-some inv short fits fuel low start base key begins p
                      (i + length m.front) _ leaves text at')
              | inl e' ↦
                  rw (leaf, e')
                    (finish-none inv short fits fuel low start base key begins p
                      (i + length m.front) _ leaf (left ∙ empty_list m.tail_left e') at')
            ]
          ]

    none_found : (f : Found) → IsSound s h base key f f
    none_found f = ([], sym (append-nil f.found_keys), λ u has. absurd has)

    -- From a place that the first part of the key leads to, the search adds sound words only.
    pub find_path_util-IsSound :
        (rounds : ℕ) (p : Ptr) (i : ℕ) (done sub_key : List ℕ) (f : Found)
        → HasLeaves s h
        → IsText key
        → done ++ sub_key ≡ key
        → Reads s h (base ++ done) p i
        → i < length (tail_at s p)
        → length sub_key < rounds
        → Returns (IsSound s h base key f) (find_path_util fuel s start key rounds p i sub_key f)
    unfolding find_path_util onward
    find_path_util-IsSound zero p i done sub_key f leaves text e at inside room =
        absurd (omega arith)
    find_path_util-IsSound (suc rounds) p i done [] f leaves text e at inside room =
        finish-some inv short fits fuel low start base key begins p i f leaves text
          (subst (λ x. Reads s h (base ++ x) p i) (sym (append-nil done) ∙ e) at)
    find_path_util-IsSound (suc rounds) p i done (k ∷ sub_key) f leaves text e at inside room =
        let m = match_tail (drop i (tail_at s p)) (k ∷ sub_key) in
        let c =
          match_tail-Compares (drop i (tail_at s p)) (k ∷ sub_key)
            (IsText-drop i (tail_at s p) (inv.texts p)) in
        elim (Bool-cases (is_empty m.word_left)) [
          | inl e' ↦ rw e' (
              matched-IsSound p i done (k ∷ sub_key) m c at f leaves text e
                (empty_list m.word_left e'))
          | inr e' ↦ elim (Bool-cases (is_empty m.tail_left)) [
            | inr e'' ↦ rw (e', e'') (returns f (none_found f))
            | inl e'' ↦
                elim (Option-cases
                  (Node.get_child (val_of s) (first_char m.word_left) (s.nodes p))) [
                    | inl e3 ↦ rw (e', e'', e3) (returns f (none_found f))
                    | inr (d, e3) ↦
                        rw (e', e'', e3)
                          (let (child, first) =
                              follow inv at.0 [] p d _ (at_child at.2 at.3 refl) e3 in
                            let word_text =
                              word_left-IsText done (k ∷ sub_key) m c.word_eq e text in
                            find_path_util-IsSound rounds d 0 (done ++ m.front) m.word_left f leaves
                              text (rest_eq done (k ∷ sub_key) m c.word_eq e)
                              (read_child p i done (k ∷ sub_key) m c at d
                                (empty_list m.tail_left e'') child)
                              (some_char (tail_at s d)
                                (λ z. first-IsText m.word_left word_text e' (sym first ∙ z)))
                              (shorter i (tail_at s p) (k ∷ sub_key) m c
                                (empty_list m.tail_left e'') inside rounds room))
                  ]
          ]
        ]
