-- ===== src/Search/Complete.antt =====
-- `find_path_util` finds every word that goes on with the key from its place, unless the key is a
-- stored word, or the end of one that another goes on behind.
use mathlib.Core.List.{append_cancel_left}
use infix_search.Base.{
  and_true, ◌&&◌, ℕ, zero, suc, ◌+◌, ◌<◌, ◌≡◌, ◌≢◌, inl, inr, refl, sym, ap, ◌∙◌, subst, true,
  false, Bool-cases, Option-cases, none, List, [], ◌∷◌, ◌++◌, In, arith, is_empty, length, drop,
  append_assoc, append-nil,
}
use infix_search.Base.Run.{Returns, returns, weaken}
use infix_search.Base.Text.{IsText, IsText-drop, first_char}
use infix_search.Node
use infix_search.Node.{Ptr, Node}
use infix_search.Trie.{Trie, Matched, match_tail, val_of}
use infix_search.Trie.Shape.{tail_at, children_at, leaf_at, IsTrie, Spells, Stored, at_child}
use infix_search.Trie.Add.{follow, empty-cases, is_empty-ne}
use infix_search.Trie.Children.{ne_of_find_child-none}
use infix_search.Trie.Matching.{Compares, match_tail-Compares}
use infix_search.Search.{TreePos, Found, matched, onward, find_path_util}
use infix_search.Search.Up.{IsShort}
use infix_search.Search.Down.{Has, Listed}
use infix_search.Search.Paths.{IsLow, FitsBuffer, HasLeaves, IsFilled, Reads, whole, Listed-Contain}
use infix_search.Search.Ways.{
  same_first, Distinct-unique, first_step, EndsAt, FindsAll, finish-FindsAll, finish-none-FindsAll,
}
use infix_search.Search.Rounds.{
  split_more, empty_list, first-IsText, rest_eq, front_eq, word_left-IsText, some_char, shorter,
  read_more, read_child,
}

-- What goes on from the place that a key leads to is stored.
further_word :
    {s : Trie} {h : Ptr} (inv : IsTrie s h) (short : IsShort s h) (base key : List ℕ) (p : Ptr)
    (i : ℕ) (at : Reads s h (base ++ key) p i) (u : List ℕ)
    → Listed s p (drop i (tail_at s p)) u
    → Stored s h (b'*' ∷ base ++ (key ++ u))
further_word {s} inv short base key p i at u (q, v, b, leaf, e) =
    (Listed-Contain inv short base key p i at (key ++ u)
      (q, v, b, leaf, ap (λ x. key ++ x) e ∙ sym (append_assoc key (drop i (tail_at s p)) v))).0

module _ {s : Trie} {h : Ptr} (inv : IsTrie s h) (short : IsShort s h) (fits : FitsBuffer s h)
    (leaves : HasLeaves s h) (filled : IsFilled s) (fuel : ℕ) (low : IsLow s h fuel)
    (start : TreePos) (base key : List ℕ) (begins : Reads s h base start.node start.index) where
  module _ (text : IsText key) (alone : EndsAt s h base key) where
    childless :
        (p : Ptr) (m : Matched)
        → Node.get_child (val_of s) (first_char m.word_left) (s.nodes p) ≡ none
        → (d : Ptr) → In d (children_at s p)
        → first_char (tail_at s d) ≢ first_char m.word_left
    unfolding Node.get_child Node.get_val
    childless p m no_child d j =
        ne_of_find_child-none (val_of s) (first_char m.word_left) (children_at s p) no_child d j

    only_child :
        (p c d : Ptr)
        → In c (children_at s p)
        → In d (children_at s p)
        → first_char (tail_at s c) ≡ first_char (tail_at s d)
        → c ≡ d
    unfolding Node.get_val
    only_child p c d i j e = Distinct-unique (val_of s) (children_at s p) c d (inv.distinct p) i j e

    module _ (p : Ptr) (i : ℕ) (done sub_key : List ℕ) (m : Matched)
        (c : Compares (drop i (tail_at s p)) sub_key m) (at : Reads s h (base ++ done) p i)
        (e : done ++ sub_key ≡ key) where
      -- What is found behind the whole key is found behind its rest.
      behind_front :
          (f : Found)
          → m.word_left ≡ []
          → FindsAll s base key [] p (i + length m.front) f
          → FindsAll s base done sub_key p i f
      behind_front f end (new, finds) =
          let all = front_eq done sub_key m c.word_eq e end in
          let (_, left, _) = split_more i (tail_at s p) m.front m.tail_left c.tail_eq at.4 in
          let rest = drop (i + length m.front) (tail_at s p) in
          (
            new,
            λ u post (q, v, b, leaf, e') _.
                subst (λ x. Has (base ++ x) f.found_keys)
                  (ap (λ x. x ++ (rest ++ v)) (sym all)
                    ∙ append_assoc done m.front (rest ++ v)
                    ∙ ap (λ x. done ++ x)
                        (ap (λ x. m.front ++ (x ++ v)) left
                          ∙ sym (append_assoc m.front m.tail_left v)
                          ∙ ap (λ x. x ++ v) (sym c.tail_eq)
                          ∙ sym e'))
                  (finds (rest ++ v) (rest ++ v) (q, v, b, leaf, refl) refl),
          )

      matched-FindsAll :
          (f : Found)
          → m.word_left ≡ []
          → Returns (FindsAll s base done sub_key p i) (matched fuel s start key p i m f)
      unfolding matched
      matched-FindsAll f end =
          let all = front_eq done sub_key m c.word_eq e end in
          let more =
            read_more inv short fits fuel low start base key begins p i done sub_key m c at in
          let at' = subst (λ u. Reads s h (base ++ u) p (i + length m.front)) all more in
          let (_, left, _) = split_more i (tail_at s p) m.front m.tail_left c.tail_eq at.4 in
          let next = i + length m.front in
          elim (Bool-cases (leaf_at s p && is_empty m.tail_left)) [
            | inl exact ↦
                let (leaf, at_end) = and_true (leaf_at s p) (is_empty m.tail_left) exact in
                let (behind, last) = alone (
                  p,
                  subst (λ x. Spells s h (b'*' ∷ base ++ x) p)
                      (ap (λ x. key ++ x) (left ∙ empty_list m.tail_left at_end) ∙ append-nil key)
                      (whole inv short base key p next at'),
                  leaf,
                ) in
                rw exact (
                  weaken
                    (finish-none-FindsAll inv short fits leaves filled fuel low start base key
                      begins p next (record f { exact_match = true }) behind
                      (λ u listed. last u (further_word inv short base key p next at' u listed)))
                    λ f' finds. behind_front f' end finds)
            | inr other ↦ rw other (
                weaken
                  (finish-FindsAll inv short fits leaves filled fuel low start base key begins p
                    next (record f { exact_match = false }) text at' refl)
                  λ f' finds. behind_front f' end finds)
          ]

      -- The tail goes on otherwise than the key.
      parted :
          (u post : List ℕ)
          → m.tail_left ≢ []
          → m.word_left ≢ []
          → Listed s p (drop i (tail_at s p)) u
          → u ≡ sub_key ++ post
          → ⊥
      parted u post left left' (q, v, b, leaf, e') e3 = c.differ left (
          same_first m.tail_left v m.word_left post left left' (
            append_cancel_left m.front (m.tail_left ++ v) (m.word_left ++ post) (
              sym (append_assoc m.front m.tail_left v)
              ∙ ap (λ x. x ++ v) (sym c.tail_eq)
              ∙ sym e'
              ∙ e3
              ∙ ap (λ x. x ++ post) c.word_eq
              ∙ append_assoc m.front m.word_left post)))

      -- Where the tail is matched to its end, what goes on does so in a child with the character.
      child_onward :
          (u post : List ℕ)
          → m.tail_left ≡ []
          → m.word_left ≢ []
          → Listed s p (drop i (tail_at s p)) u
          → u ≡ sub_key ++ post
          → (d : Ptr) × In d (children_at s p)
            × (first_char (tail_at s d) ≡ first_char m.word_left)
            × ((v : List ℕ) × Listed s d (tail_at s d) v
                × (v ≡ m.word_left ++ post)
                × (u ≡ m.front ++ v))
      child_onward u post end left' (q, v, b, leaf, e') e3 =
          let u_is : u ≡ m.front ++ v =
            e' ∙ ap (λ x. x ++ v) (c.tail_eq ∙ ap (λ x. m.front ++ x) end ∙ append-nil m.front) in
          let v_is : v ≡ m.word_left ++ post = append_cancel_left m.front v (m.word_left ++ post) (
            sym u_is
            ∙ e3
            ∙ ap (λ x. x ++ post) c.word_eq
            ∙ append_assoc m.front m.word_left post) in
          let (d, j, first, listed) = first_step filled b leaf m.word_left post left' v_is in
          (d, j, first, (v, listed, v_is, u_is))

      no_child-FindsAll :
          (f : Found)
          → f.exact_match ≡ false
          → m.tail_left ≡ []
          → m.word_left ≢ []
          → Node.get_child (val_of s) (first_char m.word_left) (s.nodes p) ≡ none
          → FindsAll s base done sub_key p i f
      no_child-FindsAll f new end left' no_child = (
        new,
        λ u post listed e3.
            let (d, j, first, _) = child_onward u post end left' listed e3 in
            absurd (childless p m no_child d j first),
      )

      -- What is found from the child that goes on with the key is found from here.
      child-FindsAll :
          (f : Found) (d : Ptr)
          → m.tail_left ≡ []
          → m.word_left ≢ []
          → In d (children_at s p)
          → first_char (tail_at s d) ≡ first_char m.word_left
          → FindsAll s base (done ++ m.front) m.word_left d 0 f
          → FindsAll s base done sub_key p i f
      child-FindsAll f d end left' child first (new, finds) = (
        new,
        λ u post listed e3.
            let (d', j, first', (v, listed', v_is, u_is)) =
              child_onward u post end left' listed e3 in
            let same = only_child p d' d j child (first' ∙ sym first) in
            subst (λ x. Has (base ++ x) f.found_keys)
              (append_assoc done m.front v ∙ ap (λ x. done ++ x) (sym u_is))
              (finds v post (subst (λ x. Listed s x (tail_at s x) v) same listed') v_is),
      )

    -- From a place that the first part of the key leads to, the search finds every word that goes
    -- on with the rest of it.
    pub find_path_util-FindsAll :
        (rounds : ℕ) (p : Ptr) (i : ℕ) (done sub_key : List ℕ) (f : Found)
        → done ++ sub_key ≡ key
        → Reads s h (base ++ done) p i
        → i < length (tail_at s p)
        → length sub_key < rounds
        → f.exact_match ≡ false
        → Returns
            (FindsAll s base done sub_key p i)
            (find_path_util fuel s start key rounds p i sub_key f)
    unfolding find_path_util onward
    find_path_util-FindsAll zero p i done sub_key f e at inside room new = absurd (omega arith)
    find_path_util-FindsAll (suc rounds) p i done [] f e at inside room new =
        let all : done ≡ key = sym (append-nil done) ∙ e in
        weaken
          (finish-FindsAll inv short fits leaves filled fuel low start base key begins p i f text
            (subst (λ x. Reads s h (base ++ x) p i) all at) new)
          λ f' finds. subst (λ x. FindsAll s base x [] p i f') (sym all) finds
    find_path_util-FindsAll (suc rounds) p i done (k ∷ sub_key) f e at inside room new =
        let m = match_tail (drop i (tail_at s p)) (k ∷ sub_key) in
        let c =
          match_tail-Compares (drop i (tail_at s p)) (k ∷ sub_key)
            (IsText-drop i (tail_at s p) (inv.texts p)) in
        elim (empty-cases m.word_left) [
          | inl end ↦ rw (ap is_empty end) (matched-FindsAll p i done (k ∷ sub_key) m c at e f end)
          | inr some_left ↦ elim (empty-cases m.tail_left) [
            | inr parts ↦
                rw (is_empty-ne m.word_left some_left, is_empty-ne m.tail_left parts)
                  (returns f (
                    new,
                    λ u post listed e3.
                        absurd
                          (parted p i done (k ∷ sub_key) m c at e u post parts some_left listed e3),
                  ))
            | inl end ↦
                elim (Option-cases
                  (Node.get_child (val_of s) (first_char m.word_left) (s.nodes p))) [
                    | inl no_child ↦
                        rw (is_empty-ne m.word_left some_left, ap is_empty end, no_child)
                          (returns f (
                            no_child-FindsAll p i done (k ∷ sub_key) m c at e f new end some_left
                              no_child))
                    | inr (d, there) ↦
                        rw (is_empty-ne m.word_left some_left, ap is_empty end, there)
                          (let (child, first) =
                              follow inv at.0 [] p d _ (at_child at.2 at.3 refl) there in
                            let rest_text =
                              word_left-IsText done (k ∷ sub_key) m c.word_eq e text in
                            let some_word = is_empty-ne m.word_left some_left in
                            weaken
                              (find_path_util-FindsAll rounds d 0 (done ++ m.front) m.word_left f
                                (rest_eq done (k ∷ sub_key) m c.word_eq e)
                                (read_child inv short fits fuel low start base key begins p i done
                                  (k ∷ sub_key) m c at d end child)
                                (some_char (tail_at s d) (λ z.
                                  first-IsText m.word_left rest_text some_word (sym first ∙ z)))
                                (shorter i (tail_at s p) (k ∷ sub_key) m c end inside rounds room)
                                new)
                              λ f' finds.
                                child-FindsAll p i done (k ∷ sub_key) m c at e f' d end some_left
                                  child first finds)
                  ]
          ]
        ]
