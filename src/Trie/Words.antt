-- ===== src/Trie/Words.antt =====
-- What `add` promises, and when it keeps the promise: which word a call of it stores.
use infix_search.Base.{
  ℕ, ◌+◌, ◌≡◌, ◌↔◌, refl, sym, ap, Bool, true, false, some, List, [], ◌∷◌, ◌⊎◌, inl, inr, arith,
  length, subst, Bool-cases,
}
use infix_search.Base.Run.{Ends, ended, Ends-bind, Ends-weaken}
use infix_search.Base.Text.{IsText, first_char}
use infix_search.Node.{Ptr}
use infix_search.Trie.{Trie, ensure_head, add}
use infix_search.Trie.Shape.{IsTrie, at_head, Stored}
use infix_search.Trie.Add.{IsFull, stored_as, diverts, add_loop-Stores, Stores}
use infix_search.Trie.Marks.{mark}
use infix_search.Trie.Course.{OnCourse, on_course}

abbrev pub starred : List ℕ → List ℕ
starred key = b'*' ∷ key

-- The word that `add` stores for the key.
abbrev pub stored_word : Trie → Ptr → List ℕ → List ℕ
stored_word s h key = stored_as s (length (starred key) + 2) h (starred key)

-- Whether `add` leaves a node for a child before it has matched the node's tail to its end.
abbrev pub diverted : Trie → Ptr → List ℕ → Bool
diverted s h key = diverts s (length (starred key) + 2) h (starred key)

pub ensure_head-some : (s : Trie) (h : Ptr) → s.head ≡ some h → ensure_head s ≡ (s, h)
unfolding ensure_head
ensure_head-some s h e = ground arith

module _ {s : Trie} {h : Ptr} (key : List ℕ) (inv : IsTrie s h) (text : IsText key) where
  star-IsText : IsText (starred key)
  star-IsText = ((λ e. absurd (omega arith)), text)

  -- How `add` has changed the trie.
  pub add-Stores :
      Ends
        (λ s'. (out : Trie × Ptr) × (s' ≡ mark out.1 out.0) × Stores inv (stored_word s h key) out)
        (IsFull s)
        (add key s)
  unfolding add
  add-Stores = rw (ensure_head-some s h inv.head) (
      Ends-bind
        (add_loop-Stores inv (length (starred key) + 2) h [] (starred key) (at_head refl refl)
          star-IsText (ap first_char inv.star) (omega arith))
        λ out stores. ended _ (out, refl, stores))

  -- On a well-formed trie, for a key without NUL, `add` neither faults nor runs out of rounds. It ends with a well-formed
  -- trie that stores what was stored before and the word `stored_word`, and nothing else. It
  -- exits only if some node has 126 children.
  pub add-Stored :
      Ends
        (λ s'.
          IsTrie s' h × ((w : List ℕ) → Stored s' h w ↔ (Stored s h w ⊎ (w ≡ stored_word s h key))))
        (IsFull s)
        (add key s)
  add-Stored = Ends-weaken add-Stores λ s' (out, e, stores).
      subst
        (λ x.
          IsTrie x h × ((w : List ℕ) → Stored x h w ↔ (Stored s h w ⊎ (w ≡ stored_word s h key))))
        (sym e) (stores.keeps, stores.words)

module _ {s : Trie} {h : Ptr} (key : List ℕ) (inv : IsTrie s h) (text : IsText key) where
  key-OnCourse : OnCourse (stored_word s h key) (starred key) (diverted s h key)
  key-OnCourse =
      on_course inv (length (starred key) + 2) h [] (starred key) (at_head refl refl)
        (star-IsText key inv text) (ap first_char inv.star) (omega arith)

  -- Exactly where the search for the key's place follows a child in the middle of a tail, the word
  -- that is stored is another than the key's.
  stored_word-diverted : (diverted s h key ≡ false) ↔ (stored_word s h key ≡ starred key)
  stored_word-diverted = (key-OnCourse.0, stays)
    where
      stays : stored_word s h key ≡ starred key → diverted s h key ≡ false
      stays e = elim (Bool-cases (diverted s h key)) [
        | inl gone ↦ absurd (key-OnCourse.1 gone e)
        | inr fine ↦ fine
      ]

  -- On a well-formed trie, for a key without NUL: after `add` the trie stores the key exactly if it
  -- did before, or if the search for the key's place does not follow a child in the middle of a
  -- tail. `add` neither faults nor runs out of rounds, and exits only if some node has 126 children.
  pub add-diverted :
      Ends
        (λ s'. Stored s' h (starred key) ↔ (Stored s h (starred key) ⊎ (diverted s h key ≡ false)))
        (IsFull s)
        (add key s)
  add-diverted = Ends-weaken (add-Stored key inv text) λ s' (_, words). (
    λ stored. elim ((words (starred key)).0 stored) [
      | inl old ↦ inl old
      | inr same ↦ inr (stored_word-diverted.1 (sym same))
    ],
    λ h'. elim h' [
      | inl old ↦ (words (starred key)).1 (inl old)
      | inr fine ↦ (words (starred key)).1 (inr (sym (stored_word-diverted.0 fine)))
    ],
  )

  -- On a well-formed trie a key without NUL that is not diverted is added: `add` neither faults nor
  -- runs out of rounds, and exits only if some node has 126 children; afterwards the trie stores it, what it stored before, and
  -- nothing else.
  pub add-inserts :
      diverted s h key ≡ false
      → Ends
          (λ s'. IsTrie s' h × ((w : List ℕ) → Stored s' h w ↔ (Stored s h w ⊎ (w ≡ starred key))))
          (IsFull s)
          (add key s)
  add-inserts fine =
      subst
        (λ u.
          Ends (λ s'. IsTrie s' h × ((w : List ℕ) → Stored s' h w ↔ (Stored s h w ⊎ (w ≡ u))))
            (IsFull s) (add key s))
        (stored_word-diverted.0 fine) (add-Stored key inv text)

  -- A diverted key without NUL is lost on a well-formed trie: unless it was stored before, it is not stored after `add`.
  pub add-loses :
      diverted s h key ≡ true
      → ¬ Stored s h (starred key)
      → Ends (λ s'. ¬ Stored s' h (starred key)) (IsFull s) (add key s)
  add-loses gone new = Ends-weaken (add-Stored key inv text) λ s' (_, words) stored.
      elim ((words (starred key)).0 stored) [
        | inl old ↦ new old
        | inr e ↦ key-OnCourse.1 gone (sym e)
      ]
