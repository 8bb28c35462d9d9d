-- ===== src/Node2/Slots.antt =====
-- The children of `node2_t` refine those of `Node`: lookups, and `set_child` on all its branches.
use mathlib.Core.List.{map-append}
use infix_search.Base.{
  ℕ, suc, ◌+◌, ◌≤◌, ◌≡◌, refl, ap, sym, true, false, Option, none, some, List, [], ◌∷◌, ◌++◌, map,
  arith, ◌==◌, length-append, Bool-cases, inl, inr, if◌then◌else◌, length, is_some, set, ◌-◌,
}
use infix_search.Base.Run.{Run, ok, exits}
use infix_search.Base.Text.{IsText}
use infix_search.Node
use infix_search.Node.{Ptr, Node}
use infix_search.Node2
use infix_search.Node2.{
  Node2, realloc, strcpy, tail_buffer, slots, children_loop, exists_loop, child_loop, slot_loop,
  placed_in, grow,
}
use infix_search.Node2.Encoding.{
  slots_of, encode, FlagsOf, Represents, represents, take_all, slots-encode,
}

module _ (val_of : Ptr → ℕ) where
  child_loop-map :
      (v : ℕ) (cs : List Ptr) → child_loop val_of v (map some cs) ≡ Node.find_child val_of v cs
  unfolding child_loop Node.find_child
  child_loop-map v [] = refl
  child_loop-map v (c ∷ cs) = ground (arith, child_loop-map v cs)

  child_loop-slots_of :
      (v : ℕ) (cs : List Ptr) → child_loop val_of v (slots_of cs) ≡ Node.find_child val_of v cs
  unfolding child_loop Node.find_child
  child_loop-slots_of v [] = refl
  child_loop-slots_of v (c ∷ cs) = ground (arith, child_loop-map v cs)

  exists_loop-is_some :
      (v : ℕ) (ss : List (Option Ptr)) → exists_loop val_of v ss ≡ is_some (child_loop val_of v ss)
  unfolding child_loop exists_loop
  exists_loop-is_some v [] = refl
  exists_loop-is_some v (none ∷ ss) = exists_loop-is_some v ss
  exists_loop-is_some v (some c ∷ ss) = ground (arith, exists_loop-is_some v ss)

  pub get_child-eq :
      (v : ℕ) {n : Node2} {a : Node}
      → Represents n a
      → (Node2.get_child val_of v n ≡ Node.get_child val_of v a)
        × (Node2.child_exists val_of v n ≡ Node.child_exists val_of v a)
  unfolding Node2.get_child Node.get_child Node2.child_exists Node.child_exists
  get_child-eq v (represents meta spare a flags text room) =
      rw (exists_loop-is_some, slots-encode meta spare a, child_loop-slots_of) (refl, refl)

-- Two runs end the same way, and their results are related.
pub data Agree {A B : Type 0} (R : A → B → Type 0) : Run A → Run B → Type 0 where
  both : (a : A) (b : B) → R a b → Agree R (ok a) (ok b)
  exit_both : Agree R exits exits

grow_neighbors :
    (xs : List (Option Ptr)) (y : Option Ptr)
    → set (realloc none (suc (length xs)) xs) (length xs) y ≡ xs ++ y ∷ []
grow_neighbors [] y = refl
grow_neighbors (x ∷ xs) y =
    let shift : suc (suc (length xs)) - suc (length xs) ≡ suc (length xs) - length xs =
      omega arith in
    rw shift (ap (λ zs. x ∷ zs) (grow_neighbors xs y))

length-map-some : (cs : List Ptr) → length (map some cs) ≡ length cs
length-map-some [] = refl
length-map-some (c ∷ cs) = ap suc (length-map-some cs)

-- One more child in a new slot, unless the count would leave the range of a signed `char`.
grow-Represents :
    (meta : ℕ) (spare : List ℕ) (a : Node) (d : Ptr) (cs : List Ptr) (c : Ptr)
    → FlagsOf meta a
    → IsText a.tail
    → length (d ∷ cs) ≤ 126
    → Agree Represents
        (grow c (encode meta spare (record a { children = d ∷ cs })))
        (if length (d ∷ cs) == 126 then exits else ok (record a { children = d ∷ cs ++ c ∷ [] }))
unfolding grow
grow-Represents meta spare a d cs c flags text room =
    let old = map some cs in
    let size : suc (suc (length old)) + 1 ≡ suc (suc (suc (length old))) = omega arith in
    let last : suc (suc (suc (length old))) - 1 ≡ suc (suc (length old)) = omega arith in
    let stored = grow_neighbors (a.parent ∷ some d ∷ old) (some c) in
    elim (Bool-cases (suc (length cs) == 126)) [
      | inl many ↦
          let top : (suc (suc (suc (length old))) == 128) ≡ true =
            ground (arith, length-map-some cs) in
          rw (many, size, top) exit_both
      | inr few ↦
          let below : (suc (suc (suc (length old))) == 128) ≡ false =
            ground (arith, length-map-some cs) in
          rw (few, size, below, last)
            (let shift : suc (suc (suc (length old))) - suc (suc (length old))
                  ≡ suc (length old) - length old =
                omega arith in
              let count : suc (length old) ≡ length (map some (cs ++ c ∷ [])) =
                omega (
                  arith,
                  ap length (map-append some cs (c ∷ [])),
                  length-append old (some c ∷ []),
                ) in
              let joined : old ++ some c ∷ [] ≡ map some (cs ++ c ∷ []) =
                sym (map-append some cs (c ∷ [])) in
              rw (shift, grow_neighbors old (some c), count, joined)
                (both _ _ (
                  represents meta spare (record a { children = d ∷ cs ++ c ∷ [] }) flags text
                    (ground (arith, length-append cs (c ∷ []))))))
    ]

module _ (val_of : Ptr → ℕ) (v : ℕ) (c : Ptr) where
  slot_loop-map :
      (cs : List Ptr)
      → slot_loop val_of v c (map some cs)
        ≡ (if is_some (Node.find_child val_of v cs) then Node2.duplicate else Node2.full)
  unfolding slot_loop Node.find_child
  slot_loop-map [] = refl
  slot_loop-map (d ∷ cs) = ground (arith, slot_loop-map cs)

  slot_loop-free : slot_loop val_of v c (none ∷ []) ≡ Node2.placed (some c ∷ [])
  unfolding slot_loop
  slot_loop-free = refl

  set_child-agrees :
      (meta : ℕ) (spare : List ℕ) (a : Node) (cs : List Ptr)
      → FlagsOf meta a
      → IsText a.tail
      → length cs ≤ 126
      → Agree Represents
          (Node2.set_child val_of v c (encode meta spare (record a { children = cs })))
          (Node.set_child val_of v c (record a { children = cs }))
  unfolding Node2.set_child Node.set_child placed_in
  set_child-agrees meta spare a [] flags text room =
      rw slot_loop-free
        (both _ _ (represents meta spare (record a { children = c ∷ [] }) flags text (omega arith)))
  set_child-agrees meta spare a (d ∷ cs) flags text room =
      let found : slot_loop val_of v c (slots (encode meta spare (record a { children = d ∷ cs })))
          ≡ (if is_some (Node.find_child val_of v (d ∷ cs)) then Node2.duplicate else Node2.full) =
        rw (take_all (map some cs)) (slot_loop-map (d ∷ cs)) in
      elim (Bool-cases (is_some (Node.find_child val_of v (d ∷ cs)))) [
        | inl old ↦
            rw (found, old)
              (both _ _ (represents meta spare (record a { children = d ∷ cs }) flags text room))
        | inr new ↦ rw (found, new) (grow-Represents meta spare a d cs c flags text room)
      ]

  -- `set_child` ignores a second child for a character, fills a free slot, adds one, or exits,
  -- as `Node` says.
  pub set_child-Represents :
      {n : Node2} {a : Node}
      → Represents n a
      → Agree Represents (Node2.set_child val_of v c n) (Node.set_child val_of v c a)
  set_child-Represents (represents meta spare a flags text room) =
      set_child-agrees meta spare a a.children flags text room
