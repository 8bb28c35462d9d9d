-- ===== src/Node1/Agrees.antt =====
-- `get_child` of `node1_t` after `set_child`, and that of `node2_t`.
use infix_search.Base.{
  ℕ, ◌<◌, ◌≡◌, refl, sym, ap, ◌∙◌, false, Option-cases, none, some, List, [], ◌∷◌, ◌++◌, ◌==◌,
  if◌then◌else◌, is_some, length, arith, inl, inr,
}
use infix_search.Base.Run.{Returns, returns}
use infix_search.Node
use infix_search.Node.{Ptr, Node}
use infix_search.Node1
use infix_search.Node1.{Node1}
use infix_search.Node1.Maps.{find-assign, get_child-eq}

module _ (val_of : Ptr → ℕ) where
  -- Both nodes give the same child for every character.
  abbrev pub Agrees : Node1 → Node → Type 0
  Agrees n n' = (v : ℕ) → Node1.get_child v n ≡ Node.get_child val_of v n'

  find_child-snoc :
      (w : ℕ) (c : Ptr) (cs : List Ptr)
      → Node.find_child val_of (val_of c) cs ≡ none
      → Node.find_child val_of w (cs ++ c ∷ [])
        ≡ (if w == val_of c then some c else Node.find_child val_of w cs)
  unfolding Node.find_child
  find_child-snoc w c [] free = ground arith
  find_child-snoc w c (d ∷ cs) free = ground (arith, find_child-snoc w c cs)

  added-Agrees :
      (c : Ptr) (n : Node1) (n' : Node)
      → Agrees n n'
      → Node.find_child val_of (val_of c) n'.children ≡ none
      → Agrees (Node1.set_child (val_of c) c n) (record n' { children = n'.children ++ c ∷ [] })
  unfolding Node.get_child Node1.set_child
  added-Agrees c n n' same free v =
      get_child-eq v (Node1.set_child (val_of c) c n)
      ∙ find-assign v (val_of c) c n.child_map
      ∙ ap (λ o. if v == val_of c then some c else o) (sym (get_child-eq v n) ∙ same v)
      ∙ sym (find_child-snoc v c n'.children free)

  -- For a child's own character, where the node has no child for it and room for one, `set_child`
  -- of `node1_t` and of the interface, as `node2_t` implements it, lead from nodes that give the
  -- same children to such nodes; and so does `kill_children`.
  pub set_child-Agrees :
      (c : Ptr) (n : Node1) (n' : Node)
      → Agrees n n'
      → Node.child_exists val_of (val_of c) n' ≡ false
      → length n'.children < 126
      → Returns (Agrees (Node1.set_child (val_of c) c n)) (Node.set_child val_of (val_of c) c n')
        × Agrees (Node1.kill_children n) (Node.kill_children n')
  unfolding Node.set_child Node.child_exists Node.get_child Node1.kill_children Node.kill_children
      Node1.get_child Node1.child_exists Node1.find Node.find_child
  set_child-Agrees c n n' same free room =
      let fits : (length n'.children == 126) ≡ false = ground arith in
      (
        elim (Option-cases (Node.find_child val_of (val_of c) n'.children)) [
          | inl e ↦ rw (e, fits) (returns _ (added-Agrees c n n' same e))
          | inr (d, e) ↦ absurd (cc (free, ap is_some e))
        ],
        λ v. refl,
      )
