-- ===== src/Trie/Children.antt =====
-- How `set_child` and the loop that moves the children of a split node change the store.
use infix_search.Base.{
  ℕ, ◌+◌, ◌≤◌, ◌<◌, ◌≡◌, ◌≢◌, refl, sym, ap, ◌∙◌, none, some, List, [], ◌∷◌, ◌++◌, inl, inr, In,
  arith, In-right, In-dec, append-nil, length, append_assoc, ==_ne, length-append, subst,
}
use infix_search.Base.Run.{ok, Returns, returns, weaken}
use infix_search.Node
use infix_search.Node.{Ptr, Node}
use infix_search.Trie.{Trie, val_of, modify, set_child, move_children}
use infix_search.Trie.Shape.{tail_at, children_at, leaf_at, parent_at, Distinct}
use infix_search.Trie.Growth.{In-snoc}

module _ (f : Ptr → ℕ) (v : ℕ) where
  pub find_child-none :
      (cs : List Ptr) → ((d : Ptr) → In d cs → f d ≢ v) → Node.find_child f v cs ≡ none
  unfolding Node.find_child
  find_child-none [] h = refl
  find_child-none (c ∷ cs) h =
      rw (==_ne (f c) v (h c (inl refl))) (find_child-none cs (λ d i. h d (inr i)))

  pub find_child-some :
      (cs : List Ptr) {c : Ptr} → Node.find_child f v cs ≡ some c → In c cs × (f c ≡ v)
  unfolding Node.find_child
  find_child-some [] h = cc
  find_child-some (d ∷ cs) {c} h = ground (arith, find_child-some cs {c = c})

  pub ne_of_find_child-none :
      (cs : List Ptr) → Node.find_child f v cs ≡ none → (d : Ptr) → In d cs → f d ≢ v
  unfolding Node.find_child
  ne_of_find_child-none [] h d i = absurd i
  ne_of_find_child-none (c ∷ cs) h d (inl e) = ground arith
  ne_of_find_child-none (c ∷ cs) h d (inr i) = ground (arith, ne_of_find_child-none cs _ d i)

pub set_child-ok :
    (s : Trie) (p c : Ptr) (v : ℕ)
    → ((d : Ptr) → In d (children_at s p) → val_of s d ≢ v)
    → length (children_at s p) < 126
    → set_child p v c s ≡ ok (modify p (λ n. record n { children = n.children ++ c ∷ [] }) s)
unfolding set_child Node.set_child Node.child_exists Node.get_child
set_child-ok s p c v new room =
    rw
      (
        find_child-none (val_of s) v (children_at s p) new,
        ==_ne (length (children_at s p)) 126 (omega arith),
      )
      refl

pub Distinct-same :
    {f g : Ptr → ℕ} (cs : List Ptr)
    → ((q : Ptr) → In q cs → f q ≡ g q)
    → Distinct f cs
    → Distinct g cs
Distinct-same [] same h = tt
Distinct-same {f} {g} (c ∷ cs) same h = (
  λ d i e. h.0 d i (same c (inl refl) ∙ e ∙ sym (same d (inr i))),
  Distinct-same cs (λ q i. same q (inr i)) h.1,
)

Distinct-left :
    (f : Ptr → ℕ) (cs gs : List Ptr) (g d : Ptr) → Distinct f (cs ++ g ∷ gs) → In d cs → f d ≢ f g
Distinct-left f [] gs g d h i = absurd i
Distinct-left f (c ∷ cs) gs g d h (inl e) = rw e (h.0 g (In-right g cs (g ∷ gs) (inl refl)))
Distinct-left f (c ∷ cs) gs g d h (inr i) = Distinct-left f cs gs g d h.1 i

pub Distinct-snoc :
    (f : Ptr → ℕ) (cs : List Ptr) (g : Ptr)
    → Distinct f cs
    → ((d : Ptr) → In d cs → f d ≢ f g)
    → Distinct f (cs ++ g ∷ [])
Distinct-snoc f [] g h new = ((λ d i. absurd i), tt)
Distinct-snoc f (c ∷ cs) g h new = (
  λ d i e. elim ((In-snoc d g cs).0 i) [
    | inl j ↦ h.0 d j e
    | inr eq ↦ new c (inl refl) (e ∙ ap f eq)
  ],
  Distinct-snoc f cs g h.1 (λ d i. new d (inr i)),
)

-- `s'` is `s` with the nodes `gs` moved below `old`.
pub record Moved (s s' : Trie) (old : Ptr) (gs : List Ptr) : Type 0 where
  pub next : s'.next ≡ s.next
  pub head : s'.head ≡ s.head
  pub tails : (q : Ptr) → tail_at s' q ≡ tail_at s q
  pub leaves : (q : Ptr) → leaf_at s' q ≡ leaf_at s q
  pub children_old : children_at s' old ≡ children_at s old ++ gs
  pub children_other : (q : Ptr) → q ≢ old → children_at s' q ≡ children_at s q
  pub parent_moved : (q : Ptr) → In q gs → parent_at s' q ≡ some old
  pub parent_other : (q : Ptr) → ¬ In q gs → parent_at s' q ≡ parent_at s q

-- The store after one round of the loop.
abbrev move_one : Ptr → Ptr → Trie → Trie
move_one old g s =
    modify g (Node.set_parent (some old))
      (modify old (λ n. record n { children = n.children ++ g ∷ [] }) s)

val-move_one : (old g : Ptr) (s : Trie) (q : Ptr) → val_of s q ≡ val_of (move_one old g s) q
unfolding Node.get_val Node.set_parent
val-move_one old g s q = ground arith

children-move_one :
    (old g : Ptr) (s : Trie)
    → old ≢ g
    → children_at (move_one old g s) old ≡ children_at s old ++ g ∷ []
unfolding Node.set_parent
children-move_one old g s apart = ground arith

-- A grandchild that goes below `old` in front of others that go there too.
Moved-cons :
    {s s' : Trie} {old : Ptr} (g : Ptr) (gs : List Ptr)
    → old ≢ g
    → Moved (move_one old g s) s' old gs
    → Moved s s' old (g ∷ gs)
unfolding Node.set_parent
Moved-cons {s} {s'} {old} g gs apart m = record {
  next = m.next;
  head = m.head;
  tails = λ q. ground (arith, m.tails q);
  leaves = λ q. ground (arith, m.leaves q);
  children_old = ground (arith, append_assoc (children_at s old) (g ∷ []) gs, m.children_old);
  children_other = λ q ne. ground (arith, m.children_other q ne);
  parent_moved = λ q i. elim (In-dec q gs) [
    | yes j ↦ m.parent_moved q j
    | no j ↦ elim i [ inl e ↦ ground (arith, m.parent_other q j) | inr j' ↦ absurd (j j') ]
  ];
  parent_other =
      λ q out. ground (arith, m.parent_other q (λ j. out (inr j)), λ (e : q ≡ g). out (inl e));
}

pub move_children-Moved :
    (old : Ptr) (gs : List Ptr) (s : Trie)
    → Distinct (val_of s) (children_at s old ++ gs)
    → length (children_at s old) + length gs ≤ 126
    → ¬ In old gs
    → Returns (λ s'. Moved s s' old gs) (move_children old gs s)
unfolding move_children
move_children-Moved old [] s distinct room out = returns s (record {
  next = refl;
  head = refl;
  tails = λ q. refl;
  leaves = λ q. refl;
  children_old = sym (append-nil (children_at s old));
  children_other = λ q ne. refl;
  parent_moved = λ q i. absurd i;
  parent_other = λ q o. refl;
})
move_children-Moved old (g ∷ gs) s distinct room out =
    let apart : old ≢ g = λ e. out (inl e) in
    let s1 = move_one old g s in
    let below = children-move_one old g s apart in
    let same : children_at s old ++ g ∷ gs ≡ children_at s1 old ++ gs =
      rw below (sym (append_assoc (children_at s old) (g ∷ []) gs)) in
    let distinct' : Distinct (val_of s1) (children_at s1 old ++ gs) =
      subst (Distinct (val_of s1)) same
        (Distinct-same (children_at s old ++ g ∷ gs) (λ q _. val-move_one old g s q) distinct) in
    let room' : length (children_at s1 old) + length gs ≤ 126 =
      omega (arith, ap length below, length-append (children_at s old) (g ∷ [])) in
    rw
      (set_child-ok s old g (val_of s g)
        (λ d. Distinct-left (val_of s) (children_at s old) gs g d distinct) (omega arith))
      (weaken (move_children-Moved old gs s1 distinct' room' (λ i. out (inr i)))
        (λ s' m. Moved-cons g gs apart m))
