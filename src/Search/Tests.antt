-- ===== src/Search/Tests.antt =====
-- The search at the trie of "abcx" and "abcy", and the theorems about it there.
use infix_search.Base.{
  ◌≤◌, ◌<◌, drop, ◌++◌, true, false, sym, some, Bool-cases, ◌==◌, if◌then◌else◌, ◌∙◌, ◌⊎◌,
  length-append, ℕ, zero, suc, append-nil, ◌≡◌, ◌↔◌, inl, inr, refl, ap, false, none, List, [], ◌∷◌,
  arith, length, In, subst,
}
use infix_search.Base.Run.{◌>>=◌, Run, ok, fault, exits, out_of_fuel, Returns, Ends}
use infix_search.Node
use infix_search.Node.{Ptr, Node}
use infix_search.Trie.{Trie, add}
use infix_search.Trie.Shape.{Stored, Spells, at_child, leaf_at, tail_at, children_at, at_head}
use infix_search.Trie.Tests.{
  add_runs, two, abcx, abcy, abcx-IsText, abcy-IsText, one-done, two-done, two_stores, one_stores,
}
use infix_search.Trie.Add.{IsFull}
use infix_search.Trie.Start.{add-first}
use infix_search.Search.Index.{Serves}
use infix_search.Search.Exact.{EndsWell}
use infix_search.Search.Built.{
  IsBuilt, at_start, by_add, IsSearchable, add-IsSearchable, IsBuilt-IsSearchable, HasShortWords,
  IsBuilt-finds_all,
}
use infix_search.Search.{
  TreePos, TreePosMap, entries, Indexed, push_back, index_tail, index_children, index_trie,
  push_tail, traverse_up, down_children, traverse_down_util, suffixes_of, finish, matched, onward,
  find_path_util, find_each, find_path,
}
use infix_search.Search.Overflow.{needed, traverse_down_util-fits}
use infix_search.Search.Up.{depth, traverse_up-Spells}
use infix_search.Search.Paths.{
  IsLow, FitsBuffer, HasLeaves, IsFilled, IsLow-Height, FitsBuffer-IsShort,
}
use infix_search.Search.Queries.{ArePositions, IsIndex, Answers, find_path-AddsAnswers}
use infix_search.Search.Same.{Same-refl}
use infix_search.Search.Entries.{PairAt, Indexes, index_trie-Indexes}
use infix_search.Search.Down.{
  Has, Below, here, down, Listed, Height, FitsBelow, traverse_down_util-Listed,
}

unfoldable pub search_runs : Trie → Trie
unfolding add_runs Node.set_is_indexed push_back index_tail index_children index_trie push_tail
    traverse_up down_children traverse_down_util suffixes_of finish matched onward find_path_util
    find_each find_path
search_runs s = s

abbrev indexed : Indexed
indexed = record { trie = two; tpm = λ a b. none }

abbrev result : Run Indexed → Indexed
result (ok x) = x
result fault = indexed
result exits = indexed
result out_of_fuel = indexed

-- Both words are found by "bc", and one by "cy".
bc-found :
    find_path 5 (result (index_trie 5 0 false indexed)) (b'b' ∷ b'c' ∷ []) []
    ≡ ok ((b'a' ∷ b'b' ∷ b'c' ∷ b'x' ∷ []) ∷ (b'a' ∷ b'b' ∷ b'c' ∷ b'y' ∷ []) ∷ [])
unfolding search_runs
bc-found = refl

cy-found :
    find_path 5 (result (index_trie 5 0 false indexed)) (b'c' ∷ b'y' ∷ []) []
    ≡ ok ((b'a' ∷ b'b' ∷ b'c' ∷ b'y' ∷ []) ∷ [])
unfolding search_runs
cy-found = refl

-- The children of "abc" have one character each and no child.
abc_child :
    (c : Ptr) → In c (children_at two 1) → (children_at two c ≡ []) × (length (tail_at two c) ≡ 1)
unfolding add_runs
abc_child c (inl e) = (ap (children_at two) e, ap (λ p. length (tail_at two p)) e)
abc_child c (inr (inl e)) = (ap (children_at two) e, ap (λ p. length (tail_at two p)) e)
abc_child c (inr (inr none_left)) = absurd none_left

ends_at_leaf : (c : Ptr) {v : List ℕ} {q : Ptr} → children_at two c ≡ [] → Below two c v q → v ≡ []
ends_at_leaf c none_below (here e e') = e'
ends_at_leaf c none_below (down {c = d} i b e) = absurd (subst (λ l. In d l) none_below i)

abc-Height : Height two 2 1
abc-Height c i d j = absurd (subst (λ l. In d l) (abc_child c i).0 j)

abc_fits : FitsBelow two 1 (b'a' ∷ b'b' ∷ b'c' ∷ [])
abc_fits q v (here e e') = rw e' (omega arith)
abc_fits q v (down {c} {v = v'} i b e) =
    rw (e, ends_at_leaf c (abc_child c i).0 b, append-nil (tail_at two c), (abc_child c i).1)
      (omega arith)

traverse_down_util-Listed_example :
    Returns
      (λ found. (u : List ℕ) → Has u found ↔ Listed two 1 (b'a' ∷ b'b' ∷ b'c' ∷ []) u)
      (traverse_down_util 2 two 1 1 (b'a' ∷ []))
unfolding add_runs
traverse_down_util-Listed_example =
    traverse_down_util-Listed two_stores.0 2 1 1 (b'a' ∷ []) (omega arith) abc-Height abc_fits

-- The paths of the trie.
two_paths :
    {w : List ℕ} {p : Ptr} (r : Spells two 0 w p)
    → ((p ≡ 0) × (depth r ≡ 0) × (length w ≡ 1))
      ⊎ (((p ≡ 1) × (depth r ≡ 1) × (length w ≡ 4))
          ⊎ (((p ≡ 2) ⊎ (p ≡ 3)) × (depth r ≡ 2) × (length w ≡ 5)))
unfolding add_runs
two_paths (at_head a e) = inl (a, refl, ap length e)
two_paths (at_child {v} {w} {p} {c} r i e) = elim (two_paths r) [
  | inl (a, b, l) ↦ elim (subst (λ q. In c (children_at two q)) a i) [
    | inl e' ↦ inr (
        inl (
          e',
          ap suc b,
          omega (
            arith,
            l,
            ap length e ∙ length-append v (tail_at two c),
            ap (λ q. length (tail_at two q)) e',
          ),
        ))
    | inr none_left ↦ absurd none_left
  ]
  | inr (inl (a, b, l)) ↦ elim (subst (λ q. In c (children_at two q)) a i) [
    | inl e' ↦ inr (
        inr (
          inl e',
          ap suc b,
          omega (
            arith,
            l,
            ap length e ∙ length-append v (tail_at two c),
            ap (λ q. length (tail_at two q)) e',
          ),
        ))
    | inr (inl e') ↦ inr (
        inr (
          inr e',
          ap suc b,
          omega (
            arith,
            l,
            ap length e ∙ length-append v (tail_at two c),
            ap (λ q. length (tail_at two q)) e',
          ),
        ))
    | inr (inr none_left) ↦ absurd none_left
  ]
  | inr (inr (inl a, b, l)) ↦ absurd (subst (λ q. In c (children_at two q)) a i)
  | inr (inr (inr a, b, l)) ↦ absurd (subst (λ q. In c (children_at two q)) a i)
]

two-IsLow : IsLow two 0 5
two-IsLow w p r = elim (two_paths r) [
  | inl (a, b, l) ↦ omega arith
  | inr (inl (a, b, l)) ↦ omega arith
  | inr (inr (a, b, l)) ↦ omega arith
]

two-FitsBuffer : FitsBuffer two 0
two-FitsBuffer w p r = elim (two_paths r) [
  | inl (a, b, l) ↦ omega arith
  | inr (inl (a, b, l)) ↦ omega arith
  | inr (inr (a, b, l)) ↦ omega arith
]

traverse_up-Spells_example : traverse_up 5 two 1 2 [] ≡ ok (b'a' ∷ b'b' ∷ [])
unfolding add_runs
traverse_up-Spells_example =
    traverse_up-Spells two_stores.0 (FitsBuffer-IsShort two_stores.0 two-FitsBuffer) 5
      (at_head refl refl) 1 2 [] (inl refl) (omega arith) (omega arith)

two_leaf : (p : Ptr) → leaf_at two p ≡ true → (u : List ℕ) × Listed two p [] u
two_leaf p leaf = ([], (p, [], here refl refl, leaf, refl))

two-HasLeaves : HasLeaves two 0
unfolding add_runs
two-HasLeaves w p r below = elim (two_paths r) [
  | inl (a, b, l) ↦ absurd (below a)
  | inr (inl (a, b, l)) ↦
      subst (λ q. (u : List ℕ) × Listed two q [] u) (sym a)
        (
          b'x' ∷ [],
          (
            2,
            b'x' ∷ [],
            down {p = 1} {c = 2} {v = []} (inl refl) (here refl refl) refl,
            refl,
            refl,
          ),
        )
  | inr (inr (inl a, b, l)) ↦ two_leaf p (ap (leaf_at two) a)
  | inr (inr (inr a, b, l)) ↦ two_leaf p (ap (leaf_at two) a)
]

-- The "b" of "abc".
abbrev b_place : TreePos
b_place = record { node = 1; index = 1 }

abbrev b_map : TreePosMap
b_map a b = if a == b'b' then some (b_place ∷ []) else none

b_map-IsIndex : IsIndex two 0 b_map
unfolding add_runs
b_map-IsIndex a b nl ne e = elim (Bool-cases (a == b'b')) [
  | inl hit ↦
      let same : b_place ∷ [] ≡ nl =
        ap entries (sym (ap (λ x. if x then some (b_place ∷ []) else none) hit) ∙ e) in
      subst (ArePositions two 0) same (
        (
          b'a' ∷ [],
          (b'*' ∷ [], 0, at_head refl refl, inl refl, omega arith, refl),
          omega arith,
          omega arith,
        ),
        tt,
      )
  | inr miss ↦ absurd (grind arith)
]

two-IsFilled : IsFilled two
unfolding add_runs
two-IsFilled zero c i = refl
two-IsFilled (suc zero) c i = refl
two-IsFilled (suc (suc zero)) c i = refl
two-IsFilled (suc (suc (suc zero))) c i = refl
two-IsFilled (suc (suc (suc (suc p)))) c i =
    absurd (subst (λ l. In c l) (two_stores.0.fresh (suc (suc (suc (suc p)))) (omega arith)) i)

index_trie-Indexes_example :
    Returns (Indexes two indexed (PairAt two 0 false)) (index_trie 5 0 false indexed)
index_trie-Indexes_example =
    index_trie-Indexes 5 0 false indexed
      (IsLow-Height 5 5 (tail_at two 0) 0 (at_head refl refl) two-IsLow (omega arith)) two-IsFilled
      (Same-refl two)

two-IsBuilt : IsBuilt two
two-IsBuilt = by_add abcy (by_add abcx at_start abcx-IsText one-done) abcy-IsText two-done

two-HasShortWords : HasShortWords two 0
two-HasShortWords w (p, r, leaf) = two-FitsBuffer w p r

add-IsSearchable_example : Ends (λ s'. IsSearchable s' 0) (IsFull two) (add (b'a' ∷ b'b' ∷ []) two)
add-IsSearchable_example =
    add-IsSearchable (b'a' ∷ b'b' ∷ []) (IsBuilt-IsSearchable two-IsBuilt) (omega arith)

b_map-Serves : Serves two 0 5 (record { trie = two; tpm = b_map })
b_map-Serves a key found text ne =
    find_path-AddsAnswers two_stores.0 two-FitsBuffer two-HasLeaves 5 two-IsLow b_map a key found
      b_map-IsIndex text ne

two-length : (w : List ℕ) → Stored two 0 w → length w ≡ 5
unfolding add_runs
two-length w stored = elim ((two_stores.1 w).0 stored) [
  | inr e ↦ ap length e
  | inl before ↦ elim ((one_stores.1 w).0 before) [
    | inr e ↦ ap length e
    | inl first ↦ absurd ((add-first abcx).2 w first)
  ]
]

nil_of_length : (t : List ℕ) → length t ≡ 0 → t ≡ []
nil_of_length [] e = refl
nil_of_length (x ∷ t) e = absurd (omega (arith, e))

-- "abcx" ends with "cx", and no word begins with it.
cx-EndsWell : EndsWell two 0 (b'c' ∷ b'x' ∷ [])
cx-EndsWell pre stored =
    let cx : List ℕ = b'c' ∷ b'x' ∷ [] in
    let l = length-append pre cx in
    let n : length (pre ++ cx) ≡ 4 = omega (arith, two-length _ stored) in
    (
      λ e. absurd (omega (arith, ap length e, l, n)),
      λ post longer.
          let l' = length-append pre (cx ++ post) in
          let n' : length (pre ++ (cx ++ post)) ≡ 4 = omega (arith, two-length _ longer) in
          nil_of_length post (omega (arith, l, n, l', n')),
    )

IsBuilt-finds_all_example :
    Returns
      (λ found. (u : List ℕ) → Has u found ↔ Answers two 0 (b'c' ∷ b'x' ∷ []) u)
      (index_trie 102 0 false indexed >>= λ x. find_path 102 x (b'c' ∷ b'x' ∷ []) [])
IsBuilt-finds_all_example =
    IsBuilt-finds_all b'c' b'x' [] two-IsBuilt two-HasShortWords (omega arith) (omega arith)
      cx-EndsWell

traverse_down_util-fits_example :
    (((q : Ptr) (v : List ℕ)
        → Below two 1 v q
        → needed (leaf_at two q) ((b'a' ∷ drop 1 (tail_at two 1)) ++ v) ≤ 100)
      → Returns (λ found. Unit {0}) (traverse_down_util 2 two 1 1 (b'a' ∷ [])))
    × ((q : Ptr) (v : List ℕ)
        → Below two 1 v q
        → 100 < needed (leaf_at two q) ((b'a' ∷ drop 1 (tail_at two 1)) ++ v)
        → traverse_down_util 2 two 1 1 (b'a' ∷ []) ≡ fault)
traverse_down_util-fits_example = traverse_down_util-fits two 2 1 1 (b'a' ∷ []) abc-Height
