-- ===== src/Node1/Maps.antt =====
-- The map of children of `node1_t`: each character once, in the order of `char`.
use infix_search.Base.{
  inl, inr, ℕ, ◌<◌, ◌≡◌, ◌≢◌, refl, ◌∙◌, Bool-cases, some, Option-cases, [], ◌∷◌, ◌==◌, ==_iff, ltb,
  if◌then◌else◌, arith,
}
use infix_search.Node.{Ptr}
use infix_search.Node1.{
  NodeMap, char_order, find, assign, Node1, child_exists, get_child, set_child,
}

-- The entries are of bytes, above the place `k`.
abbrev AreAbove : ℕ → NodeMap → Type 0
AreAbove k [] = Unit
AreAbove k ((u, d) ∷ m) = (u < 256) × (k < char_order u) × AreAbove k m

abbrev pub IsSorted : NodeMap → Type 0
IsSorted [] = Unit
IsSorted ((u, d) ∷ m) = (u < 256) × AreAbove (char_order u) m × IsSorted m

char_order-injective : (u v : ℕ) → u < 256 → v < 256 → char_order u ≡ char_order v → u ≡ v
char_order-injective u v a b e = omega arith

AreAbove-assign :
    (k v : ℕ) (c : Ptr) (m : NodeMap)
    → v < 256
    → k < char_order v
    → AreAbove k m
    → AreAbove k (assign v c m)
unfolding assign
AreAbove-assign k v c [] byte above rest = (byte, above, tt)
AreAbove-assign k v c ((u, d) ∷ m) byte above (byte', above', rest) = elim (Bool-cases (v == u)) [
  | inl e ↦ rw e (byte, above, rest)
  | inr e ↦ rw e (elim (Bool-cases (ltb (char_order v) (char_order u))) [
    | inl lt ↦ rw lt (byte, above, (byte', above', rest))
    | inr ge ↦ rw ge (byte', above', AreAbove-assign k v c m byte above rest)
  ])
]

AreAbove-lt : (k k' : ℕ) (m : NodeMap) → k < k' → AreAbove k' m → AreAbove k m
AreAbove-lt k k' [] lt above = tt
AreAbove-lt k k' ((u, d) ∷ m) lt (byte, above, rest) =
    (byte, omega arith, AreAbove-lt k k' m lt rest)

assign-IsSorted : (v : ℕ) (c : Ptr) (m : NodeMap) → v < 256 → IsSorted m → IsSorted (assign v c m)
unfolding assign
assign-IsSorted v c [] byte sorted = (byte, tt, tt)
assign-IsSorted v c ((u, d) ∷ m) byte (byte', above, sorted) = elim (Bool-cases (v == u)) [
  | inl e ↦ rw (e, (==_iff v u).0 e) (byte', above, sorted)
  | inr e ↦ rw e (elim (Bool-cases (ltb (char_order v) (char_order u))) [
    | inl lt ↦
        let lt' : char_order v < char_order u = ground arith in
        rw lt (
          byte,
          (byte', lt', AreAbove-lt (char_order v) (char_order u) m lt' above),
          (byte', above, sorted),
        )
    | inr ge ↦
        let ne : v ≢ u = ground arith in
        let gt : char_order u < char_order v =
          ground (arith, char_order-injective u v byte' byte) in
        rw ge (
          byte',
          AreAbove-assign (char_order u) v c m byte gt above,
          assign-IsSorted v c m byte sorted,
        )
  ])
]

pub find-assign :
    (w v : ℕ) (c : Ptr) (m : NodeMap)
    → find w (assign v c m) ≡ (if w == v then some c else find w m)
unfolding find assign
find-assign w v c [] = refl
find-assign w v c ((u, d) ∷ m) = elim (Bool-cases (v == u)) [
  | inl e ↦ rw e (ground arith)
  | inr e ↦ rw e (elim (Bool-cases (ltb (char_order v) (char_order u))) [
    | inl lt ↦ rw lt refl
    | inr ge ↦ rw ge (ground (arith, find-assign w v c m))
  ])
]

pub get_child-eq : (v : ℕ) (n : Node1) → get_child v n ≡ find v n.child_map
unfolding get_child child_exists
get_child-eq v n = elim (Option-cases (find v n.child_map)) [
  | inl e ↦ rw e refl
  | inr (c, e) ↦ rw e refl
]

-- `set_child` for a character keeps the children in the order of `char`, each character once;
-- afterwards `get_child` gives the new node for it, whether or not there was one before, and for
-- every other character what it gave before.
pub set_child-IsSorted :
    (v : ℕ) (c : Ptr) (n : Node1)
    → v < 256
    → IsSorted n.child_map
    → IsSorted (set_child v c n).child_map
      × (get_child v (set_child v c n) ≡ some c)
      × ((w : ℕ) → w ≢ v → get_child w (set_child v c n) ≡ get_child w n)
unfolding set_child
set_child-IsSorted v c n byte sorted = (
  assign-IsSorted v c n.child_map byte sorted,
  get_child-eq v _ ∙ find-assign v v c n.child_map ∙ ground arith,
  λ w ne. get_child-eq w _ ∙ find-assign w v c n.child_map ∙ ground (arith, get_child-eq w n),
)
