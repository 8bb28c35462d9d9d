-- ===== src/Node2/Tails.antt =====
-- `set_tail` of `node2_t` refines that of `Node`, within the buffer.
use infix_search.Base.{
  ℕ, suc, zero, ◌+◌, ◌≤◌, ◌<◌, ◌≡◌, refl, ap, List, [], ◌∷◌, ◌++◌, arith, ◌==◌, length-append,
  length-replicate, Bool-cases, inl, inr, length, drop, ◌-◌,
}
use infix_search.Base.Run.{ok, Returns, returns}
use infix_search.Base.Text.{c_str, IsText, c_str-terminated, c_str-text}
use infix_search.Node
use infix_search.Node.{Ptr, Node}
use infix_search.Node2
use infix_search.Node2.{
  Node2, realloc, strcpy, tail_buffer, slots, children_loop, exists_loop, child_loop, slot_loop,
  placed_in, grow,
}
use infix_search.Node2.Encoding.{slots_of, Represents, represents}

strcpy-fits :
    (m k : ℕ) (rest t : List ℕ)
    → IsText t
    → length t < length rest
    → strcpy 2 t (m ∷ k ∷ rest) ≡ ok (m ∷ k ∷ t ++ 0 ∷ drop (suc (length t)) rest)
unfolding strcpy
strcpy-fits m k rest t text fits =
    let size : 2 + length t + 1 ≡ suc (suc (suc (length t))) = omega arith in
    rw (c_str-text t text, size) (ground arith)

length-c_str_le :
    (m k : ℕ) (t spare : List ℕ) → IsText t → length (c_str (m ∷ k ∷ t ++ 0 ∷ spare)) ≤ 2 + length t
unfolding c_str
length-c_str_le m k t spare text = ground (arith, ap length (c_str-terminated t spare text))

suc-sub_suc : (n m : ℕ) → suc (suc n) - suc (suc m) ≡ n - m
suc-sub_suc n m = omega arith

length-realloc : (n : ℕ) (xs : List ℕ) → length (realloc 0 n xs) ≡ n
length-realloc zero xs = let gone : 0 - length xs ≡ 0 = omega arith in rw gone refl
length-realloc (suc n) [] =
    let all : suc n - 0 ≡ suc n = omega arith in rw all (length-replicate (suc n) 0)
length-realloc (suc n) (x ∷ xs) =
    let shift : suc n - suc (length xs) ≡ n - length xs = omega arith in
    rw shift (ap suc (length-realloc n xs))

-- Whether or not it is reallocated, the buffer has room for the text and its NUL.
tail_buffer-fits :
    (m k : ℕ) (old spare t : List ℕ)
    → IsText old
    → (rest : List ℕ) × (tail_buffer t (m ∷ k ∷ old ++ 0 ∷ spare) ≡ m ∷ k ∷ rest)
      × (length t < length rest)
unfolding tail_buffer
tail_buffer-fits m k old spare t text =
    elim (Bool-cases (length (c_str (m ∷ k ∷ old ++ 0 ∷ spare)) + 1 == 3 + length t)) [
      | inl same ↦ (
        old ++ 0 ∷ spare,
        rw same,
        ground (arith, length-c_str_le m k old spare text, length-append old (0 ∷ spare)),
      )
      | inr other ↦
          let size : 3 + length t ≡ suc (suc (suc (length t))) = omega arith in
          let rest : List ℕ = realloc 0 (suc (length t)) (old ++ 0 ∷ spare) in
          (
            rest,
            rw (other, size, suc-sub_suc (suc (length t)) (length (old ++ 0 ∷ spare))),
            omega (arith, length-realloc (suc (length t)) (old ++ 0 ∷ spare)),
          )
    ]

-- With a text without NUL `set_tail` never writes outside the buffer, whether or not it reallocates
-- it, and the node then represents the same fields with the new tail.
pub set_tail-Represents :
    {n : Node2} {a : Node} (t : List ℕ)
    → Represents n a
    → IsText t
    → Returns (λ n'. Represents n' (Node.set_tail t a)) (Node2.set_tail t n)
unfolding Node2.set_tail Node.set_tail
set_tail-Represents t (represents meta spare a flags text room) nul_free =
    let (rest, same, fits) =
      tail_buffer-fits meta (suc (length (slots_of a.children))) a.tail spare t text in
    rw (same, strcpy-fits meta _ rest t nul_free fits, c_str-text t nul_free)
      (returns _ (represents meta _ (record a { tail = t }) flags nul_free room))
