-- ===== src/Thrift/FindMatches/Reads.antt =====
-- The arguments and the result of `findMatches` that are written are read back.
use infix_search.Base.{ℕ, suc, ◌<◌, ◌^◌, ◌≡◌, refl, true, List, [], ◌∷◌, length}
use infix_search.Thrift.{TProtocol, IsFaithful, done}
use infix_search.Thrift.Structs.{read_fields, read_struct}
use infix_search.Thrift.FindMatches.{
  switch_key, read_args, write_pargs, read_strings, write_strings, switch_matches, write_result,
  read_presult,
}

module _ {P : TProtocol} (faithful : IsFaithful P) where
  open faithful use {
    struct_begin, struct_end, field_begin, field_stop, field_end, list_begin, list_end, string,
  }

  pub args-read :
      (fuel : ℕ) (key : List ℕ) (w : P.Wire)
      → read_args P (suc (suc fuel)) (write_pargs P key w)
        ≡ done (record { key = key; is_set = true }, w)
  unfolding read_args write_pargs read_struct read_fields switch_key
  args-read fuel key w = simp (struct_begin, field_begin, field_stop, field_end, struct_end, string)

  strings-read :
      (ss : List (List ℕ)) (w : P.Wire)
      → read_strings P (length ss) (write_strings P ss w) ≡ done (ss, w)
  unfolding read_strings write_strings
  strings-read [] w = refl
  strings-read (s ∷ ss) w = simp (string, strings-read ss w)

  pub matches-read :
      (fuel : ℕ) (found ss : List (List ℕ)) (w : P.Wire)
      → length ss < 2 ^ 31
      → read_presult P found
          (suc (suc fuel))
          (write_result P (record { success = ss; is_set = true }) w)
        ≡ done (record { success = ss; is_set = true }, w)
  unfolding read_presult write_result read_struct read_fields switch_matches
  matches-read fuel found ss w small = simp (
    struct_begin,
    field_begin,
    field_stop,
    field_end,
    struct_end,
    list_end,
    list_begin _ (length ss) _ small,
    strings-read,
  )
