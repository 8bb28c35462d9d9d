-- ===== src/Thrift/Client/Errors.antt =====
-- What a caller sees of a method that there is not, and of a result that is not set; and what the
-- processor makes of fields that it does not know.
use infix_search.Base.{
  ℕ, suc, ◌+◌, ◌≡◌, ◌≢◌, refl, true, false, none, List, [], ◌∷◌, length, ==_ne, arith,
}
use infix_search.Thrift.{
  TProtocol, IsFaithful, t_struct, t_string, t_reply, Try, done, raised, application,
  unknown_method, missing_result, RemoteInfixSearchIf,
}
use infix_search.Thrift.Structs.{
  Success, read_fields, read_struct, skip_field, write_i32_result, read_i32_result,
}
use infix_search.Thrift.Structs.Reads.{unset-read}
use infix_search.Thrift.FindMatches.{Args, switch_key, read_args}
use infix_search.Thrift.Processor.{process_map, call_method, exception_message, dispatch_call}
use infix_search.Thrift.Client.{skip_message, recv}
use Prim.Native.String.{String, ◌++◌ as append}
use text.Mathlib.TextPositions.{eq_refl}

-- Fields of strings, with these numbers.
unfoldable pub write_extras : (P : TProtocol) → List (ℕ × List ℕ) → P.Wire → P.Wire
write_extras P [] w = w
write_extras P ((fid, s) ∷ extras) w =
    P.write_field_begin "extra" t_string fid
      (P.write_string s (P.write_field_end (write_extras P extras w)))

abbrev AreUnknown : List (ℕ × List ℕ) → Type 0
AreUnknown [] = Unit
AreUnknown ((fid, s) ∷ extras) = (fid ≢ 1) × AreUnknown extras

module _ {P : TProtocol} (faithful : IsFaithful P) where
  open faithful use {
    message_begin, message_end, struct_begin, struct_end, field_begin, field_stop, field_end,
    string, skip_string, application_exception,
  }

  -- A call of a method that is not in the processor's map, whose arguments can be skipped, is
  -- answered by an exception that names the method, and changes nothing.
  pub dispatch_call-unknown :
      {S A : Type 0} (iface : RemoteInfixSearchIf S) (fuel : ℕ) (end : P.Wire)
      (name awaited : String) (seqid : ℕ) (args rest : P.Wire) (s : S)
      (read_presult : ℕ → P.Wire → Try (Success A × P.Wire))
      → process_map name ≡ none
      → P.skip t_struct args ≡ done (P.write_message_end rest)
      → (answer : P.Wire) × (dispatch_call P iface fuel end name seqid args s ≡ done (answer, s))
        × (recv P fuel awaited read_presult answer
            ≡ raised
                (application unknown_method (append "Invalid method name: '" (append name "'"))))
  unfolding dispatch_call call_method recv exception_message
  dispatch_call-unknown iface fuel end name awaited seqid args rest s read_presult absent skips = (
    exception_message P iface fuel end name seqid unknown_method
        (append "Invalid method name: '" (append name "'")),
    rw (absent, skips, message_end rest) refl,
    simp (message_begin, application_exception, message_end),
  )

  -- An answer whose `i32` is not set makes the client throw.
  recv-unset :
      (fuel : ℕ) (name struct : String) (seqid n : ℕ) (rest : P.Wire)
      → recv P (suc fuel) name (read_i32_result P) (
          P.write_message_begin name t_reply seqid (
            write_i32_result P struct
              (record { success = n; is_set = false })
              (P.write_message_end rest)))
        ≡ raised (application missing_result (append name " failed: unknown result"))
  unfolding recv skip_message
  recv-unset fuel name struct seqid n rest =
      simp (message_begin, eq_refl, unset-read faithful fuel struct n, message_end)

  extras-read :
      (extras : List (ℕ × List ℕ)) (fuel : ℕ) (r : Args) (w : P.Wire)
      → AreUnknown extras
      → read_fields P (switch_key P) (length extras + fuel) r (write_extras P extras w)
        ≡ read_fields P (switch_key P) fuel r w
  unfolding read_fields switch_key skip_field write_extras
  extras-read [] fuel r w other = let z : 0 + fuel ≡ fuel = omega arith in rw z refl
  extras-read ((fid, s) ∷ extras) fuel r w other =
      let z : suc (length extras) + fuel ≡ suc (length extras + fuel) = omega arith in
      rw (z, field_begin, ==_ne fid 1 other.0, skip_string, field_end)
        (extras-read extras fuel r w other.1)

  key-read :
      (fuel : ℕ) (r : Args) (key : List ℕ) (w : P.Wire)
      → read_fields P
          (switch_key P)
          (suc fuel)
          r
          (P.write_field_begin "key" t_string 1 (P.write_string key (P.write_field_end w)))
        ≡ read_fields P (switch_key P) fuel (record { key = key; is_set = true }) w
  unfolding read_fields switch_key
  key-read fuel r key w = simp (field_begin, string, field_end)

  stop-read :
      (fuel : ℕ) (r : Args) (w : P.Wire)
      → read_fields P (switch_key P) (suc fuel) r (P.write_field_stop w) ≡ done (r, w)
  unfolding read_fields
  stop-read fuel r w = rw field_stop refl

  -- The arguments of `findMatches` from a client that sends more fields, in front of the key and
  -- behind it, are read as those of one that sends the key.
  read_args-extras :
      (fuel : ℕ) (before after : List (ℕ × List ℕ)) (key : List ℕ) (w : P.Wire)
      → AreUnknown before
      → AreUnknown after
      → read_args P (length before + suc (length after + suc fuel)) (
          P.write_struct_begin "RemoteInfixSearch_findMatches_args" (
            write_extras P before (
              P.write_field_begin "key" t_string 1 (
                P.write_string key (
                  P.write_field_end
                    (write_extras P after (P.write_field_stop (P.write_struct_end w))))))))
        ≡ done (record { key = key; is_set = true }, w)
  unfolding read_args read_struct
  read_args-extras fuel before after key w other other' = simp (
    struct_begin,
    extras-read before (suc (length after + suc fuel)) _ _ other,
    key-read,
    extras-read after (suc fuel) _ _ other',
    stop-read,
    struct_end,
  )
