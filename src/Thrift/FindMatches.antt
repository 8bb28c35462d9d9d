-- ===== src/Thrift/FindMatches.antt =====
-- The arguments and the result of `findMatches` (thrift/service-cpp/RemoteInfixSearch.cpp).
pub mod Reads
use infix_search.Base.{ℕ, zero, suc, Bool, true, false, List, [], ◌∷◌, ◌==◌, if◌then◌else◌, length}
use infix_search.Thrift.{TProtocol, TType, t_string, t_list, Try, done, ◌>>=◌}
use infix_search.Thrift.Structs.{
  Success, HostPort, is_string, is_list, read_struct, skip_field, read_i32_result, write_i32_result,
  read_host_port, write_host_port,
}

-- `key` and `__isset.key`.
pub record Args : Type 0 where
  pub key : List ℕ
  pub is_set : Bool

module _ (P : TProtocol) where
  open P use {
    Wire, read_list_begin, read_list_end, read_string, write_struct_begin, write_struct_end,
    write_field_begin, write_field_end, write_field_stop, write_list_begin, write_list_end,
    write_string,
  }

  unfoldable pub switch_key : Args → TType → ℕ → Wire → Try (Args × Wire)
  switch_key r ftype fid w =
      if fid == 1
      then (if is_string ftype
          then (read_string w >>= λ (s, w'). done (record { key = s; is_set = true }, w'))
          else skip_field P r ftype w)
      else skip_field P r ftype w

  unfoldable pub read_args : ℕ → Wire → Try (Args × Wire)
  read_args fuel w = read_struct P switch_key fuel (record { key = []; is_set = false }) w

  unfoldable pub write_args : List ℕ → Wire → Wire
  write_args key w = write_struct_begin "RemoteInfixSearch_findMatches_args" (
      write_field_begin "key" t_string 1
        (write_string key (write_field_end (write_field_stop (write_struct_end w)))))

  unfoldable pub write_pargs : List ℕ → Wire → Wire
  write_pargs key w = write_struct_begin "RemoteInfixSearch_findMatches_pargs" (
      write_field_begin "key" t_string 1
        (write_string key (write_field_end (write_field_stop (write_struct_end w)))))

  -- The loop that reads the strings of a list.
  unfoldable pub read_strings : ℕ → Wire → Try (List (List ℕ) × Wire)
  read_strings zero w = done ([], w)
  read_strings (suc size) w =
      read_string w >>= λ (s, w'). read_strings size w' >>= λ (ss, w''). done (s ∷ ss, w'')

  unfoldable pub write_strings : List (List ℕ) → Wire → Wire
  write_strings [] w = w
  write_strings (s ∷ ss) w = write_string s (write_strings ss w)

  unfoldable pub switch_matches :
      Success (List (List ℕ)) → TType → ℕ → Wire → Try (Success (List (List ℕ)) × Wire)
  switch_matches r ftype fid w =
      if fid == 0
      then (if is_list ftype
          then (read_list_begin w >>= λ (size, w1). read_strings size w1 >>= λ (ss, w2).
              read_list_end w2 >>= λ w3. done (record { success = ss; is_set = true }, w3))
          else skip_field P r ftype w)
      else skip_field P r ftype w

  unfoldable pub read_result : ℕ → Wire → Try (Success (List (List ℕ)) × Wire)
  read_result fuel w = read_struct P switch_matches fuel (record { success = []; is_set = false }) w

  unfoldable pub write_result : Success (List (List ℕ)) → Wire → Wire
  write_result r w =
      let rest = write_field_stop (write_struct_end w) in
      let list =
        write_list_begin t_string (length r.success)
          (write_strings r.success (write_list_end (write_field_end rest))) in
      write_struct_begin "RemoteInfixSearch_findMatches_result"
        (if r.is_set then write_field_begin "success" t_list 0 list else rest)

  -- Into `found`, the vector that the caller of the client passes.
  unfoldable pub read_presult : List (List ℕ) → ℕ → Wire → Try (Success (List (List ℕ)) × Wire)
  read_presult found fuel w =
      read_struct P switch_matches fuel (record { success = found; is_set = false }) w
