-- ===== src/Thrift/Ping.antt =====
-- The arguments and the result of `ping` (thrift/service-cpp/RemoteInfixSearch.cpp). What the
-- client writes and reads, `pargs` and `presult`, has pointers to the values.
use infix_search.Base.{ℕ}
use infix_search.Thrift.{TProtocol, Try}
use infix_search.Thrift.Structs.{
  Success, read_struct, skip_field, read_i32_result, write_i32_result,
}

module _ (P : TProtocol) where
  open P use {Wire, write_struct_begin, write_struct_end, write_field_stop}

  -- There are no fields: what comes is skipped.
  unfoldable pub read_args : ℕ → Wire → Try (Unit {0} × Wire)
  read_args fuel w = read_struct P (λ r ftype fid. skip_field P r ftype) fuel tt w

  unfoldable pub write_args : Wire → Wire
  write_args w =
      write_struct_begin "RemoteInfixSearch_ping_args" (write_field_stop (write_struct_end w))

  unfoldable pub write_pargs : Wire → Wire
  write_pargs w =
      write_struct_begin "RemoteInfixSearch_ping_pargs" (write_field_stop (write_struct_end w))

  unfoldable pub read_result : ℕ → Wire → Try (Success ℕ × Wire)
  read_result = read_i32_result P

  unfoldable pub write_result : Success ℕ → Wire → Wire
  write_result = write_i32_result P "RemoteInfixSearch_ping_result"

  unfoldable pub read_presult : ℕ → Wire → Try (Success ℕ × Wire)
  read_presult = read_i32_result P
