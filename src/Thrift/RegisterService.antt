-- ===== src/Thrift/RegisterService.antt =====
-- The arguments and the result of `registerService` (thrift/service-cpp/RemoteInfixSearch.cpp).
use infix_search.Base.{ℕ, List}
use infix_search.Thrift.{TProtocol, Try}
use infix_search.Thrift.Structs.{
  Success, HostPort, read_i32_result, write_i32_result, read_host_port, write_host_port,
}

module _ (P : TProtocol) where
  open P use {Wire}

  unfoldable pub read_args : ℕ → Wire → Try (HostPort × Wire)
  read_args = read_host_port P

  unfoldable pub write_args : List ℕ → ℕ → Wire → Wire
  write_args = write_host_port P "RemoteInfixSearch_registerService_args"

  unfoldable pub write_pargs : List ℕ → ℕ → Wire → Wire
  write_pargs = write_host_port P "RemoteInfixSearch_registerService_pargs"

  unfoldable pub read_result : ℕ → Wire → Try (Success ℕ × Wire)
  read_result = read_i32_result P

  unfoldable pub write_result : Success ℕ → Wire → Wire
  write_result = write_i32_result P "RemoteInfixSearch_registerService_result"

  unfoldable pub read_presult : ℕ → Wire → Try (Success ℕ × Wire)
  read_presult = read_i32_result P
