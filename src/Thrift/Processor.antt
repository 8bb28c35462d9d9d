-- ===== src/Thrift/Processor.antt =====
-- `RemoteInfixSearchProcessor` (thrift/service-cpp/RemoteInfixSearch.cpp): a call is read, served
-- by the handler `iface`, and answered. Without an event handler, which nothing sets.
use infix_search.Base.{ℕ, true, Option, none, some, [], if◌then◌else◌}
use infix_search.Thrift.{
  TProtocol, t_struct, t_reply, t_exception, Try, done, crashed, ◌>>=◌, unknown, unknown_method,
  Served, served, threw, died, RemoteInfixSearchIf,
}
use infix_search.Thrift.Structs.{Success}
use infix_search.Thrift.Ping
use infix_search.Thrift.FindMatches
use infix_search.Thrift.RegisterService
use infix_search.Thrift.DeregisterService
use Prim.Native.String.{String, ◌++◌ as append}
use text.Mathlib.Text.{◌==◌ as str_eq}

-- `processMap_`.
pub data Method : Type 0 where
  ping find_matches register_service deregister_service : Method

unfoldable pub process_map : String → Option Method
process_map fname =
    if str_eq fname "ping"
    then some ping
    else if str_eq fname "findMatches"
    then some find_matches
    else if str_eq fname "registerService"
    then some register_service
    else if str_eq fname "deregisterService"
    then some deregister_service
    else none

-- The fuel bounds the fields of the arguments; `end` follows the answer in its stream. A call gives
-- the answer and the handler's state.
module _ (P : TProtocol) {S : Type 0} (iface : RemoteInfixSearchIf S) (fuel : ℕ)
    (end : P.Wire) where
  open P use {
    Wire, read_message_end, skip, write_message_begin, write_message_end,
    write_application_exception,
  }

  -- A message with a `TApplicationException`.
  unfoldable pub exception_message : String → ℕ → ℕ → String → Wire
  exception_message fname seqid kind message =
      write_message_begin fname t_exception seqid
        (write_application_exception kind message (write_message_end end))

  -- The end of each `process_` method: the result, or what the handler threw.
  unfoldable pub respond :
      {A : Type 0} → String → ℕ → (Success A → Wire → Wire) → Served S A → Try (Wire × S)
  respond fname seqid write_result (served a s) = done (
    write_message_begin fname t_reply seqid
        (write_result (record { success = a; is_set = true }) (write_message_end end)),
    s,
  )
  respond fname seqid write_result (threw what s) =
      done (exception_message fname seqid unknown what, s)
  respond fname seqid write_result died = crashed

  unfoldable pub process_ping : ℕ → Wire → S → Try (Wire × S)
  process_ping seqid w s = Ping.read_args P fuel w >>= λ (args, w1).
      read_message_end w1 >>= λ w2. respond "ping" seqid (Ping.write_result P) (iface.ping s)

  unfoldable pub process_find_matches : ℕ → Wire → S → Try (Wire × S)
  process_find_matches seqid w s = FindMatches.read_args P fuel w >>= λ (args, w1).
      read_message_end w1 >>= λ w2.
      respond "findMatches" seqid (FindMatches.write_result P) (iface.find_matches [] args.key s)

  unfoldable pub process_register_service : ℕ → Wire → S → Try (Wire × S)
  process_register_service seqid w s = RegisterService.read_args P fuel w >>= λ (args, w1).
      read_message_end w1 >>= λ w2.
      respond "registerService" seqid (RegisterService.write_result P)
        (iface.register_service args.host args.port s)

  unfoldable pub process_deregister_service : ℕ → Wire → S → Try (Wire × S)
  process_deregister_service seqid w s = DeregisterService.read_args P fuel w >>= λ (args, w1).
      read_message_end w1 >>= λ w2.
      respond "deregisterService" seqid (DeregisterService.write_result P)
        (iface.deregister_service args.host args.port s)

  unfoldable pub process : Method → ℕ → Wire → S → Try (Wire × S)
  process ping = process_ping
  process find_matches = process_find_matches
  process register_service = process_register_service
  process deregister_service = process_deregister_service

  -- What `dispatchCall` does with the entry that it finds.
  unfoldable pub call_method : Option Method → String → ℕ → Wire → S → Try (Wire × S)
  call_method none fname seqid w s = skip t_struct w >>= λ w1. read_message_end w1 >>= λ w2. done (
    exception_message fname seqid unknown_method
        (append "Invalid method name: '" (append fname "'")),
    s,
  )
  call_method (some method) fname seqid w s = process method seqid w s

  unfoldable pub dispatch_call : String → ℕ → Wire → S → Try (Wire × S)
  dispatch_call fname = call_method (process_map fname) fname
