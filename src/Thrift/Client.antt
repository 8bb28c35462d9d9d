-- ===== src/Thrift/Client.antt =====
-- `RemoteInfixSearchClient` (thrift/service-cpp/RemoteInfixSearch.cpp): a method writes a call to
-- the one protocol and reads the answer from the other. `serve` stands for what is at the other end
-- of the connection, with its state; `end` follows the call in its stream.
pub mod Calls
pub mod Methods
pub mod Errors
use infix_search.Base.{ℕ, Bool, true, false, not, List, [], ◌∷◌, if◌then◌else◌}
use infix_search.Thrift.{
  TProtocol, t_struct, TMessageType, t_call, t_reply, t_exception, t_oneway, Try, done, raised,
  application, ◌>>=◌, missing_result,
}
use infix_search.Thrift.Structs.{Success}
use infix_search.Thrift.Ping
use infix_search.Thrift.FindMatches
use infix_search.Thrift.RegisterService
use infix_search.Thrift.DeregisterService
use Prim.Native.String.{String, ◌++◌ as append}
use text.Mathlib.Text.{◌==◌ as str_eq}

abbrev is_reply : TMessageType → Bool
is_reply t_reply = true
is_reply _ = false

abbrev is_exception : TMessageType → Bool
is_exception t_exception = true
is_exception _ = false

module _ (P : TProtocol) (fuel : ℕ) where
  open P use {
    Wire, read_message_begin, read_message_end, read_application_exception, skip,
    write_message_begin, write_message_end,
  }

  -- The rest of a message that is not the one awaited. The method reads on behind it.
  unfoldable pub skip_message : Bool → Wire → Try Wire
  skip_message false w = done w
  skip_message true w = skip t_struct w >>= λ w1. read_message_end w1

  -- `recv_` of the method `name`, whose result `read_presult` reads.
  unfoldable pub recv :
      {A : Type 0} → String → (ℕ → Wire → Try (Success A × Wire)) → Wire → Try (A × Wire)
  recv name read_presult w = read_message_begin w >>= λ (fname, mtype, rseqid, w1).
      let x : Try _ = read_application_exception w1 >>= λ (kind, message, w2).
      read_message_end w2 >>= λ w3. raised (application kind message) in
      let result : Try _ = skip_message (not (is_reply mtype)) w1 >>= λ w2.
      skip_message (not (str_eq fname name)) w2 >>= λ w3. read_presult fuel w3 >>= λ (result, w4).
      read_message_end w4 >>= λ w5.
      if result.is_set
      then done (result.success, w5)
      else raised (application missing_result (append name " failed: unknown result")) in
      if is_exception mtype then x else result

  -- The beginning of each `send_` method, with `cseqid` 0.
  unfoldable pub send : String → (Wire → Wire) → Wire → Wire
  send name write_pargs end =
      write_message_begin name t_call 0 (write_pargs (write_message_end end))

  unfoldable pub send_ping : Wire → Wire
  send_ping = send "ping" (Ping.write_pargs P)

  unfoldable pub recv_ping : Wire → Try (ℕ × Wire)
  recv_ping = recv "ping" (Ping.read_presult P)

  unfoldable pub send_find_matches : List ℕ → Wire → Wire
  send_find_matches key = send "findMatches" (FindMatches.write_pargs P key)

  unfoldable pub recv_find_matches : List (List ℕ) → Wire → Try (List (List ℕ) × Wire)
  recv_find_matches found = recv "findMatches" (FindMatches.read_presult P found)

  unfoldable pub send_register_service : List ℕ → ℕ → Wire → Wire
  send_register_service host port = send "registerService" (RegisterService.write_pargs P host port)

  unfoldable pub recv_register_service : Wire → Try (ℕ × Wire)
  recv_register_service = recv "registerService" (RegisterService.read_presult P)

  unfoldable pub send_deregister_service : List ℕ → ℕ → Wire → Wire
  send_deregister_service host port =
      send "deregisterService" (DeregisterService.write_pargs P host port)

  unfoldable pub recv_deregister_service : Wire → Try (ℕ × Wire)
  recv_deregister_service = recv "deregisterService" (DeregisterService.read_presult P)

  module _ {S : Type 0} (serve : Wire → S → Try (Wire × S)) (end : Wire) where
    -- `send_` and then `recv_`: the result or the exception, and the state at the other end.
    unfoldable pub exchange : {A : Type 0} → Wire → (Wire → Try (A × Wire)) → S → Try (Try A × S)
    exchange call receive s =
        serve call s >>= λ (answer, s'). done (receive answer >>= λ (a, w). done a, s')

    unfoldable pub ping : S → Try (Try ℕ × S)
    ping = exchange (send_ping end) recv_ping

    unfoldable pub find_matches : List (List ℕ) → List ℕ → S → Try (Try (List (List ℕ)) × S)
    find_matches found key = exchange (send_find_matches key end) (recv_find_matches found)

    unfoldable pub register_service : List ℕ → ℕ → S → Try (Try ℕ × S)
    register_service host port =
        exchange (send_register_service host port end) recv_register_service

    unfoldable pub deregister_service : List ℕ → ℕ → S → Try (Try ℕ × S)
    deregister_service host port =
        exchange (send_deregister_service host port end) recv_deregister_service
