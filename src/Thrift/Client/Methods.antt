-- ===== src/Thrift/Client/Methods.antt =====
-- Each method of the client, over the processor: it does what the handler's method does.
use infix_search.Base.{ℕ, suc, ◌<◌, ◌^◌, ◌≡◌, ◌∙◌, List, [], length}
use infix_search.Thrift.{TProtocol, IsFaithful, Try, RemoteInfixSearchIf}
use infix_search.Thrift.Structs.Reads.{i32_result-read, host_port-read}
use infix_search.Thrift.Ping
use infix_search.Thrift.FindMatches
use infix_search.Thrift.FindMatches.Reads.{args-read, matches-read}
use infix_search.Thrift.RegisterService
use infix_search.Thrift.DeregisterService
use infix_search.Thrift.Processor.{
  process_map, call_method, process_ping, process_find_matches, process_register_service,
  process_deregister_service, process, dispatch_call,
}
use infix_search.Thrift.Client
use infix_search.Thrift.Client.{skip_message, recv, send, exchange}
use infix_search.Thrift.Structs.{read_struct, read_fields}
use infix_search.Thrift.Client.Calls.{Dispatches, delivered, IfServed, exchange-respond}

module _ {P : TProtocol} (faithful : IsFaithful P) {S : Type 0} (iface : RemoteInfixSearchIf S)
    (rounds : ℕ) (end : P.Wire) (serve : P.Wire → S → Try (P.Wire × S))
    (dispatches : Dispatches P iface (suc (suc (suc rounds))) end serve) where
  open faithful use {message_end, struct_begin, struct_end, field_stop}

  -- Over a faithful protocol, a call of `ping` returns what the handler returns, if that is an
  -- `i32`, or throws with the text of its exception; the state is the one that the handler leaves.
  ping-delivered :
      (s : S)
      → IfServed (λ n. n < 2 ^ 32) (iface.ping s)
      → Client.ping P (suc (suc (suc rounds))) serve end s ≡ delivered (iface.ping s)
  unfolding Client.ping Client.send_ping Client.recv_ping send dispatch_call call_method process_map
      process process_ping Ping.read_args Ping.write_pargs Ping.read_presult Ping.write_result
      read_struct read_fields
  ping-delivered s good =
      exchange-respond faithful (suc (suc (suc rounds))) end iface serve (λ n. n < 2 ^ 32) "ping" 0
        (Ping.write_result P) (Ping.read_presult P) _ s (iface.ping s)
        (λ n small w.
          i32_result-read faithful (suc rounds) "RemoteInfixSearch_ping_result" n w small)
        (dispatches "ping" 0 _ s ∙ simp (struct_begin, field_stop, struct_end, message_end)) good

  -- The same of `findMatches`, if the list has less than 2^31 strings, whatever `found` held.
  pub find_matches-delivered :
      (found : List (List ℕ)) (key : List ℕ) (s : S)
      → IfServed (λ ss. length ss < 2 ^ 31) (iface.find_matches [] key s)
      → Client.find_matches P (suc (suc (suc rounds))) serve end found key s
        ≡ delivered (iface.find_matches [] key s)
  unfolding Client.find_matches Client.send_find_matches Client.recv_find_matches send dispatch_call
      call_method process_map process process_find_matches
  find_matches-delivered found key s good =
      exchange-respond faithful (suc (suc (suc rounds))) end iface serve (λ ss. length ss < 2 ^ 31)
        "findMatches" 0 (FindMatches.write_result P) (FindMatches.read_presult P found) _ s
        (iface.find_matches [] key s)
        (λ ss small w. matches-read faithful (suc rounds) found ss w small)
        (dispatches "findMatches" 0 _ s ∙ simp (args-read faithful (suc rounds) key, message_end))
        good

  -- The same of `registerService`, for a port of 32 bits.
  pub register_service-delivered :
      (host : List ℕ) (port : ℕ) (s : S)
      → port < 2 ^ 32
      → IfServed (λ n. n < 2 ^ 32) (iface.register_service host port s)
      → Client.register_service P (suc (suc (suc rounds))) serve end host port s
        ≡ delivered (iface.register_service host port s)
  unfolding Client.register_service Client.send_register_service Client.recv_register_service send
      dispatch_call call_method process_map process process_register_service
      RegisterService.read_args RegisterService.write_pargs RegisterService.read_presult
      RegisterService.write_result
  register_service-delivered host port s small good =
      exchange-respond faithful (suc (suc (suc rounds))) end iface serve (λ n. n < 2 ^ 32)
        "registerService" 0 (RegisterService.write_result P) (RegisterService.read_presult P) _ s
        (iface.register_service host port s)
        (λ n le w.
          i32_result-read faithful (suc rounds) "RemoteInfixSearch_registerService_result" n w le)
        (dispatches "registerService" 0 _ s
          ∙ simp (
            host_port-read faithful rounds "RemoteInfixSearch_registerService_pargs" host port _
                small,
            message_end,
          ))
        good

  -- The same of `deregisterService`.
  deregister_service-delivered :
      (host : List ℕ) (port : ℕ) (s : S)
      → port < 2 ^ 32
      → IfServed (λ n. n < 2 ^ 32) (iface.deregister_service host port s)
      → Client.deregister_service P (suc (suc (suc rounds))) serve end host port s
        ≡ delivered (iface.deregister_service host port s)
  unfolding Client.deregister_service Client.send_deregister_service Client.recv_deregister_service
      send dispatch_call call_method process_map process process_deregister_service
      DeregisterService.read_args DeregisterService.write_pargs DeregisterService.read_presult
      DeregisterService.write_result
  deregister_service-delivered host port s small good =
      exchange-respond faithful (suc (suc (suc rounds))) end iface serve (λ n. n < 2 ^ 32)
        "deregisterService" 0 (DeregisterService.write_result P) (DeregisterService.read_presult P)
        _ s (iface.deregister_service host port s)
        (λ n le w.
          i32_result-read faithful (suc rounds) "RemoteInfixSearch_deregisterService_result" n w le)
        (dispatches "deregisterService" 0 _ s
          ∙ simp (
            host_port-read faithful rounds "RemoteInfixSearch_deregisterService_pargs" host port _
                small,
            message_end,
          ))
        good
