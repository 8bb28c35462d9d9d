-- ===== src/Thrift/Tests.antt =====
-- Calls over the protocol of tokens, and the theorems about calls at them.
use infix_search.Base.{
  ℕ, zero, suc, ◌+◌, ◌<◌, ◌≡◌, refl, List, [], ◌∷◌, none, In, inl, inr, arith, replicate,
}
use infix_search.Trie.{empty}
use infix_search.Service.{Container, Handler, read_of, find_matches}
use infix_search.Service.Workers.{worker}
use infix_search.Service.Masters.{answers}
use infix_search.Thrift.{
  Try, done, raised, application, unknown_method, served, threw, RemoteInfixSearchIf, ◌>>=◌,
}
use infix_search.Thrift.Structs.{
  read_fields, read_struct, skip_field, switch_i32, read_i32_result, write_i32_result,
  switch_host_port, read_host_port, write_host_port,
}
use infix_search.Thrift.Ping
use infix_search.Thrift.FindMatches
use infix_search.Thrift.RegisterService
use infix_search.Thrift.Processor.{
  process_map, exception_message, respond, process_ping, process_find_matches,
  process_register_service, process_deregister_service, process, call_method, dispatch_call,
}
use infix_search.Base.Run.{ok}
use infix_search.Base.{if◌then◌else◌, ◌==◌}
use infix_search.Thrift.Client
use infix_search.Thrift.Client.{skip_message, recv, send, exchange}
use infix_search.Thrift.Client.Calls.{Dispatches}
use infix_search.Thrift.Client.Methods.{find_matches-delivered, register_service-delivered}
use infix_search.Thrift.Client.Errors.{dispatch_call-unknown, write_extras}
use infix_search.Thrift.Remote.{remote_answer, find_matches-local}
use infix_search.Thrift.Tokens.{Token, tokens, tokens_run, read_message, tokens-IsFaithful}

unfoldable calls_run : ℕ → ℕ
unfolding tokens_run read_fields read_struct skip_field switch_i32 read_i32_result write_i32_result
    switch_host_port read_host_port write_host_port process_map exception_message respond
    process_ping process_find_matches process_register_service process_deregister_service process
    call_method dispatch_call skip_message recv send exchange FindMatches.switch_key
    FindMatches.read_args FindMatches.write_pargs FindMatches.read_presult FindMatches.write_result
    FindMatches.read_strings FindMatches.write_strings FindMatches.switch_matches Ping.read_args
    Ping.write_pargs Ping.write_result Ping.read_presult RegisterService.read_args
    RegisterService.write_pargs RegisterService.read_presult RegisterService.write_result
    Client.ping Client.send_ping Client.recv_ping Client.find_matches Client.send_find_matches
    Client.recv_find_matches Client.register_service Client.send_register_service
    Client.recv_register_service write_extras remote_answer answers
calls_run n = n

-- It answers with the query, counts the calls, and knows no other host than "a".
abbrev echo : RemoteInfixSearchIf ℕ
echo = record {
  ping = λ n. served n (n + 1);
  find_matches = λ found key n. served (key ∷ []) (n + 1);
  register_service = λ host port n. served 7 (n + port);
  deregister_service = λ host port n. threw "unknown host" n;
}

-- A server on the other end.
abbrev pub serve : {S : Type 0} → RemoteInfixSearchIf S → List Token → S → Try (List Token × S)
serve iface w s =
    read_message w >>= λ (name, mtype, seqid, w1). dispatch_call tokens iface 3 [] name seqid w1 s

pub serve-Dispatches :
    {S : Type 0} (iface : RemoteInfixSearchIf S) → Dispatches tokens iface 3 [] (serve iface)
unfolding tokens_run
serve-Dispatches iface name seqid w s = refl

abbrev ab : List ℕ
ab = b'a' ∷ b'b' ∷ []

found_over_wire : Client.find_matches tokens 3 (serve echo) [] [] ab 4 ≡ done (done (ab ∷ []), 5)
unfolding calls_run
found_over_wire = refl

find_matches-delivered_example :
    Client.find_matches tokens 3 (serve echo) [] [] ab 4 ≡ done (done (ab ∷ []), 5)
find_matches-delivered_example =
    find_matches-delivered tokens-IsFaithful echo 0 [] (serve echo) (serve-Dispatches echo) [] ab 4
      (omega arith)

register_service-delivered_example :
    Client.register_service tokens 3 (serve echo) [] ab 80 4 ≡ done (done 7, 84)
register_service-delivered_example =
    register_service-delivered tokens-IsFaithful echo 0 [] (serve echo) (serve-Dispatches echo) ab
      80 4 (omega arith) (omega arith)

dispatch_call-unknown_example :
    (answer : List Token) × (dispatch_call tokens echo 3 [] "stop" 1
        (Token.struct_begin "" ∷ Token.field_stop ∷ Token.struct_end ∷ Token.message_end ∷ [])
        4
      ≡ done (answer, 4))
    × (recv tokens 3 "ping" (Ping.read_presult tokens) answer
        ≡ raised (application unknown_method "Invalid method name: 'stop'"))
unfolding calls_run
dispatch_call-unknown_example =
    dispatch_call-unknown tokens-IsFaithful echo 3 [] "stop" "ping" 1
      (Token.struct_begin "" ∷ Token.field_stop ∷ Token.struct_end ∷ Token.message_end ∷ []) [] 4
      (Ping.read_presult tokens) refl refl

-- A worker that finds its own host, except the one at port 2.
abbrev worker_at : Container → RemoteInfixSearchIf ℕ
worker_at c = record echo {
  find_matches =
      λ found key n. if c.port == 2 then threw "no dataset" n else served (c.host ∷ []) n;
}

abbrev master : Handler
master = record {
  search = record {
    indexed = record { trie = empty; tpm = λ x y. none };
    rows = λ key. none;
    file = [];
    row_buffer = replicate 1000 0;
  };
  service_type = 0;
  port = 9090;
  dataset = [];
  host_list = worker ab 2 ∷ worker ab 1 ∷ [];
}

both_called : (j : ℕ) → j < 2 → In j (1 ∷ 0 ∷ [])
both_called zero less = inr (inl refl)
both_called (suc zero) less = inl refl
both_called (suc (suc j)) less = absurd (omega arith)

find_matches-local_example :
    find_matches
      (remote_answer tokens worker_at (λ c. 0) [] (λ c. serve (worker_at c)) 0 (λ c key. []))
      5
      (1 ∷ 0 ∷ [])
      ab
      []
      master
    ≡ ok (ab ∷ [], master)
unfolding calls_run read_of
find_matches-local_example =
    find_matches-local tokens worker_at (λ c. 0) [] (λ c. serve (worker_at c)) 0 (λ c key. [])
      tokens-IsFaithful (λ c. serve-Dispatches (worker_at c)) 5 (1 ∷ 0 ∷ []) ab [] master
      (λ e. absurd (omega (arith, e))) refl both_called (tt, (omega arith, tt))
