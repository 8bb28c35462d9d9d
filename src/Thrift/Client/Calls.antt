-- ===== src/Thrift/Client/Calls.antt =====
-- A call through client and processor does what the handler does.
use infix_search.Base.{ℕ, ◌≡◌, refl, true}
use infix_search.Thrift.{
  TProtocol, IsFaithful, t_call, t_reply, Try, done, raised, crashed, application, unknown, Served,
  served, threw, died, RemoteInfixSearchIf,
}
use infix_search.Thrift.Structs.{Success}
use infix_search.Thrift.Processor.{exception_message, respond, dispatch_call}
use infix_search.Thrift.Client.{skip_message, recv, exchange}
use Prim.Native.String.{String}
use text.Mathlib.TextPositions.{eq_refl}

-- `TDispatchProcessor::process` reads the beginning of a call and passes it to `dispatchCall`.
abbrev pub Dispatches :
    (P : TProtocol) {S : Type 0}
    → RemoteInfixSearchIf S
    → ℕ
    → P.Wire
    → (P.Wire → S → Try (P.Wire × S))
    → Type 0
Dispatches P {S} iface fuel end serve =
    (name : String) (seqid : ℕ) (w : P.Wire) (s : S)
    → serve (P.write_message_begin name t_call seqid w) s
      ≡ dispatch_call P iface fuel end name seqid w s

-- What the caller sees of a served call: what the handler returns, or its exception by its text.
abbrev pub delivered : {S A : Type 0} → Served S A → Try (Try A × S)
delivered (served a s) = done (done a, s)
delivered (threw what s) = done (raised (application unknown what), s)
delivered died = crashed

-- The result of the handler, if it returns one.
abbrev pub IfServed : {S A : Type 0} → (A → Type 0) → Served S A → Type 0
IfServed Good (served a s) = Good a
IfServed Good (threw what s) = Unit
IfServed Good died = Unit

module _ {P : TProtocol} (faithful : IsFaithful P) (fuel : ℕ) (end : P.Wire) where
  open faithful use {message_begin, message_end, application_exception}

  -- What `recv_` makes of the answer that `respond` writes, where the result can be read.
  recv-reply :
      {A : Type 0} (name : String) (seqid : ℕ) (write_result : Success A → P.Wire → P.Wire)
      (read_presult : ℕ → P.Wire → Try (Success A × P.Wire)) (a : A)
      → ((w : P.Wire)
          → read_presult fuel (write_result (record { success = a; is_set = true }) w)
            ≡ done (record { success = a; is_set = true }, w))
      → recv P fuel name read_presult (
          P.write_message_begin name t_reply seqid
            (write_result (record { success = a; is_set = true }) (P.write_message_end end)))
        ≡ done (a, end)
  unfolding recv skip_message
  recv-reply name seqid write_result read_presult a reads =
      simp (message_begin, eq_refl, reads, message_end)

  recv-exception :
      {A : Type 0} {S : Type 0} (iface : RemoteInfixSearchIf S) (name fname : String)
      (seqid kind : ℕ) (message : String) (read_presult : ℕ → P.Wire → Try (Success A × P.Wire))
      → recv P fuel name read_presult (exception_message P iface fuel end fname seqid kind message)
        ≡ raised (application kind message)
  unfolding recv exception_message
  recv-exception iface name fname seqid kind message read_presult =
      simp (message_begin, application_exception, message_end)

  -- A served call, exchanged: the client returns what the handler does.
  pub exchange-respond :
      {S A : Type 0} (iface : RemoteInfixSearchIf S) (serve : P.Wire → S → Try (P.Wire × S))
      (Good : A → Type 0) (name : String) (seqid : ℕ) (write_result : Success A → P.Wire → P.Wire)
      (read_presult : ℕ → P.Wire → Try (Success A × P.Wire)) (call : P.Wire) (s : S)
      (outcome : Served S A)
      → ((a : A)
          → Good a
          → (w : P.Wire)
          → read_presult fuel (write_result (record { success = a; is_set = true }) w)
            ≡ done (record { success = a; is_set = true }, w))
      → serve call s ≡ respond P iface fuel end name seqid write_result outcome
      → IfServed Good outcome
      → exchange P fuel serve end call (recv P fuel name read_presult) s ≡ delivered outcome
  unfolding exchange respond
  exchange-respond iface serve Good name seqid write_result read_presult call s (served a s') reads
        e good =
      rw (e, recv-reply name seqid write_result read_presult a (reads a good)) refl
  exchange-respond iface serve Good name seqid write_result read_presult call s (threw what s')
        reads e good =
      rw (e, recv-exception iface name name seqid unknown what read_presult) refl
  exchange-respond iface serve Good name seqid write_result read_presult call s died reads e good =
      rw e refl
