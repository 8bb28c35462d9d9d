-- ===== src/Thrift.antt =====
-- What thrift/service-cpp/RemoteInfixSearch.cpp uses of Thrift: a protocol as an interface, and the
-- outcome of code that may throw. A write stands for what it puts in front of the rest of the
-- stream. An `i32` is the unsigned value of its bits. The numbers of bytes, which the methods add
-- up, are left out, and so are the transport's `readEnd`, `writeEnd` and `flush`: a message that is
-- written arrives.
pub mod Structs
pub mod Ping
pub mod FindMatches
pub mod RegisterService
pub mod DeregisterService
pub mod Processor
pub mod Handlers
pub mod Remote
pub mod Fleet
pub mod System
pub mod Tokens
pub mod Tests
pub mod Client
use infix_search.Base.{
  ℕ, zero, suc, ◌≡◌, ◌<◌, ◌^◌, Bool, true, false, Option, List, [], ◌∷◌, length,
}
use Prim.Native.String.{String}

-- An exception of the transport or the protocol, or a `TApplicationException`.
pub data Exception : Type 0 where
  protocol_error : Exception
  application : ℕ → String → Exception

-- `TApplicationException::TApplicationExceptionType`.
abbrev pub unknown : ℕ
unknown = 0

abbrev pub unknown_method : ℕ
unknown_method = 1

abbrev pub missing_result : ℕ
missing_result = 5

-- `crashed` is the end of the process, or a fault.
pub data Try {ℓ} (A : Type ℓ) : Type ℓ where
  done : A → Try A
  raised : Exception → Try A
  crashed : Try A
  out_of_fuel : Try A

infixl 5 ◌>>=◌
abbrev pub ◌>>=◌ {ℓ κ} : {A : Type ℓ} {B : Type κ} → Try A → (A → Try B) → Try B
done a >>= rest = rest a
raised e >>= rest = raised e
crashed >>= rest = crashed
out_of_fuel >>= rest = out_of_fuel

pub data TType : Type 0 where
  t_bool t_byte t_i16 t_i32 t_i64 t_double t_string t_struct t_map t_set t_list : TType

-- What `readFieldBegin` reads: `T_STOP`, or the type and the number of a field.
pub data Field : Type 0 where
  stop : Field
  field : TType → ℕ → Field

pub data TMessageType : Type 0 where
  t_call t_reply t_exception t_oneway : TMessageType

pub record TProtocol : Type 1 where
  pub Wire : Type 0
  pub read_message_begin : Wire → Try (String × TMessageType × ℕ × Wire)
  pub read_message_end : Wire → Try Wire
  pub read_struct_begin : Wire → Try Wire
  pub read_struct_end : Wire → Try Wire
  pub read_field_begin : Wire → Try (Field × Wire)
  pub read_field_end : Wire → Try Wire
  pub read_list_begin : Wire → Try (ℕ × Wire)
  pub read_list_end : Wire → Try Wire
  pub read_i32 : Wire → Try (ℕ × Wire)
  pub read_string : Wire → Try (List ℕ × Wire)
  pub read_application_exception : Wire → Try (ℕ × String × Wire)
  pub skip : TType → Wire → Try Wire
  pub write_message_begin : String → TMessageType → ℕ → Wire → Wire
  pub write_message_end : Wire → Wire
  pub write_struct_begin : String → Wire → Wire
  pub write_struct_end : Wire → Wire
  pub write_field_begin : String → TType → ℕ → Wire → Wire
  pub write_field_end : Wire → Wire
  pub write_field_stop : Wire → Wire
  pub write_list_begin : TType → ℕ → Wire → Wire
  pub write_list_end : Wire → Wire
  pub write_i32 : ℕ → Wire → Wire
  pub write_string : List ℕ → Wire → Wire
  pub write_application_exception : ℕ → String → Wire → Wire

-- The documented behaviour of a protocol: what it wrote it reads, and what it reads it can skip.
pub record IsFaithful (P : TProtocol) : Type 0 where
  pub message_begin :
      (name : String) (t : TMessageType) (seqid : ℕ) (w : P.Wire)
      → P.read_message_begin (P.write_message_begin name t seqid w) ≡ done (name, t, seqid, w)
  pub message_end : (w : P.Wire) → P.read_message_end (P.write_message_end w) ≡ done w
  pub struct_begin :
      (name : String) (w : P.Wire) → P.read_struct_begin (P.write_struct_begin name w) ≡ done w
  pub struct_end : (w : P.Wire) → P.read_struct_end (P.write_struct_end w) ≡ done w
  pub field_begin :
      (name : String) (t : TType) (fid : ℕ) (w : P.Wire)
      → P.read_field_begin (P.write_field_begin name t fid w) ≡ done (field t fid, w)
  pub field_stop : (w : P.Wire) → P.read_field_begin (P.write_field_stop w) ≡ done (stop, w)
  pub field_end : (w : P.Wire) → P.read_field_end (P.write_field_end w) ≡ done w
  pub list_begin :
      (t : TType) (size : ℕ) (w : P.Wire)
      → size < 2 ^ 31
      → P.read_list_begin (P.write_list_begin t size w) ≡ done (size, w)
  pub list_end : (w : P.Wire) → P.read_list_end (P.write_list_end w) ≡ done w
  pub i32 : (n : ℕ) (w : P.Wire) → n < 2 ^ 32 → P.read_i32 (P.write_i32 n w) ≡ done (n, w)
  pub string : (s : List ℕ) (w : P.Wire) → P.read_string (P.write_string s w) ≡ done (s, w)
  pub application_exception :
      (kind : ℕ) (message : String) (w : P.Wire)
      → P.read_application_exception (P.write_application_exception kind message w)
        ≡ done (kind, message, w)
  pub skip_i32 : (n : ℕ) (w : P.Wire) → n < 2 ^ 32 → P.skip t_i32 (P.write_i32 n w) ≡ done w
  pub skip_string : (s : List ℕ) (w : P.Wire) → P.skip t_string (P.write_string s w) ≡ done w

-- `RemoteInfixSearchIf`: what a method returns or throws, and the state that it leaves. `died` is a
-- fault, or the end of the process.
pub data Served (S A : Type 0) : Type 0 where
  served : A → S → Served S A
  threw : String → S → Served S A
  died : Served S A

pub record RemoteInfixSearchIf (S : Type 0) : Type 0 where
  pub ping : S → Served S ℕ
  pub find_matches : List (List ℕ) → List ℕ → S → Served S (List (List ℕ))
  pub register_service : List ℕ → ℕ → S → Served S ℕ
  pub deregister_service : List ℕ → ℕ → S → Served S ℕ
