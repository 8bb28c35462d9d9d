-- ===== src/Thrift/Tokens.antt =====
-- A protocol whose stream is a list of tokens. It reads back what it writes.
use infix_search.Base.{ℕ, refl, List, [], ◌∷◌}
use infix_search.Thrift.{
  TProtocol, IsFaithful, TType, t_struct, TMessageType, Field, stop, field, Try, done, raised,
  protocol_error,
}
use Prim.Native.String.{String}

pub data Token : Type 0 where
  message : String → TMessageType → ℕ → Token
  message_end : Token
  struct_begin : String → Token
  struct_end : Token
  field_of : String → TType → ℕ → Token
  field_end : Token
  field_stop : Token
  list_of : TType → ℕ → Token
  list_end : Token
  i32 : ℕ → Token
  text : List ℕ → Token
  app_exception : ℕ → String → Token

unfoldable pub read_message : List Token → Try (String × TMessageType × ℕ × List Token)
read_message (message name t seqid ∷ w) = done (name, t, seqid, w)
read_message _ = raised protocol_error

unfoldable pub read_message_end : List Token → Try (List Token)
read_message_end (message_end ∷ w) = done w
read_message_end _ = raised protocol_error

unfoldable pub read_struct_end : List Token → Try (List Token)
read_struct_end (struct_end ∷ w) = done w
read_struct_end _ = raised protocol_error

unfoldable pub read_field_end : List Token → Try (List Token)
read_field_end (field_end ∷ w) = done w
read_field_end _ = raised protocol_error

unfoldable pub read_list_end : List Token → Try (List Token)
read_list_end (list_end ∷ w) = done w
read_list_end _ = raised protocol_error

unfoldable pub read_struct_begin : List Token → Try (List Token)
read_struct_begin (struct_begin name ∷ w) = done w
read_struct_begin _ = raised protocol_error

unfoldable pub read_field : List Token → Try (Field × List Token)
read_field (field_of name t fid ∷ w) = done (field t fid, w)
read_field (field_stop ∷ w) = done (stop, w)
read_field _ = raised protocol_error

unfoldable pub read_list : List Token → Try (ℕ × List Token)
read_list (list_of t size ∷ w) = done (size, w)
read_list _ = raised protocol_error

unfoldable pub read_i32 : List Token → Try (ℕ × List Token)
read_i32 (i32 n ∷ w) = done (n, w)
read_i32 _ = raised protocol_error

unfoldable pub read_text : List Token → Try (List ℕ × List Token)
read_text (text s ∷ w) = done (s, w)
read_text _ = raised protocol_error

unfoldable pub read_exception : List Token → Try (ℕ × String × List Token)
read_exception (app_exception kind msg ∷ w) = done (kind, msg, w)
read_exception _ = raised protocol_error

-- Behind the end of the struct that begins the stream.
skip_struct : List Token → Try (List Token)
skip_struct [] = raised protocol_error
skip_struct (struct_end ∷ w) = done w
skip_struct (_ ∷ w) = skip_struct w

unfoldable pub skip : TType → List Token → Try (List Token)
unfolding skip_struct
skip t_struct w = skip_struct w
skip _ (i32 n ∷ w) = done w
skip _ (text s ∷ w) = done w
skip _ _ = raised protocol_error

abbrev pub tokens : TProtocol
tokens = record {
  Wire = List Token;
  read_message_begin = read_message;
  read_message_end = read_message_end;
  read_struct_begin = read_struct_begin;
  read_struct_end = read_struct_end;
  read_field_begin = read_field;
  read_field_end = read_field_end;
  read_list_begin = read_list;
  read_list_end = read_list_end;
  read_i32 = read_i32;
  read_string = read_text;
  read_application_exception = read_exception;
  skip = skip;
  write_message_begin = λ name t seqid w. message name t seqid ∷ w;
  write_message_end = λ w. message_end ∷ w;
  write_struct_begin = λ name w. struct_begin name ∷ w;
  write_struct_end = λ w. struct_end ∷ w;
  write_field_begin = λ name t fid w. field_of name t fid ∷ w;
  write_field_end = λ w. field_end ∷ w;
  write_field_stop = λ w. field_stop ∷ w;
  write_list_begin = λ t size w. list_of t size ∷ w;
  write_list_end = λ w. list_end ∷ w;
  write_i32 = λ n w. i32 n ∷ w;
  write_string = λ s w. text s ∷ w;
  write_application_exception = λ kind msg w. app_exception kind msg ∷ w;
}

unfoldable pub tokens_run : ℕ → ℕ
unfolding read_message read_message_end read_struct_end read_field_end read_list_end
    read_struct_begin read_field read_list read_i32 read_text read_exception skip
tokens_run n = n

pub tokens-IsFaithful : IsFaithful tokens
unfolding tokens_run
tokens-IsFaithful = record {
  message_begin = λ name t seqid w. refl;
  message_end = λ w. refl;
  struct_begin = λ name w. refl;
  struct_end = λ w. refl;
  field_begin = λ name t fid w. refl;
  field_stop = λ w. refl;
  field_end = λ w. refl;
  list_begin = λ t size w small. refl;
  list_end = λ w. refl;
  i32 = λ n w small. refl;
  string = λ s w. refl;
  application_exception = λ kind msg w. refl;
  skip_i32 = λ n w small. refl;
  skip_string = λ s w. refl;
}
