-- ===== src/Thrift/Structs.antt =====
-- What the structs of thrift/service-cpp/RemoteInfixSearch.cpp have in common: the loop of each
-- `read`, the results that hold an `i32`, and the arguments `host` and `port`.
pub mod Reads
use infix_search.Base.{ℕ, zero, suc, Bool, true, false, List, [], ◌∷◌, ◌==◌, if◌then◌else◌}
use infix_search.Thrift.{
  TProtocol, TType, t_bool, t_i32, t_string, t_list, Field, stop, field, Try, done, out_of_fuel,
  ◌>>=◌,
}
use Prim.Native.String.{String}

abbrev is_i32 : TType → Bool
is_i32 t_i32 = true
is_i32 _ = false

abbrev pub is_string : TType → Bool
is_string t_string = true
is_string _ = false

abbrev pub is_list : TType → Bool
is_list t_list = true
is_list _ = false

-- `success` and `__isset.success` of a result.
pub record Success (A : Type 0) : Type 0 where
  pub success : A
  pub is_set : Bool

-- The arguments of `registerService` and `deregisterService`.
pub record HostPort : Type 0 where
  pub host : List ℕ
  pub port : ℕ
  pub host_is_set : Bool
  pub port_is_set : Bool

module _ (P : TProtocol) where
  open P use {
    Wire, read_struct_begin, read_struct_end, read_field_begin, read_field_end, read_i32,
    read_string, skip, write_struct_begin, write_struct_end, write_field_begin, write_field_end,
    write_field_stop, write_i32, write_string,
  }

  -- The loop over the fields: `switch` reads or skips one. The fuel bounds their number.
  unfoldable pub read_fields :
      {R : Type 0} → (R → TType → ℕ → Wire → Try (R × Wire)) → ℕ → R → Wire → Try (R × Wire)
  read_fields switch zero r w = out_of_fuel
  read_fields switch (suc fuel) r w = read_field_begin w >>= λ (f, w1). elim f [
    | stop ↦ done (r, w1)
    | field ftype fid ↦ switch r ftype fid w1 >>= λ (r', w2).
        read_field_end w2 >>= λ w3. read_fields switch fuel r' w3
  ]

  unfoldable pub read_struct :
      {R : Type 0} → (R → TType → ℕ → Wire → Try (R × Wire)) → ℕ → R → Wire → Try (R × Wire)
  read_struct switch fuel r w = read_struct_begin w >>= λ w1.
      read_fields switch fuel r w1 >>= λ (r', w2). read_struct_end w2 >>= λ w3. done (r', w3)

  -- `skip(ftype)`, which leaves the struct as it is.
  unfoldable pub skip_field : {R : Type 0} → R → TType → Wire → Try (R × Wire)
  skip_field r ftype w = skip ftype w >>= λ w'. done (r, w')

  unfoldable pub switch_i32 : Success ℕ → TType → ℕ → Wire → Try (Success ℕ × Wire)
  switch_i32 r ftype fid w =
      if fid == 0
      then (if is_i32 ftype
          then (read_i32 w >>= λ (n, w'). done (record { success = n; is_set = true }, w'))
          else skip_field r ftype w)
      else skip_field r ftype w

  unfoldable pub read_i32_result : ℕ → Wire → Try (Success ℕ × Wire)
  read_i32_result fuel w = read_struct switch_i32 fuel (record { success = 0; is_set = false }) w

  unfoldable pub write_i32_result : String → Success ℕ → Wire → Wire
  write_i32_result name r w =
      let rest = write_field_stop (write_struct_end w) in
      write_struct_begin name (
        if r.is_set
        then write_field_begin "success" t_i32 0 (write_i32 r.success (write_field_end rest))
        else rest)

  unfoldable pub switch_host_port : HostPort → TType → ℕ → Wire → Try (HostPort × Wire)
  switch_host_port r ftype fid w =
      if fid == 1
      then (if is_string ftype
          then (read_string w >>= λ (s, w'). done (record r { host = s; host_is_set = true }, w'))
          else skip_field r ftype w)
      else if fid == 2
      then (if is_i32 ftype
          then (read_i32 w >>= λ (n, w'). done (record r { port = n; port_is_set = true }, w'))
          else skip_field r ftype w)
      else skip_field r ftype w

  unfoldable pub read_host_port : ℕ → Wire → Try (HostPort × Wire)
  read_host_port fuel w =
      read_struct switch_host_port fuel
        (record { host = []; port = 0; host_is_set = false; port_is_set = false }) w

  unfoldable pub write_host_port : String → List ℕ → ℕ → Wire → Wire
  write_host_port name host port w = write_struct_begin name (
      write_field_begin "host" t_string 1 (
        write_string host (
          write_field_end (
            write_field_begin "port" t_i32 2
              (write_i32 port (write_field_end (write_field_stop (write_struct_end w))))))))
