-- ===== src/Thrift/Structs/Reads.antt =====
-- The structs that are written are read back.
use infix_search.Base.{ℕ, suc, ◌<◌, ◌^◌, ◌≡◌, true, false, List}
use infix_search.Thrift.{TProtocol, IsFaithful, done}
use infix_search.Thrift.Structs.{
  read_fields, read_struct, switch_i32, read_i32_result, write_i32_result, switch_host_port,
  read_host_port, write_host_port,
}
use Prim.Native.String.{String}

module _ {P : TProtocol} (faithful : IsFaithful P) where
  open faithful use {struct_begin, struct_end, field_begin, field_stop, field_end, i32, string}

  pub i32_result-read :
      (fuel : ℕ) (name : String) (n : ℕ) (w : P.Wire)
      → n < 2 ^ 32
      → read_i32_result P
          (suc (suc fuel))
          (write_i32_result P name (record { success = n; is_set = true }) w)
        ≡ done (record { success = n; is_set = true }, w)
  unfolding read_i32_result write_i32_result read_struct read_fields switch_i32
  i32_result-read fuel name n w small =
      simp (struct_begin, field_begin, field_stop, field_end, struct_end, i32 n _ small)

  pub unset-read :
      (fuel : ℕ) (name : String) (n : ℕ) (w : P.Wire)
      → read_i32_result P
          (suc fuel)
          (write_i32_result P name (record { success = n; is_set = false }) w)
        ≡ done (record { success = 0; is_set = false }, w)
  unfolding read_i32_result write_i32_result read_struct read_fields switch_i32
  unset-read fuel name n w = simp (struct_begin, field_stop, struct_end)

  pub host_port-read :
      (fuel : ℕ) (name : String) (host : List ℕ) (port : ℕ) (w : P.Wire)
      → port < 2 ^ 32
      → read_host_port P (suc (suc (suc fuel))) (write_host_port P name host port w)
        ≡ done (record { host = host; port = port; host_is_set = true; port_is_set = true }, w)
  unfolding read_host_port write_host_port read_struct read_fields switch_host_port
  host_port-read fuel name host port w small =
      simp (struct_begin, field_begin, field_stop, field_end, struct_end, string, i32 port _ small)
