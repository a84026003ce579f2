-- ===== src/Packet.antt =====
-- trans_sec/packet/inspect_layer.py: the fields of each header, with the default value and the width
-- in bits. scapy's ByteField, ShortField, IntField and MACField have 8, 16, 32 and 48 bits.
use transparent_security.Prelude.{ℕ, ◌+◌, String, Option, none, some, List, [], ◌∷◌}
use transparent_security.Consts.{udp_int_src_port, udp_int_dst_port}

pub record Field : Type 0 where
  pub name : String
  pub default : Option ℕ
  pub width : ℕ

abbrev pub Layer : Type 0
Layer = List Field

abbrev field : String → ℕ → ℕ → Field
field name default width = record { name = name; default = some default; width = width }

-- The number of bits that a layer takes.
abbrev pub bits : Layer → ℕ
bits [] = 0
bits (f ∷ fs) = f.width + bits fs

unfoldable pub int_shim : Layer
int_shim =
    field "type" 0 4
    ∷ field "npt" 0 2
    ∷ field "res1" 0 2
    ∷ field "length" 0 8
    ∷ field "res2" 0 8
    ∷ field "next_proto" 0 8
    ∷ []

unfoldable pub int_header : Layer
int_header =
    field "ver" 2 4
    ∷ field "rep" 0 2
    ∷ field "d" 0 1
    ∷ field "e" 0 1
    ∷ field "m" 0 1
    ∷ field "reserved" 0 10
    ∷ field "meta_len" 1 5
    ∷ field "remaining_hop_cnt" 0 8
    ∷ field "instr_bit_0" 1 1
    ∷ field "instr_bit_bal" 0 15
    ∷ field "domain_id" 0 16
    ∷ field "ds_instr_0" 1 1
    ∷ field "ds_instr_bal" 0 15
    ∷ field "ds_flags_0" 0 1
    ∷ field "ds_flags_1" 1 1
    ∷ field "ds_flags_bal" 0 14
    ∷ []

unfoldable pub source_int_meta : Layer
source_int_meta = field "switch_id" 0 32 ∷ field "orig_mac" 0 48 ∷ field "reserved" 0 16 ∷ []

unfoldable pub eth_int : Layer
eth_int = field "dst" 0 48 ∷ field "src" 0 48 ∷ field "type" 0x9000 16 ∷ []

unfoldable pub udp_int : Layer
udp_int =
    field "sport" udp_int_src_port 16
    ∷ field "dport" udp_int_dst_port 16
    ∷ record { name = "len"; default = none; width = 16 }
    ∷ record { name = "chksum"; default = none; width = 16 }
    ∷ []

-- IntMeta, with its subclasses IntMeta1 and IntMeta2
unfoldable pub int_meta : Layer
int_meta = field "switch_id" 0 32 ∷ []

-- The fields that TelemetryReport and DropReport begin with alike.
abbrev report_head : Layer → Layer
report_head rest =
    field "ver" 0 4
    ∷ field "hw_id" 0 6
    ∷ field "sequence_no" 0 22
    ∷ field "node_id" 0 32
    ∷ field "rep_type" 0 4
    ∷ field "in_type" 0 4
    ∷ field "rpt_len" 0 8
    ∷ field "md_len" 0 8
    ∷ field "d" 0 1
    ∷ field "q" 0 1
    ∷ field "f" 0 1
    ∷ field "i" 0 1
    ∷ field "reserved" 0 4
    ∷ field "rep_md_bits" 0 16
    ∷ field "domain_id" 0 16
    ∷ field "ds_mdb_bits" 0 16
    ∷ field "ds_mds_bits" 0 16
    ∷ rest

unfoldable pub telemetry_report : Layer
telemetry_report = report_head (field "var_opt_md" 0 32 ∷ [])

unfoldable pub drop_report : Layer
drop_report = report_head (
    field "var_opt_bsmd" 0 32
    ∷ field "timestamp" 0 32
    ∷ field "drop_count" 0 32
    ∷ field "drop_tbl_keys" 0 128
    ∷ [])
