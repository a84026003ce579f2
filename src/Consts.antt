-- ===== src/Consts.antt =====
-- trans_sec/consts.py
use transparent_security.Prelude.{ℕ}

abbrev pub udp_proto : ℕ
udp_proto = 0x11

abbrev pub udp_int_src_port : ℕ
udp_int_src_port = 0

abbrev pub udp_int_dst_port : ℕ
udp_int_dst_port = 555

abbrev pub udp_trpt_dst_port : ℕ
udp_trpt_dst_port = 556

abbrev pub udp_drpt_dst_port : ℕ
udp_drpt_dst_port = 3933

abbrev pub udp_drpt_src_port : ℕ
udp_drpt_src_port = 7102

abbrev pub ipv4_type : ℕ
ipv4_type = 0x0800

abbrev pub ipv6_type : ℕ
ipv6_type = 0x86dd

abbrev pub trpt_domain_id : ℕ
trpt_domain_id = 0x5453

abbrev pub drpt_ver : ℕ
drpt_ver = 2

abbrev pub drpt_in_type : ℕ
drpt_in_type = 2

abbrev pub drpt_rep_len : ℕ
drpt_rep_len = 9

abbrev pub drpt_md_len : ℕ
drpt_md_len = 7

abbrev pub drpt_md_bits : ℕ
drpt_md_bits = 1

abbrev pub drpt_bs_md : ℕ
drpt_bs_md = 0x000f0000

abbrev pub ipv4_hdr_len : ℕ
ipv4_hdr_len = 20

abbrev pub udp_hdr_len : ℕ
udp_hdr_len = 8

abbrev pub udp_int_hdr_len : ℕ
udp_int_hdr_len = 8

abbrev pub drpt_len : ℕ
drpt_len = 48

abbrev pub drpt_payload_len : ℕ
drpt_payload_len = 15

abbrev pub tcp_proto : ℕ
tcp_proto = 0x06

abbrev pub ipv6_hdr_len : ℕ
ipv6_hdr_len = 40

abbrev pub tcp_hdr_len : ℕ
tcp_hdr_len = 20

abbrev pub payload_len : ℕ
payload_len = 26
