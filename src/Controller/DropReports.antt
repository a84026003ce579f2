-- ===== src/Controller/DropReports.antt =====
-- The drop reports of trans_sec/controller/ddos_sdn_controller.py, which tell the analytics engine
-- how many packets of each attack the aggregate switch has dropped.
use transparent_security.Prelude.{
  ℕ, suc, ◌+◌, ◌-◌, String, Bool, Option, none, some, List, [], ◌∷◌, ◌++◌, leb, if◌then◌else◌,
}
use transparent_security.Prelude.Equality.{◌==◌, nat_eq, string_eq}
use transparent_security.Prelude.Dict.{Dict, get, put}
use transparent_security.Prelude.Result.{Result, ok}
use transparent_security.Prelude.Exec.{Exec, pure, lift, modify, ◌>>=◌, ◌>>◌}
use transparent_security.Consts.{
  udp_proto, udp_int_src_port, udp_trpt_dst_port, udp_drpt_dst_port, udp_drpt_src_port, ipv4_type,
  trpt_domain_id, drpt_ver, drpt_in_type, drpt_rep_len, drpt_md_len, drpt_md_bits, drpt_bs_md,
  ipv4_hdr_len, udp_hdr_len, udp_int_hdr_len, drpt_len, drpt_payload_len,
}
use transparent_security.Convert.{ℤ, pos, negsuc}
use transparent_security.AttackHash.{create_attack_hash}
use transparent_security.External.{IpAddress}

-- The packet of a report, by its headers from the outside in: Ethernet, IP, UdpInt, DropReport, UDP
-- and the text behind them.
pub record DropPacket : Type 0 where
  pub ether_type : ℕ
  pub dst : String
  pub src : String
  pub ip_len : ℕ
  pub proto : ℕ
  pub int_sport : ℕ
  pub int_dport : ℕ
  pub int_len : ℕ
  pub ver : ℕ
  pub node_id : ℕ
  pub in_type : ℕ
  pub rpt_len : ℕ
  pub md_len : ℕ
  pub rep_md_bits : ℕ
  pub domain_id : ℕ
  pub var_opt_bsmd : ℕ
  pub timestamp : ℕ
  pub drop_count : ℤ
  pub drop_tbl_keys : ℕ
  pub dport : ℕ
  pub sport : ℕ
  pub len : ℕ
  pub payload : String

-- The keys of a drop entry, with which `create_attack_hash` is called.
pub record MatchKeys : Type 0 where
  pub mac : String
  pub port : ℕ
  pub ip_addr : String
  pub ipv6_addr : String

-- The part of the controller that reports drops: `sent` holds the packets that `sendp` was called
-- with. Whether a call of it fails makes no difference.
pub record Reporter : Type 0 where
  pub ae_ip : Option String
  pub is_delta : Bool
  pub drop_rpt_count : Dict ℕ ℕ
  pub sent : List DropPacket

-- What the calls of `socket` and `time` answer, and the aggregate's `int_id` in the topology.
pub record Surroundings : Type 0 where
  pub sdn_ip : Result String
  pub node_id : Result ℕ
  pub timestamp : ℕ

abbrev pub Reporting : Type 0 → Type 0
Reporting A = Exec Reporter A

-- Python's `a - b`
unfoldable pub minus : ℕ → ℕ → ℤ
minus a b = if leb b a then pos (a - b) else negsuc (b - suc a)

-- `str(self.ae_ip)` is only read where there is an address.
abbrev pub address : Option String → String
address none = "None"
address (some ip) = ip

abbrev pub drop_pkt : String → String → ℕ → ℕ → ℕ → ℤ → DropPacket
drop_pkt ae_ip sdn_ip node_id timestamp attack_key rpt_count =
    let ip_len = ipv4_hdr_len + udp_int_hdr_len + drpt_len + udp_hdr_len + drpt_payload_len in
    record {
      ether_type = ipv4_type;
      dst = ae_ip;
      src = sdn_ip;
      ip_len = ip_len;
      proto = udp_proto;
      int_sport = udp_int_src_port;
      int_dport = udp_trpt_dst_port;
      int_len = ip_len - ipv4_hdr_len;
      ver = drpt_ver;
      node_id = node_id;
      in_type = drpt_in_type;
      rpt_len = drpt_rep_len;
      md_len = drpt_md_len;
      rep_md_bits = drpt_md_bits;
      domain_id = trpt_domain_id;
      var_opt_bsmd = drpt_bs_md;
      timestamp = timestamp;
      drop_count = rpt_count;
      drop_tbl_keys = attack_key;
      dport = udp_drpt_dst_port;
      sport = udp_drpt_src_port;
      len = udp_hdr_len + drpt_payload_len;
      payload = "tps drop report";
    }

unfoldable pub send_drop_pkt : Surroundings → ℕ → ℤ → Reporting (Unit {0})
send_drop_pkt s attack_key rpt_count = do
  sdn_ip ← lift s.sdn_ip
  node_id ← lift s.node_id
  modify λ r. record r {
    sent =
        r.sent ++ drop_pkt (address r.ae_ip) sdn_ip node_id s.timestamp attack_key rpt_count ∷ [];
  }

-- The count reported last, or 0.
abbrev pub last_count : ℕ → Reporter → ℕ
last_count attack_key r = elim (get attack_key r.drop_rpt_count) [ none ↦ 0 | some n ↦ n ]

abbrev pub counted : ℕ → ℕ → Reporter → Reporter
counted attack_key drop_count r = record r {
  drop_rpt_count = put attack_key drop_count r.drop_rpt_count;
}

-- An entry whose attack key is known; a key of 0 counts as none.
unfoldable pub report_drop : Surroundings → ℕ → ℕ → Reporting (Unit {0})
unfolding send_drop_pkt
report_drop s attack_key drop_count r =
    if attack_key == 0
    then (ok tt, r)
    else if r.is_delta
    then send_drop_pkt s attack_key (minus drop_count (last_count attack_key r))
        (counted attack_key drop_count r)
    else send_drop_pkt s attack_key (pos drop_count) r

-- `if self.ae_ip:`
abbrev pub to_engine : Option String → Reporting (Unit {0}) → Reporting (Unit {0})
to_engine none m r = (ok tt, r)
to_engine (some ae_ip) m r = m r

module _ (ipaddress : IpAddress) (sha256_hex : List ℕ → List ℕ) (s : Surroundings) where
  -- An entry of the switch, with no keys where it is 0.
  unfoldable pub report_match : Option MatchKeys → ℕ → Reporting (Unit {0})
  unfolding create_attack_hash report_drop
  report_match none drop_count = pure tt
  report_match (some keys) drop_count = do
    attack_key ←
        lift
          (create_attack_hash ipaddress sha256_hex keys.mac keys.port keys.ip_addr keys.ipv6_addr)
    report_drop s attack_key drop_count

  unfoldable pub report_matches : List (Option MatchKeys × ℕ) → Reporting (Unit {0})
  unfolding report_match
  report_matches [] = pure tt
  report_matches ((keys, drop_count) ∷ entries) =
      report_match keys drop_count >> report_matches entries

  -- `count_dropped_packets` of each controller by its key; the controllers are different objects.
  unfoldable pub report_controllers :
      Dict String (Result (List (Option MatchKeys × ℕ))) → Reporting (Unit {0})
  unfolding report_matches
  report_controllers [] = pure tt
  report_controllers ((key, drp_entries) ∷ controllers) =
      let rest = report_controllers controllers in
      if key == "aggregate"
      then (lift drp_entries >>= λ entries. report_matches entries) >> rest
      else rest

  unfoldable pub send_drop_report :
      Dict String (Result (List (Option MatchKeys × ℕ))) → Reporting (Unit {0})
  unfolding report_controllers
  send_drop_report controllers r = to_engine r.ae_ip (report_controllers controllers) r
