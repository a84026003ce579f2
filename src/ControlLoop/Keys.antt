-- ===== src/ControlLoop/Keys.antt =====
-- The way of an attack's key: the analytics engine of trans_sec/analytics/oinc.py computes it from
-- the INT data, and the controller of trans_sec/controller/ddos_sdn_controller.py from the keys that
-- the drop table of trans_sec/bfruntime_lib/aggregate_switch.py lists.
use transparent_security.Prelude.{
  ℕ, ◌<◌, ◌^◌, ◌≡◌, refl, sym, String, some, List, [], ◌∷◌, inl, inr, Bool-cases, ◌∙◌,
  if◌then◌else◌,
}
use transparent_security.Prelude.Equality.{◌==◌, nat_eq, string_eq}
use transparent_security.Prelude.Dict.{get}
use transparent_security.Prelude.Result.{Result, ok, err, Result-cases}
use transparent_security.Convert.{ℤ, pos}
use transparent_security.External.{IpAddress, Scapy}
use transparent_security.AttackHash.{create_attack_hash}
use transparent_security.Controller.Switches.{AttackRequest}
use transparent_security.Controller.DropReports.{
  MatchKeys, Reporter, Surroundings, report_match, report_drop,
}
use transparent_security.P4Switch.{ip_of, int_of}
use transparent_security.P4Switch.Aggregate.{parse_attack}
use transparent_security.Barefoot.Client.{Datum, text, number, Fields, Server}
use transparent_security.Barefoot.Aggregate.{map_drop_tbl_keys, drops_of, drop_key}
use transparent_security.Analytics.Extract.{IntData}
use transparent_security.Analytics.SimpleAe.{Attack, attack_of, attack_key}
use transparent_security.ControlLoop.Listing.{IsIpAddress, IsListing, IsSent, as_read}

-- The hash reads nothing of the texts but their addresses.
create_attack_hash-same :
    (ipaddress : IpAddress) (sha256_hex : List ℕ → List ℕ) (mac : String) (port : ℕ)
    (s s' t t' : String)
    → ipaddress.ip_address s ≡ ipaddress.ip_address s'
    → ipaddress.ip_address t ≡ ipaddress.ip_address t'
    → create_attack_hash ipaddress sha256_hex mac port s t
      ≡ create_attack_hash ipaddress sha256_hex mac port s' t'
unfolding create_attack_hash
create_attack_hash-same ipaddress sha256_hex mac port s s' t t' e e' = rw e (rw e' refl)

map_drop_tbl_keys-listed :
    (key : Fields) (keys : MatchKeys)
    → get "hdr.ethernet.src_mac" key ≡ some (text keys.mac)
    → get "meta.dst_port" key ≡ some (number (pos keys.port))
    → get "meta.ipv4_addr" key ≡ some (text keys.ip_addr)
    → get "meta.ipv6_addr" key ≡ some (text keys.ipv6_addr)
    → map_drop_tbl_keys key ≡ some (as_read keys)
unfolding map_drop_tbl_keys
map_drop_tbl_keys-listed key keys mac port ipv4 ipv6 =
    rw (map_drop_tbl_keys, mac, port, ipv4, ipv6) refl

drops_of-listed :
    (values key : Fields) (keys : MatchKeys) (packets : Datum) (entries : List (Fields × Fields))
    → get "hdr.ethernet.src_mac" key ≡ some (text keys.mac)
    → get "meta.dst_port" key ≡ some (number (pos keys.port))
    → get "meta.ipv4_addr" key ≡ some (text keys.ip_addr)
    → get "meta.ipv6_addr" key ≡ some (text keys.ipv6_addr)
    → get "$COUNTER_SPEC_PKTS" values ≡ some packets
    → drops_of ((values, key) ∷ entries) ≡ (as_read keys, packets) ∷ drops_of entries
unfolding drops_of
drops_of-listed values key keys packets entries mac port ipv4 ipv6 count =
    rw (drops_of, map_drop_tbl_keys-listed key keys mac port ipv4 ipv6, count) refl

report_match-key :
    (ipaddress : IpAddress) (sha256_hex : List ℕ → List ℕ) (s : Surroundings) (keys : MatchKeys)
    (key drop_count : ℕ) (r : Reporter)
    → create_attack_hash ipaddress sha256_hex keys.mac keys.port keys.ip_addr keys.ipv6_addr
      ≡ ok key
    → report_match ipaddress sha256_hex s (some keys) drop_count r ≡ report_drop s key drop_count r
unfolding report_match
report_match-key ipaddress sha256_hex s keys key drop_count r e = rw e refl

-- The key of a drop entry whose addresses are given.
abbrev drop_fields : String → Datum → Datum → ℕ → Fields
drop_fields mac ipv4 ipv6 port =
    ("hdr.ethernet.src_mac", text mac)
    ∷ ("meta.ipv4_addr", ipv4)
    ∷ ("meta.ipv6_addr", ipv6)
    ∷ ("meta.dst_port", number (pos port))
    ∷ []

module _ (ipaddress : IpAddress) (int : String → Result ℤ) {D : Type 0} (server : Server D) where
  open ipaddress use {Address, ip_address, version, exploded}

  drop_key-sent :
      (attack : Attack) (request : AttackRequest) (a : Address)
      → IsSent int attack request
      → ip_address attack.dst_ip ≡ ok a
      → drop_key server ipaddress int request
        ≡ ok (
            if version a == 6
            then drop_fields attack.src_mac (number (pos 0)) (text (exploded a)) attack.dst_port
            else drop_fields attack.src_mac (text (exploded a)) (number (pos 0)) attack.dst_port)
  unfolding drop_key parse_attack ip_of int_of
  drop_key-sent attack request a sent e =
      let mac = sent.src_mac in
      let dst = sent.dst_ip in
      let port = sent.dst_port in
      let value = sent.port_value in
      elim (Bool-cases (version a == 6)) [
        | inl six ↦ simp (drop_key, parse_attack, ip_of, int_of, dst, e, port, value, mac, six)
        | inr other ↦ simp (drop_key, parse_attack, ip_of, int_of, dst, e, port, value, mac, other)
      ]

module _ (scapy : Scapy) (ipaddress : IpAddress) (sha256_hex : List ℕ → List ℕ) where
  open ipaddress use {Address, ip_address, version, str, exploded}

  attack_key-address :
      (d : IntData) (key : ℕ)
      → attack_key scapy ipaddress sha256_hex d ≡ ok key
      → (a : Address) × (ip_address d.dst_addr ≡ ok a)
        × ((if version a == 4
              then create_attack_hash ipaddress sha256_hex d.dev_mac d.dst_port (str a) "::"
              else create_attack_hash ipaddress sha256_hex d.dev_mac d.dst_port "0.0.0.0" (str a))
            ≡ ok key)
  unfolding attack_key
  attack_key-address d key e = elim (Result-cases (ip_address d.dst_addr)) [
    | inl (raised, failed) ↦
        let e1 : attack_key scapy ipaddress sha256_hex d ≡ err raised =
          rw (attack_key, failed) refl in
        cc
    | inr (a, found) ↦ (a, found, rw⁻¹ e (rw (attack_key, found) refl))
  ]

  -- The switch lists the keys as the texts `ipv4` and `ipv6`.
  listed_lem :
      (listed : Fields → Fields) (mac : String) (port : ℕ) (v4 v6 : Datum) (ipv4 ipv6 : String)
      (key : ℕ) (values : Fields) (packets : Datum) (entries : List (Fields × Fields))
      (s : Surroundings) (drop_count : ℕ) (r : Reporter)
      → IsListing ipaddress mac listed
      → port < 2 ^ 16
      → get "meta.ipv4_addr" (listed (drop_fields mac v4 v6 port)) ≡ some (text ipv4)
      → get "meta.ipv6_addr" (listed (drop_fields mac v4 v6 port)) ≡ some (text ipv6)
      → create_attack_hash ipaddress sha256_hex mac port ipv4 ipv6 ≡ ok key
      → get "$COUNTER_SPEC_PKTS" values ≡ some packets
      → (keys : MatchKeys) × (drops_of ((values, listed (drop_fields mac v4 v6 port)) ∷ entries)
          ≡ (as_read keys, packets) ∷ drops_of entries)
        × (report_match ipaddress sha256_hex s (some keys) drop_count r
            ≡ report_drop s key drop_count r)
  unfolding get
  listed_lem listed mac port v4 v6 ipv4 ipv6 key values packets entries s drop_count r listing small
        has4 has6 hash count =
      let written = drop_fields mac v4 v6 port in
      let keys : MatchKeys = record { mac = mac; port = port; ip_addr = ipv4; ipv6_addr = ipv6 } in
      (
        keys,
        drops_of-listed values (listed written) keys packets entries
            (listing.lists_mac written refl) (listing.lists_port written port refl small) has4 has6
            count,
        report_match-key ipaddress sha256_hex s keys key drop_count r hash,
      )

  -- Where the engine has computed the number of an attack and a request with its body reaches the
  -- switch, the key of the drop entry is made. Where the table lists this entry, with its counter,
  -- the switch answers its keys and packets before those of the entries behind it, and for these
  -- keys the controller reports the drops under the number of the engine. It holds for IPv4 and for
  -- IPv6, for a client that lists the keys as its annotations say and for a port of 16 bits.
  pub attack_key-report_match :
      {D : Type 0} (server : Server D) (int : String → Result ℤ) (listed : Fields → Fields)
      (d : IntData) (key : ℕ) (request : AttackRequest) (values : Fields) (packets : Datum)
      (entries : List (Fields × Fields)) (s : Surroundings) (drop_count : ℕ) (r : Reporter)
      → IsIpAddress ipaddress
      → IsListing ipaddress d.dev_mac listed
      → attack_key scapy ipaddress sha256_hex d ≡ ok key
      → d.dst_port < 2 ^ 16
      → IsSent int (attack_of d) request
      → get "$COUNTER_SPEC_PKTS" values ≡ some packets
      → (written : Fields) × (keys : MatchKeys) × (drop_key server ipaddress int request
          ≡ ok written)
        × (drops_of ((values, listed written) ∷ entries)
            ≡ (as_read keys, packets) ∷ drops_of entries)
        × (report_match ipaddress sha256_hex s (some keys) drop_count r
            ≡ report_drop s key drop_count r)
  unfolding get
  attack_key-report_match server int listed d key request values packets entries s drop_count r
        addresses listing found small sent count =
      let (a, read, hash) = attack_key-address d key found in
      let made = drop_key-sent ipaddress int server (attack_of d) request a sent read in
      let shown = addresses.reads_exploded a in
      let lists = listed_lem listed d.dev_mac d.dst_port in
      let agree = create_attack_hash-same ipaddress sha256_hex d.dev_mac d.dst_port in
      elim (addresses.versions a) [
        | inl four ↦
            let written = drop_fields d.dev_mac (text (exploded a)) (number (pos 0)) d.dst_port in
            let (t, has, same) = listing.lists_ipv4 written (exploded a) a refl shown four in
            let (keys, drops, reported) =
              lists _ _ t "::" key values packets entries s drop_count r listing small has
                (listing.lists_no_ipv6 written refl)
                (agree _ _ _ _ (same ∙ sym (addresses.reads_str a)) refl ∙ rw⁻¹ hash (rw four refl))
                count in
            (written, keys, made ∙ rw four refl, drops, reported)
        | inr six ↦
            let written = drop_fields d.dev_mac (number (pos 0)) (text (exploded a)) d.dst_port in
            let (t, has, same) = listing.lists_ipv6 written (exploded a) a refl shown six in
            let (keys, drops, reported) =
              lists _ _ "0.0.0.0" t key values packets entries s drop_count r listing small
                (listing.lists_no_ipv4 written refl) has
                (agree _ _ _ _ refl (same ∙ sym (addresses.reads_str a)) ∙ rw⁻¹ hash (rw six refl))
                count in
            (written, keys, made ∙ rw six refl, drops, reported)
      ]
