-- ===== src/Examples/Naming.antt =====
-- An attack over IPv6, from the engine to the switch's drop table and back through the controller.
use transparent_security.Prelude.{
  ℕ, ◌≡◌, refl, String, true, false, Option, none, some, List, [], ◌∷◌, arith, Bool-cases, inl, inr,
  if◌then◌else◌,
}
use transparent_security.Prelude.Equality.{◌==◌, string_eq}
use transparent_security.Prelude.Dict.{get}
use transparent_security.Prelude.Result.{Result, ok}
use transparent_security.Convert.{ℤ, pos, from_hex, hex_value}
use transparent_security.External.{IpAddress}
use transparent_security.AttackHash.{create_attack_hash}
use transparent_security.Controller.Switches.{AttackRequest}
use transparent_security.Controller.DropReports.{
  MatchKeys, Reporter, Surroundings, report_match, report_drop,
}
use transparent_security.Barefoot.Client.{Datum, text, missing, number, Fields, Server}
use transparent_security.Barefoot.Aggregate.{drops_of, drop_key}
use transparent_security.Analytics.Extract.{IntData}
use transparent_security.Analytics.SimpleAe.{attack_of, attack_key}
use transparent_security.ControlLoop.Listing.{IsIpAddress, IsListing, IsSent, as_read}
use transparent_security.ControlLoop.Keys.{attack_key-report_match}
use transparent_security.Examples.Sniffing.{listed}

abbrev two_versions : IpAddress
two_versions = record {
  Address = String;
  ip_address = λ s. ok s;
  version = λ s. if s == "10.0.0.7" then 4 else 6;
  str = λ s. s;
  exploded = λ s. s;
}

two_versions-IsIpAddress : IsIpAddress two_versions
two_versions-IsIpAddress = record {
  versions = λ s. elim (Bool-cases (s == "10.0.0.7")) [
    | inl four ↦ inl (rw four refl)
    | inr other ↦ inr (rw other refl)
  ];
  reads_str = λ s. refl;
  reads_exploded = λ s. refl;
}

-- A value as the annotation of its field shows it.
abbrev shown : String → Option Datum → Datum
shown zero_address (some (text s)) = text s
shown zero_address (some (number n)) = text zero_address
shown zero_address other = missing

abbrev plain : Option Datum → Datum
plain none = missing
plain (some value) = value

abbrev annotated : Fields → Fields
annotated key =
    ("hdr.ethernet.src_mac", plain (get "hdr.ethernet.src_mac" key))
    ∷ ("meta.ipv4_addr", shown "0.0.0.0" (get "meta.ipv4_addr" key))
    ∷ ("meta.ipv6_addr", shown "::" (get "meta.ipv6_addr" key))
    ∷ ("meta.dst_port", plain (get "meta.dst_port" key))
    ∷ []

annotated-IsListing : IsListing two_versions "00:00:00:00:00:05" annotated
unfolding get
annotated-IsListing = record {
  lists_mac = λ key h. rw h refl;
  lists_port = λ key port h small. rw h refl;
  lists_ipv4 = λ key s a h read four. (s, rw h refl, read);
  lists_no_ipv4 = λ key h. rw h refl;
  lists_ipv6 = λ key s a h read six. (s, rw h refl, read);
  lists_no_ipv6 = λ key h. rw h refl;
}

abbrev digest : List ℕ → List ℕ
digest s = b'2' ∷ b'a' ∷ []

abbrev port_80 : String → Result ℤ
port_80 s = ok (pos 80)

abbrev seen : IntData
seen = record {
  dev_mac = "00:00:00:00:00:05";
  dev_addr = "fd00::5";
  dst_addr = "fd00::7";
  dst_port = 80;
  protocol = 17;
  packet_len = 200;
}

abbrev asked : AttackRequest
asked = record {
  src_mac = some "00:00:00:00:00:05";
  src_ip = none;
  dst_ip = some "fd00::7";
  dst_port = some "80";
}

asked-IsSent : IsSent port_80 (attack_of seen) asked
asked-IsSent = record {
  src_mac = refl;
  dst_ip = refl;
  port_text = "80";
  dst_port = refl;
  port_value = refl;
}

abbrev one_table : Server (Unit {0})
one_table = record {
  get_table = λ t. ok true;
  write = λ w d. (ok tt, d);
  read = λ t key d. ok [];
  already_exists = λ e. false;
}

abbrev lab : Surroundings
lab = record { sdn_ip = ok "10.0.0.9"; node_id = ok 1; timestamp = 7 }

abbrev reporter : Reporter
reporter = record { ae_ip = some "10.0.0.8"; is_delta = false; drop_rpt_count = []; sent = [] }

abbrev counters : Fields
counters = ("$COUNTER_SPEC_PKTS", number (pos 12)) ∷ []

seen-key : attack_key listed two_versions digest seen ≡ ok 42
unfolding attack_key create_attack_hash from_hex hex_value
seen-key = refl

attack_key-report_match_example :
    (written : Fields) × (keys : MatchKeys) × (drop_key one_table two_versions port_80 asked
      ≡ ok written)
    × (drops_of ((counters, annotated written) ∷ [])
        ≡ (as_read keys, number (pos 12)) ∷ drops_of [])
    × (report_match two_versions digest lab (some keys) 12 reporter
        ≡ report_drop lab 42 12 reporter)
unfolding get
attack_key-report_match_example =
    attack_key-report_match listed two_versions digest one_table port_80 annotated seen 42 asked
      counters (number (pos 12)) [] lab 12 reporter two_versions-IsIpAddress annotated-IsListing
      seen-key (omega arith) asked-IsSent refl
