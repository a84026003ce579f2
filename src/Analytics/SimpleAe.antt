-- ===== src/Analytics/SimpleAe.antt =====
-- `SimpleAE` of trans_sec/analytics/oinc.py. Times are in microseconds. Every method is an action on
-- the engine's state, which also records the requests sent to the SDN controller.
pub mod Window
mod Sums
pub mod Entries
pub mod Detection
pub mod Isolation
pub mod Stopping
pub mod Progress
pub mod KeyMachine
pub mod Refinement
pub mod Feed
pub mod Lapse
pub mod Flood
pub mod Consistency
pub mod Invariant
use transparent_security.Prelude.{
  ℕ, suc, ◌+◌, ◌*◌, String, Bool, true, false, not, ◌&&◌, ◌||◌, Option, none, some, List, [], ◌∷◌,
  ◌++◌, ltb, leb, if◌then◌else◌,
}
use transparent_security.Prelude.Equality.{◌==◌, nat_eq}
use transparent_security.Prelude.Lists.{length}
use transparent_security.Prelude.Dict.{Dict, get, put}
use transparent_security.Prelude.Result.{Result, ok, err}
use transparent_security.Prelude.Exec.{Exec, pure, lift, gets, modify, catch, ◌>>=◌, ◌>>◌}
use transparent_security.Consts.{udp_proto, udp_int_dst_port, udp_trpt_dst_port}
use transparent_security.AttackHash.{create_attack_hash}
use transparent_security.External.{Scapy, IpAddress, IpPacket, Segment}
use transparent_security.Analytics.Extract.{
  IntData, parse_ip_pkt, extract_int_data, extract_trpt_data, extract_drop_rpt,
}

-- The dict that is sent with a request.
pub record Attack : Type 0 where
  pub src_mac : String
  pub dst_port : ℕ
  pub dst_ip : String

pub data Request : Type 0 where
  post delete : String → Attack → Request

-- A dict may hold None under a key, and `get` does not tell that from a missing key.
pub record SimpleAe : Type 0 where
  pub sdn_attack_context : String
  pub packet_count : ℕ
  pub sample_interval : ℕ
  pub drop_count : ℕ
  pub byte_count : ℕ
  pub count_map : Dict ℕ (Option (List (ℕ × ℕ)))
  pub attack_map : Dict ℕ (Option ℕ)
  pub attack_payload : Dict ℕ (Option Attack)
  pub drop_rpt_map : Dict ℕ (Option (ℕ × ℕ))
  pub requests : List Request

abbrev pub joined {ℓ} : {A : Type ℓ} → Option (Option A) → Option A
joined none = none
joined (some o) = o

-- `d.get(k)`
abbrev pub entry {ℓ} : {V : Type ℓ} → ℕ → Dict ℕ (Option V) → Option V
entry k d = joined (get k d)

-- What the world answers while one packet is handled: `datetime.now()`, `time.time()` where the last
-- attack is tested and where it is stored, and the outcome of the HTTP request.
pub record World : Type 0 where
  pub now : ℕ
  pub tested : ℕ
  pub stored : ℕ
  pub reply : Result (Unit {0})

abbrev pub Action : Type 0 → Type 0
Action A = Exec SimpleAe A

abbrev request : Request → World → Action (Unit {0})
request r w = do modify (λ ae. record ae { requests = ae.requests ++ r ∷ [] }); lift w.reply

unfoldable pub send_attack : Attack → World → Action (Unit {0})
send_attack attack w ae = request (post ae.sdn_attack_context attack) w ae

unfoldable pub stop_attack : Attack → World → Action (Unit {0})
stop_attack attack w ae = request (delete ae.sdn_attack_context attack) w ae

-- The drop report entry of a key: made anew, or its number of idle reports is set back.
abbrev pub touched : Option (ℕ × ℕ) → ℕ × ℕ
touched none = (0, 0)
touched (some (count, idle)) = (count, 0)

abbrev pub sample_list : Option (List (ℕ × ℕ)) → List (ℕ × ℕ)
sample_list none = []
sample_list (some l) = l

-- A packet of `pkt_bytes` bytes is noted under its key. (`get` of an empty list counts as false, and
-- the list that is then made is empty as well.)
unfoldable pub note_packet : ℕ → ℕ → ℕ → Action (Unit {0})
note_packet key now pkt_bytes = modify λ ae. record ae {
  drop_rpt_map = put key (some (touched (entry key ae.drop_rpt_map))) ae.drop_rpt_map;
  count_map =
      put key (some (sample_list (entry key ae.count_map) ++ (now, pkt_bytes) ∷ [])) ae.count_map;
}

-- `not last_attack or time.time() - last_attack > 1`
unfoldable pub may_send : Option ℕ → ℕ → Bool
may_send none tested = true
may_send (some last_attack) tested = last_attack == 0 || ltb (last_attack + 1_000_000) tested

unfoldable pub notify : ℕ → Attack → World → Action Bool
unfolding send_attack
notify key attack w ae =
    if may_send (entry key ae.attack_map) w.tested
    then (let started = record ae {
      attack_map = put key (some w.stored) ae.attack_map;
      attack_payload = put key (some attack) ae.attack_payload;
    } in
        catch ((send_attack attack w >> pure true) started) (λ e. pure false))
    else (ok true, ae)

-- The loop over the samples of the key, which gives the count and the total bytes.
unfoldable pub sum_window : ℕ → ℕ → Action (ℕ × ℕ)
unfolding Window.scan
sum_window key now ae =
    let samples = sample_list (entry key ae.count_map) in
    let (r, left) = Window.scan (suc (length samples)) ae.sample_interval now 0 samples 0 0 in
    (r, record ae { count_map = put key (some left) ae.count_map })

abbrev pub attack_of : IntData → Attack
attack_of d = record { src_mac = d.dev_mac; dst_port = d.dst_port; dst_ip = d.dst_addr }

abbrev pub is_attack : SimpleAe → ℕ × ℕ → Bool
is_attack ae (count, total_bytes) = ltb ae.packet_count count || ltb ae.byte_count total_bytes

unfoldable pub detect : ℕ → Attack → World → Action Bool
unfolding sum_window notify
detect key attack w = do
  window ← sum_window key w.now
  attacked ← gets (λ ae. is_attack ae window)
  if attacked then notify key attack w else pure false

-- `__process` behind the computation of the key
unfoldable pub process_key : ℕ → Attack → ℕ → World → Action Bool
unfolding note_packet detect
process_key key attack pkt_bytes w = note_packet key w.now pkt_bytes >> detect key attack w

-- The maps without the key, when an attack has stopped.
abbrev pub cleared : ℕ → SimpleAe → SimpleAe
cleared key ae = record ae {
  attack_payload = put key none ae.attack_payload;
  attack_map = put key none ae.attack_map;
  count_map = put key none ae.count_map;
  drop_rpt_map = put key none ae.drop_rpt_map;
}

abbrev stop_payload : Option Attack → World → Action (Unit {0})
stop_payload none w = pure tt
stop_payload (some attack_body) w = stop_attack attack_body w

unfoldable pub finish_attack : ℕ → World → Action Bool
unfolding stop_attack
finish_attack key w = do
  attack_body ← gets (λ ae. entry key ae.attack_payload)
  stop_payload attack_body w
  modify (cleared key)
  pure true

-- A drop report for a key whose entry is given.
unfoldable pub report_entry : ℕ → ℕ → Option (ℕ × ℕ) → World → Action Bool
unfolding finish_attack
report_entry key drop_count none w = pure false
report_entry key drop_count (some (old_count, idle)) w = do
  let changed = not (old_count == drop_count)
  let new_tuple : ℕ × ℕ = if changed then (drop_count, 0) else (old_count, idle + 1)
  modify (λ ae. record ae { drop_rpt_map = put key (some new_tuple) ae.drop_rpt_map })
  limit ← gets (λ ae. ae.drop_count)
  if changed || ltb (idle + 1) limit then pure false else finish_attack key w

unfoldable pub report_key : ℕ → ℕ → World → Action Bool
unfolding report_entry
report_key key drop_count w ae = report_entry key drop_count (entry key ae.drop_rpt_map) w ae

module _ (scapy : Scapy) (ipaddress : IpAddress) (sha256_hex : List ℕ → List ℕ) where
  open scapy use {Bytes, Packet, ether, udp}
  open ipaddress use {ip_address, version, str}

  unfoldable pub attack_key : IntData → Result ℕ
  unfolding create_attack_hash
  attack_key d = elim (ip_address d.dst_addr) [
    | ok ip_addr ↦
        if version ip_addr == 4
        then create_attack_hash ipaddress sha256_hex d.dev_mac d.dst_port (str ip_addr) "::"
        else create_attack_hash ipaddress sha256_hex d.dev_mac d.dst_port "0.0.0.0" (str ip_addr)
    | err e ↦ err e
  ]

  unfoldable pub process : IntData → ℕ → World → Action Bool
  unfolding attack_key process_key
  process d pkt_bytes w = do key ← lift (attack_key d); process_key key (attack_of d) pkt_bytes w

  abbrev process_int_data : Option IntData → ℕ → World → Action (Option Bool)
  process_int_data none pkt_bytes w = pure (some false)
  process_int_data (some d) pkt_bytes w = do attacked ← process d pkt_bytes w; pure (some attacked)

  abbrev process_udp : Packet → Segment Bytes → ℕ → ℕ → World → Action (Option Bool)
  process_udp packet udp_packet udp_dport pkt_bytes w =
      if udp_packet.dport == udp_dport && udp_dport == udp_int_dst_port
      then (do
        frame ← lift (ether packet)
        d ← lift (extract_int_data scapy frame)
        process_int_data d pkt_bytes w)
      else if udp_packet.dport == udp_dport && udp_dport == udp_trpt_dst_port
      then (do d ← lift (extract_trpt_data scapy udp_packet); process_int_data d pkt_bytes w)
      else pure (some false)

  -- The value is None where the packet is not UDP.
  unfoldable pub process_packet : Packet → ℕ → World → Action (Option Bool)
  unfolding parse_ip_pkt process extract_int_data extract_trpt_data
  process_packet packet udp_dport w = elim (parse_ip_pkt scapy packet) [
    | none ↦ pure none
    | some ip_pkt ↦
        if ip_pkt.protocol == udp_proto
        then (do
          udp_packet ← lift (udp ip_pkt.payload)
          process_udp packet udp_packet udp_dport ip_pkt.size w)
        else pure none
  ]

  abbrev report_udp : Segment Bytes → World → Action Bool
  report_udp udp_packet w =
      if udp_packet.dport == udp_trpt_dst_port
      then (do
        (hash_key, drop_count) ← lift (extract_drop_rpt scapy udp_packet)
        report_key hash_key drop_count w)
      else pure false

  unfoldable pub process_drop_rpt : Packet → World → Action Bool
  unfolding parse_ip_pkt report_key extract_drop_rpt
  process_drop_rpt packet w = elim (parse_ip_pkt scapy packet) [
    | none ↦ pure false
    | some ip_pkt ↦
        if ip_pkt.protocol == udp_proto
        then (do udp_packet ← lift (udp ip_pkt.payload); report_udp udp_packet w)
        else pure false
  ]
