-- ===== src/Controller/Dispatch.antt =====
-- The requests of `DdosSdnController` of trans_sec/controller/ddos_sdn_controller.py, and the
-- controllers to which it hands them: aggregate_controller.py, core_controller.py and
-- gateway_controller.py of the same directory. Where an exception is only logged, the result is that
-- of a call that returns.
use transparent_security.Prelude.{
  ℕ, ◌+◌, String, Bool, true, false, Option, none, some, List, [], ◌∷◌, if◌then◌else◌,
}
use transparent_security.Prelude.Equality.{◌==◌, nat_eq, string_eq, contains}
use transparent_security.Prelude.Dict.{get, put}
use transparent_security.Prelude.Result.{
  Exception, Result, ok, err, type_error, value_error, key_error,
}
use transparent_security.Prelude.Exec.{Exec, pure, lift, catch, ◌>>=◌, ◌>>◌}
use transparent_security.External.{IpAddress}
use transparent_security.Controller.Switches.{
  AttackRequest, SwitchClass, Network, at_first_of, at_all, at_all_of, at_position,
}

pub record ForwardRequest : Type 0 where
  pub switch_mac : Option String
  pub dst_mac : Option String
  pub output_port : Option ℕ

pub record InspectionRequest : Type 0 where
  pub switch_mac : Option String
  pub device_id : ℕ
  pub device_mac : Option String

pub record TelemetryRequest : Type 0 where
  pub switch_mac : Option String
  pub ae_ip : Option String
  pub ae_mac : Option String
  pub port : Option String

-- The arguments that `remove_agg_attacker` is called with: those of an attack or, by the resource for
-- telemetry reports, those of a telemetry report.
pub data Removal : Type 0 where
  of_attack : AttackRequest → Removal
  of_telemetry : TelemetryRequest → Removal

-- `mac == value`, where the value may be None
abbrev pub is_mac : Option String → String → Bool
is_mac none mac = false
is_mac (some value) mac = mac == value

-- An optional result of a loop: None where no switch was found.
abbrev pub where_found : {S : Type 0} → Option (Result (Unit {0})) × S → Result (Unit {0}) × S
where_found (none, s) = (ok tt, s)
where_found (some r, s) = (r, s)

-- `try: m except Exception: log`
abbrev pub logged : {S : Type 0} → Exec S (Unit {0}) → Exec S (Unit {0})
logged m s = catch (m s) (λ e t. (ok tt, t))

-- `already_exists` is whether `str(e)` holds 'ALREADY_EXISTS', and `literal_eval` is `ast`'s.
module _ {S Ports : Type 0} (switch : SwitchClass S Ports) (already_exists : Exception → Bool)
    (literal_eval : Option String → Result Ports) where
  open switch use {
    mac, is_gateway, add_data_forward, del_data_forward, add_data_inspection, del_data_inspection,
    add_attack, stop_attack, setup_telemetry_rpt, set_trpt_sampling_value, update_default_port,
    update_arp_multicast, get_arp_multicast_ports, get_data_inspection_src_mac_keys,
  }

  -- What a data forward request does at its switch.
  unfoldable pub forward_at : ForwardRequest → Bool → Exec S (Unit {0})
  forward_at df_req del_flag s =
      if del_flag
      then del_data_forward df_req.dst_mac s
      else catch (add_data_forward df_req.dst_mac df_req.output_port s)
          (λ e t. if already_exists e then (ok tt, t) else (err e, t))

  unfoldable pub data_forward : ForwardRequest → Bool → Exec (Network S) (Unit {0})
  unfolding forward_at at_first_of
  data_forward df_req del_flag net =
      where_found
        (at_first_of (λ s. is_mac df_req.switch_mac (mac s)) (forward_at df_req del_flag) net)

  unfoldable pub inspect_at : InspectionRequest → Bool → Exec S (Unit {0})
  inspect_at di_req del_flag =
      if del_flag
      then del_data_inspection di_req.device_id di_req.device_mac
      else add_data_inspection di_req.device_id di_req.device_mac

  unfoldable pub data_inspection : InspectionRequest → Bool → Exec (Network S) (Unit {0})
  unfolding inspect_at at_first_of
  data_inspection di_req del_flag net =
      where_found
        (at_first_of (λ s. is_mac di_req.switch_mac (mac s)) (inspect_at di_req del_flag) net)

  unfoldable pub update_dflt_port : Option String → Option ℕ → Exec (Network S) (Unit {0})
  unfolding at_all_of
  update_dflt_port switch_mac port =
      at_all_of (λ s. is_mac switch_mac (mac s)) (update_default_port port)

  unfoldable pub update_mcast_grp : Option String → Option String → Exec (Network S) (Unit {0})
  unfolding at_all_of
  update_mcast_grp switch_mac ports =
      at_all_of (λ s. is_mac switch_mac (mac s))
        (λ s. (lift (literal_eval ports) >>= λ ports. update_arp_multicast ports) s)

  -- None where no switch has the MAC.
  unfoldable pub get_mcast_grp_ports : Option String → Network S → Option (Result Ports) × Network S
  unfolding at_first_of
  get_mcast_grp_ports switch_mac =
      at_first_of (λ s. is_mac switch_mac (mac s)) get_arp_multicast_ports

  -- A call of the controller with a key, whose switches are given to it; without that controller,
  -- nothing is done.
  unfoldable pub at_controller : String → Exec (List S) (Unit {0}) → Exec (Network S) (Unit {0})
  at_controller key act net = elim (get key net) [
    | none ↦ (ok tt, net)
    | some switches ↦ let (r, left) = act switches in (r, put key left net)
  ]

  unfoldable pub add_agg_attacker : AttackRequest → Exec (Network S) (Unit {0})
  unfolding at_controller at_position
  add_agg_attacker attack = at_controller "aggregate" (logged (at_position 0 (add_attack attack)))

  -- `agg_switch.stop_attack(**attack)`, which begins with `kwargs['dst_ip']`: the arguments of a
  -- telemetry report have no such key.
  abbrev stop_with : Removal → Exec S (Unit {0})
  stop_with (of_attack request) = stop_attack request
  stop_with (of_telemetry request) = λ s. (err key_error, s)

  unfoldable pub remove_agg_attacker : Removal → Exec (Network S) (Unit {0})
  unfolding at_controller at_position
  remove_agg_attacker removal =
      at_controller "aggregate" (logged (at_position 0 (stop_with removal)))

  -- `setup_telem_rpt` of the core controller
  unfoldable pub setup_telem_rpt : TelemetryRequest → Exec (List S) (Unit {0})
  unfolding at_all
  setup_telem_rpt request =
      at_all (λ s. is_mac request.switch_mac (mac s))
        (setup_telemetry_rpt request.ae_ip request.ae_mac request.port)

  unfoldable pub activate_telem_rpt : TelemetryRequest → Exec (Network S) (Unit {0})
  unfolding at_controller setup_telem_rpt
  activate_telem_rpt request = at_controller "core" (logged (setup_telem_rpt request))

  -- Like the source, this sets the telemetry report up.
  unfoldable pub deactivate_telem_rpt : TelemetryRequest → Exec (Network S) (Unit {0})
  unfolding at_controller setup_telem_rpt
  deactivate_telem_rpt request = at_controller "core" (logged (setup_telem_rpt request))

  -- A sample size of 0 counts as none.
  unfoldable pub set_sampling_value : ℕ → Exec (Network S) (Unit {0})
  unfolding at_controller at_all
  set_sampling_value sample_size =
      if sample_size == 0
      then pure tt
      else at_controller "core" (logged (at_all (λ s. true) (set_trpt_sampling_value sample_size)))

-- The hosts of the topology, as far as an attack is matched with them.
pub record Host : Type 0 where
  pub host_mac : String

-- `list(filter(…))[0]` of the hosts with the MAC
unfoldable pub find_host : Option String → List Host → Option Host
find_host src_mac [] = none
find_host src_mac (h ∷ hosts) =
    let rest = find_host src_mac hosts in if is_mac src_mac h.host_mac then some h else rest

module _ {S Ports : Type 0} (switch : SwitchClass S Ports) (ipaddress : IpAddress) where
  open switch use {is_gateway, add_attack, stop_attack, get_data_inspection_src_mac_keys}
  open ipaddress use {ip_address}

  abbrev inspects : Option String → List String → Bool
  inspects none macs = false
  inspects (some src_mac) macs = contains src_mac macs

  -- The loop of `__process_gw_attack` over the switches from a position, with the position of the
  -- switch that was found so far: the last gateway that inspects the MAC, or, as soon as a gateway
  -- inspects nothing, the first switch.
  unfoldable pub choose_switch : Option String → ℕ → Option ℕ → List S → Result (Option ℕ)
  choose_switch src_mac i chosen [] = ok chosen
  choose_switch src_mac i chosen (s ∷ switches) = elim (is_gateway s) [
    | false ↦ choose_switch src_mac (i + 1) chosen switches
    | true ↦ elim (get_data_inspection_src_mac_keys s) [
      | err e ↦ err e
      | ok [] ↦ ok (some 0)
      | ok (mac ∷ macs) ↦
          choose_switch src_mac (i + 1) (if inspects src_mac (mac ∷ macs) then some i else chosen)
            switches
    ]
  ]

  abbrev address_of : Option String → Result (Unit {0})
  address_of none = err value_error
  address_of (some ip) = elim (ip_address ip) [ ok a ↦ ok tt | err e ↦ err e ]

  -- `attack_switch, dst_addr_key = …` of None is a TypeError. That the dict of the attack gets a
  -- host and an address key besides makes no difference to the switch.
  unfoldable pub process_gw_attack :
      (AttackRequest → Exec S (Unit {0})) → AttackRequest → Exec (List S) (Unit {0})
  unfolding choose_switch at_position
  process_gw_attack act attack switches = elim (choose_switch attack.src_mac 0 none switches) [
    | err e ↦ (err e, switches)
    | ok none ↦ (err type_error, switches)
    | ok (some i) ↦ (lift (address_of attack.src_ip) >> at_position i (act attack)) switches
  ]

  -- `__get_attack_host`, of which None cannot be taken apart
  unfoldable pub with_host :
      List Host → AttackRequest → Exec (List S) (Unit {0}) → Exec (Network S) (Unit {0})
  unfolding find_host
  with_host hosts attack act net = elim (get "gateway" net) [
    | none ↦ (err type_error, net)
    | some switches ↦ elim (find_host attack.src_mac hosts) [
      | none ↦ (err type_error, net)
      | some host ↦ let (r, left) = act switches in (r, put "gateway" left net)
    ]
  ]

  unfoldable pub add_attacker : List Host → AttackRequest → Exec (Network S) (Unit {0})
  unfolding with_host process_gw_attack
  add_attacker hosts attack = with_host hosts attack (process_gw_attack add_attack attack)

  unfoldable pub remove_attacker : List Host → AttackRequest → Exec (Network S) (Unit {0})
  unfolding with_host process_gw_attack
  remove_attacker hosts attack =
      with_host hosts attack (logged (process_gw_attack stop_attack attack))
