-- ===== src/Http.antt =====
-- The resources of trans_sec/controller/http_server_flask.py that are registered with the server. The
-- arguments are given as they were parsed. A call that returns is answered with success and the
-- status 201, an exception with an error of the server; a method that a resource has not is refused.
pub mod Telemetry
use transparent_security.Prelude.{ℕ, String, Bool, true, false, Option, none, some, List}
use transparent_security.Prelude.Result.{Exception, Result, ok, err, key_error}
use transparent_security.Prelude.Exec.{Exec}
use transparent_security.External.{IpAddress}
use transparent_security.Controller.Switches.{AttackRequest, SwitchClass, Network, at_position}
use transparent_security.Controller.Dispatch.{
  ForwardRequest, InspectionRequest, TelemetryRequest, of_attack, of_telemetry, Host, logged,
  data_forward, data_inspection, add_attacker, remove_attacker, at_controller, add_agg_attacker,
  remove_agg_attacker, activate_telem_rpt, set_sampling_value, update_dflt_port, update_mcast_grp,
  get_mcast_grp_ports,
}

pub data Method : Type 0 where
  post delete : Method

module _ {S Ports : Type 0} (switch : SwitchClass S Ports) (already_exists : Exception → Bool)
    (literal_eval : Option String → Result Ports) (ipaddress : IpAddress) (hosts : List Host) where
  unfoldable pub data_forward_resource : Method → ForwardRequest → Exec (Network S) (Unit {0})
  unfolding data_forward
  data_forward_resource post args = data_forward switch already_exists literal_eval args false
  data_forward_resource delete args = data_forward switch already_exists literal_eval args true

  unfoldable pub data_inspection_resource : Method → InspectionRequest → Exec (Network S) (Unit {0})
  unfolding data_inspection
  data_inspection_resource post args = data_inspection switch already_exists literal_eval args false
  data_inspection_resource delete args =
      data_inspection switch already_exists literal_eval args true

  unfoldable pub gw_attack_resource : Method → AttackRequest → Exec (Network S) (Unit {0})
  unfolding add_attacker remove_attacker
  gw_attack_resource post args = add_attacker switch ipaddress hosts args
  gw_attack_resource delete args = remove_attacker switch ipaddress hosts args

  unfoldable pub agg_attack_resource : Method → AttackRequest → Exec (Network S) (Unit {0})
  unfolding add_agg_attacker remove_agg_attacker
  agg_attack_resource post args = add_agg_attacker switch already_exists literal_eval args
  agg_attack_resource delete args =
      remove_agg_attacker switch already_exists literal_eval (of_attack args)

  unfoldable pub telemetry_report_resource : Method → TelemetryRequest → Exec (Network S) (Unit {0})
  unfolding activate_telem_rpt remove_agg_attacker
  telemetry_report_resource post args = activate_telem_rpt switch already_exists literal_eval args
  telemetry_report_resource delete args =
      remove_agg_attacker switch already_exists literal_eval (of_telemetry args)

  -- The last three resources have no `delete`.
  unfoldable pub sampling_resource : ℕ → Exec (Network S) (Unit {0})
  unfolding set_sampling_value
  sampling_resource sample = set_sampling_value switch already_exists literal_eval sample

  unfoldable pub default_port_resource : Option String → Option ℕ → Exec (Network S) (Unit {0})
  unfolding update_dflt_port
  default_port_resource switch_mac port =
      update_dflt_port switch already_exists literal_eval switch_mac port

  unfoldable pub multicast_resource : Option String → Option String → Exec (Network S) (Unit {0})
  unfolding update_mcast_grp
  multicast_resource switch_mac ports =
      update_mcast_grp switch already_exists literal_eval switch_mac ports

  unfoldable pub multicast_ports : Option String → Network S → Option (Result Ports) × Network S
  unfolding get_mcast_grp_ports
  multicast_ports switch_mac = get_mcast_grp_ports switch already_exists literal_eval switch_mac
