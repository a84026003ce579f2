-- ===== src/Http/Telemetry.antt =====
-- What removing a telemetry report does (trans_sec/controller/http_server_flask.py).
use transparent_security.Prelude.{◌≡◌, refl, String, Bool, Option, List, inl, inr, Option-cases}
use transparent_security.Prelude.Equality.{string_eq}
use transparent_security.Prelude.Dict.{get, get-put}
use transparent_security.Prelude.Result.{Exception, Result}
use transparent_security.Prelude.Exec.{Exec}
use transparent_security.External.{IpAddress}
use transparent_security.Controller.Switches.{SwitchClass, Network}
use transparent_security.Controller.Dispatch.{
  TelemetryRequest, Host, at_controller, remove_agg_attacker,
}
use transparent_security.Http.{delete, telemetry_report_resource}

module _ {S Ports : Type 0} (switch : SwitchClass S Ports) (already_exists : Exception → Bool)
    (literal_eval : Option String → Result Ports) where
  core-at_controller :
      (act : Exec (List S) (Unit {0})) (net : Network S)
      → get "core" (at_controller switch already_exists literal_eval "aggregate" act net).1
        ≡ get "core" net
  unfolding at_controller
  core-at_controller act net = elim (Option-cases (get "aggregate" net)) [
    | inl none_there ↦ rw (none_there, at_controller) refl
    | inr (switches, there) ↦
        rw (there, at_controller) (get-put "aggregate" "core" (act switches).1 net)
  ]

-- Removing a telemetry report over HTTP leaves the core controller's switches as they are, whatever
-- the arguments: the report stays set up.
pub telemetry_report_resource-core :
    {S Ports : Type 0} (switch : SwitchClass S Ports) (already_exists : Exception → Bool)
    (literal_eval : Option String → Result Ports) (ipaddress : IpAddress) (hosts : List Host)
    (args : TelemetryRequest) (net : Network S)
    → get "core"
        (telemetry_report_resource switch already_exists literal_eval ipaddress hosts delete args
          net).1
      ≡ get "core" net
unfolding telemetry_report_resource remove_agg_attacker
telemetry_report_resource-core switch ae le ip hosts args net =
    core-at_controller switch ae le _ net
