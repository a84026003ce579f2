-- ===== src/Examples/Controlling.antt =====
-- Runs of trans_sec/controller/ddos_sdn_controller.py, on switches that only count their calls.
use transparent_security.Prelude.{
  ℕ, suc, ◌≡◌, refl, String, Bool, true, false, Option, none, some, List, [], ◌∷◌,
}
use transparent_security.Prelude.Result.{Exception, Result, ok}
use transparent_security.Prelude.Exec.{Exec}
use transparent_security.Prelude.Dict.{Dict, get}
use transparent_security.External.{IpAddress}
use transparent_security.Controller.Switches.{SwitchClass, Network}
use transparent_security.Controller.Dispatch.{
  ForwardRequest, InspectionRequest, data_forward, forward_at,
}
use transparent_security.Controller.Routing.{switches_of, data_forward-first}
use transparent_security.Controller.DropReports.{
  Reporter, Surroundings, MatchKeys, send_drop_report,
}
use transparent_security.Controller.Telescope.{Balanced, send_drop_report-Balanced}
use transparent_security.Controller.Dispatch.{TelemetryRequest}
use transparent_security.Prelude.Equality.{string_eq}
use transparent_security.Http.{delete, telemetry_report_resource}
use transparent_security.Http.Telemetry.{telemetry_report_resource-core}

abbrev Counter : Type 0
Counter = String × ℕ

abbrev tick : Exec Counter (Unit {0})
tick (mac, n) = (ok tt, (mac, suc n))

abbrev counters : SwitchClass Counter ℕ
counters = record {
  mac = λ s. s.0;
  is_gateway = λ s. true;
  add_data_forward = λ _ _. tick;
  del_data_forward = λ _. tick;
  add_data_inspection = λ _ _. tick;
  del_data_inspection = λ _ _. tick;
  add_attack = λ _. tick;
  stop_attack = λ _. tick;
  setup_telemetry_rpt = λ _ _ _. tick;
  set_trpt_sampling_value = λ _. tick;
  update_default_port = λ _. tick;
  update_arp_multicast = λ _. tick;
  get_arp_multicast_ports = λ s. (ok 0, s);
  get_data_inspection_src_mac_keys = λ s. ok [];
}

abbrev never : Exception → Bool
never e = false

abbrev no_ports : Option String → Result ℕ
no_ports s = ok 0

abbrev network : Network Counter
network = ("core", ("a", 0) ∷ []) ∷ ("gateway", ("b", 0) ∷ ("c", 0) ∷ []) ∷ []

abbrev forward_to : String → ForwardRequest
forward_to m = record { switch_mac = some m; dst_mac = some "d"; output_port = some 2 }

abbrev inspect_for : String → InspectionRequest
inspect_for m = record { switch_mac = some m; device_id = 1; device_mac = some "d" }

data_forward-first_example :
    ((data_forward counters never no_ports (forward_to "b") false network).0
      ≡ (forward_at counters never no_ports (forward_to "b") false ("b", 0)).0)
    × (switches_of (data_forward counters never no_ports (forward_to "b") false network).1
        ≡ ("a", 0)
          ∷ (forward_at counters never no_ports (forward_to "b") false ("b", 0)).1
          ∷ ("c", 0)
          ∷ [])
data_forward-first_example =
    data_forward-first counters never no_ports (forward_to "b") false network (("a", 0) ∷ [])
      (("c", 0) ∷ []) ("b", 0) refl (refl, tt) refl

abbrev text_address : IpAddress
text_address = record {
  Address = String;
  ip_address = λ s. ok s;
  version = λ s. 4;
  str = λ s. s;
  exploded = λ s. s;
}

abbrev short_digest : List ℕ → List ℕ
short_digest s = b'2' ∷ b'a' ∷ []

abbrev here : Surroundings
here = record { sdn_ip = ok "10.0.0.9"; node_id = ok 5; timestamp = 1_600_000_000 }

abbrev reporter : Reporter
reporter = record { ae_ip = some "10.0.0.8"; is_delta = true; drop_rpt_count = []; sent = [] }

abbrev drops : Dict String (Result (List (Option MatchKeys × ℕ)))
drops =
    (
      "aggregate",
      ok (
          (none, 0)
          ∷ (some (record { mac = "00:11"; port = 80; ip_addr = "10.0.0.1"; ipv6_addr = "::" }), 7)
          ∷ []),
    )
    ∷ []

send_drop_report-Balanced_example :
    Balanced 42 (send_drop_report text_address short_digest here drops reporter).1
unfolding get
send_drop_report-Balanced_example =
    send_drop_report-Balanced text_address short_digest here "10.0.0.9" 5 42 drops reporter refl
      refl refl refl

abbrev report_args : TelemetryRequest
report_args = record {
  switch_mac = some "a";
  ae_ip = some "10.0.0.8";
  ae_mac = some "00:99";
  port = some "3";
}

telemetry_report_resource-core_example :
    get "core"
      (telemetry_report_resource counters never no_ports text_address [] delete report_args
        network).1
    ≡ get "core" network
telemetry_report_resource-core_example =
    telemetry_report_resource-core counters never no_ports text_address [] report_args network
