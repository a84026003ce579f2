-- ===== src/Examples/Devices.antt =====
-- Runs of trans_sec/packet/packet_telemetry.py.
use transparent_security.Prelude.{◌≡◌, ◌&&◌, none, some, [], if◌then◌else◌}
use transparent_security.Prelude.Equality.{◌==◌, nat_eq}
use transparent_security.Prelude.Result.{ok, err, index_error}
use transparent_security.Telemetry.{Telemetry, add_switch, add_host, append_child, update_device}
use transparent_security.Telemetry.UsedUp.{bearers, update_device-unchanged}

abbrev empty : Telemetry
empty = record {
  time_stamp = "2020-01-01";
  global_dropped = 4;
  global_forwarded = 4;
  by_switch = [];
  switches = [];
  hosts = [];
}

abbrev devices : Telemetry
devices = add_host "h" "00:11" "camera" "host" (add_switch "s" "00:22" "gateway" "gateway" empty)

update_device-unchanged_example :
    (update_device "s" (some 3) none devices ≡ (
      if bearers "s" devices.hosts == 0 && bearers "s" devices.switches == 1
      then (err index_error, devices)
      else (ok tt, devices)))
    × (append_child "s" "h" devices ≡ devices)
update_device-unchanged_example = update_device-unchanged "s" "s" "h" (some 3) none devices
