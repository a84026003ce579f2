-- ===== src/P4Runtime/Stub.antt =====
-- The device behind a switch of trans_sec/p4runtime_lib/p4rt_switch.py, and the switch's own state.
use transparent_security.Prelude.{ℕ, String, Bool, Option, List}
use transparent_security.Prelude.Dict.{Dict}
use transparent_security.Prelude.Result.{Result}
use transparent_security.Prelude.Exec.{Exec}
use transparent_security.Convert.{ℤ, Value}
use transparent_security.P4Info.{P4Info}
use transparent_security.P4Info.Building.{TableEntry}
use transparent_security.P4Info.Engine.{EngineEntry, DigestEntry}

-- An update of a write request.
pub data Change : Type 0 where
  insert delete : TableEntry → Change
  engine : EngineEntry → Change
  remove_engine : EngineEntry → Change
  digest : DigestEntry → Change

-- The match fields of an entry that was read: their ids and their exact values.
abbrev pub Entity : Type 0
Entity = List (ℕ × List ℕ)

-- The calls of the gRPC stub, which may raise: writing a request with one update, and the entities of
-- the first response to reading a table.
pub record Device (D : Type 0) : Type 0 where
  pub write : Change → D → Result (Unit {0}) × D
  pub read : ℕ → D → Result (List Entity)

-- `hosts` of the topology are not part of it.
pub record Switch (D : Type 0) : Type 0 where
  pub info : P4Info
  pub mac : String
  pub is_gateway : Bool
  pub device_id : ℕ
  pub int_device_id : ℤ
  pub p4_ingress : String
  pub p4_egress : String
  pub multicast_entries : Option (List (Dict String Value))
  pub device : D

module _ {D : Type 0} (device : Device D) where
  -- A write request; what it raises is raised again.
  unfoldable pub write_change : Change → Exec (Switch D) (Unit {0})
  write_change change s =
      let (r, after) = device.write change s.device in (r, record s { device = after })
