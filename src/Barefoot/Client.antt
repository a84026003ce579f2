-- ===== src/Barefoot/Client.antt =====
-- The client library of the Barefoot runtime, and the state of a switch of
-- trans_sec/bfruntime_lib/bfrt_switch.py.
use transparent_security.Prelude.{ℕ, String, Bool, Option, List}
use transparent_security.Prelude.Dict.{Dict}
use transparent_security.Prelude.Result.{Exception, Result}
use transparent_security.Prelude.Exec.{Exec}
use transparent_security.Convert.{ℤ}

-- The value of a `KeyTuple` or a `DataTuple`.
pub data Datum : Type 0 where
  missing : Datum
  text : String → Datum
  number : ℤ → Datum
  numbers : List ℤ → Datum
  flag : Bool → Datum
  flags : List Bool → Datum
  packed : List ℕ → Datum

abbrev pub Fields : Type 0
Fields = Dict String Datum

-- `entry_add`, `entry_del` and `default_entry_set` of a table
pub data Write : Type 0 where
  add : String → Fields → Option String → Fields → Write
  del : String → Fields → Write
  default : String → Option String → Fields → Write

-- The library: `table_get`, the writes of the tables, `entry_get` with the data and the key of
-- each entry, and whether 'ALREADY_EXISTS' is in the text of an exception.
pub record Server (D : Type 0) : Type 0 where
  pub get_table : String → Result Bool
  pub write : Write → D → Result (Unit {0}) × D
  pub read : String → Fields → D → Result (List (Fields × Fields))
  pub already_exists : Exception → Bool

-- A tunnel of the topology; its port is `int` of the text there.
pub record Tunnel : Type 0 where
  pub switch_port : Result ℤ
  pub type : Option String

pub record Switch (D : Type 0) : Type 0 where
  pub int_device_id : ℤ
  pub tunnels : List Tunnel
  pub server : D

module _ {D : Type 0} (server : Server D) where
  unfoldable pub send : Write → Exec (Switch D) (Unit {0})
  send w s = let (r, after) = server.write w s.server in (r, record s { server = after })
