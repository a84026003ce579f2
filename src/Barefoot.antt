-- ===== src/Barefoot.antt =====
-- The switches of trans_sec/bfruntime_lib/bfrt_switch.py, whose tables are reached through the
-- Barefoot runtime's client library.
pub mod Client
pub mod Aggregate
pub mod Core
pub mod Multicast
pub mod Attacks
pub mod Digests
use transparent_security.Prelude.{
  ℕ, String, Bool, true, false, not, ◌&&◌, Option, none, some, List, [], ◌∷◌, if◌then◌else◌,
}
use transparent_security.Prelude.Equality.{◌==◌, nat_eq, string_eq}
use transparent_security.Prelude.Dict.{Dict, get}
use transparent_security.Prelude.Result.{Exception, Result, ok, err, index_error, attribute_error}
use transparent_security.Prelude.Exec.{Exec, pure, raise, lift, catch, ◌>>=◌, ◌>>◌}
use transparent_security.Convert.{ℤ, pos, negsuc}
use transparent_security.Barefoot.Client.{
  Datum, text, number, numbers, flags, Fields, Write, add, del, default, Server, Switch, Tunnel,
  send,
}

module _ {D : Type 0} (server : Server D) where
  abbrev on_table :
      Bool → Exec (Switch D) (Unit {0}) → Exec (Switch D) (Unit {0}) → Exec (Switch D) (Unit {0})
  on_table true found otherwise = found
  on_table false found otherwise = otherwise

  -- `insert_table_entry` and `delete_table_entry`: nothing is done where there is no table.
  unfoldable pub insert_table_entry : String → String → Fields → Fields → Exec (Switch D) (Unit {0})
  unfolding send
  insert_table_entry table_name action_name key_fields data_fields = do
    table ← lift (server.get_table table_name)
    on_table table (send server (add table_name key_fields (some action_name) data_fields))
        (pure tt)

  unfoldable pub delete_table_entry : String → Fields → Exec (Switch D) (Unit {0})
  unfolding send
  delete_table_entry table_name key_fields = do
    table ← lift (server.get_table table_name)
    on_table table (send server (del table_name key_fields)) (pure tt)

  -- `except Exception as e`: an entry that exists already is passed over.
  abbrev pub unless_present : Exec (Switch D) (Unit {0}) → Exec (Switch D) (Unit {0})
  unless_present m s = catch (m s) (λ e. if server.already_exists e then pure tt else raise e)

  abbrev pub ignoring : Exec (Switch D) (Unit {0}) → Exec (Switch D) (Unit {0})
  ignoring m s = catch (m s) (λ e. pure tt)

  -- A method of a table; None has none.
  unfoldable pub with_table : String → Exec (Switch D) (Unit {0}) → Exec (Switch D) (Unit {0})
  with_table table_name m = do
    table ← lift (server.get_table table_name)
    on_table table m (raise attribute_error)

  -- An entry of a table of the replication engine is deleted, if it is there, and added anew.
  unfoldable pub replace : String → Fields → Fields → Exec (Switch D) (Unit {0})
  unfolding send with_table
  replace table_name key values = with_table table_name (
      ignoring (send server (del table_name key))
      >> unless_present (send server (add table_name key none values)))

  unfoldable pub update_pre_tbl : ℤ → List ℤ → ℤ → List ℤ → Exec (Switch D) (Unit {0})
  unfolding replace
  update_pre_tbl node_id ports rid lags =
      replace "$pre.node" (("$MULTICAST_NODE_ID", number node_id) ∷ []) (
        ("$MULTICAST_RID", number rid)
        ∷ ("$DEV_PORT", numbers ports)
        ∷ ("$MULTICAST_LAG_ID", numbers lags)
        ∷ [])

  unfoldable pub update_mgid_tbl : ℤ → List ℤ → List ℤ → Exec (Switch D) (Unit {0})
  unfolding replace
  update_mgid_tbl mgid mc_nids l1_xids = replace "$pre.mgid" (("$MGID", number mgid) ∷ []) (
      ("$MULTICAST_NODE_ID", numbers mc_nids)
      ∷ ("$MULTICAST_NODE_L1_XID_VALID", flags (false ∷ []))
      ∷ ("$MULTICAST_NODE_L1_XID", numbers l1_xids)
      ∷ [])

  -- `tunnel.get('type', None) == port_type`
  abbrev pub same_type : Option String → Option String → Bool
  same_type none none = true
  same_type (some a) (some b) = a == b
  same_type _ _ = false

  abbrev pub is_one : ℤ → Bool
  is_one (pos n) = n == 1
  is_one (negsuc n) = false

  -- The ports of a type; 1 is left out.
  unfoldable pub find_tunnel_ports : Option String → List Tunnel → Result (List ℤ)
  find_tunnel_ports port_type [] = ok []
  find_tunnel_ports port_type (tunnel ∷ tunnels) = elim tunnel.switch_port [
    | err e ↦ err e
    | ok port ↦ elim (find_tunnel_ports port_type tunnels) [
      | err e ↦ err e
      | ok ports ↦
          ok (if not (is_one port) && same_type tunnel.type port_type then port ∷ ports else ports)
    ]
  ]

  unfoldable pub find_node_ports : Switch D → Result (List ℤ)
  unfolding find_tunnel_ports
  find_node_ports s = find_tunnel_ports none s.tunnels

  -- `[…][0]`
  unfoldable pub find_dflt_port : Switch D → Result ℤ
  unfolding find_tunnel_ports
  find_dflt_port s = elim (find_tunnel_ports (some "default") s.tunnels) [
    | err e ↦ err e
    | ok [] ↦ err index_error
    | ok (port ∷ ports) ↦ ok port
  ]

  abbrev ports_or_nodes : List ℤ → Switch D → Result (List ℤ)
  ports_or_nodes [] s = find_node_ports s
  ports_or_nodes (port ∷ ports) s = ok (port ∷ ports)

  -- The arguments that are not given have their defaults.
  unfoldable pub update_arp_multicast : List ℤ → Exec (Switch D) (Unit {0})
  unfolding find_node_ports update_pre_tbl update_mgid_tbl
  update_arp_multicast ports s =
      (do
        chosen ← lift (ports_or_nodes ports s)
        update_pre_tbl (pos 1) chosen (pos 1) []
        update_mgid_tbl (pos 1) (pos 1 ∷ []) (pos 0 ∷ []))
        s

  -- The ports of each entry that has some.
  unfoldable pub ports_of : List (Fields × Fields) → List (List ℤ)
  ports_of [] = []
  ports_of ((values, key) ∷ entries) = elim (get "$DEV_PORT" values) [
    | some (numbers ports) ↦ ports ∷ ports_of entries
    | _ ↦ ports_of entries
  ]

  unfoldable pub read_ports : Bool → ℤ → Switch D → Result (List (List ℤ))
  unfolding ports_of
  read_ports false node_id s = err attribute_error
  read_ports true node_id s =
      elim (server.read "$pre.node" (("$MULTICAST_NODE_ID", number node_id) ∷ []) s.server) [
        | err e ↦ err e
        | ok entries ↦ ok (ports_of entries)
      ]

  unfoldable pub get_arp_multicast_ports : ℤ → Switch D → Result (List (List ℤ))
  get_arp_multicast_ports node_id s = elim (server.get_table "$pre.node") [
    | err e ↦ err e
    | ok table ↦ read_ports table node_id s
  ]

  -- `if dflt_port:`
  module _ (update_default_port : ℤ → Exec (Switch D) (Unit {0})) where
    abbrev set_port : ℤ → Exec (Switch D) (Unit {0})
    set_port (pos n) = if n == 0 then pure tt else update_default_port (pos n)
    set_port (negsuc n) = update_default_port (negsuc n)

    unfoldable pub setup_default_port : Exec (Switch D) (Unit {0})
    unfolding find_dflt_port
    setup_default_port s = (lift (find_dflt_port s) >>= set_port) s
