-- ===== src/Barefoot/Multicast.antt =====
-- The multicast group and the default port of a switch of trans_sec/bfruntime_lib/bfrt_switch.py.
use transparent_security.Prelude.{
  String, ◌≡◌, ◌≢◌, refl, ap, ◌∙◌, Bool-cases, true, false, Option, none, some, List, [], ◌∷◌, inl,
  inr, arith,
}
use transparent_security.Prelude.Dict.{get}
use transparent_security.Prelude.Lists.{All}
use transparent_security.Prelude.Equality.{◌==◌, string_eq, ne_of_beq}
use transparent_security.Prelude.Result.{ok, err, index_error, Result-cases}
use transparent_security.Prelude.Exec.{Exec}
use transparent_security.Convert.{ℤ, pos}
use transparent_security.Barefoot.Client.{
  number, numbers, flags, Fields, Write, add, del, default, Server, Switch, Tunnel, send,
}
use transparent_security.Barefoot.{
  with_table, same_type, replace, update_pre_tbl, update_mgid_tbl, update_arp_multicast,
  get_arp_multicast_ports, read_ports, ports_of, find_tunnel_ports, find_dflt_port,
  setup_default_port,
}

abbrev pub table_of : Write → String
table_of (add t key action values) = t
table_of (del t key) = t
table_of (default t action values) = t

-- A server that keeps tables: an entry can be added once it has been deleted, whether it was there or
-- not, it is what is read then, and what is written to other tables does not change it.
pub record IsTables {D : Type 0} (server : Server D) : Type 0 where
  pub has : (t : String) → server.get_table t ≡ ok true
  pub added :
      (t : String) (key values : Fields) (d : D)
      → let fresh = (server.write (del t key) d).1 in
        (server.write (add t key none values) fresh).0 ≡ ok tt
  pub reads :
      (t : String) (key values : Fields) (d : D)
      → let fresh = (server.write (del t key) d).1 in
        server.read t key (server.write (add t key none values) fresh).1 ≡ ok ((values, key) ∷ [])
  pub apart :
      (t : String) (key : Fields) (w : Write) (d : D)
      → t ≢ table_of w
      → server.read t key (server.write w d).1 ≡ server.read t key d

module _ {D : Type 0} (server : Server D) (tables : IsTables server) where
  abbrev written : String → Fields → Fields → D → D
  written t key values d = (server.write (add t key none values) (server.write (del t key) d).1).1

  replace_lem :
      (t : String) (key values : Fields) (s : Switch D)
      → replace server t key values s ≡ (ok tt, record s { server = written t key values s.server })
  unfolding replace send with_table
  replace_lem t key values s =
      rw (tables.has t) (elim (Result-cases (server.write (del t key) s.server).0) [
        | inl (e, failed) ↦ rw failed (rw (tables.added t key values s.server) refl)
        | inr (_, done) ↦ rw done (rw (tables.added t key values s.server) refl)
      ])

  -- On a server that keeps tables `update_arp_multicast` with some ports returns, and then
  -- `get_arp_multicast_ports` returns those ports alone, whatever the group was before.
  pub update_arp_multicast-get_arp_multicast_ports :
      (port : ℤ) (ports : List ℤ) (s : Switch D)
      → let (r, after) = update_arp_multicast server (port ∷ ports) s in
        (r ≡ ok tt) × (get_arp_multicast_ports server (pos 1) after ≡ ok ((port ∷ ports) ∷ []))
  unfolding update_arp_multicast update_pre_tbl update_mgid_tbl get_arp_multicast_ports read_ports
      ports_of get
  update_arp_multicast-get_arp_multicast_ports port ports s =
      let nk : Fields = ("$MULTICAST_NODE_ID", number (pos 1)) ∷ [] in
      let nv : Fields =
        ("$MULTICAST_RID", number (pos 1))
        ∷ ("$DEV_PORT", numbers (port ∷ ports))
        ∷ ("$MULTICAST_LAG_ID", numbers [])
        ∷ [] in
      let gk : Fields = ("$MGID", number (pos 1)) ∷ [] in
      let gv : Fields =
        ("$MULTICAST_NODE_ID", numbers (pos 1 ∷ []))
        ∷ ("$MULTICAST_NODE_L1_XID_VALID", flags (false ∷ []))
        ∷ ("$MULTICAST_NODE_L1_XID", numbers (pos 0 ∷ []))
        ∷ [] in
      let d = written "$pre.node" nk nv s.server in
      let fresh = (server.write (del "$pre.mgid" gk) d).1 in
      let other = ne_of_beq "$pre.node" "$pre.mgid" refl in
      let still : server.read "$pre.node" nk (written "$pre.mgid" gk gv d) ≡ ok ((nv, nk) ∷ []) =
        tables.apart "$pre.node" nk (add "$pre.mgid" gk none gv) fresh other
        ∙ tables.apart "$pre.node" nk (del "$pre.mgid" gk) d other
        ∙ tables.reads "$pre.node" nk nv s.server in
      rw (replace_lem "$pre.node" nk nv s) (
        rw (replace_lem "$pre.mgid" gk gv (record s { server = d })) (
          refl,
          rw (tables.has "$pre.node", get_arp_multicast_ports) (rw (still, read_ports) refl),
        ))

module _ {D : Type 0} (server : Server D) where
  -- A tunnel with a port that is not marked as the default one
  abbrev pub IsPlain : Tunnel → Type 0
  IsPlain t = (p : ℤ) × (t.switch_port ≡ ok p) × (t.type ≢ some "default")

  other_type :
      (o : Option String) → o ≢ some "default" → same_type server o (some "default") ≡ false
  other_type none h = refl
  other_type (some a) h = elim (Bool-cases (a == "default")) [
    | inl same ↦ absurd (h (ap some ((string_eq.beq_iff a "default").0 same)))
    | inr differs ↦ differs
  ]

  find_tunnel_ports-IsPlain :
      (tunnels : List Tunnel)
      → All IsPlain tunnels
      → find_tunnel_ports server (some "default") tunnels ≡ ok []
  unfolding find_tunnel_ports
  find_tunnel_ports-IsPlain [] h = refl
  find_tunnel_ports-IsPlain (t ∷ tunnels) ((p, port, other), later) =
      rw port
        (rw (find_tunnel_ports-IsPlain tunnels later) (rw (other_type t.type other) (ground arith)))

  -- Where no tunnel is marked as the default one, the last step of the start of a switch raises an
  -- IndexError, whatever sets the port.
  pub setup_default_port-IsPlain :
      (update_default_port : ℤ → Exec (Switch D) (Unit {0})) (s : Switch D)
      → All IsPlain s.tunnels
      → setup_default_port server update_default_port s ≡ (err index_error, s)
  unfolding setup_default_port
  setup_default_port-IsPlain update_default_port s h =
      let none_found : find_dflt_port server s ≡ err index_error =
        rw (find_tunnel_ports-IsPlain s.tunnels h, find_dflt_port) refl in
      rw none_found refl
