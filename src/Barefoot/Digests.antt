-- ===== src/Barefoot/Digests.antt =====
-- What the switches of trans_sec/bfruntime_lib do with a digest: `receive_digests` of
-- aggregate_switch.py and core_switch.py once `make_data_list` has given the items.
use transparent_security.Prelude.{
  ℕ, String, ◌≡◌, refl, sym, ap, ◌∙◌, inl, inr, true, ◌+◌, ◌*◌, Option, none, some, List, [], ◌∷◌,
  if◌then◌else◌,
}
use transparent_security.Prelude.Tests.{Bool-cases, Option-cases}
use transparent_security.Prelude.Equality.{◌==◌, string_eq}
use transparent_security.Prelude.Result.{Exception, ok, err}
use transparent_security.Prelude.Exec.{Exec, pure, ◌>>◌}
use transparent_security.Convert.{ℤ, pos}
use transparent_security.Barefoot.Client.{Datum, text, number, Write, add, Server, Switch, send}
use transparent_security.Barefoot.{unless_present, insert_table_entry}
use transparent_security.Barefoot.Core.{add_data_forward}

-- `to_dict` of an item, with the MAC address as a text and the port as bytes
pub record Learned : Type 0 where
  pub src_mac : String
  pub port : List ℕ

-- `int.from_bytes` with the first byte as the highest one, `n` being the number of those before.
abbrev pub from_bytes : ℕ → List ℕ → ℕ
from_bytes n [] = n
from_bytes n (b ∷ bs) = from_bytes (n * 256 + b) bs

abbrev pub port_number : Learned → ℤ
port_number item = pos (from_bytes 0 item.port)

module _ {D : Type 0} (server : Server D) where
  -- The loop over the items; `add_data_forward` is that of the switch's class.
  unfoldable pub process_digest :
      (Datum → ℤ → Exec (Switch D) (Unit {0})) → List Learned → Exec (Switch D) (Unit {0})
  process_digest add_data_forward [] = pure tt
  process_digest add_data_forward (item ∷ data_list) =
      unless_present server (add_data_forward (text item.src_mac) (port_number item))
      >> process_digest add_data_forward data_list

abbrev pub or_else : Option ℤ → Option ℤ → Option ℤ
or_else none later = later
or_else (some port) later = some port

-- The port of the first item with the address.
abbrev pub first_port : String → List Learned → Option ℤ
first_port mac [] = none
first_port mac (item ∷ items) =
    if mac == item.src_mac then some (port_number item) else first_port mac items

abbrev pub forward : String → ℤ → Write
forward mac port =
    add "TpsCoreIngress.data_forward_t" (("hdr.ethernet.dst_mac", text mac) ∷ [])
      (some "TpsCoreIngress.data_forward") (("port", number port) ∷ [])

-- A server whose forwarding table has one port at most for an address, `port_of` reading it: an
-- address that is new gets its port, and one that has a port is refused and leaves the table alone.
pub record IsMacTable {D : Type 0} (server : Server D) (port_of : String → D → Option ℤ)
    : Type 0 where
  pub has : server.get_table "TpsCoreIngress.data_forward_t" ≡ ok true
  pub adds :
      (mac : String) (port : ℤ) (d : D)
      → port_of mac d ≡ none
      → (after : D) × (server.write (forward mac port) d ≡ (ok tt, after))
        × ((m : String) → port_of m after ≡ (if m == mac then some port else port_of m d))
  pub refuses :
      (mac : String) (port q : ℤ) (d : D)
      → port_of mac d ≡ some q
      → (e : Exception) × (server.write (forward mac port) d ≡ (err e, d))
        × (server.already_exists e ≡ true)

or_else-none : (o : Option ℤ) → or_else o none ≡ o
or_else-none none = refl
or_else-none (some q) = refl

module _ {D : Type 0} (server : Server D) (port_of : String → D → Option ℤ)
    (table : IsMacTable server port_of) where
  at :
      (item : Learned) (m : String) (s : Switch D)
      → (m == item.src_mac) ≡ true
      → port_of m s.server ≡ port_of item.src_mac s.server
  at item m s same = ap (λ x. port_of x s.server) ((string_eq.beq_iff m item.src_mac).0 same)

  learned :
      (item : Learned) (s : Switch D)
      → (after : Switch D) × (unless_present server
            (add_data_forward server (text item.src_mac) (port_number item))
            s
          ≡ (ok tt, after))
        × ((m : String) (later : Option ℤ)
            → or_else (port_of m after.server) later
              ≡ or_else
                  (port_of m s.server)
                  (if m == item.src_mac then some (port_number item) else later))
  unfolding add_data_forward insert_table_entry send
  learned item s = elim (Option-cases (port_of item.src_mac s.server)) [
    | inl new ↦
        let (d, wrote, seen) = table.adds item.src_mac (port_number item) s.server new in
        (
          record s { server = d },
          rw table.has (rw wrote refl),
          λ m later. elim (Bool-cases (m == item.src_mac)) [
            | inl same ↦ rw (seen m, same, at item m s same ∙ new) refl
            | inr differs ↦ rw (seen m, differs) refl
          ],
        )
    | inr (q, old) ↦
        let (e, refused, exists) = table.refuses item.src_mac (port_number item) q s.server old in
        (
          s,
          rw table.has (rw refused (rw exists refl)),
          λ m later. elim (Bool-cases (m == item.src_mac)) [
            | inl same ↦ rw (at item m s same ∙ old) refl
            | inr differs ↦ rw differs refl
          ],
        )
  ]

  -- On a server whose forwarding table refuses an address that has a port, `process_digest` of the core
  -- switch returns, whatever is in the digest, and then each address has the port it had before, or
  -- else that of the first item with it.
  pub process_digest-first :
      (data_list : List Learned) (s : Switch D)
      → let (r, after) = process_digest server (add_data_forward server) data_list s in
        (r ≡ ok tt)
        × ((m : String)
            → port_of m after.server ≡ or_else (port_of m s.server) (first_port m data_list))
  unfolding process_digest
  process_digest-first [] s = (refl, λ m. sym (or_else-none (port_of m s.server)))
  process_digest-first (item ∷ data_list) s =
      let (after, step, seen) = learned item s in
      let (fine, ports) = process_digest-first data_list after in
      rw step (fine, λ m. ports m ∙ seen m (first_port m data_list))
