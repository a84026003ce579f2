-- ===== src/Telemetry/UsedUp.antt =====
-- What trans_sec/packet/packet_telemetry.py does with iterators that were used up, and its totals.
use transparent_security.Prelude.{
  ℕ, ◌+◌, ◌≡◌, refl, ◌&&◌, String, Option, List, [], ◌∷◌, arith, if◌then◌else◌,
}
use transparent_security.Prelude.Equality.{◌==◌, nat_eq, string_eq}
use transparent_security.Prelude.Lists.{length}
use transparent_security.Prelude.Result.{ok, err, index_error}
use transparent_security.Telemetry.{
  Device, Telemetry, has_id, filter, append_child, update_device, total, add_up, reset_total,
}

abbrev pub sum_of : (Device → ℕ) → List Device → ℕ
sum_of f [] = 0
sum_of f (d ∷ ds) = f d + sum_of f ds

add_up_lem :
    (hosts : List Device) (t : Telemetry)
    → ((add_up hosts t).global_forwarded ≡ t.global_forwarded + sum_of (λ d. d.forwarded) hosts)
      × ((add_up hosts t).global_dropped ≡ t.global_dropped + sum_of (λ d. d.dropped) hosts)
unfolding add_up
add_up_lem [] t = (omega arith, omega arith)
add_up_lem (h ∷ hosts) t =
    let (f, d) = add_up_lem hosts (record t {
      global_forwarded = t.global_forwarded + h.forwarded;
      global_dropped = t.global_dropped + h.dropped;
    }) in
    (omega (arith, f), omega (arith, d))

-- The totals are the sums over all hosts, whatever they were before.
pub total-sums :
    (now : String) (t : Telemetry)
    → ((total now t).global_forwarded ≡ sum_of (λ d. d.forwarded) t.hosts)
      × ((total now t).global_dropped ≡ sum_of (λ d. d.dropped) t.hosts)
unfolding total reset_total
total-sums now t = ground (arith, add_up_lem t.hosts (reset_total now t))

-- How many of the devices have the id.
abbrev pub bearers : String → List Device → ℕ
bearers id [] = 0
bearers id (d ∷ ds) = (if d.device_id == id then 1 else 0) + bearers id ds

length-filter : (id : String) (ds : List Device) → length (filter (has_id id) ds) ≡ bearers id ds
unfolding filter
length-filter id [] = refl
length-filter id (d ∷ ds) = ground (arith, length-filter id ds)

-- Updating a device changes nothing, whatever is forwarded and dropped: it raises an IndexError where
-- no host and exactly one switch has the id, and else returns. Nor does the part of adding a child
-- that appends it to its switch's children change anything.
pub update_device-unchanged :
    (device_id sid hid : String) (forwarded dropped : Option ℕ) (t : Telemetry)
    → (update_device device_id forwarded dropped t ≡ (
        if bearers device_id t.hosts == 0 && bearers device_id t.switches == 1
        then (err index_error, t)
        else (ok tt, t)))
      × (append_child sid hid t ≡ t)
unfolding update_device append_child
update_device-unchanged id sid hid f d t =
    (ground (arith, length-filter id t.hosts, length-filter id t.switches), ground arith)
