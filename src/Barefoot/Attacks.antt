-- ===== src/Barefoot/Attacks.antt =====
-- Adding and stopping an attack on the aggregate switch of
-- trans_sec/bfruntime_lib/aggregate_switch.py.
use transparent_security.Prelude.{String, ◌≡◌, refl, ◌∙◌, ◌⊎◌, inl, inr, true, some, []}
use transparent_security.Prelude.Result.{Exception, Result, ok, err, Result-cases}
use transparent_security.Convert.{ℤ}
use transparent_security.External.{IpAddress}
use transparent_security.Controller.Switches.{AttackRequest}
use transparent_security.Barefoot.Client.{Fields, add, del, Server, Switch, send}
use transparent_security.Barefoot.{insert_table_entry, delete_table_entry}
use transparent_security.Barefoot.Aggregate.{drop_key, stop_key, add_attack, stop_attack}

module _ {D : Type 0} (server : Server D) (ipaddress : IpAddress) (int : String → Result ℤ) where
  stop_key-drop_key :
      (attack : AttackRequest)
      → stop_key server ipaddress int attack ≡ drop_key server ipaddress int attack
  unfolding stop_key drop_key
  stop_key-drop_key attack = refl

  -- Where the drop table can be had, adding an attack and stopping it, which build their keys each by
  -- code of its own, either both raise the same exception and ask nothing of the server, whatever the
  -- state of the switch, or they ask it to write and to delete the entry of one and the same key.
  pub add_attack-stop_attack :
      (attack : AttackRequest)
      → server.get_table "TpsAggIngress.data_drop_t" ≡ ok true
      → ((e : Exception) × ((s : Switch D)
            → (add_attack server ipaddress int attack s ≡ (err e, s))
              × (stop_attack server ipaddress int attack s ≡ (err e, s))))
        ⊎ ((key : Fields) × ((s : Switch D)
              → (add_attack server ipaddress int attack s
                  ≡ send server
                      (add "TpsAggIngress.data_drop_t" key (some "TpsAggIngress.data_drop") [])
                      s)
                × (stop_attack server ipaddress int attack s
                    ≡ send server (del "TpsAggIngress.data_drop_t" key) s)))
  unfolding add_attack stop_attack insert_table_entry delete_table_entry
  add_attack-stop_attack attack table = elim (Result-cases (drop_key server ipaddress int attack)) [
    | inl (e, failed) ↦ inl (e, λ s. (rw failed refl, rw (stop_key-drop_key attack ∙ failed) refl))
    | inr (key, made) ↦
        inr (
          key,
          λ s. (rw made (rw table refl), rw (stop_key-drop_key attack ∙ made) (rw table refl)),
        )
  ]
