-- ===== src/Controller/Switches.antt =====
-- What the controllers of trans_sec/controller call of a switch, and their loops over switches.
use transparent_security.Prelude.{
  ℕ, zero, suc, String, Bool, Option, none, some, List, [], ◌∷◌, if◌then◌else◌,
}
use transparent_security.Prelude.Dict.{Dict}
use transparent_security.Prelude.Result.{Result, ok, err, index_error}
use transparent_security.Prelude.Exec.{Exec}

-- The arguments of a request; one that was not sent is None.
pub record AttackRequest : Type 0 where
  pub src_mac : Option String
  pub src_ip : Option String
  pub dst_ip : Option String
  pub dst_port : Option String

-- The methods of the switches' classes, on the state of a switch.
pub record SwitchClass (S Ports : Type 0) : Type 0 where
  pub mac : S → String
  pub is_gateway : S → Bool
  pub add_data_forward : Option String → Option ℕ → Exec S (Unit {0})
  pub del_data_forward : Option String → Exec S (Unit {0})
  pub add_data_inspection : ℕ → Option String → Exec S (Unit {0})
  pub del_data_inspection : ℕ → Option String → Exec S (Unit {0})
  pub add_attack : AttackRequest → Exec S (Unit {0})
  pub stop_attack : AttackRequest → Exec S (Unit {0})
  pub setup_telemetry_rpt : (ae_ip ae_mac port : Option String) → Exec S (Unit {0})
  pub set_trpt_sampling_value : ℕ → Exec S (Unit {0})
  pub update_default_port : Option ℕ → Exec S (Unit {0})
  pub update_arp_multicast : Ports → Exec S (Unit {0})
  pub get_arp_multicast_ports : Exec S Ports
  pub get_data_inspection_src_mac_keys : S → Result (List String)

-- The switches of each controller, by the controller's key.
abbrev pub Network : Type 0 → Type 0
Network S = Dict String (List S)

module _ {S : Type 0} (found : S → Bool) where
  -- `for switch in switches: if found: …; return`
  unfoldable pub at_first {ℓ} : {A : Type ℓ} → Exec S A → List S → Option (Result A) × List S
  at_first act [] = (none, [])
  at_first act (s ∷ switches) =
      let (later, left) = at_first act switches in
      let (here, next) = act s in
      if found s then (some here, next ∷ switches) else (later, s ∷ left)

  abbrev pub or_later {ℓ} :
      {A : Type ℓ}
      → String
      → Network S
      → Option (Result A) × List S
      → Option (Result A) × Network S
      → Option (Result A) × Network S
  or_later key net (some r, left) later = (some r, (key, left) ∷ net)
  or_later key net (none, left) (later, rest) = (later, (key, left) ∷ rest)

  -- The same loop within one over the controllers
  unfoldable pub at_first_of {ℓ} :
      {A : Type ℓ} → Exec S A → Network S → Option (Result A) × Network S
  unfolding at_first
  at_first_of act [] = (none, [])
  at_first_of act ((key, switches) ∷ net) =
      or_later key net (at_first act switches) (at_first_of act net)

  abbrev go_on :
      {A : Type 0}
      → Result (Unit {0}) × A
      → List A
      → Result (Unit {0}) × List A
      → Result (Unit {0}) × List A
  go_on (ok _, next) rest (later, left) = (later, next ∷ left)
  go_on (err e, next) rest later = (err e, next ∷ rest)

  -- `for switch in switches: if found: …`; an exception ends the loop.
  unfoldable pub at_all : Exec S (Unit {0}) → Exec (List S) (Unit {0})
  at_all act [] = (ok tt, [])
  at_all act (s ∷ switches) =
      go_on (if found s then act s else (ok tt, s)) switches (at_all act switches)

  -- The same loop within one over the controllers
  unfoldable pub at_all_of : Exec S (Unit {0}) → Exec (Network S) (Unit {0})
  unfolding at_all
  at_all_of act [] = (ok tt, [])
  at_all_of act ((key, switches) ∷ net) =
      let (r, left) = at_all act switches in go_on (r, (key, left)) net (at_all_of act net)

module _ {S : Type 0} where
  -- `switches[i]`, with what is called of it
  unfoldable pub at_position {ℓ} : {A : Type ℓ} → ℕ → Exec S A → Exec (List S) A
  at_position i act [] = (err index_error, [])
  at_position zero act (s ∷ switches) = let (r, next) = act s in (r, next ∷ switches)
  at_position (suc i) act (s ∷ switches) =
      let (r, left) = at_position i act switches in (r, s ∷ left)
