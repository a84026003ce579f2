-- ===== src/Controller/Routing.antt =====
-- Which switches a request to trans_sec/controller/ddos_sdn_controller.py reaches.
use transparent_security.Prelude.{
  ◌≡◌, refl, sym, ap, ◌∙◌, String, Bool, true, false, Option, none, some, List, [], ◌∷◌, ◌++◌,
  Bool-cases, inl, inr,
}
use transparent_security.Prelude.Lists.{All}
use transparent_security.Prelude.Result.{Exception, Result, ok}
use transparent_security.Prelude.Exec.{Exec}
use transparent_security.Controller.Switches.{SwitchClass, Network, at_first, at_first_of, or_later}
use transparent_security.Controller.Dispatch.{
  ForwardRequest, is_mac, where_found, forward_at, data_forward, InspectionRequest, inspect_at,
  data_inspection,
}

-- All switches, in the order of the loops.
abbrev pub switches_of : {S : Type 0} → Network S → List S
switches_of [] = []
switches_of ((key, switches) ∷ net) = switches ++ switches_of net

module _ {S : Type 0} (found : S → Bool) where
  abbrev pub Missing : List S → Type 0
  Missing = All (λ s. found s ≡ false)

  module _ {A : Type 0} (act : Exec S A) where
    abbrev Outcome : Type 0
    Outcome = Option (Result A) × List S

    abbrev in_turn : Outcome → List S → Outcome → Outcome
    in_turn (some r, left) rest later = (some r, left ++ rest)
    in_turn (none, left) rest (later, last) = (later, left ++ last)

    in_turn-cons :
        (x : S) (first : Outcome) (rest : List S) (later : Outcome)
        → ((in_turn first rest later).0, x ∷ (in_turn first rest later).1)
          ≡ in_turn (first.0, x ∷ first.1) rest later
    in_turn-cons x (some r, left) rest later = refl
    in_turn-cons x (none, left) rest later = refl

    at_first-append :
        (xs ys : List S)
        → at_first found act (xs ++ ys) ≡ in_turn (at_first found act xs) ys (at_first found act ys)
    unfolding at_first
    at_first-append [] ys = refl
    at_first-append (x ∷ xs) ys = elim (Bool-cases (found x)) [
      | inl here ↦ rw here refl
      | inr other ↦
          rw other (rw (at_first-append xs ys) (in_turn-cons x (at_first found act xs) ys _))
    ]

    in_turn-or_later :
        (key : String) (net : Network S) (first : Outcome) (later : Outcome)
        (z : Option (Result A) × Network S)
        → (z.0, switches_of z.1) ≡ later
        → ((or_later found key net first z).0, switches_of (or_later found key net first z).1)
          ≡ in_turn first (switches_of net) later
    in_turn-or_later key net (some r, left) later z h = refl
    in_turn-or_later key net (none, left) later z h = ap (λ l. (l.0, left ++ l.1)) h

    -- The nested loop is the loop over all switches.
    at_first_of_lem :
        (net : Network S)
        → ((at_first_of found act net).0, switches_of (at_first_of found act net).1)
          ≡ at_first found act (switches_of net)
    unfolding at_first_of at_first
    at_first_of_lem [] = refl
    at_first_of_lem ((key, switches) ∷ net) =
        in_turn-or_later key net (at_first found act switches) _ (at_first_of found act net)
          (at_first_of_lem net)
        ∙ sym (at_first-append switches (switches_of net))

    at_first-Missing : (xs : List S) → Missing xs → at_first found act xs ≡ (none, xs)
    unfolding at_first
    at_first-Missing [] h = refl
    at_first-Missing (x ∷ xs) h = rw (h.0, at_first-Missing xs h.1) refl

    at_first_found :
        (before after : List S) (s : S)
        → Missing before
        → found s ≡ true
        → at_first found act (before ++ s ∷ after) ≡ (some (act s).0, before ++ (act s).1 ∷ after)
    at_first_found before after s missing here =
        at_first-append before (s ∷ after)
        ∙ rw (at_first-Missing before missing) (unfold at_first in rw here refl)

-- A loop that found a switch gives its result.
where_found-some :
    {S : Type 0} (x : Option (Result (Unit {0})) × Network S) (r : Result (Unit {0})) (ys : List S)
    → ◌≡◌ {A = Option (Result (Unit {0})) × List S} (x.0, switches_of x.1) (some r, ys)
    → ((where_found x).0 ≡ r) × (switches_of (where_found x).1 ≡ ys)
where_found-some (some q, net) r ys h = (cc (h), cc (h))
where_found-some (none, net) r ys h = absurd (cc (h))

where_found-none :
    {S : Type 0} (x : Option (Result (Unit {0})) × Network S) (ys : List S)
    → ◌≡◌ {A = Option (Result (Unit {0})) × List S} (x.0, switches_of x.1) (none, ys)
    → ((where_found x).0 ≡ ok tt) × (switches_of (where_found x).1 ≡ ys)
where_found-none (some q, net) ys h = absurd (cc (h))
where_found-none (none, net) ys h = (refl, cc (h))

module _ {S : Type 0} (found : S → Bool) (act : Exec S (Unit {0})) (net : Network S) where
  where_found-first :
      (before after : List S) (s : S)
      → switches_of net ≡ before ++ s ∷ after
      → Missing found before
      → found s ≡ true
      → let (r, left) = where_found (at_first_of found act net) in
        (r ≡ (act s).0) × (switches_of left ≡ before ++ (act s).1 ∷ after)
  where_found-first before after s all missing here =
      where_found-some (at_first_of found act net) _ _ (
        at_first_of_lem found act net
        ∙ ap (at_first found act) all
        ∙ at_first_found found act before after s missing here)

  where_found-Missing :
      Missing found (switches_of net)
      → let (r, left) = where_found (at_first_of found act net) in
        (r ≡ ok tt) × (switches_of left ≡ switches_of net)
  where_found-Missing missing =
      where_found-none (at_first_of found act net) _
        (at_first_of_lem found act net ∙ at_first-Missing found act (switches_of net) missing)

module _ {S Ports : Type 0} (switch : SwitchClass S Ports) (already_exists : Exception → Bool)
    (literal_eval : Option String → Result Ports) where
  open switch use {mac}

  -- A data forward request, to add or to delete, is done at the first switch with the MAC address,
  -- with its result, and at no other switch.
  pub data_forward-first :
      (df_req : ForwardRequest) (del_flag : Bool) (net : Network S) (before after : List S) (s : S)
      → switches_of net ≡ before ++ s ∷ after
      → Missing (λ t. is_mac df_req.switch_mac (mac t)) before
      → is_mac df_req.switch_mac (mac s) ≡ true
      → let (r, left) = data_forward switch already_exists literal_eval df_req del_flag net in
        let (here, next) = forward_at switch already_exists literal_eval df_req del_flag s in
        (r ≡ here) × (switches_of left ≡ before ++ next ∷ after)
  unfolding data_forward
  data_forward-first df_req del_flag net before after s all missing here =
      where_found-first (λ t. is_mac df_req.switch_mac (mac t))
        (forward_at switch already_exists literal_eval df_req del_flag) net before after s all
        missing here

  -- A data inspection request, to add or to delete, is done at the first switch with the MAC
  -- address, with its result, and at no other switch.
  pub data_inspection-first :
      (di_req : InspectionRequest) (del_flag : Bool) (net : Network S) (before after : List S)
      (s : S)
      → switches_of net ≡ before ++ s ∷ after
      → Missing (λ t. is_mac di_req.switch_mac (mac t)) before
      → is_mac di_req.switch_mac (mac s) ≡ true
      → let (r, left) = data_inspection switch already_exists literal_eval di_req del_flag net in
        let (here, next) = inspect_at switch already_exists literal_eval di_req del_flag s in
        (r ≡ here) × (switches_of left ≡ before ++ next ∷ after)
  unfolding data_inspection
  data_inspection-first di_req del_flag net before after s all missing here =
      where_found-first (λ t. is_mac di_req.switch_mac (mac t))
        (inspect_at switch already_exists literal_eval di_req del_flag) net before after s all
        missing here

  -- Where no switch has the MAC address, neither request raises or changes any switch.
  pub unknown_switch :
      (df_req : ForwardRequest) (di_req : InspectionRequest) (del_flag : Bool) (net : Network S)
      → Missing (λ t. is_mac df_req.switch_mac (mac t)) (switches_of net)
      → di_req.switch_mac ≡ df_req.switch_mac
      → let (r, left) = data_forward switch already_exists literal_eval df_req del_flag net in
        let (q, rest) = data_inspection switch already_exists literal_eval di_req del_flag net in
        ((r ≡ ok tt) × (switches_of left ≡ switches_of net))
        × ((q ≡ ok tt) × (switches_of rest ≡ switches_of net))
  unfolding data_forward data_inspection
  unknown_switch df_req di_req del_flag net missing same = (
    where_found-Missing (λ t. is_mac df_req.switch_mac (mac t))
        (forward_at switch already_exists literal_eval df_req del_flag) net missing,
    where_found-Missing (λ t. is_mac di_req.switch_mac (mac t))
        (inspect_at switch already_exists literal_eval di_req del_flag) net (rw same missing),
  )
