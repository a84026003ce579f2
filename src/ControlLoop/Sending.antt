-- ===== src/ControlLoop/Sending.antt =====
-- What one report of trans_sec/controller/ddos_sdn_controller.py sends.
use transparent_security.Prelude.{
  ℕ, ◌<◌, ◌^◌, ◌≡◌, refl, Bool, List, [], ◌∷◌, inl, inr, ap, if◌then◌else◌, ◌⊎◌,
}
use transparent_security.Prelude.Equality.{◌==◌, nat_eq}
use transparent_security.Prelude.Result.{Result, ok, Result-cases}
use transparent_security.Convert.{pos}
use transparent_security.Controller.DropReports.{
  DropPacket, Reporter, Surroundings, send_drop_pkt, report_drop, last_count, counted, minus,
}
use transparent_security.Analytics.SimpleAe.{SimpleAe, World, report_key}
use transparent_security.ControlLoop.{Carried, IsCarried, deliver}

-- The packets that a report sends: at most one, with the key and this count.
abbrev pub One : ℕ → ℕ → List DropPacket → Type 0
One key n sent =
    (p : DropPacket) × (sent ≡ p ∷ []) × (p.drop_count ≡ pos n) × (p.drop_tbl_keys ≡ key)

module _ (carried : Carried) (ok_link : IsCarried carried) (key : ℕ) (small : key < 2 ^ 128) where
  pub deliver-One :
      (n : ℕ) (sent : List DropPacket) (w : World) (ae : SimpleAe)
      → n < 2 ^ 32
      → One key n sent
      → deliver carried sent w ae ≡ ((report_key key n w ae).0 ∷ [], (report_key key n w ae).1)
  unfolding deliver
  deliver-One n sent w ae h (p, e, c, k) =
      rw e (rw (ok_link.carries p n c h (rw k small)) (rw k refl))

module _ (key : ℕ) where
  pub send_drop_pkt-One :
      (s : Surroundings) (n : ℕ) (r : Reporter)
      → let after = (send_drop_pkt s key (pos n) (record r { sent = [] })).1 in
        (after.is_delta ≡ r.is_delta)
        × (after.drop_rpt_count ≡ r.drop_rpt_count)
        × ((after.sent ≡ []) ⊎ One key n after.sent)
  unfolding send_drop_pkt
  send_drop_pkt-One s n r = elim (Result-cases s.sdn_ip) [
    | inl (x, e) ↦ rw e (refl, refl, inl refl)
    | inr (ip, e) ↦ rw e (elim (Result-cases s.node_id) [
      | inl (x, e') ↦ rw e' (refl, refl, inl refl)
      | inr (node, e') ↦ rw e' (refl, refl, inr (_, refl, refl, refl))
    ])
  ]

  abbrev pub delta : Surroundings → ℕ → Reporter → Result (Unit {0}) × Reporter
  delta s total r = send_drop_pkt s key (minus total (last_count key r)) (counted key total r)

  -- The two modes
  pub report_drop_lem :
      (s : Surroundings) (total : ℕ) (r : Reporter) (mode : Bool)
      → r.is_delta ≡ mode
      → report_drop s key total r ≡ (
          if key == 0
          then (ok tt, r)
          else if mode
          then delta s total r
          else send_drop_pkt s key (pos total) r)
  unfolding report_drop
  report_drop_lem s total r mode e =
      ap
        (λ b.
          if key == 0
          then (ok tt, r)
          else if b
          then delta s total r
          else send_drop_pkt s key (pos total) r)
        e
