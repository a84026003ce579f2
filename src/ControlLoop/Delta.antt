-- ===== src/ControlLoop/Delta.antt =====
-- Reports of differences (`is_delta` of trans_sec/controller/ddos_sdn_controller.py) of an attack that
-- goes on without a change.
use transparent_security.Prelude.{
  leb, String, ℕ, zero, suc, ◌+◌, ◌-◌, ◌<◌, ◌≤◌, ◌^◌, ◌≡◌, refl, true, false, some, [], ◌∷◌, ◌++◌,
  arith, ap, ◌∙◌,
}
use transparent_security.Prelude.Equality.{◌==◌, nat_eq}
use transparent_security.Prelude.Result.{ok}
use transparent_security.Convert.{pos}
use transparent_security.Controller.DropReports.{
  drop_pkt, address, Reporter, Surroundings, send_drop_pkt, last_count, minus,
}
use transparent_security.Analytics.SimpleAe.{SimpleAe, Attack, delete, World, entry, report_key}
use transparent_security.Analytics.SimpleAe.Progress.{Quiet, ends_quietly}
use transparent_security.Analytics.SimpleAe.Stopping.{
  IsForgotten, stop_requests, report_key-IsForgotten, reports,
}
use transparent_security.ControlLoop.{Carried, IsCarried, period}
use transparent_security.ControlLoop.Sending.{report_drop_lem}

minus_add : (n c : ℕ) → minus (n + c) n ≡ pos c
unfolding minus
minus_add n c =
    let l : leb n (n + c) ≡ true = ground arith in
    let e : n + c - n ≡ c = omega arith in rw l (rw e refl)

module _ (carried : Carried) (key : ℕ) where
  -- After `n` periods, in each of which the switch drops `c` packets more.
  unfoldable pub steady : ℕ → ℕ → Surroundings → World → Reporter × SimpleAe → Reporter × SimpleAe
  steady zero c s w state = state
  steady (suc n) c s w state =
      let before = steady n c s w state in
      (period carried key (last_count key before.0 + c) s w before).1

module _ (key : ℕ) where
  -- A running controller in delta mode: its address and the switch's number are known.
  pub record IsDelta (s : Surroundings) (r : Reporter) : Type 0 where
    pub nonzero : (key == 0) ≡ false
    pub mode : r.is_delta ≡ true
    pub host : (ip : String) × (s.sdn_ip ≡ ok ip)
    pub node : (n : ℕ) × (s.node_id ≡ ok n)

module _ (carried : Carried) (ok_link : IsCarried carried) (key : ℕ) (small : key < 2 ^ 128) where
  period-delta :
      (c : ℕ) (s : Surroundings) (w : World) (r : Reporter) (ae : SimpleAe)
      → IsDelta key s r
      → c < 2 ^ 32
      → let (answers, (r', next)) = period carried key (last_count key r + c) s w (r, ae) in
        (answers ≡ (report_key key c w ae).0 ∷ [])
        × (r'.is_delta ≡ true)
        × (next ≡ (report_key key c w ae).1)
  unfolding period send_drop_pkt
  period-delta c s w r ae h fits =
      let (ip, e) = h.host in
      let (node, e') = h.node in
      let p = drop_pkt (address r.ae_ip) ip node s.timestamp key (pos c) in
      rw (report_drop_lem key s (last_count key r + c) (record r { sent = [] }) true h.mode) (
        rw h.nonzero (
          rw (minus_add (last_count key r) c)
            (rw e (rw e' (rw (ok_link.carries p c refl fits small) (refl, h.mode, refl))))))

  steady-reports :
      (n c : ℕ) (s : Surroundings) (w : World) (r : Reporter) (ae : SimpleAe)
      → IsDelta key s r
      → c < 2 ^ 32
      → IsDelta key s (steady carried key n c s w (r, ae)).0
        × ((steady carried key n c s w (r, ae)).1 ≡ reports key w c n ae)
  unfolding steady
  steady-reports zero c s w r ae h fits = (h, refl)
  steady-reports (suc n) c s w r ae h fits =
      let (r', before) = steady carried key n c s w (r, ae) in
      let (h', same) = steady-reports n c s w r ae h fits in
      let (_, mode, next) = period-delta c s w r' before h' fits in
      (
        record { nonzero = h.nonzero; mode = mode; host = h.host; node = h.node },
        next ∙ ap (λ b. (report_key key c w b).1) same,
      )

  -- An attack of which the switch drops `c` packets in each period is taken for stopped in one of the
  -- first `drop_count + 1` periods, though it goes on: nothing is left under the key, and the request
  -- to stop the attack that was held is sent, the only request in these periods. For this the
  -- controller reports differences (`is_delta`) and knows its address and the switch's number; the key
  -- is neither 0 nor above 128 bits, `c` is below 2 ^ 32, and the engine reads a key and a count of such
  -- sizes as they were sent; the engine has a drop report entry and an attack under the key, its
  -- `drop_count` is positive, and requests are delivered.
  pub steady_stops :
      (c old idle : ℕ) (attack : Attack) (s : Surroundings) (w : World) (r : Reporter)
      (ae : SimpleAe)
      → IsDelta key s r
      → c < 2 ^ 32
      → entry key ae.drop_rpt_map ≡ some (old, idle)
      → entry key ae.attack_payload ≡ some attack
      → 0 < ae.drop_count
      → w.reply ≡ ok tt
      → (n : ℕ) × (n ≤ ae.drop_count)
        × (let (r', before) = steady carried key n c s w (r, ae) in
            let (answers, (_, after)) =
              period carried key (last_count key r' + c) s w (r', before) in
            (answers ≡ ok true ∷ [])
            × IsForgotten key after
            × (after.requests ≡ ae.requests ++ delete ae.sdn_attack_context attack ∷ []))
  steady_stops c old idle attack s w r ae h fits e held positive replied =
      let (n, bound, (stops, quiet)) = ends_quietly key c old idle w ae e positive replied in
      let (r', before) = steady carried key n c s w (r, ae) in
      let (h', same) = steady-reports n c s w r ae h fits in
      let (answers, _, next) = period-delta c s w r' before h' fits in
      let stops_here : (report_key key c w before).0 ≡ ok true =
        ap (λ b. (report_key key c w b).0) same ∙ stops in
      let (gone, asked) = report_key-IsForgotten key c w before stops_here in
      let still : Quiet ae before = rw same quiet in
      let one : stop_requests (entry key before.attack_payload) before
          ≡ delete ae.sdn_attack_context attack ∷ [] =
        rw (still.payload, held, still.context) refl in
      (
        n,
        bound,
        (
          answers ∙ ap (λ a. a ∷ []) stops_here,
          rw next gone,
          rw next (asked ∙ rw (one, still.requests) refl),
        ),
      )
