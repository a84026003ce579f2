-- ===== src/ControlLoop/Cumulative.antt =====
-- Reports of the whole count keep an attack blocked that goes on.
use transparent_security.Prelude.{
  ℕ, ◌<◌, ◌≤◌, ◌^◌, ◌≡◌, refl, false, Option, none, some, List, [], ◌∷◌, arith, Bool-cases, inl,
  inr, ◌∙◌, ◌⊎◌,
}
use transparent_security.Prelude.Lists.{All, All-append}
use transparent_security.Prelude.Equality.{◌==◌, nat_eq}
use transparent_security.Prelude.Result.{ok}
use transparent_security.Controller.DropReports.{Reporter, Surroundings, report_drop}
use transparent_security.Analytics.SimpleAe.{SimpleAe, World, entry, report_key}
use transparent_security.Analytics.SimpleAe.Entries.{entry-put_self}
use transparent_security.Analytics.SimpleAe.Stopping.{report_key_lem, outcome}
use transparent_security.ControlLoop.{Carried, IsCarried, period, Round, rounds, Rises, IsUnder}
use transparent_security.ControlLoop.Sending.{One, deliver-One, send_drop_pkt-One, report_drop_lem}

IsUnder-le : (low n : ℕ) (o : Option (ℕ × ℕ)) → IsUnder low o → low ≤ n → IsUnder n o
IsUnder-le low n none h le = tt
IsUnder-le low n (some (old, idle)) h le = omega arith

module _ (key : ℕ) where
  report_drop-cumulative :
      (s : Surroundings) (total : ℕ) (r : Reporter)
      → r.is_delta ≡ false
      → let after = (report_drop s key total (record r { sent = [] })).1 in
        (after.is_delta ≡ false) × ((after.sent ≡ []) ⊎ One key total after.sent)
  report_drop-cumulative s total r cumulative =
      let (mode, _, one) = send_drop_pkt-One key s total r in
      rw (report_drop_lem key s total (record r { sent = [] }) false cumulative)
        (elim (Bool-cases (key == 0)) [
          | inl z ↦ rw z (cumulative, inl refl)
          | inr nz ↦ rw nz (mode ∙ cumulative, one)
        ])

  pub record Unmoved (n : ℕ) (ae after : SimpleAe) : Type 0 where
    pub under : IsUnder n (entry key after.drop_rpt_map)
    pub requests : after.requests ≡ ae.requests

  outcome-Unmoved :
      (low n : ℕ) (w : World) (ae : SimpleAe) (o : Option (ℕ × ℕ))
      → entry key ae.drop_rpt_map ≡ o
      → IsUnder low o
      → low < n
      → ((outcome key w n o ae).0 ≡ ok false) × Unmoved n ae (outcome key w n o ae).1
  outcome-Unmoved low n w ae none e h more = (refl, record { under = rw e tt; requests = refl })
  outcome-Unmoved low n w ae (some (old, idle)) e h more =
      let ne : (old == n) ≡ false = ground arith in
      rw ne (
        refl,
        record {
          under = rw (entry-put_self key (some (n, 0)) ae.drop_rpt_map) (omega arith);
          requests = refl;
        },
      )

  report_key-Unmoved :
      (low n : ℕ) (w : World) (ae : SimpleAe)
      → IsUnder low (entry key ae.drop_rpt_map)
      → low < n
      → ((report_key key n w ae).0 ≡ ok false) × Unmoved n ae (report_key key n w ae).1
  report_key-Unmoved low n w ae h more =
      rw (report_key_lem key w n ae)
        (outcome-Unmoved low n w ae (entry key ae.drop_rpt_map) refl h more)

module _ (carried : Carried) (ok_link : IsCarried carried) (key : ℕ) (small : key < 2 ^ 128) where
  period-Unmoved :
      (low n : ℕ) (s : Surroundings) (w : World) (r : Reporter) (ae : SimpleAe)
      → r.is_delta ≡ false
      → IsUnder low (entry key ae.drop_rpt_map)
      → low < n
      → n < 2 ^ 32
      → let (answers, (r', next)) = period carried key n s w (r, ae) in
        All (λ a. a ≡ ok false) answers × (r'.is_delta ≡ false) × Unmoved key n ae next
  unfolding period
  period-Unmoved low n s w r ae mode h more fits =
      let (mode', one) = report_drop-cumulative key s n r mode in
      elim one [
        | inl e ↦ rw e (
          tt,
          mode',
          record {
            under = IsUnder-le low n (entry key ae.drop_rpt_map) h (omega arith);
            requests = refl;
          },
        )
        | inr e ↦
            rw (deliver-One carried ok_link key small n _ w ae fits e)
              (let (r', u) = report_key-Unmoved key low n w ae h more in ((r', tt), mode', u))
      ]

  -- While the total grows in each period, and reports its whole (`is_delta` is false), no report is
  -- taken for the end of the attack and no request is sent, whether reports can be sent or not.
  pub rounds-Unmoved :
      (low : ℕ) (ts : List Round) (r : Reporter) (ae : SimpleAe)
      → r.is_delta ≡ false
      → IsUnder low (entry key ae.drop_rpt_map)
      → Rises low ts
      → let (answers, (r', last)) = rounds carried key ts (r, ae) in
        All (λ a. a ≡ ok false) answers × (last.requests ≡ ae.requests)
  unfolding rounds
  rounds-Unmoved low [] r ae mode h rises = (tt, refl)
  rounds-Unmoved low (t ∷ ts) r ae mode h (more, fits, rises) =
      let next = (period carried key t.dropped t.surroundings t.world (r, ae)).1 in
      let (now, mode', u) =
        period-Unmoved low t.dropped t.surroundings t.world r ae mode h more fits in
      let (later, same) = rounds-Unmoved t.dropped ts next.0 next.1 mode' u.under rises in
      (
        All-append (λ a. a ≡ ok false)
            (period carried key t.dropped t.surroundings t.world (r, ae)).0
            (rounds carried key ts next).0 now later,
        same ∙ u.requests,
      )
