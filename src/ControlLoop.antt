-- ===== src/ControlLoop.antt =====
-- The loop from the switch's drop counters back to the analytics engine: the controller of
-- trans_sec/controller/ddos_sdn_controller.py reports the drops of an attack, and the reports reach
-- `SimpleAE` of trans_sec/analytics/oinc.py, one period after another.
pub mod Sending
pub mod Cumulative
pub mod Delta
pub mod Listing
pub mod Keys
use transparent_security.Prelude.{
  ℕ, zero, suc, ◌+◌, ◌-◌, ◌<◌, ◌≤◌, ◌^◌, ◌≡◌, refl, Bool, true, false, Option, none, some, List, [],
  ◌∷◌, ◌++◌, arith, Option-cases, Bool-cases, inl, inr, ap, if◌then◌else◌, ◌∙◌, ◌⊎◌,
}
use transparent_security.Prelude.Lists.{All}
use transparent_security.Prelude.Dict.{put}
use transparent_security.Prelude.Equality.{◌==◌, nat_eq}
use transparent_security.Prelude.Result.{Result, ok, Result-cases}
use transparent_security.Convert.{pos}
use transparent_security.Controller.DropReports.{
  DropPacket, Reporter, Surroundings, send_drop_pkt, report_drop, last_count, counted, minus,
}
use transparent_security.Analytics.SimpleAe.{SimpleAe, World, entry, report_key}
use transparent_security.Analytics.SimpleAe.Entries.{entry-put_self}
use transparent_security.Analytics.SimpleAe.Stopping.{reports, report_key_lem, outcome, reported}

-- The key and the count that the engine reads from a packet that was sent.
abbrev pub Carried : Type 0
Carried = DropPacket → ℕ × ℕ

-- The fields have 32 and 128 bits.
pub record IsCarried (carried : Carried) : Type 0 where
  pub carries :
      (p : DropPacket) (n : ℕ)
      → p.drop_count ≡ pos n
      → n < 2 ^ 32
      → p.drop_tbl_keys < 2 ^ 128
      → carried p ≡ (p.drop_tbl_keys, n)

module _ (carried : Carried) where
  unfoldable pub deliver : List DropPacket → World → SimpleAe → List (Result Bool) × SimpleAe
  deliver [] w ae = ([], ae)
  deliver (p ∷ packets) w ae =
      let (key, count) = carried p in
      let (r, next) = report_key key count w ae in
      let (rs, last) = deliver packets w next in (r ∷ rs, last)

  -- One period, at whose end the switch has dropped `total` packets of the attack.
  unfoldable pub period :
      ℕ
      → ℕ
      → Surroundings
      → World
      → Reporter × SimpleAe
      → List (Result Bool) × (Reporter × SimpleAe)
  unfolding deliver
  period key total s w (r, ae) =
      let (_, after) = report_drop s key total (record r { sent = [] }) in
      let (answers, next) = deliver after.sent w ae in (answers, (after, next))

pub record Round : Type 0 where
  pub dropped : ℕ
  pub surroundings : Surroundings
  pub world : World

module _ (carried : Carried) where
  -- The answers of the engine in a number of periods, and the state in the end.
  unfoldable pub rounds :
      ℕ → List Round → Reporter × SimpleAe → List (Result Bool) × (Reporter × SimpleAe)
  unfolding period
  rounds key [] state = ([], state)
  rounds key (t ∷ ts) state =
      let (now, next) = period carried key t.dropped t.surroundings t.world state in
      let (later, last) = rounds key ts next in (now ++ later, last)

-- The totals grow from `low` on, and fit the field.
abbrev pub Rises : ℕ → List Round → Type 0
Rises low [] = Unit
Rises low (t ∷ ts) = (low < t.dropped) × (t.dropped < 2 ^ 32) × Rises t.dropped ts

-- The count of a drop report entry is at most `low`.
abbrev pub IsUnder : ℕ → Option (ℕ × ℕ) → Type 0
IsUnder low none = Unit
IsUnder low (some (old, idle)) = old ≤ low
