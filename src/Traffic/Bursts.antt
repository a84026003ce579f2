-- ===== src/Traffic/Bursts.antt =====
-- `device_send` of trans_sec/device_software/send_packets.py: what it does with the packet.
use transparent_security.Prelude.{
  ℕ, zero, suc, ◌+◌, ◌-◌, ◌*◌, ◌≡◌, String, Option, none, some, List, [], ◌∷◌, ◌++◌, if◌then◌else◌,
  arith,
}
use transparent_security.Prelude.Equality.{◌==◌, nat_eq, string_eq}
use transparent_security.Prelude.Result.{Result, ok, ◌>>=◌}
use transparent_security.External.{IpAddress}
use transparent_security.Traffic.Sending.{Part, Args, Machine, first_if, create_packet}

-- The sleeps, `sendp` with a count, and `sendp` with `loop=1`, which does not end.
pub data Action (Seconds : Type 0) : Type 0 where
  sleep : ℕ → Action Seconds
  send : List Part → String → ℕ → Seconds → Action Seconds
  send_forever : List Part → String → Seconds → Action Seconds

-- The interface that is given, or else the first one.
abbrev pub interface_of : Machine → Option String → Result String
interface_of machine none = first_if machine.if_list
interface_of machine (some name) = if name == "" then first_if machine.if_list else ok name

module _ {Seconds : Type 0} where
  abbrev burst : Args Seconds → String → List Part → ℕ → List (Action Seconds)
  burst args interface pkt i =
      send pkt interface args.count args.interval
      ∷ (if i == args.iterations - 1 then [] else sleep args.iter_delay ∷ [])

  -- The loop from `i` on, with so many rounds to go.
  unfoldable pub iterate : Args Seconds → String → List Part → ℕ → ℕ → List (Action Seconds)
  iterate args interface pkt i zero = []
  iterate args interface pkt i (suc rounds) =
      burst args interface pkt i ++ iterate args interface pkt (i + 1) rounds

  abbrev sending : Args Seconds → String → List Part → List (Action Seconds)
  sending args interface pkt =
      if args.continuous
      then send_forever pkt interface args.interval ∷ []
      else iterate args interface pkt 0 args.iterations

  unfoldable pub device_send : IpAddress → Machine → Args Seconds → Result (List (Action Seconds))
  unfolding create_packet iterate first_if
  device_send ipaddress machine args = do
    interface ← interface_of machine args.interface
    pkt ← create_packet ipaddress machine args interface
    ok (sleep args.delay ∷ sending args interface pkt)

  -- The packets that the actions send, and the seconds for which they sleep.
  abbrev pub packets_sent : List (Action Seconds) → ℕ
  packets_sent [] = 0
  packets_sent (send pkt interface count interval ∷ actions) = count + packets_sent actions
  packets_sent (other ∷ actions) = packets_sent actions

  abbrev pub seconds_slept : List (Action Seconds) → ℕ
  seconds_slept [] = 0
  seconds_slept (sleep n ∷ actions) = n + seconds_slept actions
  seconds_slept (other ∷ actions) = seconds_slept actions

  -- The loop sends the count of packets in each of its rounds, and sleeps between them, but not
  -- after the last one.
  pub iterate_lem :
      (args : Args Seconds) (interface : String) (pkt : List Part) (i rounds : ℕ)
      → i + suc rounds ≡ args.iterations
      → (packets_sent (iterate args interface pkt i (suc rounds)) ≡ suc rounds * args.count)
        × (seconds_slept (iterate args interface pkt i (suc rounds)) ≡ rounds * args.iter_delay)
  unfolding iterate
  iterate_lem args interface pkt i zero total = ground arith
  iterate_lem args interface pkt i (suc rounds) total =
      let (sent, slept) = iterate_lem args interface pkt (i + 1) rounds (omega arith) in
      ground arith
