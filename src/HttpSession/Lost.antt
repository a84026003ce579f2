-- ===== src/HttpSession/Lost.antt =====
-- The engine of trans_sec/analytics/oinc.py over trans_sec/utils/http_session.py.
use transparent_security.Prelude.{
  ℕ, ◌+◌, ◌≤◌, arith, ◌≡◌, ◌≢◌, ◌++◌, String, true, some, [], ◌∷◌, refl, Bool-cases, inl, inr,
}
use transparent_security.Prelude.Equality.{◌==◌, nat_eq, beq_ne}
use transparent_security.Prelude.Dict.{get, put}
use transparent_security.Prelude.Result.{Exception, Result, ok, err, key_error}
use transparent_security.Analytics.SimpleAe.{
  Attack, Request, SimpleAe, World, entry, cleared, notify, send_attack, finish_attack, stop_attack,
}
use transparent_security.Analytics.SimpleAe.Detection.{is_due, may_send_lem}
use transparent_security.Analytics.SimpleAe.Entries.{entry-put_self}
use transparent_security.HttpSession.{
  Requests, post_method, delete_method, text, number, Body, address, post, delete,
}

-- The dict of an attack, as it is sent.
abbrev pub body_of : Attack → Body
body_of attack =
    ("src_mac", text attack.src_mac)
    ∷ ("dst_port", number attack.dst_port)
    ∷ ("dst_ip", text attack.dst_ip)
    ∷ []

-- What the engine sees of a request: whether it raises.
abbrev pub outcome {ℓ} : {A : Type ℓ} → Result A → Result (Unit {0})
outcome (ok a) = ok tt
outcome (err e) = err e

module _ (requests : Requests) (url : String) where
  open requests use {Response, request, status_code, json}

  -- The world in which the session sends the requests of the engine.
  abbrev pub posting : Attack → String → World → World
  posting attack context w = record w {
    reply = outcome (post requests url context (body_of attack));
  }

  abbrev pub deleting : Attack → String → World → World
  deleting attack context w = record w {
    reply = outcome (delete requests url context (body_of attack));
  }

  -- The engine with a notice that was sent, and the attack and the time noted.
  abbrev pub noticed : ℕ → Attack → ℕ → SimpleAe → SimpleAe
  noticed key attack stored ae = record ae {
    attack_map = put key (some stored) ae.attack_map;
    attack_payload = put key (some attack) ae.attack_payload;
    requests = ae.requests ++ Request.post ae.sdn_attack_context attack ∷ [];
  }

  -- Where the SDN controller cannot be reached, a notice that is due is lost: the engine answers that
  -- the attack was reported and notes the attack and the time, which is not 0; and whoever answers, the
  -- next notice of the key is not sent if its time is at most 1,000,000 microseconds later.
  pub notify-unreachable :
      (key : ℕ) (attack : Attack) (w again : World) (ae : SimpleAe) (e : Exception)
      → request post_method (address requests url ae.sdn_attack_context) (some (body_of attack))
        ≡ err e
      → is_due (entry key ae.attack_map) w.tested ≡ true
      → w.stored ≢ 0
      → again.tested ≤ w.stored + 1_000_000
      → (notify key attack (posting attack ae.sdn_attack_context w) ae
          ≡ (ok true, noticed key attack w.stored ae))
        × (notify key attack again (noticed key attack w.stored ae)
            ≡ (ok true, noticed key attack w.stored ae))
  unfolding notify send_attack post
  notify-unreachable key attack w again ae e failed due set soon = (
    rw (failed, post) (rw (may_send_lem, due) refl),
    rw may_send_lem (
        rw (entry-put_self key (some w.stored) ae.attack_map)
          (rw (beq_ne w.stored 0 set) (ground arith))),
  )

  -- Where the controller answers a report of an attack with another status than 200 and 201, the
  -- session raises a KeyError, since the dict has neither a 'Name' nor an 'Addr'.
  pub post-refused :
      (attack : Attack) (context : String) (r : Response) (j : requests.Json)
      → request post_method (address requests url context) (some (body_of attack)) ≡ ok r
      → status_code r ≢ 200
      → status_code r ≢ 201
      → json r ≡ ok j
      → post requests url context (body_of attack) ≡ err key_error
  unfolding post get
  post-refused attack context r j sent not_200 not_201 answer =
      rw (sent, post)
        (rw (beq_ne (status_code r) 200 not_200, beq_ne (status_code r) 201 not_201, answer) refl)

  outcome-delete :
      (attack : Attack) (context : String) (r : Response)
      → request delete_method (address requests url context) (some (body_of attack)) ≡ ok r
      → status_code r ≢ 200
      → outcome (delete requests url context (body_of attack)) ≡ ok tt
  unfolding delete
  outcome-delete attack context r sent not_200 = elim (Bool-cases (status_code r == 404)) [
    | inl is_404 ↦ rw (sent, delete) (rw (beq_ne (status_code r) 200 not_200, is_404) refl)
    | inr other ↦ rw (sent, delete) (rw (beq_ne (status_code r) 200 not_200, other) refl)
  ]

  -- Where the controller refuses to stop an attack with another status than 200, the engine forgets
  -- the attack all the same, and answers that it was stopped.
  pub finish_attack-refused :
      (key : ℕ) (attack : Attack) (w : World) (ae : SimpleAe) (r : Response)
      → entry key ae.attack_payload ≡ some attack
      → request delete_method (address requests url ae.sdn_attack_context) (some (body_of attack))
        ≡ ok r
      → status_code r ≢ 200
      → finish_attack key (deleting attack ae.sdn_attack_context w) ae ≡ (
        ok true,
        cleared key (record ae {
          requests = ae.requests ++ Request.delete ae.sdn_attack_context attack ∷ [];
        }),
      )
  unfolding finish_attack stop_attack delete
  finish_attack-refused key attack w ae r known sent not_200 =
      rw known (rw (outcome-delete attack ae.sdn_attack_context r sent not_200) refl)
