-- ===== src/Examples/Unreached.antt =====
-- The engine with a controller that cannot be reached, or refuses.
use transparent_security.Prelude.{ℕ, ◌≡◌, String, true, some, [], ◌∷◌, refl, arith}
use transparent_security.Prelude.Result.{Result, ok, err, error}
use transparent_security.Prelude.Dict.{get}
use transparent_security.Analytics.SimpleAe.{
  Attack, Request, SimpleAe, World, cleared, notify, finish_attack,
}
use transparent_security.HttpSession.{Requests, Verb, post_method}
use transparent_security.HttpSession.Lost.{
  posting, deleting, noticed, notify-unreachable, finish_attack-refused,
}

abbrev answer : Verb → Result ℕ
answer post_method = err (error "connection refused")
answer other = ok 500

abbrev broken : Requests
broken = record {
  Json = String;
  Response = ℕ;
  request = λ m url body. answer m;
  status_code = λ r. r;
  json = λ r. ok "";
  first_message = λ j. ok j;
}

abbrev refusing : Requests
refusing = record {
  Json = String;
  Response = ℕ;
  request = λ m url body. ok 409;
  status_code = λ r. r;
  json = λ r. ok "";
  first_message = λ j. ok j;
}

abbrev flood : Attack
flood = record { src_mac = "00:11"; dst_port = 80; dst_ip = "10.0.0.1" }

abbrev engine : SimpleAe
engine = record {
  sdn_attack_context = "gwAttack";
  packet_count = 100;
  sample_interval = 60_000_000;
  drop_count = 3;
  byte_count = 50_000;
  count_map = [];
  attack_map = [];
  attack_payload = (7, some flood) ∷ [];
  drop_rpt_map = [];
  requests = [];
}

abbrev noon : World
noon = record {
  now = 43_200_000_000;
  tested = 43_200_000_000;
  stored = 43_200_000_000;
  reply = ok tt;
}

abbrev url : String
url = "http://localhost:9998"

-- Half a second later
abbrev soon : World
soon = record noon { tested = 43_200_500_000; stored = 43_200_500_001 }

notify-unreachable_example :
    (notify 7 flood (posting broken url flood "gwAttack" noon) engine
      ≡ (ok true, noticed broken url 7 flood 43_200_000_000 engine))
    × (notify 7 flood soon (noticed broken url 7 flood 43_200_000_000 engine)
        ≡ (ok true, noticed broken url 7 flood 43_200_000_000 engine))
unfolding get
notify-unreachable_example =
    notify-unreachable broken url 7 flood noon soon engine (error "connection refused") refl refl
      (omega arith) (omega arith)

finish_attack-refused_example :
    finish_attack 7 (deleting broken url flood "gwAttack" noon) engine
    ≡ (ok true, cleared 7 (record engine { requests = Request.delete "gwAttack" flood ∷ [] }))
unfolding get
finish_attack-refused_example =
    finish_attack-refused broken url 7 flood noon engine 500 refl refl (omega arith)
