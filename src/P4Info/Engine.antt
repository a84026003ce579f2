-- ===== src/P4Info/Engine.antt =====
-- Entries of the replication engine and of digests: `build_clone_entry`, `build_digest_entry` and
-- `build_multicast_group_entry` of trans_sec/p4runtime_lib/helper.py.
use transparent_security.Prelude.{ℕ, String, Option, none, some, List, [], ◌∷◌}
use transparent_security.Prelude.Equality.{string_eq}
use transparent_security.Prelude.Dict.{Dict, get}
use transparent_security.Prelude.Result.{key_error, Result, ok, err, ◌>>=◌}
use transparent_security.Convert.{ℤ, pos}
use transparent_security.P4Info.{P4Info, digests, get_id}

-- `d[k]`
abbrev or_key_error {ℓ} : {A : Type ℓ} → Option A → Result A
or_key_error none = err key_error
or_key_error (some a) = ok a

-- A copy that the replication engine makes of a packet.
pub record Replica : Type 0 where
  pub egress_port : ℤ
  pub instance_id : ℤ

pub data EngineEntry : Type 0 where
  clone_session : ℕ → List Replica → EngineEntry
  multicast_group : ℕ → List Replica → EngineEntry

pub record DigestEntry : Type 0 where
  pub digest_id : ℕ
  pub max_timeout_ns : ℕ
  pub max_list_size : ℕ
  pub ack_timeout_ns : ℕ

abbrev pub build_clone_entry : ℤ → EngineEntry
build_clone_entry clone_egress =
    clone_session 5 (record { egress_port = clone_egress; instance_id = pos 1 } ∷ [])

unfoldable pub build_digest_entry : P4Info → String → Result (DigestEntry × Dict String ℕ)
unfolding get_id
build_digest_entry info digest_name = do
  digest_id ← get_id info digests digest_name
  let digest_entry : DigestEntry = record {
    digest_id = digest_id;
    max_timeout_ns = 0;
    max_list_size = 1;
    ack_timeout_ns = 0;
  }
  ok (digest_entry, (digest_name, digest_id) ∷ [])

-- The replicas are dicts, whose values Python's `int` reads.
module _ {V : Type 0} (as_int : V → Result ℤ) where
  abbrev replica_of : Dict String V → Result Replica
  replica_of replica = do
    port ← or_key_error (get "egress_port" replica)
    egress_port ← as_int port
    number ← or_key_error (get "instance" replica)
    instance_id ← as_int number
    ok (record { egress_port = egress_port; instance_id = instance_id })

  unfoldable pub replicas_of : List (Dict String V) → Result (List Replica)
  replicas_of [] = ok []
  replicas_of (replica ∷ replicas) = do
    r ← replica_of replica
    rs ← replicas_of replicas
    ok (r ∷ rs)

  unfoldable pub build_multicast_group_entry : ℕ → List (Dict String V) → Result EngineEntry
  unfolding replicas_of
  build_multicast_group_entry mc_group_id replicas = do
    rs ← replicas_of replicas
    ok (multicast_group mc_group_id rs)
