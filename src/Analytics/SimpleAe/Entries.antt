-- ===== src/Analytics/SimpleAe/Entries.antt =====
-- Reading the maps of `SimpleAE` (trans_sec/analytics/oinc.py) after a write.
use transparent_security.Prelude.{ℕ, ◌≡◌, Option, false, if◌then◌else◌, arith}
use transparent_security.Prelude.Equality.{◌==◌, nat_eq, beq_refl}
use transparent_security.Prelude.Dict.{Dict, put, get-put}
use transparent_security.Analytics.SimpleAe.{entry}

module _ {ℓ} {V : Type ℓ} where
  pub entry-put :
      (k j : ℕ) (v : Option V) (d : Dict ℕ (Option V))
      → entry j (put k v d) ≡ (if k == j then v else entry j d)
  entry-put k j v d = rw get-put (ground arith)

  pub entry-put_self : (k : ℕ) (v : Option V) (d : Dict ℕ (Option V)) → entry k (put k v d) ≡ v
  entry-put_self k v d = simp (get-put, beq_refl)

  pub entry-put_ne :
      (k j : ℕ) (v : Option V) (d : Dict ℕ (Option V))
      → (k == j) ≡ false
      → entry j (put k v d) ≡ entry j d
  entry-put_ne k j v d h = rw (entry-put k j v d) (rw h)
