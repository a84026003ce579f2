-- ===== src/Analytics/Extract/Sizes.antt =====
-- The INT headers that `extract_int_data` of trans_sec/analytics/oinc.py reads.
use transparent_security.Prelude.{
  ℕ, ◌+◌, ◌*◌, ◌/◌, ◌≡◌, Option, some, arith, Bool-cases, inl, inr, ◌∙◌, ap,
}
use transparent_security.Prelude.Equality.{◌==◌, nat_eq}
use transparent_security.Prelude.Result.{Result, ok, >>=-eq-ok, ◌>>=◌}
use transparent_security.Packet.{Layer, bits, int_shim, int_header, int_meta, source_int_meta}
use transparent_security.External.{Header, Scapy}
use transparent_security.Analytics.Extract.{source_meta}

module _ (scapy : Scapy) where
  open scapy use {Bytes, size, dissect}

  -- scapy: what follows a header is what the header's fields leave of the bytes.
  abbrev pub Consumes : Type 0
  Consumes =
      (layer : Layer) (bytes : Bytes) (header : Header Bytes)
      → dissect layer bytes ≡ ok header
      → size bytes ≡ bits layer / 8 + size header.payload

  module _ (consumes : Consumes) where
    after_source :
        (bytes : Bytes) (source : Header Bytes)
        → dissect source_int_meta bytes ≡ ok source
        → size bytes ≡ 12 + size source.payload
    unfolding source_int_meta
    after_source bytes source e = consumes source_int_meta bytes source e

    after_meta :
        (bytes : Bytes) (header : Header Bytes)
        → dissect int_meta bytes ≡ ok header
        → size bytes ≡ 4 + size header.payload
    unfolding int_meta
    after_meta bytes header e = consumes int_meta bytes header e

    abbrev read_source : Bytes → Result (Option (Header Bytes))
    read_source bytes = dissect source_int_meta bytes >>= λ source. ok (some source)

    size-read_source :
        (bytes : Bytes) (source : Header Bytes)
        → read_source bytes ≡ ok (some source)
        → size bytes ≡ 12 + size source.payload
    size-read_source bytes source e =
        let (s, hs, e') = >>=-eq-ok (dissect source_int_meta bytes) _ e in
        let same : s ≡ source = cc in after_source bytes source (hs ∙ ap ok same)

    size-read_meta :
        (bytes : Bytes) (source : Header Bytes)
        → (dissect int_meta bytes >>= λ m. read_source m.payload) ≡ ok (some source)
        → size bytes ≡ 16 + size source.payload
    size-read_meta bytes source e =
        let (m, hm, e') = >>=-eq-ok (dissect int_meta bytes) _ e in
        omega (arith, after_meta bytes m hm, size-read_source m.payload source e')

    size-read_metas :
        (bytes : Bytes) (source : Header Bytes)
        → (dissect int_meta bytes >>= λ m.
            dissect int_meta m.payload >>= λ n. read_source n.payload)
          ≡ ok (some source)
        → size bytes ≡ 20 + size source.payload
    size-read_metas bytes source e =
        let (m, hm, e') = >>=-eq-ok (dissect int_meta bytes) _ e in
        omega (arith, after_meta bytes m hm, size-read_meta m.payload source e')

    size_of_source_meta :
        (length : ℕ) (bytes : Bytes) (source : Header Bytes)
        → source_meta scapy length bytes ≡ ok (some source)
        → size bytes + 16 ≡ length * 4 + size source.payload
    unfolding source_meta
    size_of_source_meta length bytes source e = elim (Bool-cases (length == 7)) [
      | inl is_7 ↦ ground (arith, size-read_source bytes source (rw is_7 at e))
      | inr not_7 ↦ elim (Bool-cases (length == 8)) [
        | inl is_8 ↦ ground (arith, size-read_meta bytes source (rw (not_7, is_8) at e))
        | inr not_8 ↦ elim (Bool-cases (length == 9)) [
          | inl is_9 ↦ ground (arith, size-read_metas bytes source (rw (not_7, not_8, is_9) at e))
          | inr not_9 ↦ absurd (cc (rw (not_7, not_8, not_9) at e))
        ]
      ]
    ]

  -- The shim's length, in words of four bytes, is exactly that of the INT headers which are read,
  -- the shim and the INT header included, whatever number of INT metadata they hold.
  pub size_of_int_headers :
      (bytes : Bytes) (shim header source : Header Bytes)
      → Consumes
      → dissect int_shim bytes ≡ ok shim
      → dissect int_header shim.payload ≡ ok header
      → source_meta scapy (shim.number "length") header.payload ≡ ok (some source)
      → size bytes ≡ shim.number "length" * 4 + size source.payload
  unfolding int_shim int_header
  size_of_int_headers bytes shim header source consumes s h m = omega (
    arith,
    consumes int_shim bytes shim s,
    consumes int_header shim.payload header h,
    size_of_source_meta consumes (shim.number "length") header.payload source m,
  )
