-- ===== src/Manifest/Decoded.antt =====
-- manifest.go: Decode and Validate.
use restore_safe.Manifest.Coding.{
  DecodeError, LineCodec, Progress, accept_read, decode_manifest, nothing_read, raw_lines,
  take_lines,
}
use restore_safe.Manifest.Validate.{validate_manifest}
use restore_safe.Manifest.Defs.{Manifest}
use restore_safe.Io.{Source}
use restore_safe.Base.{
  Bool-cases, Bytes, Option-cases, Sum-cases, [], inl, inr, none, refl, subst, ◌≡◌, ◌⊎◌,
}

manifest_eq : {a b : Manifest} (r : Manifest ⊎ DecodeError) → r ≡ inl a → r ≡ inl b → a ≡ b
manifest_eq r p q = cc (p, q)

module _ (codec : LineCodec) (to_lower : Bytes → Bytes) where
  accept_read-valid :
      (p : Progress) (m : Manifest)
      → accept_read codec to_lower p ≡ inl m
      → validate_manifest to_lower m ≡ none
  unfolding accept_read
  accept_read-valid p m h = elim (Option-cases p.header) [
    | inl q ↦ absurd (cc (rw (q, accept_read) at h))
    | inr (head, q) ↦ elim (Option-cases p.footer) [
      | inl f ↦ absurd (cc (rw (q, f, accept_read) at h))
      | inr (foot, f) ↦
          let read : Manifest = record { header = head; entries = p.entries; footer = foot } in
          elim (Option-cases (validate_manifest to_lower read)) [
            | inr (e, v) ↦ absurd (cc (rw (q, f, v, accept_read) at h))
            | inl v ↦
                subst (λ z. validate_manifest to_lower z ≡ none)
                  (manifest_eq (accept_read codec to_lower p) (rw (q, f, v, accept_read) refl) h) v
          ]
    ]
  ]

  -- Decode gives a manifest that Validate accepts.
  pub decode_manifest-valid :
      (src : Source) (m : Manifest)
      → decode_manifest codec to_lower src ≡ inl m
      → validate_manifest to_lower m ≡ none
  unfolding decode_manifest
  decode_manifest-valid src m h =
      elim (Sum-cases (take_lines codec nothing_read (raw_lines [] src.content))) [
        | inr (e, q) ↦ absurd (cc (rw (q, decode_manifest) at h))
        | inl (p, q) ↦ elim (Bool-cases src.broken) [
          | inl b ↦ absurd (cc (rw (q, b, decode_manifest) at h))
          | inr b ↦ accept_read-valid p m (rw (q, b, decode_manifest) at h)
        ]
      ]
