-- ===== src/Manifest/RoundTrip.antt =====
-- manifest.go: Decode behind Encode.
use restore_safe.Base.{
  Bytes, List, Option-cases, [], ap, append-nil, append_assoc, arith, false, inl, inr, leb, length,
  none, or-false, refl, some, sym, true, ◌++◌, ◌<◌, ◌==◌, ◌∙◌, ◌∷◌, ◌≡◌, ◌≤◌,
}
use restore_safe.Text.{contains}
use restore_safe.Io.{whole}
use restore_safe.Manifest.Defs.{Builder, Entry, Manifest, ManifestHeader}
use restore_safe.Manifest.Validate.{validate_manifest}
use restore_safe.Manifest.Coding.{
  LineCodec, Progress, accept_read, built, decode_manifest, drop_cr, encode_manifest, entry_lines,
  footer_start, has_prefix, manifest_text, max_line_bytes, newline, nothing_read, raw_lines,
  read_failed, take_line, take_lines,
}

-- A text without a newline, that does not end in a carriage return.
pub record IsLine (line : Bytes) : Type 0 where
  pub one_line : contains line newline ≡ false
  pub no_cr : drop_cr line ≡ line

raw_lines-newline :
    (cur xs rest : Bytes)
    → contains xs newline ≡ false
    → raw_lines cur (xs ++ (newline ∷ rest)) ≡ (cur ++ xs) ∷ raw_lines [] rest
unfolding raw_lines contains
raw_lines-newline cur [] rest h = rw (append-nil cur) refl
raw_lines-newline cur (x ∷ xs) rest h =
    let (a, b) = or-false (x == newline) (contains xs newline) h in
    rw a (
      raw_lines-newline (cur ++ x ∷ []) xs rest b
      ∙ ap (λ z. z ∷ raw_lines [] rest) (append_assoc cur (x ∷ []) xs))

module _ (codec : LineCodec) where
  open codec use {
    marshal_header, marshal_entry, marshal_footer, unmarshal_header, unmarshal_entry,
    unmarshal_footer,
  }

  -- What encoding/json does with an entry, in a line that the scanner's buffer holds.
  pub record IsReadable (e : Entry) : Type 0 where
    pub line : IsLine (marshal_entry e)
    pub not_footer : has_prefix footer_start (marshal_entry e) ≡ false
    pub read_back : unmarshal_entry (marshal_entry e) ≡ some e
    pub short : length (marshal_entry e) < max_line_bytes

  abbrev pub AreReadable : List Entry → Type 0
  AreReadable [] = Unit
  AreReadable (e ∷ es) = IsReadable e × AreReadable es

  -- The same for the header and the footer.
  pub record HasEnds (m : Manifest) : Type 0 where
    pub header_line : IsLine (marshal_header m.header)
    pub header_back : unmarshal_header (marshal_header m.header) ≡ some m.header
    pub header_short : length (marshal_header m.header) < max_line_bytes
    pub footer_line : IsLine (marshal_footer m.footer)
    pub footer_back : unmarshal_footer (marshal_footer m.footer) ≡ some m.footer
    pub footer_marked : has_prefix footer_start (marshal_footer m.footer) ≡ true
    pub footer_short : length (marshal_footer m.footer) < max_line_bytes

  -- What has been read of a header and entries.
  abbrev reading : ManifestHeader → List Entry → Progress
  reading h es = record { header = some h; entries = es; footer = none }

  take_line-entry :
      (h : ManifestHeader) (before : List Entry) (e : Entry)
      → IsReadable e
      → take_line codec (reading h before) (marshal_entry e) ≡ inl (reading h (before ++ e ∷ []))
  unfolding take_line
  take_line-entry h before e r = rw (r.not_footer, r.read_back) refl

  take_lines-entry_lines :
      (h : ManifestHeader) (before es : List Entry) (behind : Bytes)
      → AreReadable es
      → take_lines codec (reading h before) (raw_lines [] (entry_lines codec es behind))
        ≡ take_lines codec (reading h (before ++ es)) (raw_lines [] behind)
  unfolding entry_lines take_lines
  take_lines-entry_lines h before [] behind r = rw (append-nil before) refl
  take_lines-entry_lines h before (e ∷ es) behind (r, rs) =
      let line = marshal_entry e in
      let split = raw_lines-newline [] line (entry_lines codec es behind) r.line.one_line in
      let fits : leb max_line_bytes (length line) ≡ false = ground (arith, r.short) in
      let taken : take_line codec (reading h before) line ≡ inl (reading h (before ++ e ∷ [])) =
        take_line-entry h before e r in
      rw (split, take_lines, fits, r.line.no_cr, taken)
        (take_lines-entry_lines h (before ++ e ∷ []) es behind rs
          ∙ ap (λ x. take_lines codec (reading h x) (raw_lines [] behind))
              (append_assoc before (e ∷ []) es))

  -- The text of a manifest gives its header, its entries and its footer.
  take_lines-manifest_text :
      (m : Manifest)
      → HasEnds m
      → AreReadable m.entries
      → take_lines codec nothing_read (raw_lines [] (manifest_text codec m))
        ≡ inl (record { header = some m.header; entries = m.entries; footer = some m.footer })
  unfolding manifest_text take_lines take_line raw_lines
  take_lines-manifest_text m ends r =
      let head = marshal_header m.header in
      let foot = marshal_footer m.footer in
      let body = entry_lines codec m.entries (foot ++ newline ∷ []) in
      let split = raw_lines-newline [] head body ends.header_line.one_line in
      let fits : leb max_line_bytes (length head) ≡ false = ground (arith, ends.header_short) in
      let last = raw_lines-newline [] foot [] ends.footer_line.one_line in
      let foot_fits : leb max_line_bytes (length foot) ≡ false =
        ground (arith, ends.footer_short) in
      rw
        (
          split,
          fits,
          ends.header_line.no_cr,
          ends.header_back,
          take_lines-entry_lines m.header [] m.entries (foot ++ newline ∷ []) r,
          last,
          foot_fits,
          ends.footer_line.no_cr,
          ends.footer_marked,
          ends.footer_back,
        )
        refl

  module _ (to_lower : Bytes → Bytes) where
    -- What Encode writes, read to its end, Decode reads as the manifest that was built, if the JSON of
    -- each line is one short line that encoding/json reads back, and only the footer's starts as a
    -- footer does.
    pub decode_manifest-encode_manifest :
        (b : Builder) (text : Bytes)
        → HasEnds (built b)
        → AreReadable b.entries
        → encode_manifest codec to_lower b ≡ inl text
        → decode_manifest codec to_lower (whole text) ≡ inl (built b)
    unfolding encode_manifest decode_manifest accept_read built
    decode_manifest-encode_manifest b text ends r written =
        elim (Option-cases (validate_manifest to_lower (built b))) [
          | inr (x, e) ↦ absurd (cc (rw (e, encode_manifest) at written))
          | inl e ↦
              let same : manifest_text codec (built b) ≡ text =
                cc (rw (e, encode_manifest) at written) in
              rw (sym same, take_lines-manifest_text (built b) ends r, accept_read, e) refl
        ]

    -- What Encode writes, Decode refuses with a read error if the JSON of the header, a single line, has
    -- 2 ^ 20 bytes or more.
    pub decode_manifest-long_header :
        (b : Builder) (text : Bytes)
        → IsLine (marshal_header b.header)
        → max_line_bytes ≤ length (marshal_header b.header)
        → encode_manifest codec to_lower b ≡ inl text
        → decode_manifest codec to_lower (whole text) ≡ inr read_failed
    unfolding encode_manifest decode_manifest built manifest_text take_lines raw_lines
    decode_manifest-long_header b text line long written =
        elim (Option-cases (validate_manifest to_lower (built b))) [
          | inr (x, e) ↦ absurd (cc (rw (e, encode_manifest) at written))
          | inl e ↦
              let same : manifest_text codec (built b) ≡ text =
                cc (rw (e, encode_manifest) at written) in
              let m = built b in
              let body = entry_lines codec m.entries (marshal_footer m.footer ++ newline ∷ []) in
              let split = raw_lines-newline [] (marshal_header m.header) body line.one_line in
              let over : leb max_line_bytes (length (marshal_header m.header)) ≡ true =
                ground (arith, long) in
              rw (sym same, split, over) refl
        ]
