-- ===== src/Manifest/Coding.antt =====
-- manifest.go: Builder.Encode and Decode, over the JSON of single lines.
use restore_safe.Base.{
  Bool, Bytes, List, Option, [], codes, false, if◌then◌else◌, inl, inr, leb, length, none, some,
  true, ℕ, ◌&&◌, ◌++◌, ◌==◌, ◌^◌, ◌∷◌, ◌⊎◌,
}
use restore_safe.Io.{Source}
use restore_safe.Manifest.Defs.{Builder, Entry, Footer, Manifest, ManifestHeader, compute_footer}
use restore_safe.Manifest.Validate.{ManifestError, validate_manifest}

-- encoding/json on a line: json.Encoder writes it without the newline, and decodeStrict reads it.
pub record LineCodec : Type 0 where
  pub marshal_header : ManifestHeader → Bytes
  pub marshal_entry : Entry → Bytes
  pub marshal_footer : Footer → Bytes
  pub unmarshal_header : Bytes → Option ManifestHeader
  pub unmarshal_entry : Bytes → Option Entry
  pub unmarshal_footer : Bytes → Option Footer

abbrev pub max_line_bytes : ℕ
max_line_bytes = 2 ^ 20

abbrev pub newline : ℕ
newline = b'\n'

-- bytes.HasPrefix
unfoldable pub has_prefix : Bytes → Bytes → Bool
has_prefix [] s = true
has_prefix (p ∷ ps) [] = false
has_prefix (p ∷ ps) (c ∷ cs) = p == c && has_prefix ps cs

abbrev pub footer_start : Bytes
footer_start = codes "{\"end\":"

pub data DecodeError : Type 0 where
  data_after_footer invalid_header_line invalid_footer_line invalid_entry_line : DecodeError
  read_failed empty_manifest missing_footer : DecodeError
  invalid_manifest : ManifestError → DecodeError

-- The lines that bufio.ScanLines finds: what is behind the last newline is one if it is not empty, and
-- a carriage return in front of a newline goes.
unfoldable pub drop_cr : Bytes → Bytes
drop_cr [] = []
drop_cr (c ∷ []) = if c == b'\r' then [] else c ∷ []
drop_cr (c ∷ d ∷ cs) = c ∷ drop_cr (d ∷ cs)

-- The lines before they are cut at carriage returns; `cur` is the start of the first one.
unfoldable pub raw_lines : Bytes → Bytes → List Bytes
raw_lines cur [] = if length cur == 0 then [] else cur ∷ []
raw_lines cur (c ∷ cs) =
    let ended = raw_lines [] cs in
    let more = raw_lines (cur ++ c ∷ []) cs in if c == newline then cur ∷ ended else more

-- What Decode has read so far.
pub record Progress : Type 0 where
  pub header : Option ManifestHeader
  pub entries : List Entry
  pub footer : Option Footer

abbrev pub nothing_read : Progress
nothing_read = record { header = none; entries = []; footer = none }

-- What Encode builds of the entries.
unfoldable pub built : Builder → Manifest
built b = record { header = b.header; entries = b.entries; footer = compute_footer b.entries }

module _ (codec : LineCodec) where
  -- A round of the loop of Decode.
  unfoldable pub take_line : Progress → Bytes → Progress ⊎ DecodeError
  unfolding has_prefix
  take_line p line = elim p.footer [
    | some _ ↦ inr data_after_footer
    | none ↦ elim p.header [
      | none ↦ elim (codec.unmarshal_header line) [
        | none ↦ inr invalid_header_line
        | some h ↦ inl (record p { header = some h })
      ]
      | some _ ↦
          if has_prefix footer_start line
          then elim (codec.unmarshal_footer line) [
            | none ↦ inr invalid_footer_line
            | some f ↦ inl (record p { footer = some f })
          ]
          else elim (codec.unmarshal_entry line) [
            | none ↦ inr invalid_entry_line
            | some e ↦ inl (record p { entries = p.entries ++ e ∷ [] })
          ]
    ]
  ]

  -- The loop: the scanner gives up at a line that its buffer does not hold with the newline.
  unfoldable pub take_lines : Progress → List Bytes → Progress ⊎ DecodeError
  unfolding take_line drop_cr
  take_lines p [] = inl p
  take_lines p (line ∷ lines) =
      if leb max_line_bytes (length line)
      then inr read_failed
      else elim (take_line p (drop_cr line)) [ inr e ↦ inr e | inl p' ↦ take_lines p' lines ]

  -- The lines of an encoded manifest.
  unfoldable pub entry_lines : List Entry → Bytes → Bytes
  entry_lines [] behind = behind
  entry_lines (e ∷ es) behind = codec.marshal_entry e ++ (newline ∷ entry_lines es behind)

  unfoldable pub manifest_text : Manifest → Bytes
  unfolding entry_lines
  manifest_text m =
      codec.marshal_header m.header
      ++ (newline ∷ entry_lines m.entries (codec.marshal_footer m.footer ++ newline ∷ []))

  module _ (to_lower : Bytes → Bytes) where
    -- The end of Decode.
    unfoldable pub accept_read : Progress → Manifest ⊎ DecodeError
    accept_read p = elim p.header [
      | none ↦ inr empty_manifest
      | some h ↦ elim p.footer [
        | none ↦ inr missing_footer
        | some f ↦
            let m : Manifest = record { header = h; entries = p.entries; footer = f } in
            elim (validate_manifest to_lower m) [ some e ↦ inr (invalid_manifest e) | none ↦ inl m ]
      ]
    ]

    -- Decode
    unfoldable pub decode_manifest : Source → Manifest ⊎ DecodeError
    unfolding take_lines raw_lines accept_read
    decode_manifest src = elim (take_lines nothing_read (raw_lines [] src.content)) [
      | inr e ↦ inr e
      | inl p ↦ if src.broken then inr read_failed else accept_read p
    ]

    -- Encode, into a writer that takes every byte.
    unfoldable pub encode_manifest : Builder → Bytes ⊎ ManifestError
    unfolding built manifest_text
    encode_manifest b = elim (validate_manifest to_lower (built b)) [
      | some e ↦ inr e
      | none ↦ inl (manifest_text (built b))
    ]
