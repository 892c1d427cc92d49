-- ===== src/Examples/Files.antt =====
-- Part files, trailers, headers and part numbers.
use restore_safe.Base.{
  Bytes, Mem, [], arith, codes, length, none, refl, some, text_eq, ℕ, ◌++◌, ◌<◌, ◌↔◌, ◌∷◌, ◌≡◌, ◌≢◌,
  ◌⊎◌,
}
use restore_safe.Io.{whole}
use restore_safe.Container.Split.{close, new_writer, part_path, write}
use restore_safe.Container.Split.Invariant.{Appends, AreDistinct, IsWriting}
use restore_safe.Container.Split.Loop.{write-Appends}
use restore_safe.Container.Split.Count.{Parted, write_all, write_all-close}
use restore_safe.Container.Trailer.{Trailer, check, decode, encode, trailer, trailer_len}
use restore_safe.Container.Trailer.Check.{IsWord, Layout, check_iff-Layout}
use restore_safe.Container.Trailer.Codec.{decode-encode}
use restore_safe.Container.Header.{
  Header, HeaderCodec, decoded, encode_header, encoded, header_prefix, no_json, read_header,
  validate_header,
}
use restore_safe.Container.Header.RoundTrip.{read_header-encode_header}
use restore_safe.Catalog.{missing_from}
use restore_safe.Catalog.Continuity.{last_number, missing_from_iff}
use restore_safe.Examples.Platforms.{
  first_bytes, good_disk, length-first_bytes, plain_platform, zeros32,
}
use restore_safe.Examples.Crypto.{keys1}

abbrev name_func : ℕ → Bytes
name_func seq = seq ∷ []

abbrev file_path : ℕ → Bytes
file_path = part_path good_disk name_func

distinct : AreDistinct file_path
distinct i j e = cc e

written :
    (write_all good_disk name_func (new_writer 2) ((1 ∷ 2 ∷ 3 ∷ []) ∷ (4 ∷ 5 ∷ []) ∷ [])).1 ≡ none
unfolding write_all write new_writer
written = refl

write_all-close_example :
    let w =
      (close good_disk name_func
        (write_all good_disk name_func
          (new_writer 2)
          ((1 ∷ 2 ∷ 3 ∷ []) ∷ (4 ∷ 5 ∷ []) ∷ [])).0).0 in
    Parted 2 (1 ∷ 2 ∷ 3 ∷ 4 ∷ 5 ∷ []) w.closed w.paths
write_all-close_example =
    write_all-close good_disk name_func distinct 2 ((1 ∷ 2 ∷ 3 ∷ []) ∷ (4 ∷ 5 ∷ []) ∷ [])
      (omega arith) (omega arith) written

new-IsWriting : IsWriting file_path (new_writer 2)
unfolding new_writer
new-IsWriting = record {
  size_positive = omega arith;
  closed_full = tt;
  current_fits = tt;
  listed = refl;
  named = tt;
}

write-Appends_example :
    let r = write good_disk name_func (new_writer 2) (1 ∷ 2 ∷ 3 ∷ []) in
    Appends file_path (new_writer 2) (1 ∷ 2 ∷ 3 ∷ []) r.0 r.1
    × (((r.2 ≡ none) × (r.1 ≡ 3))
        ⊎ ((e : restore_safe.Container.Split.WriteError) × (r.2 ≡ some e)
            × (e ≢ restore_safe.Container.Split.out_of_fuel)))
write-Appends_example =
    write-Appends good_disk name_func distinct (new_writer 2) (1 ∷ 2 ∷ 3 ∷ []) new-IsWriting

abbrev trailer1 : Trailer
trailer1 = record {
  data_offset = 100;
  data_length = 21;
  manifest_offset = 121;
  manifest_length = 25;
  part_count = 1;
}

trailer1-IsWord : IsWord trailer1
trailer1-IsWord = record {
  data_offset_fits = omega arith;
  data_length_fits = omega arith;
  manifest_offset_fits = omega arith;
  manifest_length_fits = omega arith;
}

check_iff-Layout_example :
    (check trailer1 100 210 1 ≡ none) ↔ (Layout trailer1 100 210 × (trailer1.part_count ≡ 1))
check_iff-Layout_example =
    check_iff-Layout trailer1 100 210 1 trailer1-IsWord (omega arith) (omega arith)

decode-encode_example :
    (length (encode first_bytes trailer1) ≡ trailer_len)
    × (decode first_bytes (encode first_bytes trailer1) ≡ trailer trailer1)
decode-encode_example =
    decode-encode first_bytes length-first_bytes trailer1 trailer1-IsWord (omega arith)

abbrev pub header1 : Header
header1 = record {
  set_type = codes "full";
  chain_id = codes "ABC123";
  diff_number = 0;
  run_id = codes "ABC123";
  set_nonce = zeros32;
  directory_name = codes "docs";
  date = codes "2026-01-01";
  created_utc = codes "2026-01-01T00:00:00Z";
  app_version = codes "2.0.0";
  base_date = [];
  base_manifest_sha256 = [];
  chunk_len = 8388608;
  compression = codes "none";
  key_set = keys1;
}

-- A codec that knows this one header, as the text `{}`.
abbrev pub one_header : HeaderCodec
one_header = record {
  marshal = λ h. codes "{}";
  unmarshal = λ b. elim b [ [] ↦ no_json | c ∷ cs ↦ decoded header1 ];
  unmarshal-nil = refl;
}

pub encode-header1 :
    encode_header plain_platform one_header header1 ≡ encoded (header_prefix 2 ++ codes "{}")
unfolding encode_header validate_header restore_safe.Base.text_eq
    restore_safe.Naming.Validate.validate_backup_entry_name
    restore_safe.Container.KeySet.Validate.validate restore_safe.Text.all_bytes
    restore_safe.Container.KeySet.regular_slot_type restore_safe.Cryptox.Key.validate_argon2_params
    restore_safe.Container.KeySet.slot_aad
encode-header1 = refl

read_header-encode_header_example :
    read_header plain_platform one_header (whole ((header_prefix 2 ++ codes "{}") ++ (1 ∷ 2 ∷ [])))
    ≡ restore_safe.Container.Header.ok header1 (header_prefix 2 ++ codes "{}") (whole (1 ∷ 2 ∷ []))
read_header-encode_header_example =
    read_header-encode_header plain_platform one_header header1 (header_prefix 2 ++ codes "{}")
      (1 ∷ 2 ∷ []) refl encode-header1

rising : restore_safe.Catalog.Continuity.AreRisingFrom 1 (1 ∷ 3 ∷ [])
unfolding restore_safe.Catalog.Continuity.AreRisingFrom
rising = (omega arith, (omega arith, tt))

missing_from_iff_example :
    Mem {A = ℕ} 2 (missing_from 1 (1 ∷ 3 ∷ []))
    ↔ ((0 < 2) × (2 < last_number 0 (1 ∷ 3 ∷ [])) × ¬ (Mem {A = ℕ} 2 (1 ∷ 3 ∷ [])))
missing_from_iff_example = missing_from_iff (1 ∷ 3 ∷ []) 2 rising
