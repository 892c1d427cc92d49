-- ===== src/Container/Trailer/Check.antt =====
-- trailer.go: check.
use restore_safe.Base.{arith, none, ℕ, ◌+◌, ◌<◌, ◌^◌, ◌↔◌, ◌≡◌, ◌≤◌}
use restore_safe.Container.Trailer.Defs.{Trailer, check, min_section_len, trailer_len}

-- Every field is an int64 bit pattern.
pub record IsWord (t : Trailer) : Type 0 where
  pub data_offset_fits : t.data_offset < 2 ^ 64
  pub data_length_fits : t.data_length < 2 ^ 64
  pub manifest_offset_fits : t.manifest_offset < 2 ^ 64
  pub manifest_length_fits : t.manifest_length < 2 ^ 64

-- The sections lie one behind the other between the header and the trailer, with no gap.
pub record Layout (t : Trailer) (header_len total_size : ℕ) : Type 0 where
  pub data_starts : t.data_offset ≡ header_len
  pub data_long : min_section_len ≤ t.data_length
  pub manifest_starts : t.manifest_offset ≡ header_len + t.data_length
  pub manifest_long : min_section_len ≤ t.manifest_length
  pub ends : t.manifest_offset + t.manifest_length + trailer_len ≡ total_size

-- The check is the layout, with no wrap-around: whatever int64 patterns a trailer holds, for a set of
-- less than 2 ^ 63 bytes with room for header and trailer, it is accepted exactly if the sections
-- follow each other from the header's end to the trailer's start, and the parts are as many as
-- recorded.
pub check_iff-Layout :
    (t : Trailer) (header_len total_size parts_present : ℕ)
    → IsWord t
    → header_len + trailer_len ≤ total_size
    → total_size < 2 ^ 63
    → (check t header_len total_size parts_present ≡ none)
      ↔ (Layout t header_len total_size × (t.part_count ≡ parts_present))
unfolding check
check_iff-Layout t h total parts w fits small = (λ e. ground arith, λ l. ground arith)
