-- ===== src/Format/Types.antt =====
-- crates/binbook-core/src/error.rs and types.rs: the errors of the format and its enums, with the
-- readers of header.rs that answer with such an error. The newtypes of types.rs around integers
-- (`PageNumber`, `ByteLength`, `FileOffset` and their kin) are the numbers that they hold.
use binbook.Prelude.{ℕ, List, none, some, ◌==◌, if◌then◌else◌, Result, ok, err, Bool, true, false}
use binbook.Format.Wire.{get_range, from_le_bytes}

pub data FormatError : Type 0 where
  invalid_magic unsupported_version invalid_header file_out_of_bounds : FormatError
  missing_section duplicate_section : ℕ → FormatError
  invalid_section invalid_page invalid_navigation invalid_chapter invalid_chunk : FormatError
  invalid_transition invalid_font_resource invalid_display_profile : FormatError
  invalid_book_metadata invalid_string_ref page_out_of_range nav_out_of_range : FormatError
  chapter_out_of_range chunk_out_of_range transition_out_of_range : FormatError
  plane_slot_out_of_range : FormatError
  unsupported_pixel_format unsupported_compression unsupported_waveform_hint : ℕ → FormatError

pub data PlaneSlot : Type 0 where
  overlay_msb overlay_lsb fast_base reserved : PlaneSlot

-- `PlaneSlot::try_from`
unfoldable pub plane_slot : ℕ → Result FormatError PlaneSlot
plane_slot v =
    if v == 0
    then ok overlay_msb
    else if v == 1
    then ok overlay_lsb
    else if v == 2
    then ok fast_base
    else if v == 3
    then ok reserved
    else err plane_slot_out_of_range

-- `PlaneSlot::index`
abbrev pub slot_index : PlaneSlot → ℕ
slot_index overlay_msb = 0
slot_index overlay_lsb = 1
slot_index fast_base = 2
slot_index reserved = 3

pub data CompressionMethod : Type 0 where
  uncompressed rle_pack_bits lz4 : CompressionMethod

-- `CompressionMethod::try_from`, of `u16` and of `u8` values
unfoldable pub compression_method : ℕ → Result FormatError CompressionMethod
compression_method v =
    if v == 0
    then ok uncompressed
    else if v == 1
    then ok rle_pack_bits
    else if v == 2
    then ok lz4
    else err (unsupported_compression v)

pub data PixelFormat : Type 0 where
  gray1_packed gray2_packed gray4_packed rgb565 rgb888 rgba8888 : PixelFormat

-- `PixelFormat::try_from`
unfoldable pub pixel_format : ℕ → Result FormatError PixelFormat
pixel_format v =
    if v == 1
    then ok gray1_packed
    else if v == 2
    then ok gray2_packed
    else if v == 4
    then ok gray4_packed
    else if v == 8
    then ok rgb565
    else if v == 16
    then ok rgb888
    else if v == 32
    then ok rgba8888
    else err (unsupported_pixel_format v)

-- `read_u16`, `read_u32` and `read_u64`: the `n` bytes at the offset.
unfoldable pub read_le : ℕ → List ℕ → ℕ → Result FormatError ℕ
read_le n bytes offset = elim (get_range bytes offset n) [
  | none ↦ err invalid_header
  | some raw ↦ ok (from_le_bytes raw)
]

abbrev pub read_u16 : List ℕ → ℕ → Result FormatError ℕ
read_u16 = read_le 2

abbrev pub read_u32 : List ℕ → ℕ → Result FormatError ℕ
read_u32 = read_le 4

abbrev pub read_u64 : List ℕ → ℕ → Result FormatError ℕ
read_u64 = read_le 8

abbrev pub guard : Bool → FormatError → Result FormatError (Unit {0})
guard true e = ok tt
guard false e = err e
