-- ===== src/Format/Page.antt =====
-- crates/binbook-core/src/page.rs, with `PageIndexRecord` of index_encode.rs: the description of a
-- page and where its planes lie in the page data.
use binbook.Prelude.{
  ℕ, zero, suc, ◌+◌, ◌*◌, ◌≤◌, ◌<◌, ◌≡◌, not, ◌||◌, List, [], ◌∷◌, Option, none, some, arith,
  length, get_or, ltb, ◌==◌, if◌then◌else◌, Result, ok, ◌>>=◌, All, Result-cases, inl, inr,
}
use Prim.Native.Nat.{bit_and, bit_or}
use binbook.Format.Wire.{put, put_u16, put_u32, EncodeError, write_record}
use binbook.Format.Types.{
  FormatError, invalid_page, PlaneSlot, plane_slot, slot_index, CompressionMethod,
  compression_method, PixelFormat, pixel_format, read_u16, read_u32, guard,
}

abbrev pub record_size : ℕ
record_size = 128

pub record PlaneDescriptor : Type 0 where
  pub slot : PlaneSlot
  pub compression : CompressionMethod
  pub offset : ℕ
  pub length : ℕ

pub record PlaneDirectory : Type 0 where
  pub bitmap : ℕ
  pub slots : List (Option PlaneDescriptor)

-- The loop of `PlaneDirectory::new`, with `weight` for `1 << index`.
bitmap_of : List (Option PlaneDescriptor) → ℕ → ℕ → ℕ
bitmap_of [] weight bitmap = bitmap
bitmap_of (none ∷ slots) weight bitmap = bitmap_of slots (2 * weight) bitmap
bitmap_of (some d ∷ slots) weight bitmap = bitmap_of slots (2 * weight) (bit_or bitmap weight)

-- `PlaneDirectory::new`
new_directory : List (Option PlaneDescriptor) → PlaneDirectory
new_directory slots = record { bitmap = bitmap_of slots 1 0; slots = slots }

-- `PlaneDirectory::get`
get_plane : PlaneDirectory → PlaneSlot → Option PlaneDescriptor
get_plane d s = get_or d.slots (slot_index s) none

pub record PageInfo : Type 0 where
  pub page_number : ℕ
  pub page_kind : ℕ
  pub pixel_format : PixelFormat
  pub compression_method : CompressionMethod
  pub update_hint : ℕ
  pub page_flags : ℕ
  pub page_crc32 : ℕ
  pub stored_width : ℕ
  pub stored_height : ℕ
  pub placement_x : ℕ
  pub placement_y : ℕ
  pub progress_start_ppm : ℕ
  pub progress_end_ppm : ℕ
  pub planes : PlaneDirectory

-- The body of the loop over the slots, for a plane that the bitmap names. The `checked_add` of two
-- `u32` values as `u64` cannot fail.
unfoldable pub parse_plane :
    List ℕ → CompressionMethod → ℕ → ℕ → ℕ → Result FormatError PlaneDescriptor
parse_plane bytes default_compression page_flags page_data_length index = do
  slot ← plane_slot index
  offset ← read_u32 bytes (52 + index * 4)
  len ← read_u32 bytes (68 + index * 4)
  _ ← guard (not (len == 0 || ltb page_data_length (offset + len))) invalid_page
  compression ←
      (if bit_and page_flags 1 == 0
        then ok default_compression
        else compression_method (get_or bytes (45 + index) 0))
  ok (record { slot = slot; compression = compression; offset = offset; length = len })

-- The loop, with `weight` for `1 << raw_slot` and `count` slots to go.
unfoldable pub parse_planes :
    List ℕ
    → CompressionMethod
    → ℕ
    → ℕ
    → ℕ
    → (index weight count : ℕ) → Result FormatError (List (Option PlaneDescriptor))
parse_planes bytes c flags page_data_length bitmap index weight zero = ok []
parse_planes bytes c flags page_data_length bitmap index weight (suc count) = do
  first ←
      (if bit_and bitmap weight == 0
        then ok none
        else (do d ← parse_plane bytes c flags page_data_length index; ok (some d)))
  others ← parse_planes bytes c flags page_data_length bitmap (suc index) (2 * weight) count
  ok (first ∷ others)

-- `parse`. An index `bytes[i]` stands behind the test of the length, and `bitmap & !0x0f` is the
-- upper half of the byte.
unfoldable pub parse : List ℕ → ℕ → ℕ → Result FormatError PageInfo
parse bytes expected page_data_length = do
  _ ← guard (not (ltb (length bytes) record_size)) invalid_page
  number ← read_u32 bytes 0
  _ ← guard (number == expected) invalid_page
  raw_compression ← read_u16 bytes 8
  compression ← compression_method raw_compression
  flags ← read_u32 bytes 12
  let map = get_or bytes 44 0
  _ ← guard (bit_and map 0xf0 == 0) invalid_page
  slots ← parse_planes bytes compression flags page_data_length map 0 1 4
  start_ppm ← read_u32 bytes 36
  end_ppm ← read_u32 bytes 40
  _ ← guard (not (ltb end_ppm start_ppm || ltb 1000000 end_ppm)) invalid_page
  kind ← read_u16 bytes 4
  raw_format ← read_u16 bytes 6
  format ← pixel_format raw_format
  hint ← read_u16 bytes 10
  crc ← read_u32 bytes 16
  width ← read_u16 bytes 20
  height ← read_u16 bytes 22
  x ← read_u16 bytes 24
  y ← read_u16 bytes 26
  ok (record {
    page_number = expected;
    page_kind = kind;
    pixel_format = format;
    compression_method = compression;
    update_hint = hint;
    page_flags = flags;
    page_crc32 = crc;
    stored_width = width;
    stored_height = height;
    placement_x = x;
    placement_y = y;
    progress_start_ppm = start_ppm;
    progress_end_ppm = end_ppm;
    planes = record { bitmap = map; slots = slots };
  })

-- `PlaneDirectoryRecord`, whose arrays have four entries, and `PageIndexRecord`
pub record PlaneDirectoryRecord : Type 0 where
  pub bitmap : ℕ
  pub compression : List ℕ
  pub offsets : List ℕ
  pub sizes : List ℕ

pub record PageRecord : Type 0 where
  pub page_number : ℕ
  pub page_kind : ℕ
  pub pixel_format : ℕ
  pub compression_method : ℕ
  pub update_hint : ℕ
  pub page_flags : ℕ
  pub page_crc32 : ℕ
  pub stored_width : ℕ
  pub stored_height : ℕ
  pub placement_x : ℕ
  pub placement_y : ℕ
  pub source_spine_index : ℕ
  pub chapter_nav_index : ℕ
  pub progress_start_ppm : ℕ
  pub progress_end_ppm : ℕ
  pub plane_directory : PlaneDirectoryRecord

-- A loop of `put_u32` at every fourth byte.
put_words : ℕ → List ℕ → List ℕ → List ℕ
put_words offset [] output = output
put_words offset (w ∷ ws) output = put_words (offset + 4) ws (put_u32 offset w output)

pub encode_into : PageRecord → List ℕ → Result EncodeError (List ℕ)
encode_into r = write_record record_size (λ r0.
    let r1 = put_u32 0 r.page_number r0 in
    let r2 = put_u16 4 r.page_kind r1 in
    let r3 = put_u16 6 r.pixel_format r2 in
    let r4 = put_u16 8 r.compression_method r3 in
    let r5 = put_u16 10 r.update_hint r4 in
    let r6 = put_u16 20 r.stored_width r5 in
    let r7 = put_u16 22 r.stored_height r6 in
    let r8 = put_u16 24 r.placement_x r7 in
    let r9 = put_u16 26 r.placement_y r8 in
    let r10 = put_u32 12 r.page_flags r9 in
    let r11 = put_u32 16 r.page_crc32 r10 in
    let r12 = put_u32 28 r.source_spine_index r11 in
    let r13 = put_u32 32 r.chapter_nav_index r12 in
    let r14 = put_u32 36 r.progress_start_ppm r13 in
    let r15 = put_u32 40 r.progress_end_ppm r14 in
    let r16 = put 44 (r.plane_directory.bitmap ∷ []) r15 in
    let r17 = put 45 r.plane_directory.compression r16 in
    let r18 = put_words 52 r.plane_directory.offsets r17 in
    put_words 68 r.plane_directory.sizes r18)

-- A plane that `parse_plane` accepts is not empty and lies in the page data.
parse_plane_bounds :
    (bytes : List ℕ) (c : CompressionMethod) (flags page_data_length index : ℕ)
    {d : PlaneDescriptor}
    → parse_plane bytes c flags page_data_length index ≡ ok d
    → (0 < d.length) × (d.offset + d.length ≤ page_data_length)
unfolding parse_plane
parse_plane_bounds bytes c flags page_data_length index h = ground arith

-- What a slot of the directory of a page holds.
pub Inside : ℕ → Option PlaneDescriptor → Type 0
Inside page_data_length none = Unit {0}
Inside page_data_length (some d) = (0 < d.length) × (d.offset + d.length ≤ page_data_length)

parse_planes_bounds :
    (bytes : List ℕ) (c : CompressionMethod) (flags page_data_length bitmap index weight count : ℕ)
    {slots : List (Option PlaneDescriptor)}
    → parse_planes bytes c flags page_data_length bitmap index weight count ≡ ok slots
    → All (Inside page_data_length) slots × (length slots ≡ count)
unfolding parse_planes Inside
parse_planes_bounds bytes c flags page_data_length bitmap index weight zero h = ground arith
parse_planes_bounds bytes c flags page_data_length bitmap index weight (suc count) h =
    elim (Result-cases
      (parse_planes bytes c flags page_data_length bitmap (suc index) (2 * weight) count)) [
        | inr (x, bad) ↦ ground arith
        | inl (others, rest) ↦
            let ih =
              parse_planes_bounds bytes c flags page_data_length bitmap (suc index) (2 * weight)
                count rest in
            elim (Result-cases (parse_plane bytes c flags page_data_length index)) [
              | inr (x, bad) ↦ ground (arith, ih)
              | inl (d, good) ↦
                  ground (arith, ih, parse_plane_bounds bytes c flags page_data_length index good)
            ]
      ]

-- A page that `parse` accepts has the number asked for, a progress that does not run backwards or
-- past a million, and four slots, each of which is empty or holds a plane that is not empty and lies
-- in the page data.
pub parse_page_bounds :
    (bytes : List ℕ) (expected page_data_length : ℕ) {info : PageInfo}
    → parse bytes expected page_data_length ≡ ok info
    → (info.page_number ≡ expected)
      × (info.progress_start_ppm ≤ info.progress_end_ppm)
      × (info.progress_end_ppm ≤ 1000000)
      × (length info.planes.slots ≡ 4)
      × All (Inside page_data_length) info.planes.slots
unfolding parse
parse_page_bounds bytes expected page_data_length {info} h =
    elim (Result-cases (read_u16 bytes 8)) [
      | inr (x, bad) ↦ ground arith
      | inl (raw, good) ↦ elim (Result-cases (compression_method raw)) [
        | inr (x, bad) ↦ ground arith
        | inl (c, method) ↦ elim (Result-cases (read_u32 bytes 12)) [
          | inr (x, bad) ↦ ground arith
          | inl (flags, word) ↦
              elim (Result-cases
                (parse_planes bytes c flags page_data_length (get_or bytes 44 0) 0 1 4)) [
                  | inr (x, bad) ↦ ground arith
                  | inl (slots, planes) ↦
                      let inside =
                        parse_planes_bounds bytes c flags page_data_length (get_or bytes 44 0) 0 1 4
                          planes in
                      ground (arith, inside)
                ]
        ]
      ]
    ]
