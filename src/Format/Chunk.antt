-- ===== src/Format/Chunk.antt =====
-- crates/binbook-core/src/chunk.rs, with `PageChunkIndexRecord` of index_encode.rs: a chunk of a
-- page's plane, read from the chunk index and written to it.
use binbook.Prelude.{
  ℕ, ◌+◌, ◌≤◌, ◌<◌, ◌≡◌, not, ◌||◌, List, [], ◌∷◌, arith, length, get_or, ltb, ◌==◌, Result, ok,
  ◌>>=◌,
}
use binbook.Format.Wire.{put, put_u16, put_u32, EncodeError, write_record}
use binbook.Format.Types.{
  FormatError, invalid_chunk, PlaneSlot, plane_slot, read_u16, read_u32, guard,
}

abbrev pub record_size : ℕ
record_size = 24

-- `PageChunk`
pub record PageChunk : Type 0 where
  pub page_number : ℕ
  pub plane : PlaneSlot
  pub chunk_index : ℕ
  pub row_start : ℕ
  pub row_count : ℕ
  pub offset : ℕ
  pub compressed_length : ℕ
  pub uncompressed_length : ℕ

-- `parse`. An index `bytes[i]` stands behind the test of the length. `checked_add` of two `u32`
-- values as `u64` cannot fail.
unfoldable pub parse : List ℕ → ℕ → ℕ → Result FormatError PageChunk
parse bytes page_count page_data_length = do
  _ ← guard (not (ltb (length bytes) record_size)) invalid_chunk
  page ← read_u32 bytes 0
  _ ← guard (ltb page page_count) invalid_chunk
  let raw_chunk = get_or bytes 5 0
  _ ← guard (ltb raw_chunk 32) invalid_chunk
  offset ← read_u32 bytes 12
  compressed ← read_u32 bytes 16
  let end = offset + compressed
  _ ← guard (not (compressed == 0 || ltb page_data_length end)) invalid_chunk
  reserved ← read_u16 bytes 10
  _ ← guard (reserved == 0) invalid_chunk
  plane ← plane_slot (get_or bytes 4 0)
  row_start ← read_u16 bytes 6
  row_count ← read_u16 bytes 8
  uncompressed ← read_u32 bytes 20
  ok (record {
    page_number = page;
    plane = plane;
    chunk_index = raw_chunk;
    row_start = row_start;
    row_count = row_count;
    offset = offset;
    compressed_length = compressed;
    uncompressed_length = uncompressed;
  })

-- `PageChunkIndexRecord`
pub record ChunkRecord : Type 0 where
  pub page_number : ℕ
  pub raw_slot : ℕ
  pub chunk_index : ℕ
  pub row_start : ℕ
  pub row_count : ℕ
  pub page_data_offset : ℕ
  pub compressed_size : ℕ
  pub uncompressed_size : ℕ

pub encode_into : ChunkRecord → List ℕ → Result EncodeError (List ℕ)
encode_into r = write_record record_size (λ r0.
    let r1 = put_u32 0 r.page_number r0 in
    let r2 = put 4 (r.raw_slot ∷ []) r1 in
    let r3 = put 5 (r.chunk_index ∷ []) r2 in
    let r4 = put_u16 6 r.row_start r3 in
    let r5 = put_u16 8 r.row_count r4 in
    let r6 = put_u32 12 r.page_data_offset r5 in
    let r7 = put_u32 16 r.compressed_size r6 in put_u32 20 r.uncompressed_size r7)

-- Every chunk that `parse` accepts lies in the page data and is not empty, belongs to a page of the
-- book, and has an index below 32.
pub parse_chunk_bounds :
    (bytes : List ℕ) (page_count page_data_length : ℕ) {c : PageChunk}
    → parse bytes page_count page_data_length ≡ ok c
    → (c.page_number < page_count)
      × (c.chunk_index < 32)
      × (0 < c.compressed_length)
      × (c.offset + c.compressed_length ≤ page_data_length)
unfolding parse
parse_chunk_bounds bytes page_count page_data_length h = ground arith
