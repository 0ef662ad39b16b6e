-- ===== src/Format/Transition.antt =====
-- crates/binbook-core/src/transition.rs, with `PageTransitionIndexRecord` of index_encode.rs: which
-- chunks change between two pages.
use binbook.Prelude.{
  ℕ, ◌<◌, ◌≡◌, not, ◌&&◌, ◌||◌, List, arith, length, ltb, ◌==◌, Result, ok, ◌>>=◌,
}
use binbook.Format.Wire.{put_u16, put_u32, EncodeError, write_record}
use binbook.Format.Types.{FormatError, invalid_transition, read_u16, read_u32, guard}

abbrev pub record_size : ℕ
record_size = 24

pub record PageTransition : Type 0 where
  pub from : ℕ
  pub to : ℕ
  pub changed_chunk_mask : ℕ
  pub first_changed_chunk : ℕ
  pub changed_chunk_count : ℕ
  pub flags : ℕ

-- A disjunction that reads is a `guard` for each part.
unfoldable pub parse : List ℕ → ℕ → Result FormatError PageTransition
parse bytes page_count = do
  _ ← guard (not (ltb (length bytes) record_size)) invalid_transition
  source ← read_u32 bytes 0
  target ← read_u32 bytes 4
  mask ← read_u32 bytes 8
  first ← read_u16 bytes 12
  count ← read_u16 bytes 14
  flags ← read_u16 bytes 16
  _ ← guard (ltb source page_count && ltb target page_count && flags == 0) invalid_transition
  reserved ← read_u16 bytes 18
  _ ← guard (reserved == 0) invalid_transition
  reserved_end ← read_u32 bytes 20
  _ ← guard (reserved_end == 0) invalid_transition
  _ ← guard (not (mask == 0 && (not (first == 0) || not (count == 0)))) invalid_transition
  ok (record {
    from = source;
    to = target;
    changed_chunk_mask = mask;
    first_changed_chunk = first;
    changed_chunk_count = count;
    flags = flags;
  })

pub record TransitionRecord : Type 0 where
  pub from_page_number : ℕ
  pub to_page_number : ℕ
  pub changed_chunk_mask : ℕ
  pub first_changed_chunk : ℕ
  pub changed_chunk_count : ℕ
  pub flags : ℕ

pub encode_into : TransitionRecord → List ℕ → Result EncodeError (List ℕ)
encode_into r = write_record record_size (λ r0.
    let r1 = put_u32 0 r.from_page_number r0 in
    let r2 = put_u32 4 r.to_page_number r1 in
    let r3 = put_u32 8 r.changed_chunk_mask r2 in
    let r4 = put_u16 12 r.first_changed_chunk r3 in
    let r5 = put_u16 14 r.changed_chunk_count r4 in put_u16 16 r.flags r5)

-- Both pages of a transition that `parse` accepts are pages of the book, and a transition that
-- changes no chunk names none.
pub parse_pages :
    (bytes : List ℕ) (page_count : ℕ) {t : PageTransition}
    → parse bytes page_count ≡ ok t
    → (t.from < page_count)
      × (t.to < page_count)
      × (t.changed_chunk_mask ≡ 0 → (t.first_changed_chunk ≡ 0) × (t.changed_chunk_count ≡ 0))
unfolding parse
parse_pages bytes page_count h = ground arith
