-- ===== src/Format/Navigation.antt =====
-- crates/binbook-core/src/navigation.rs, with `NavIndexRecord` and `ChapterIndexRecord` of
-- index_encode.rs: the entries of the table of contents.
use binbook.Prelude.{
  ℕ, ◌<◌, ◌≡◌, ◌⊎◌, not, ◌&&◌, ◌||◌, List, arith, length, ltb, ◌==◌, Result, ok, ◌>>=◌,
}
use binbook.Format.Wire.{put_u16, put_u32, EncodeError, write_record}
use binbook.Format.Strings.{StringRef, parse_ref, validate_ref, put_string_ref}
use binbook.Format.Types.{
  FormatError, invalid_navigation, invalid_chapter, read_u16, read_u32, guard,
}

abbrev nav_record_size : ℕ
nav_record_size = 48

abbrev chapter_record_size : ℕ
chapter_record_size = 32

record NavEntry : Type 0 where
  pub number : ℕ
  pub nav_type : ℕ
  pub level : ℕ
  pub title : StringRef
  pub source_href : StringRef
  pub page : ℕ

pub record ChapterEntry : Type 0 where
  pub number : ℕ
  pub nav : ℕ
  pub title : StringRef
  pub page : ℕ
  pub level : ℕ
  pub nav_type : ℕ

parse_nav : List ℕ → ℕ → ℕ → ℕ → Result FormatError NavEntry
parse_nav bytes expected page_count string_length = do
  _ ← guard (not (ltb (length bytes) nav_record_size)) invalid_navigation
  number ← read_u32 bytes 0
  _ ← guard (number == expected) invalid_navigation
  target ← read_u32 bytes 28
  _ ← guard (ltb target page_count) invalid_navigation
  heading ← parse_ref bytes 8
  href ← parse_ref bytes 16
  _ ← validate_ref heading string_length
  _ ← validate_ref href string_length
  kind ← read_u16 bytes 4
  depth ← read_u16 bytes 6
  ok (record {
    number = expected;
    nav_type = kind;
    level = depth;
    title = heading;
    source_href = href;
    page = target;
  })

unfoldable pub parse_chapter : List ℕ → ℕ → ℕ → ℕ → ℕ → Result FormatError ChapterEntry
parse_chapter bytes expected nav_count page_count string_length = do
  _ ← guard (not (ltb (length bytes) chapter_record_size)) invalid_chapter
  number ← read_u32 bytes 0
  _ ← guard (number == expected) invalid_chapter
  entry ← read_u32 bytes 4
  target ← read_u32 bytes 16
  kind ← read_u16 bytes 22
  _ ←
      guard (ltb entry nav_count && ltb target page_count && (kind == 3 || kind == 4))
        invalid_chapter
  heading ← parse_ref bytes 8
  _ ← validate_ref heading string_length
  depth ← read_u16 bytes 20
  ok (record {
    number = expected;
    nav = entry;
    title = heading;
    page = target;
    level = depth;
    nav_type = kind;
  })

record NavRecord : Type 0 where
  pub nav_index : ℕ
  pub nav_type : ℕ
  pub level : ℕ
  pub title : StringRef
  pub source_href : StringRef
  pub source_spine_index : ℕ
  pub target_page_number : ℕ
  pub parent_nav_index : ℕ
  pub first_child_nav_index : ℕ
  pub next_sibling_nav_index : ℕ
  pub nav_flags : ℕ

encode_nav : NavRecord → List ℕ → Result EncodeError (List ℕ)
encode_nav r = write_record nav_record_size (λ r0.
    let r1 = put_u32 0 r.nav_index r0 in
    let r2 = put_u16 4 r.nav_type r1 in
    let r3 = put_u16 6 r.level r2 in
    let r4 = put_string_ref 8 r.title r3 in
    let r5 = put_string_ref 16 r.source_href r4 in
    let r6 = put_u32 24 r.source_spine_index r5 in
    let r7 = put_u32 28 r.target_page_number r6 in
    let r8 = put_u32 32 r.parent_nav_index r7 in
    let r9 = put_u32 36 r.first_child_nav_index r8 in
    let r10 = put_u32 40 r.next_sibling_nav_index r9 in put_u32 44 r.nav_flags r10)

record ChapterRecord : Type 0 where
  pub chapter_index : ℕ
  pub nav_index : ℕ
  pub title : StringRef
  pub target_page_number : ℕ
  pub level : ℕ
  pub nav_type : ℕ
  pub source_spine_index : ℕ
  pub chapter_flags : ℕ

encode_chapter : ChapterRecord → List ℕ → Result EncodeError (List ℕ)
encode_chapter r = write_record chapter_record_size (λ r0.
    let r1 = put_u32 0 r.chapter_index r0 in
    let r2 = put_u32 4 r.nav_index r1 in
    let r3 = put_string_ref 8 r.title r2 in
    let r4 = put_u32 16 r.target_page_number r3 in
    let r5 = put_u16 20 r.level r4 in
    let r6 = put_u16 22 r.nav_type r5 in
    let r7 = put_u32 24 r.source_spine_index r6 in put_u32 28 r.chapter_flags r7)

-- A chapter that `parse_chapter` accepts has the number asked for, points to a navigation entry and
-- a page of the book, and is of one of the two kinds of chapters.
pub parse_chapter_bounds :
    (bytes : List ℕ) (expected nav_count page_count string_length : ℕ) {c : ChapterEntry}
    → parse_chapter bytes expected nav_count page_count string_length ≡ ok c
    → (c.number ≡ expected)
      × (c.nav < nav_count)
      × (c.page < page_count)
      × ((c.nav_type ≡ 3) ⊎ (c.nav_type ≡ 4))
unfolding parse_chapter
parse_chapter_bounds bytes expected nav_count page_count string_length h = ground arith
