-- ===== src/Format/Strings.antt =====
-- crates/binbook-core/src/strings.rs: a reference to a string in the string table.
use binbook.Prelude.{ℕ, ◌+◌, List, ◌||◌, leb, ◌==◌, Result, ok, ◌>>=◌}
use binbook.Format.Wire.{put_u32}
use binbook.Format.Types.{FormatError, invalid_string_ref, read_u32, guard}

pub record StringRef : Type 0 where
  pub offset : ℕ
  pub length : ℕ

-- `StringRef::parse`
unfoldable pub parse_ref : List ℕ → ℕ → Result FormatError StringRef
parse_ref bytes at = do
  start ← read_u32 bytes at
  len ← read_u32 bytes (at + 4)
  ok (record { offset = start; length = len })

-- `StringRef::validate`. The `checked_add` of two `u32` values as `u64` cannot fail.
unfoldable pub validate_ref : StringRef → ℕ → Result FormatError (Unit {0})
validate_ref s table_length =
    guard (s.length == 0 || leb (s.offset + s.length) table_length) invalid_string_ref

-- `put_string_ref` of index_encode.rs
abbrev pub put_string_ref : ℕ → StringRef → List ℕ → List ℕ
put_string_ref at s output = put_u32 (at + 4) s.length (put_u32 at s.offset output)
