-- ===== src/Storage/Scan.antt =====
-- The records in which a scan of the card is handed over, `encode_scan_records` and
-- `decode_scan_records` of storage_owner.rs. The test of UTF-8 is the core library's, a parameter.
pub mod RoundTrip
mod Tokens
mod Tests
use binbook.Prelude.{
  ℕ, zero, suc, ◌+◌, ◌-◌, ◌*◌, ◌%◌, ◌^◌, ◌||◌, Bool, not, ltb, ◌==◌, if◌then◌else◌, Option, none,
  some, List, [], ◌∷◌, ◌++◌, length, take, drop, replicate, get_or, Result, ok, err, ◌>>=◌,
}
use binbook.Format.Wire.{to_le_bytes, from_le_bytes}
use binbook.Storage.Types.{
  StorageName, new_storage_name, RequestError, too_large, name_too_long, new_mount_token,
  scan_entry_budget, scan_record_bytes, scan_batch_bytes, max_binbook_name_bytes,
}

pub record ScanRecord : Type 0 where
  pub name : StorageName
  pub size : ℕ
  pub mount_token : Option ℕ

-- `map_or(0, MountFileToken::get)`
abbrev pub token_value : Option ℕ → ℕ
token_value none = 0
token_value (some token) = token

-- The size and the token.
unfoldable pub fields : ScanRecord → List ℕ
fields r = to_le_bytes 8 r.size ++ to_le_bytes 2 (token_value r.mount_token)

-- The bytes of one record: `name.len() as u8`, and the name, which is written over zeros.
unfoldable pub record_bytes : ScanRecord → List ℕ
unfolding fields
record_bytes r =
    length r.name % 2 ^ 8
    ∷ (r.name ++ (replicate (max_binbook_name_bytes - length r.name) 0 ++ fields r))

-- The loop over the records, and the zeros behind them: `left` records more would fit.
unfoldable pub records_bytes : List ScanRecord → (left : ℕ) → List ℕ
unfolding record_bytes
records_bytes [] left = replicate (left * scan_record_bytes) 0
records_bytes (r ∷ rs) left = record_bytes r ++ records_bytes rs (left - 1)

unfoldable pub encode_scan_records : List ScanRecord → List ℕ → Result RequestError (List ℕ)
encode_scan_records records out =
    if ltb scan_entry_budget (length records) || ltb (length out) scan_batch_bytes
    then err too_large
    else ok (records_bytes records scan_entry_budget ++ drop scan_batch_bytes out)

module _ (is_utf8 : List ℕ → Bool) where
  -- What `decode_scan_record` makes of the bytes from the start of the record on.
  unfoldable pub read_record : List ℕ → Result RequestError ScanRecord
  unfolding new_storage_name new_mount_token
  read_record bytes =
      let name_len = get_or bytes 0 0 in
      let name = take name_len (drop 1 bytes) in
      let rest = drop (1 + max_binbook_name_bytes) bytes in
      if name_len == 0 || ltb max_binbook_name_bytes name_len
      then err name_too_long
      else if not (is_utf8 name)
      then err name_too_long
      else elim (new_storage_name name) [
        | err e ↦ err e
        | ok stored ↦ ok (record {
          name = stored;
          size = from_le_bytes (take 8 rest);
          mount_token = new_mount_token (from_le_bytes (take 2 (drop 8 rest)));
        })
      ]

  unfoldable pub decode_scan_record : ℕ → List ℕ → Result RequestError ScanRecord
  decode_scan_record index bytes =
      if not (ltb index scan_entry_budget) || ltb (length bytes) scan_batch_bytes
      then err too_large
      else read_record (drop (index * scan_record_bytes) bytes)

  -- The loop over the records that are left; the vector has room for all of them.
  unfoldable pub decode_from : (index left : ℕ) → List ℕ → Result RequestError (List ScanRecord)
  decode_from index zero bytes = ok []
  decode_from index (suc left) bytes = do
    r ← decode_scan_record index bytes
    rs ← decode_from (index + 1) left bytes
    ok (r ∷ rs)

  unfoldable pub decode_scan_records : ℕ → List ℕ → Result RequestError (List ScanRecord)
  decode_scan_records count bytes =
      if ltb scan_entry_budget count || ltb (length bytes) scan_batch_bytes
      then err too_large
      else decode_from 0 count bytes
