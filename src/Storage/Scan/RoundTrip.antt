-- ===== src/Storage/Scan/RoundTrip.antt =====
-- The records of a scan of storage_owner.rs, written and read back.
use binbook.Prelude.{
  ℕ, ◌+◌, ◌-◌, ◌*◌, ◌%◌, ◌^◌, ◌≤◌, ◌<◌, ◌≡◌, refl, sym, ap, ◌∙◌, Bool, true, false, ◌||◌, ltb, leb,
  ◌==◌, List, [], ◌∷◌, ◌++◌, length, length-append, length-replicate, take, drop, replicate, All,
  ok, arith, le→ltb_false, lt→ltb,
}
use mathlib.Core.List.{append_assoc}
use binbook.Format.Wire.{from_le_bytes}
use binbook.Reader.State.Wire.Fields.{u16_bytes, u64_bytes, take_exact, drop_exact}
use binbook.Storage.Types.{new_storage_name, new_mount_token}
use binbook.Storage.Scan.{
  ScanRecord, token_value, fields, record_bytes, records_bytes, encode_scan_records, read_record,
  decode_scan_record, decode_from, decode_scan_records,
}

-- A record as a scan makes it: a short name that is not empty, and a token that is not 0.
pub record IsRecord (is_utf8 : List ℕ → Bool) (r : ScanRecord) : Type 0 where
  pub named : 0 < length r.name
  pub short : length r.name ≤ 121
  pub utf8 : is_utf8 r.name ≡ true
  pub size : r.size < 2 ^ 64
  pub value : token_value r.mount_token < 2 ^ 16
  pub token : new_mount_token (token_value r.mount_token) ≡ r.mount_token

-- The name and the zeros behind it.
abbrev padded : ScanRecord → List ℕ
padded r = r.name ++ replicate (121 - length r.name) 0

length-padded : (r : ScanRecord) → length r.name ≤ 121 → length (padded r) ≡ 121
length-padded r h =
    let zeros : length (replicate {A = ℕ} (121 - length r.name) 0) ≡ 121 - length r.name =
      length-replicate _ 0 in
    omega (arith, h, length-append r.name (replicate (121 - length r.name) 0), zeros)

length-fields : (r : ScanRecord) → length (fields r) ≡ 10
unfolding fields
length-fields r = refl

record_bytes-fields :
    (r : ScanRecord) (rest : List ℕ)
    → length r.name ≤ 121
    → record_bytes r ++ rest ≡ length r.name ∷ (padded r ++ (fields r ++ rest))
unfolding record_bytes
record_bytes-fields r rest h =
    let small : length r.name % 2 ^ 8 ≡ length r.name = omega (arith, h) in
    let zeros : List ℕ = replicate (121 - length r.name) 0 in
    let behind : (r.name ++ (zeros ++ fields r)) ++ rest ≡ padded r ++ (fields r ++ rest) =
      ap (λ b. b ++ rest) (sym (append_assoc r.name zeros (fields r)))
      ∙ append_assoc (r.name ++ zeros) (fields r) rest in
    rw small (ap (λ b. length r.name ∷ b) behind)

length-record_bytes : (r : ScanRecord) → length r.name ≤ 121 → length (record_bytes r) ≡ 132
unfolding record_bytes
length-record_bytes r h =
    let zeros : List ℕ = replicate (121 - length r.name) 0 in
    omega (
      arith,
      length-append (r.name ++ zeros) (fields r),
      ap length (append_assoc r.name zeros (fields r)),
      length-padded r h,
      length-fields r,
    )

read_size :
    (r : ScanRecord) (rest : List ℕ)
    → r.size < 2 ^ 64
    → from_le_bytes (take 8 (fields r ++ rest)) ≡ r.size
unfolding fields
read_size r rest h = u64_bytes r.size h

read_token :
    (r : ScanRecord) (rest : List ℕ)
    → token_value r.mount_token < 2 ^ 16
    → from_le_bytes (take 2 (drop 8 (fields r ++ rest))) ≡ token_value r.mount_token
unfolding fields
read_token r rest h = u16_bytes (token_value r.mount_token) h

name_tested : (n : ℕ) → 0 < n → n ≤ 121 → ((n == 0) || ltb 121 n) ≡ false
name_tested n a b = ground (arith, a, b)

name_room : (n : ℕ) → n ≤ 121 → leb n 121 ≡ true
name_room n b = ground (arith, b)

module _ (is_utf8 : List ℕ → Bool) where
  read_record-padded :
      (r : ScanRecord) (rest : List ℕ)
      → IsRecord is_utf8 r
      → read_record is_utf8 (length r.name ∷ (padded r ++ (fields r ++ rest))) ≡ ok r
  unfolding read_record new_storage_name
  read_record-padded r rest h =
      let zeros : List ℕ = replicate (121 - length r.name) 0 in
      let name : take (length r.name) (padded r ++ (fields r ++ rest)) ≡ r.name =
        ap (take (length r.name)) (append_assoc r.name zeros (fields r ++ rest))
        ∙ take_exact (length r.name) r.name (zeros ++ (fields r ++ rest)) refl in
      let behind : drop 121 (padded r ++ (fields r ++ rest)) ≡ fields r ++ rest =
        drop_exact 121 (padded r) (fields r ++ rest) (length-padded r h.short) in
      let size = read_size r rest h.size in
      let token = read_token r rest h.value in
      let tested : ((length r.name == 0) || ltb 121 (length r.name)) ≡ false =
        name_tested (length r.name) h.named h.short in
      let room : leb (length r.name) 121 ≡ true = name_room (length r.name) h.short in
      rw (read_record, tested, name, h.utf8, new_storage_name, room, behind, size, token, h.token)
        refl

  read_record-record_bytes :
      (r : ScanRecord) (rest : List ℕ)
      → IsRecord is_utf8 r
      → read_record is_utf8 (record_bytes r ++ rest) ≡ ok r
  read_record-record_bytes r rest h =
      ap (read_record is_utf8) (record_bytes-fields r rest h.short) ∙ read_record-padded r rest h

  length-records_bytes :
      (rs : List ScanRecord) (left : ℕ)
      → All (IsRecord is_utf8) rs
      → length rs ≤ left
      → length (records_bytes rs left) ≡ left * 132
  unfolding records_bytes
  length-records_bytes [] left all h = length-replicate (left * 132) 0
  length-records_bytes (r ∷ rs) left all h = omega (
    arith,
    h,
    length-append (record_bytes r) (records_bytes rs (left - 1)),
    length-record_bytes r all.0.short,
    length-records_bytes rs (left - 1) all.1 (omega (arith, h)),
  )

  decode_scan_record-at :
      (index : ℕ) (before rest bytes : List ℕ) (r : ScanRecord)
      → index < 8
      → 1056 ≤ length bytes
      → IsRecord is_utf8 r
      → length before ≡ index * 132
      → bytes ≡ before ++ (record_bytes r ++ rest)
      → decode_scan_record is_utf8 index bytes ≡ ok r
  unfolding decode_scan_record
  decode_scan_record-at index before rest bytes r a b h l e =
      let inside : ltb index 8 ≡ true = lt→ltb index 8 a in
      let enough : ltb (length bytes) 1056 ≡ false = le→ltb_false (length bytes) 1056 b in
      let at : drop (index * 132) bytes ≡ record_bytes r ++ rest =
        ap (drop (index * 132)) e ∙ drop_exact (index * 132) before (record_bytes r ++ rest) l in
      rw (inside, enough, at) (read_record-record_bytes r rest h)

  decode_from-records_bytes :
      (rs : List ScanRecord) (index left : ℕ) (before rest bytes : List ℕ)
      → All (IsRecord is_utf8) rs
      → index + length rs ≤ 8
      → 1056 ≤ length bytes
      → length before ≡ index * 132
      → bytes ≡ before ++ (records_bytes rs left ++ rest)
      → decode_from is_utf8 index (length rs) bytes ≡ ok rs
  unfolding decode_from records_bytes
  decode_from-records_bytes [] index left before rest bytes all h b l e = refl
  decode_from-records_bytes (r ∷ rs) index left before rest bytes all h b l e =
      let tail = records_bytes rs (left - 1) in
      let here : bytes ≡ before ++ (record_bytes r ++ (tail ++ rest)) =
        e ∙ ap (λ t. before ++ t) (append_assoc (record_bytes r) tail rest) in
      let next : bytes ≡ (before ++ record_bytes r) ++ (tail ++ rest) =
        here ∙ sym (append_assoc before (record_bytes r) (tail ++ rest)) in
      let first =
        decode_scan_record-at index before (tail ++ rest) bytes r (omega (arith, h)) b all.0 l
          here in
      let later =
        decode_from-records_bytes rs (index + 1) (left - 1) (before ++ record_bytes r) rest bytes
          all.1 (omega (arith, h)) b
          (omega
            (arith, l, length-append before (record_bytes r), length-record_bytes r all.0.short))
          next in
      rw (first, later) refl

  -- Up to eight records, each with a name of 1 to 121 bytes that is UTF-8, a size below 2 ^ 64 and
  -- a token that is absent or from 1 to 2 ^ 16 - 1, are written to a buffer of the size of a batch or
  -- more, whatever it held, and read back as they were.
  pub decode_scan_records-encode_scan_records :
      (records : List ScanRecord) (out : List ℕ)
      → All (IsRecord is_utf8) records
      → length records ≤ 8
      → 1056 ≤ length out
      → (bytes : List ℕ) × (encode_scan_records records out ≡ ok bytes)
        × (decode_scan_records is_utf8 (length records) bytes ≡ ok records)
  unfolding encode_scan_records decode_scan_records
  decode_scan_records-encode_scan_records records out all h o =
      let bytes = records_bytes records 8 ++ drop 1056 out in
      let few : ltb 8 (length records) ≡ false = le→ltb_false 8 (length records) h in
      let room : ltb (length out) 1056 ≡ false = le→ltb_false (length out) 1056 o in
      let whole : 1056 ≤ length bytes = omega (
        arith,
        length-append (records_bytes records 8) (drop 1056 out),
        length-records_bytes records 8 all h,
      ) in
      let enough : ltb (length bytes) 1056 ≡ false = le→ltb_false (length bytes) 1056 whole in
      (
        bytes,
        rw (few, room) refl,
        rw (few, enough)
            (decode_from-records_bytes records 0 8 [] (drop 1056 out) bytes all (omega (arith, h))
              whole refl refl),
      )
