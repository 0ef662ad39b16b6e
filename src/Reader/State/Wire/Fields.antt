-- ===== src/Reader/State/Wire/Fields.antt =====
-- The fields and the checksum of a saved reading state.
use binbook.Prelude.{
  ℕ, zero, suc, ◌+◌, ◌*◌, ◌-◌, ◌/◌, ◌^◌, ◌≤◌, ◌<◌, ◌≡◌, refl, sym, ap, ◌∙◌, true, false, none, List,
  [], ◌∷◌, ◌++◌, length, take, drop, All, arith, ok, length-append, ltb, leb, ◌&&◌,
}
use mathlib.Core.List.{append-nil, append_assoc}
use binbook.Format.Wire.{to_le_bytes, from_le_bytes}
use binbook.Checksum.Crc32.{update, update-append, iso_hdlc, not_u32}
use binbook.Reader.State.{ReaderState, ProgressRecord, find_record, has_key, max_progress_records}
use binbook.Reader.State.Records.{Distinct, IsNew, has_key-sym}
use binbook.Reader.State.Lookup.{find-later}
use binbook.Reader.State.Invariant.{Sound, HasHash}
use binbook.Reader.State.Wire.{
  header_front, record_bytes, records_bytes, state_bytes, update_masked, read_record, push_decoded,
  decode_records, state_record_size,
}

limit : ℕ → ℕ
limit zero = 1
limit (suc n) = 256 * limit n

from_to : (n v : ℕ) → v < limit n → from_le_bytes (to_le_bytes n v) ≡ v
unfolding limit
from_to zero v h = omega (arith, h)
from_to (suc n) v h = omega (arith, from_to n (v / 256) (omega (arith, h)))

pub u16_bytes : (v : ℕ) → v < 2 ^ 16 → from_le_bytes (to_le_bytes 2 v) ≡ v
unfolding limit
u16_bytes v h = from_to 2 v h

pub u32_bytes : (v : ℕ) → v < 2 ^ 32 → from_le_bytes (to_le_bytes 4 v) ≡ v
unfolding limit
u32_bytes v h = from_to 4 v h

pub u64_bytes : (v : ℕ) → v < 2 ^ 64 → from_le_bytes (to_le_bytes 8 v) ≡ v
unfolding limit
u64_bytes v h = from_to 8 v h

-- A list of 32 bytes before others.
pub take_exact : (n : ℕ) (xs ys : List ℕ) → length xs ≡ n → take n (xs ++ ys) ≡ xs
take_exact zero [] ys e = refl
take_exact zero (x ∷ xs) ys e = absurd (omega (arith, e))
take_exact (suc n) [] ys e = absurd (omega (arith, e))
take_exact (suc n) (x ∷ xs) ys e = ap (λ r. x ∷ r) (take_exact n xs ys (omega (arith, e)))

pub drop_exact : (n : ℕ) (xs ys : List ℕ) → length xs ≡ n → drop n (xs ++ ys) ≡ ys
drop_exact zero [] ys e = refl
drop_exact zero (x ∷ xs) ys e = absurd (omega (arith, e))
drop_exact (suc n) [] ys e = absurd (omega (arith, e))
drop_exact (suc n) (x ∷ xs) ys e = drop_exact n xs ys (omega (arith, e))

-- A record whose fields have their types.
pub record IsRecord (r : ProgressRecord) : Type 0 where
  pub filename : r.filename_hash < 2 ^ 64
  pub rendition : length r.rendition_hash ≡ 32
  pub page : r.page < 2 ^ 32

record_eq :
    {f f' p p' : ℕ} {h h' : List ℕ}
    → f ≡ f'
    → h ≡ h'
    → p ≡ p'
    → ◌≡◌ {A = ProgressRecord}
        (record { filename_hash = f; rendition_hash = h; page = p })
        (record { filename_hash = f'; rendition_hash = h'; page = p' })
record_eq a b c = rw (a, b, c) refl

read_record-record_bytes :
    (r : ProgressRecord) (rest : List ℕ)
    → IsRecord r
    → (read_record (record_bytes r ++ rest) ≡ r)
      × (drop state_record_size (record_bytes r ++ rest) ≡ rest)
read_record-record_bytes r rest h =
    let behind = append_assoc r.rendition_hash (to_le_bytes 4 r.page) rest in
    let hash =
      ap (take 32) behind
      ∙ take_exact 32 r.rendition_hash (to_le_bytes 4 r.page ++ rest) h.rendition in
    let page =
      ap (drop 32) behind
      ∙ drop_exact 32 r.rendition_hash (to_le_bytes 4 r.page ++ rest) h.rendition in
    (
      record_eq (u64_bytes r.filename_hash h.filename) hash
          (ap (λ b. from_le_bytes (take 4 b)) page ∙ u32_bytes r.page h.page),
      drop_exact 36 (r.rendition_hash ++ to_le_bytes 4 r.page) rest
          (omega (arith, h.rendition, length-append r.rendition_hash (to_le_bytes 4 r.page))),
    )

-- No record before has the key of the next.
fresh-find :
    (decoded : List ProgressRecord) (r : ProgressRecord) (rs : List ProgressRecord)
    → Distinct (decoded ++ (r ∷ rs))
    → find_record r.filename_hash r.rendition_hash decoded ≡ none
unfolding find_record
fresh-find [] r rs h = refl
fresh-find (d ∷ decoded) r rs h =
    find-later r.filename_hash r.rendition_hash d decoded (has_key-sym d r (behind decoded h.0))
    ∙ fresh-find decoded r rs h.1
  where
    behind :
        (ds : List ProgressRecord)
        → IsNew d (ds ++ (r ∷ rs))
        → has_key d.filename_hash d.rendition_hash r ≡ false
    behind [] k = k.0
    behind (x ∷ ds) k = behind ds k.1

HasHash-last :
    (decoded : List ProgressRecord) (r : ProgressRecord) (rs : List ProgressRecord)
    → All HasHash (decoded ++ (r ∷ rs))
    → HasHash r
HasHash-last [] r rs h = h.0
HasHash-last (d ∷ decoded) r rs h = HasHash-last decoded r rs h.1

push_decoded-next :
    (decoded : List ProgressRecord) (r : ProgressRecord) (rs : List ProgressRecord)
    → Sound (decoded ++ (r ∷ rs))
    → push_decoded r decoded ≡ ok (decoded ++ (r ∷ []))
unfolding push_decoded
push_decoded-next decoded r rs h =
    let room : ltb (length decoded) max_progress_records ≡ true =
      ground (arith, h.bounded, length-append decoded (r ∷ rs)) in
    rw (HasHash-last decoded r rs h.hashes, fresh-find decoded r rs h.distinct, room) refl

-- The loop reads back the records that are written.
pub decode_records-records_bytes :
    (rs decoded : List ProgressRecord)
    → All IsRecord rs
    → Sound (decoded ++ rs)
    → decode_records (length rs) (records_bytes rs) decoded ≡ ok (decoded ++ rs)
unfolding decode_records records_bytes
decode_records-records_bytes [] decoded all h = ap ok (sym (append-nil decoded))
decode_records-records_bytes (r ∷ rs) decoded all h =
    let (first, rest) = read_record-record_bytes r (records_bytes rs) all.0 in
    let next = append_assoc decoded (r ∷ []) rs in
    rw (first, rest, push_decoded-next decoded r rs h)
      (decode_records-records_bytes rs (decoded ++ (r ∷ [])) all.1 (rw next h) ∙ ap ok next)

-- The checksum: zeros stand for the bytes of the stored one.
masked_step :
    (state index byte : ℕ) (bytes : List ℕ)
    → (leb 68 index && ltb index 72) ≡ false
    → update_masked state index (byte ∷ bytes)
      ≡ update_masked (update state (byte ∷ [])) (index + 1) bytes
unfolding update_masked
masked_step state index byte bytes plain = rw plain refl

masked_before :
    (index state : ℕ) (xs ys : List ℕ)
    → index + length xs ≤ 68
    → update_masked state index (xs ++ ys) ≡ update_masked (update state xs) (index + length xs) ys
unfolding update_masked update
masked_before index state [] ys h = let same : index + 0 ≡ index = omega arith in rw same refl
masked_before index state (x ∷ xs) ys h =
    let plain : (leb 68 index && ltb index 72) ≡ false = ground (arith, h) in
    let next : index + suc (length xs) ≡ index + 1 + length xs = omega arith in
    masked_step state index x (xs ++ ys) plain
    ∙ rw next (masked_before (index + 1) (update state (x ∷ [])) xs ys (omega (arith, h)))

masked_after :
    (index state : ℕ) (xs : List ℕ) → 72 ≤ index → update_masked state index xs ≡ update state xs
unfolding update_masked update
masked_after index state [] h = refl
masked_after index state (x ∷ xs) h =
    let plain : (leb 68 index && ltb index 72) ≡ false = ground (arith, h) in
    masked_step state index x xs plain
    ∙ (masked_after (index + 1) (update state (x ∷ [])) xs (omega (arith, h)))

masked_sum :
    (state : ℕ) (before ys : List ℕ) (a b c d : ℕ)
    → length before ≡ 68
    → update_masked state 0 (before ++ (a ∷ b ∷ c ∷ d ∷ ys))
      ≡ update state (before ++ (0 ∷ 0 ∷ 0 ∷ 0 ∷ ys))
unfolding update_masked update
masked_sum state before ys a b c d e =
    let at : 0 + length before ≡ 68 = omega (arith, e) in
    masked_before 0 state before (a ∷ b ∷ c ∷ d ∷ ys) (omega (arith, e))
    ∙ rw at (masked_after 72 _ ys (omega arith))
    ∙ sym (update-append state before (0 ∷ 0 ∷ 0 ∷ 0 ∷ ys))

split :
    (front hash mid rest : List ℕ)
    → front ++ (hash ++ (mid ++ rest)) ≡ (front ++ (hash ++ mid)) ++ rest
split front hash mid rest =
    ap (λ b. front ++ b) (sym (append_assoc hash mid rest))
    ∙ sym (append_assoc front (hash ++ mid) rest)

-- The checksum that `decode` computes is the one that `encode` stored.
pub masked-state_bytes :
    (s : ReaderState) (generation crc : ℕ) (rs : List ProgressRecord)
    → length s.active_rendition_hash ≡ 32
    → not_u32 (update_masked (2 ^ 32 - 1) 0 (state_bytes s generation crc rs))
      ≡ iso_hdlc (state_bytes s generation 0 rs)
unfolding iso_hdlc
masked-state_bytes s generation crc rs e =
    let front = header_front s generation in
    let mid = to_le_bytes 2 (length rs) ++ (0 ∷ 0 ∷ []) in
    let size : length (front ++ (s.active_rendition_hash ++ mid)) ≡ 68 = omega (
      arith,
      e,
      length-append front (s.active_rendition_hash ++ mid),
      length-append s.active_rendition_hash mid,
    ) in
    ap not_u32 (
      ap (update_masked (2 ^ 32 - 1) 0)
        (split front s.active_rendition_hash mid (to_le_bytes 4 crc ++ records_bytes rs))
      ∙ masked_sum (2 ^ 32 - 1) (front ++ (s.active_rendition_hash ++ mid)) (records_bytes rs) _ _ _
          _ size
      ∙ ap (update (2 ^ 32 - 1))
          (sym (split front s.active_rendition_hash mid (to_le_bytes 4 0 ++ records_bytes rs))))
