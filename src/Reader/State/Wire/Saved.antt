-- ===== src/Reader/State/Wire/Saved.antt =====
-- A state saved and loaded.
use mathlib.Core.List.{Permᴰ}
use binbook.Prelude.{
  ℕ, ◌+◌, ◌*◌, ◌≤◌, ◌≡◌, refl, sym, ap, ◌∙◌, false, List, ◌++◌, length, take, drop, ltb,
  le→ltb_false, arith, ok,
}
use binbook.Checksum.Crc32.{iso_hdlc}
use binbook.Reader.State.{
  ReaderState, ProgressRecord, find_record, lookup_page, validate_mode_state,
}
use binbook.Reader.State.Invariant.{IsValid}
use binbook.Reader.State.Mode.{ModeOk, in_menu, in_book, ModeOk-validate, validate-ModeOk}
use binbook.Reader.State.Wire.{sealed, state_bytes, decode, encode, encode_with_generation}
use binbook.Reader.State.Wire.Order.{Perm-length, Perm-Sound, Perm-find, Perm-All}
use binbook.Reader.State.Wire.Fields.{IsRecord, take_exact}
use binbook.Reader.State.Wire.RoundTrip.{IsState, length-written, decode-written}

-- The state with its records in the order in which they are written.
abbrev pub sorted : (List ProgressRecord → List ProgressRecord) → ReaderState → ReaderState
sorted sort s = record s { records = sort s.records }

ModeOk-sorted :
    (s : ReaderState) (rs : List ProgressRecord)
    → find_record s.active_filename_hash s.active_rendition_hash rs
      ≡ find_record s.active_filename_hash s.active_rendition_hash s.records
    → ModeOk s
    → ModeOk (record s { records = rs })
ModeOk-sorted s rs same (in_menu mode file hash) = in_menu mode file hash
ModeOk-sorted s rs same (in_book mode file hash (r, found)) =
    in_book mode file hash (r, same ∙ found)

encode-sealed :
    (sort : List ProgressRecord → List ProgressRecord) (s : ReaderState) (out : List ℕ)
    → validate_mode_state s ≡ ok tt
    → 72 + length s.records * 44 ≤ length out
    → encode sort s out ≡ (
      ok (72 + length s.records * 44),
      sealed s s.generation (sort s.records) ++ drop (72 + length s.records * 44) out,
    )
unfolding encode encode_with_generation
encode-sealed sort s out valid room =
    let test : ltb (length out) (72 + length s.records * 44) ≡ false =
      le→ltb_false (length out) (72 + length s.records * 44) room in
    rw (valid, test, encode, encode_with_generation) refl

lookup_page-same :
    (t s : ReaderState) (filename : ℕ) (rendition : List ℕ)
    → find_record filename rendition t.records ≡ find_record filename rendition s.records
    → lookup_page t filename rendition ≡ lookup_page s filename rendition
unfolding lookup_page
lookup_page-same t s filename rendition e = rw (e, lookup_page) refl

-- For a sort that permutes the records, `encode` writes a valid state whose fields have their types to a
-- buffer with 72 bytes and 44 for each record, and `decode` reads it back from the bytes written, with
-- the records sorted, in which each lookup answers what it did.
pub decode-encode :
    (sort : List ProgressRecord → List ProgressRecord) (s : ReaderState) (out : List ℕ)
    → ((rs : List ProgressRecord) → Permᴰ rs (sort rs))
    → IsValid s
    → IsState s
    → 72 + length s.records * 44 ≤ length out
    → (n : ℕ) × (saved : List ℕ) × (encode sort s out ≡ (ok n, saved))
      × (decode (take n saved) ≡ ok (sorted sort s))
      × ((filename : ℕ) (rendition : List ℕ)
          → lookup_page (sorted sort s) filename rendition ≡ lookup_page s filename rendition)
decode-encode sort s out permutes valid state room =
    let p = permutes s.records in
    let all = Perm-All IsRecord p state.entries in
    let crc = iso_hdlc (state_bytes s s.generation 0 (sort s.records)) in
    let same = λ (f : ℕ) (h : List ℕ). sym (Perm-find f h p valid.0.distinct) in
    let size : length (sealed s s.generation (sort s.records)) ≡ 72 + length s.records * 44 =
      omega (arith, length-written s crc (sort s.records) state all, Perm-length p) in
    (
      72 + length s.records * 44,
      _,
      encode-sealed sort s out valid.1 room,
      ap decode (take_exact _ (sealed s s.generation (sort s.records)) _ size)
          ∙ decode-written s crc (sort s.records) state all refl (Perm-Sound p valid.0) (
              ModeOk-validate (sorted sort s) (
                ModeOk-sorted s (sort s.records)
                  (same s.active_filename_hash s.active_rendition_hash)
                  (validate-ModeOk s valid.1))),
      λ f h. lookup_page-same (sorted sort s) s f h (same f h),
    )
