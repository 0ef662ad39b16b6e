-- ===== src/Protocol/Cobs/InPlace/Same.antt =====
-- `cobs_decode_in_place` against `cobs_decode`.
use binbook.Prelude.{
  ℕ, zero, suc, ◌+◌, ◌-◌, ◌≤◌, ◌<◌, ◌≡◌, refl, sym, ap, ◌∙◌, true, false, not, ◌&&◌, ◌||◌, inl, inr,
  Option, some, List, [], ◌∷◌, ◌++◌, length, take, drop, get_or, ltb, ◌==◌, Result, ok, err, arith,
  Bool-cases, length-append, length-take, take-append-drop,
}
use mathlib.Core.List.{append_assoc}
use binbook.Protocol.Types.{ProtocolError}
use binbook.Protocol.Cobs.Decode.{join, decode_blocks, cobs_decode}
use binbook.Protocol.Cobs.InPlace.{
  copy, Decoder, join_in_place, copy_block, decode_in_place, cobs_decode_in_place,
}
use binbook.Protocol.Cobs.InPlace.Copy.{copy-gap, store-at, get-behind_gap}

-- The answer in place is the same error, or the length of what is decoded, which stands at the start
-- of the buffer.
pub data Matches
    : Result ProtocolError (List ℕ) → Option (Result ProtocolError ℕ × List ℕ) → Type 0 where
  same_bytes :
      {out : List ℕ} (rest : List ℕ) → Matches (ok out) (some (ok (length out), out ++ rest))
  same_error : {e : ProtocolError} {buffer : List ℕ} → Matches (err e) (some (err e, buffer))

-- The decoder in its buffer: what it wrote, the gap, what is left to read and what is behind.
at : List ℕ → List ℕ → List ℕ → List ℕ → Decoder
at output gap rest after = record {
  buffer = output ++ (gap ++ (rest ++ after));
  read_pos = length output + length gap;
  write_pos = length output;
}

join_in_place-join :
    (room last code : ℕ) (output gap rest after : List ℕ)
    → 0 < length gap
    → last ≡ length output + length gap + length rest
    → length output + length rest < room
    → (joined left : List ℕ) × (join room code rest output ≡ ok joined)
      × (join_in_place last code (at output gap rest after) ≡ some (at joined left rest after))
      × (length joined + length left ≡ length output + length gap)
      × (length joined ≤ length output + 1)
unfolding at join join_in_place
join_in_place-join room last code output [] rest after some_gap end fits =
    absurd (omega (arith, some_gap))
join_in_place-join room last code output (g ∷ gap) rest after some_gap end fits =
    let more : ltb (length output + suc (length gap)) last ≡ not (length rest == 0) =
      ground (arith, end) in
    elim (Bool-cases (ltb code 0xff && not (length rest == 0))) [
      | inl e ↦
          let test : ltb (length output) room ≡ true = ground (arith, fits) in
          let longer = length-append output (0 ∷ []) in
          let r : length output + suc (length gap) ≡ length (output ++ (0 ∷ [])) + length gap =
            omega (arith, longer) in
          let w : length output + 1 ≡ length (output ++ (0 ∷ [])) = omega (arith, longer) in
          (
            output ++ (0 ∷ []),
            gap,
            rw (e, test) refl,
            rw (more, e, store-at output g (gap ++ (rest ++ after)) (length output) 0 refl, r, w)
                refl,
            omega (arith, longer),
            omega (arith, longer),
          )
      | inr e ↦ (output, g ∷ gap, rw e refl, rw (more, e) refl, refl, omega arith)
    ]

-- The bytes of a block copied to the gap, of which its code is a part.
block_moved :
    (last code : ℕ) (output gap run rest after left : List ℕ)
    → code ≡ length run + 1
    → length left ≡ length gap + 1
    → copy
        (length run)
        (output ++ ((gap ++ (code ∷ [])) ++ (run ++ (rest ++ after))))
        (length output)
        (length output + length gap + 1)
      ≡ some ((output ++ run) ++ (left ++ (rest ++ after)))
    → copy_block last code (at output gap (code ∷ (run ++ rest)) after)
      ≡ join_in_place last code (at (output ++ run) left rest after)
unfolding copy_block at
block_moved last code output gap run rest after left one size moved =
    let n : code - 1 ≡ length run = omega (arith, one) in
    let buffer : output ++ (gap ++ (code ∷ ((run ++ rest) ++ after)))
        ≡ output ++ ((gap ++ (code ∷ [])) ++ (run ++ (rest ++ after))) =
      ap (λ b. output ++ b)
        (ap (λ b. gap ++ (code ∷ b)) (append_assoc run rest after)
          ∙ sym (append_assoc gap (code ∷ []) (run ++ (rest ++ after)))) in
    let r : length output + length gap + code ≡ length (output ++ run) + length left =
      omega (arith, one, size, length-append output run) in
    let w : length output + length run ≡ length (output ++ run) = sym (length-append output run) in
    rw (n, buffer, moved, r, w) refl

-- One block.
copy_block-join :
    (room last code : ℕ) (output gap run rest after : List ℕ)
    → code ≡ length run + 1
    → last ≡ length output + length gap + length (code ∷ (run ++ rest))
    → length output + length (code ∷ (run ++ rest)) ≤ room
    → (joined left : List ℕ) × (join room code rest (output ++ run) ≡ ok joined)
      × (copy_block last code (at output gap (code ∷ (run ++ rest)) after)
          ≡ some (at joined left rest after))
      × (last ≡ length joined + length left + length rest)
      × (length joined + length rest ≤ room)
copy_block-join room last code output gap run rest after one end fits =
    let size = length-append run rest in
    let (left, kept, moved) =
      copy-gap run output (gap ++ (code ∷ [])) (rest ++ after) (length output)
        (length output + length gap + 1) (omega (arith, length-append gap (code ∷ []))) refl
        (omega (arith, length-append gap (code ∷ []))) in
    let wide = length-append gap (code ∷ []) in
    let (joined, narrow, plain, in_place, same, short) =
      join_in_place-join room last code (output ++ run) left rest after (omega (arith, kept, wide))
        (omega (arith, end, size, kept, wide, length-append output run))
        (omega (arith, fits, size, length-append output run)) in
    (
      joined,
      narrow,
      plain,
      block_moved last code output gap run rest after left one (omega (arith, kept, wide)) moved
          ∙ in_place,
      omega (arith, end, size, kept, wide, length-append output run, same),
      omega (arith, fits, size, length-append output run, short),
    )

-- The loop of both decoders, from the same place on.
decode_in_place-Matches :
    (fuel room last : ℕ) (output gap rest after : List ℕ)
    → last ≡ length output + length gap + length rest
    → length output + length rest ≤ room
    → Matches
        (decode_blocks fuel room rest output)
        (decode_in_place fuel last (at output gap rest after))
unfolding decode_blocks decode_in_place at
decode_in_place-Matches zero room last output gap rest after end fits =
    same_bytes (gap ++ (rest ++ after))
decode_in_place-Matches (suc fuel) room last output gap [] after end fits =
    let test : ltb (length output + length gap) last ≡ false = ground (arith, end) in
    rw test (same_bytes (gap ++ after))
decode_in_place-Matches (suc fuel) room last output gap (code ∷ rest) after end fits =
    let test : ltb (length output + length gap) last ≡ true = ground (arith, end) in
    let read = get-behind_gap output gap code (rest ++ after) (length output + length gap) refl in
    elim (Bool-cases (code == 0 || ltb (length rest) (code - 1))) [
      | inl e ↦
          let long : code == 0 || ltb last (length output + length gap + code) ≡ true =
            ground (arith, e, end) in
          rw (test, read, e, long) same_error
      | inr e ↦
          let short : code == 0 || ltb last (length output + length gap + code) ≡ false =
            ground (arith, e, end) in
          let enough : ltb room (length output + (code - 1)) ≡ false = ground (arith, e, fits) in
          let run = take (code - 1) rest in
          let left = drop (code - 1) rest in
          let whole : rest ≡ run ++ left = sym (take-append-drop (code - 1) rest) in
          let (joined, narrow, plain, in_place, end', fits') =
            copy_block-join room last code output gap run left after
              (ground (arith, e, length-take (code - 1) rest)) (omega (arith, end, ap length whole))
              (omega (arith, fits, ap length whole)) in
          let moved : copy_block last code (at output gap (code ∷ rest) after)
              ≡ some (at joined narrow left after) =
            ap (λ r. copy_block last code (at output gap (code ∷ r) after)) whole ∙ in_place in
          rw (e, enough, plain, test, read, short, moved)
            (decode_in_place-Matches fuel room last joined narrow left after end' fits')
    ]

get_or-take : (n i : ℕ) (xs : List ℕ) → i < n → get_or (take n xs) i 1 ≡ get_or xs i 1
get_or-take zero i xs h = absurd (omega (arith, h))
get_or-take (suc n) i [] h = refl
get_or-take (suc n) zero (x ∷ xs) h = refl
get_or-take (suc n) (suc i) (x ∷ xs) h = get_or-take n i xs (omega (arith, h))

take-take_more : (n : ℕ) (xs : List ℕ) → take n (take (suc n) xs) ≡ take n xs
take-take_more zero xs = refl
take-take_more (suc n) [] = refl
take-take_more (suc n) (x ∷ xs) = ap (λ r. x ∷ r) (take-take_more n xs)

-- Where the message is in the buffer, `cobs_decode_in_place` does not panic, and it answers what
-- `cobs_decode` answers for the message with an output of its length or more: the same error, or the
-- number of bytes, and the bytes that `cobs_decode` writes are then at the start of the buffer.
pub cobs_decode_in_place-Matches :
    (buffer : List ℕ) (input_len room : ℕ)
    → input_len ≤ length buffer
    → input_len ≤ room
    → Matches (cobs_decode (take input_len buffer) room) (cobs_decode_in_place buffer input_len)
unfolding cobs_decode cobs_decode_in_place
cobs_decode_in_place-Matches buffer zero room inside fits = same_error
cobs_decode_in_place-Matches buffer (suc n) room inside fits =
    let size : length (take (suc n) buffer) ≡ suc n =
      omega (arith, length-take (suc n) buffer, inside) in
    let one : suc n - 1 ≡ n = omega arith in
    let some_byte : suc n == 0 ≡ false = ground arith in
    let last = get_or-take (suc n) n buffer (omega arith) in
    let inside' : ltb (length buffer) (suc n) ≡ false = ground (arith, inside) in
    let start : at [] [] (take n buffer) (drop n buffer)
        ≡ record { buffer = buffer; read_pos = 0; write_pos = 0 } =
      unfold at in
      ap (λ b. record { buffer = b; read_pos = 0; write_pos = 0 }) (take-append-drop n buffer) in
    let short : length (take n buffer) ≡ n = omega (arith, length-take n buffer, inside) in
    elim (Bool-cases (get_or buffer n 1 == 0)) [
      | inl e ↦
          rw (size, one, some_byte, last, e, inside', take-take_more n buffer, sym start)
            (decode_in_place-Matches (suc n) room n [] [] (take n buffer) (drop n buffer)
              (omega (arith, short)) (omega (arith, short, fits)))
      | inr e ↦ rw (size, one, some_byte, last, e, inside') same_error
    ]
