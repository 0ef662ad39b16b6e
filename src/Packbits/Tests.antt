-- ===== src/Packbits/Tests.antt =====
-- The PackBits codec at concrete inputs.
use binbook.Prelude.{
  ℕ, ◌+◌, ◌≡◌, refl, ◌⊎◌, none, some, List, [], ◌∷◌, ◌++◌, ok, err, arith, length, drop, ltb, ◌==◌,
  if◌then◌else◌,
}
use binbook.Packbits.Encode.{
  next_run, emit, encode_loop, encode_runs, encode_into, encode, buffer_too_small,
}
use binbook.Packbits.Encode.Length.{encode_into_lem}
use binbook.Packbits.Decode.{
  repeat, turn, loop, decode, exact_loop, exact_result, decode_exact, output_too_short,
  output_too_long, malformed_run,
}
use binbook.Packbits.Decode.Loop.{RunIsValid, decode_ends}
use binbook.Packbits.Exact.{decode_exact-encode}

-- Two different bytes, then one five times.
abbrev row : List ℕ
row = 1 ∷ 2 ∷ 7 ∷ 7 ∷ 7 ∷ 7 ∷ 7 ∷ []

row_encoded : encode_runs row ≡ 1 ∷ 1 ∷ 2 ∷ 132 ∷ 7 ∷ []
unfolding encode_runs encode_loop next_run emit
row_encoded = refl

row_too_long : decode_exact (encode_runs row) 6 ≡ err (output_too_long 6)
unfolding encode_runs encode_loop next_run emit decode_exact exact_loop exact_result decode loop
    turn
row_too_long = refl

cut_short : decode_exact (1 ∷ 1 ∷ []) 2 ≡ err malformed_run
unfolding decode_exact exact_loop exact_result decode loop turn
cut_short = refl

encode_into_lem_example :
    let code = encode_runs row in
    encode_into 65535 row (9 ∷ 9 ∷ []) ≡ (
      if ltb 2 (length code)
      then err (buffer_too_small (length code) 2)
      else ok (length code, code ++ drop (length code) (9 ∷ 9 ∷ [])))
encode_into_lem_example = encode_into_lem 65535 row (9 ∷ 9 ∷ []) (omega arith)

decode_ends_example :
    let r = decode (some (repeat 7 3)) (0 ∷ 5 ∷ []) 9 in
    ((r.room ≡ 0) ⊎ (turn r ≡ none)) × RunIsValid r.run × (length r.out + r.room ≡ 9)
decode_ends_example = decode_ends (some (repeat 7 3)) (0 ∷ 5 ∷ []) 9 (omega arith)

decode_exact-encode_example :
    decode_exact (encode 65535 row) (7 + 2)
    ≡ (if 2 == 0 then ok row else err (output_too_short (7 + 2) 7))
decode_exact-encode_example = decode_exact-encode 65535 row 2 (omega arith)
