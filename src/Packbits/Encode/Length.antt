-- ===== src/Packbits/Encode/Length.antt =====
-- `encoded_len` of crates/binbook-compress/src/packbits.rs is the length of what `encode_runs`
-- writes.
use binbook.Prelude.{
  ℕ, zero, suc, ◌+◌, ◌*◌, ◌≤◌, ◌≡◌, refl, ◌∙◌, List, [], ◌∷◌, ◌++◌, arith, min, length, drop,
  replicate, length-append, length-take, length-drop, length-replicate, ltb, if◌then◌else◌, ok, err,
}
use mathlib.Core.List.{append-nil}
use binbook.Packbits.Encode.{
  Run, payload, next_run, emit, encode_loop, encode_runs, encoded_len_loop, encoded_len,
  encode_into, encode, buffer_too_small, write_front,
}
use binbook.Packbits.Encode.Runs.{RunFits, next_run-RunFits}

-- A run takes its control byte and its payload.
length-emit :
    (x : ℕ) (xs : List ℕ) (r : Run) → RunFits x xs r → length (emit r (x ∷ xs)) ≡ 1 + payload r
unfolding emit
length-emit x xs r fit = ground (arith, length-take r.length (x ∷ xs))

-- A run's output is at most twice its input.
emit_bound : (x : ℕ) (xs : List ℕ) (r : Run) → RunFits x xs r → 1 + payload r ≤ 2 * r.length
emit_bound x xs r fit = ground arith

module _ (usize_max : ℕ) where
  encoded_len_loop_lem :
      (fuel : ℕ) (input : List ℕ) (acc : ℕ)
      → acc + 2 * length input ≤ usize_max
      → encoded_len_loop usize_max fuel input acc ≡ acc + length (encode_loop fuel input)
  unfolding encode_loop encoded_len_loop
  encoded_len_loop_lem zero input acc h = omega arith
  encoded_len_loop_lem (suc fuel) [] acc h = omega arith
  encoded_len_loop_lem (suc fuel) (x ∷ xs) acc h =
      let r = next_run (x ∷ xs) in
      let fit = next_run-RunFits x xs in
      let rest = drop r.length (x ∷ xs) in
      let shorter = length-drop r.length (x ∷ xs) in
      let emitted = length-emit x xs r fit in
      let bound = emit_bound x xs r fit in
      let unsaturated : min (acc + (1 + payload r)) usize_max ≡ acc + (1 + payload r) =
        omega (arith, fit.inside) in
      rw unsaturated (
        encoded_len_loop_lem fuel rest (acc + (1 + payload r)) (omega (arith, fit.inside))
        ∙ omega (arith, length-append (emit r (x ∷ xs)) (encode_loop fuel rest)))

  -- `encoded_len` is the number of bytes that the encoder writes, for an input whose double fits in
  -- a `usize`.
  encoded_len_lem :
      (input : List ℕ)
      → 2 * length input ≤ usize_max
      → encoded_len usize_max input ≡ length (encode_runs input)
  unfolding encoded_len encode_runs
  encoded_len_lem input h = encoded_len_loop_lem (length input) input 0 (omega arith) ∙ omega arith

  drop_all : (n : ℕ) (xs : List ℕ) → length xs ≤ n → drop n xs ≡ []
  drop_all zero [] h = refl
  drop_all zero (x ∷ xs) h = absurd (omega arith)
  drop_all (suc n) [] h = refl
  drop_all (suc n) (x ∷ xs) h = drop_all n xs (omega arith)

  -- The runs fill the buffer of `encode` to the last byte.
  pub encode-eq-encode_runs :
      (input : List ℕ) → 2 * length input ≤ usize_max → encode usize_max input ≡ encode_runs input
  unfolding encode write_front
  encode-eq-encode_runs input h =
      let n = length (encode_runs input) in
      let full = drop_all n (replicate n 0) (omega (arith, length-replicate {A = ℕ} n 0)) in
      rw (encoded_len_lem input h, full) (append-nil (encode_runs input))

  -- `encode_into` refuses a buffer exactly when it is shorter than the encoding, and tells the
  -- length that is needed; otherwise it writes the encoding to the front, leaves the rest of the
  -- buffer, and answers with the length of the encoding.
  pub encode_into_lem :
      (input output : List ℕ)
      → 2 * length input ≤ usize_max
      → let code = encode_runs input in
        encode_into usize_max input output ≡ (
          if ltb (length output) (length code)
          then err (buffer_too_small (length code) (length output))
          else ok (length code, code ++ drop (length code) output))
  unfolding encode_into write_front
  encode_into_lem input output h = rw (encoded_len_lem input h)
