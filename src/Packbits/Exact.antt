-- ===== src/Packbits/Exact.antt =====
-- `decode_exact` of binbook-decompress on what binbook-compress writes.
use binbook.Prelude.{
  ℕ, zero, suc, ◌+◌, ◌*◌, ◌≤◌, ◌<◌, ◌≡◌, ◌≢◌, refl, ap, ◌∙◌, sym, if◌then◌else◌, none, List, [],
  ◌∷◌, ◌++◌, ◌==◌, arith, length, ok, err,
}
use mathlib.Core.List.{append-nil}
use binbook.Packbits.Encode.{encode_loop, encode_runs, encode}
use binbook.Packbits.Encode.Length.{encode-eq-encode_runs}
use binbook.Packbits.Decode.{
  State, turn, measure, decode, output_too_short, exact_loop, exact_result, decode_exact,
}
use binbook.Packbits.Decode.Loop.{drain, drain_break}
use binbook.Packbits.RoundTrip.{idle, drain-encode_loop}

-- The state after one call of `decode` in the loop of `decode_exact`.
abbrev after : State → State → State
after s t = record { run = t.run; rest = t.rest; room = t.room; out = s.out ++ t.out }

exact_full : (fuel : ℕ) (s : State) → s.room ≡ 0 → exact_loop fuel s ≡ s
unfolding exact_loop
exact_full zero s e = refl
exact_full (suc fuel) s e = ground arith

exact_more :
    (fuel : ℕ) (s t : State)
    → s.room ≢ 0
    → decode s.run s.rest s.room ≡ t
    → 0 < length t.out
    → exact_loop (suc fuel) s ≡ exact_loop fuel (after s t)
unfolding exact_loop
exact_more fuel s t ne e more = ground arith

exact_stuck :
    (fuel : ℕ) (s t : State)
    → s.room ≢ 0
    → decode s.run s.rest s.room ≡ t
    → t.rest ≡ s.rest
    → t.out ≡ []
    → exact_loop (suc fuel) s ≡ after s t
unfolding exact_loop
exact_stuck fuel s t ne e same nothing = ground arith

exact_result_done :
    (n : ℕ) (out : List ℕ) → length out ≡ n → exact_result n (idle [] 0 out) ≡ ok out
unfolding exact_result
exact_result_done n out e = ground arith

exact_result_short :
    (n room : ℕ) (out : List ℕ)
    → length out < n
    → exact_result n (idle [] room out) ≡ err (output_too_short n (length out))
unfolding exact_result
exact_result_short n room out h = ground arith

-- The loop of `decode_exact` on the encoding of an input, into a buffer with `extra` more bytes:
-- one call of `decode` takes it all in.
decode_once :
    (input : List ℕ) (extra : ℕ)
    → decode none (encode_runs input) (length input + extra) ≡ idle [] extra input
unfolding decode encode_runs
decode_once input extra =
    ap (λ c. drain (idle c (length input + extra) [])) (sym (append-nil (encode_runs input)))
    ∙ drain-encode_loop (length input) input [] [] extra (omega arith)
    ∙ drain_break (idle [] extra input) (unfold turn in refl)

decode_nothing : (k : ℕ) → decode none [] (suc k) ≡ idle [] (suc k) []
unfolding decode
decode_nothing k = drain_break (idle [] (suc k) []) (unfold turn in refl)

exact_loop-encode_runs :
    (fuel : ℕ) (x : ℕ) (xs : List ℕ) (extra : ℕ)
    → let input : List ℕ = x ∷ xs in
      exact_loop (suc (suc fuel)) (idle (encode_runs input) (length input + extra) [])
      ≡ idle [] extra input
exact_loop-encode_runs fuel x xs extra =
    let input : List ℕ = x ∷ xs in
    exact_more (suc fuel) (idle (encode_runs input) (length input + extra) []) (idle [] extra input)
      (omega arith) (decode_once input extra) (omega arith)
    ∙ second extra
  where
    second : (extra : ℕ) → exact_loop (suc fuel) (idle [] extra (x ∷ xs)) ≡ idle [] extra (x ∷ xs)
    second zero = exact_full (suc fuel) (idle [] 0 (x ∷ xs)) refl
    second (suc k) =
        exact_stuck fuel (idle [] (suc k) (x ∷ xs)) (idle [] (suc k) []) (omega arith)
          (decode_nothing k) refl refl
        ∙ ap (idle [] (suc k)) (append-nil (x ∷ xs))

nothing_encoded : encode_runs [] ≡ []
unfolding encode_runs encode_loop
nothing_encoded = refl

-- The whole loop, with the fuel of `decode_exact`.
exact_loop_ends :
    (input : List ℕ) (extra : ℕ)
    → let s = idle (encode_runs input) (length input + extra) [] in
      exact_loop (suc (measure s)) s ≡ idle [] extra input
exact_loop_ends [] zero = rw nothing_encoded (exact_full 1 (idle [] 0 []) refl)
exact_loop_ends [] (suc k) =
    let e : 0 + suc k ≡ suc k = omega arith in
    rw (nothing_encoded, e, e)
      (exact_stuck (suc k) (idle [] (suc k) []) (idle [] (suc k) []) (omega arith)
        (decode_nothing k) refl refl)
exact_loop_ends (x ∷ xs) extra =
    let s = idle (encode_runs (x ∷ xs)) (length (x ∷ xs) + extra) [] in
    let m = length (encode_runs (x ∷ xs)) + (length xs + extra) in
    let e : measure s ≡ suc m = omega arith in
    ap (λ n. exact_loop (suc n) s) e ∙ exact_loop-encode_runs m x xs extra

-- The decompressor undoes the compressor, and checks the length: on the encoding of an input,
-- `decode_exact` into a buffer of the input's length gives back the input, and into any longer
-- buffer it answers `OutputTooShort` with both lengths. The input's double has to fit in a `usize`.
pub decode_exact-encode :
    (usize_max : ℕ) (input : List ℕ) (extra : ℕ)
    → 2 * length input ≤ usize_max
    → decode_exact (encode usize_max input) (length input + extra) ≡ (
        if extra == 0
        then ok input
        else err (output_too_short (length input + extra) (length input)))
unfolding decode_exact
decode_exact-encode usize_max input extra h =
    rw (encode-eq-encode_runs usize_max input h, exact_loop_ends input extra) (result extra)
  where
    result :
        (extra : ℕ)
        → exact_result (length input + extra) (idle [] extra input) ≡ (
            if extra == 0
            then ok input
            else err (output_too_short (length input + extra) (length input)))
    result zero = exact_result_done (length input + 0) input (omega arith)
    result (suc k) =
        ground (arith, exact_result_short (length input + suc k) (suc k) input (omega arith))
