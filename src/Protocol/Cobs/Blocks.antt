-- ===== src/Protocol/Cobs/Blocks.antt =====
-- The bytes that `cobs_encode` writes, as a list of blocks, and what `cobs_decode` makes of them.
use binbook.Prelude.{
  ==_iff, ℕ, zero, suc, ◌+◌, ◌-◌, ◌≤◌, ◌<◌, ◌≡◌, refl, sym, ap, ◌∙◌, true, false, inl, inr, List,
  [], ◌∷◌, ◌++◌, length, ◌==◌, if◌then◌else◌, ok, ◌>>=◌, arith, Bool-cases, length-append,
  take-append, drop-append,
}
use mathlib.Core.List.{append-nil, append_assoc}
use binbook.Protocol.Cobs.Decode.{join, decode_blocks}

-- A block: its code and its bytes, none of them zero.
abbrev pub block : List ℕ → List ℕ
block run = (length run + 1) ∷ run

-- The blocks of a message, of which `run` is in the block that is not finished.
unfoldable pub blocks : List ℕ → List ℕ → List ℕ
blocks run [] = block run
blocks run (x ∷ xs) = elim (x == 0) [
  | true ↦ block run ++ blocks [] xs
  | false ↦ elim (length run == 254) [
    | true ↦ block run ++ blocks (x ∷ []) xs
    | false ↦ blocks (run ++ (x ∷ [])) xs
  ]
]

pub blocks_nil : (run : List ℕ) → blocks run [] ≡ block run
unfolding blocks
blocks_nil run = refl

pub blocks_zero :
    (run : List ℕ) (x : ℕ) (xs : List ℕ)
    → x == 0 ≡ true
    → blocks run (x ∷ xs) ≡ block run ++ blocks [] xs
unfolding blocks
blocks_zero run x xs e = rw (e, blocks) refl

pub blocks_full :
    (run : List ℕ) (x : ℕ) (xs : List ℕ)
    → x == 0 ≡ false
    → length run == 254 ≡ true
    → blocks run (x ∷ xs) ≡ block run ++ blocks (x ∷ []) xs
unfolding blocks
blocks_full run x xs e f = rw (e, f, blocks) refl

pub blocks_more :
    (run : List ℕ) (x : ℕ) (xs : List ℕ)
    → x == 0 ≡ false
    → length run == 254 ≡ false
    → blocks run (x ∷ xs) ≡ blocks (run ++ (x ∷ [])) xs
unfolding blocks
blocks_more run x xs e f = rw (e, f, blocks) refl

-- What is left of a message: a zero behind a full block, of 254 bytes, is lost. The number is that
-- of the bytes in the block that is not finished.
unfoldable pub kept : ℕ → List ℕ → List ℕ
kept n [] = []
kept n (x ∷ xs) = elim (x == 0) [
  | true ↦ if n == 254 then kept 0 xs else 0 ∷ kept 0 xs
  | false ↦ x ∷ kept (if n == 254 then 1 else n + 1) xs
]

module _ (n x : ℕ) (xs : List ℕ) where
  pub kept_lost : x == 0 ≡ true → n == 254 ≡ true → kept n (x ∷ xs) ≡ kept 0 xs
  unfolding kept
  kept_lost e f = rw (e, f, kept) refl

  pub kept_zero : x == 0 ≡ true → n == 254 ≡ false → kept n (x ∷ xs) ≡ x ∷ kept 0 xs
  unfolding kept
  kept_zero e f = rw ((==_iff x 0).0 e) (rw (f, kept) refl)

  pub kept_full : x == 0 ≡ false → n == 254 ≡ true → kept n (x ∷ xs) ≡ x ∷ kept 1 xs
  unfolding kept
  kept_full e f = rw (e, f, kept) refl

  pub kept_more : x == 0 ≡ false → n == 254 ≡ false → kept n (x ∷ xs) ≡ x ∷ kept (n + 1) xs
  unfolding kept
  kept_more e f = rw (e, f, kept) refl

pub length-kept : (n : ℕ) (xs : List ℕ) → length (kept n xs) ≤ length xs
unfolding kept
length-kept n [] = omega arith
length-kept n (x ∷ xs) =
    ground (arith, length-kept 0 xs, length-kept (if n == 254 then 1 else n + 1) xs)

-- Each message has a block at least.
pub blocks_nonempty : (run xs : List ℕ) → length run < length (blocks run xs)
unfolding blocks
blocks_nonempty run [] = omega arith
blocks_nonempty run (x ∷ xs) = ground (
  arith,
  length-append (block run) (blocks [] xs),
  length-append (block run) (blocks (x ∷ []) xs),
  blocks_nonempty (run ++ (x ∷ [])) xs,
  length-append run (x ∷ []),
)

pub blocks_two :
    (run : List ℕ) (x : ℕ) (xs : List ℕ) → length run + 1 < length (blocks run (x ∷ xs))
unfolding blocks
blocks_two run x xs = ground (
  arith,
  length-append (block run) (blocks [] xs),
  length-append (block run) (blocks (x ∷ []) xs),
  blocks_nonempty [] xs,
  blocks_nonempty (x ∷ []) xs,
  blocks_nonempty (run ++ (x ∷ [])) xs,
  length-append run (x ∷ []),
)

-- One block read.
decode_block :
    (fuel room : ℕ) (run rest output : List ℕ)
    → length output + length run ≤ room
    → decode_blocks (suc fuel) room (block run ++ rest) output
      ≡ (join room (length run + 1) rest (output ++ run) >>= decode_blocks fuel room rest)
unfolding decode_blocks
decode_block fuel room run rest output fits =
    let one : length run + 1 - 1 ≡ length run = omega arith in
    rw (one, take-append run rest, drop-append run rest) (ground (arith, length-append run rest))

-- No zero stands behind a full block, nor behind the last one.
decode_block_full :
    (fuel room : ℕ) (run rest output : List ℕ)
    → length run ≡ 254
    → length output + length run ≤ room
    → decode_blocks (suc fuel) room (block run ++ rest) output
      ≡ decode_blocks fuel room rest (output ++ run)
unfolding join
decode_block_full fuel room run rest output filled fits =
    rw (decode_block fuel room run rest output fits, filled) refl

decode_block_zero :
    (fuel room : ℕ) (run rest output : List ℕ)
    → length run < 254
    → 0 < length rest
    → length output + length run < room
    → decode_blocks (suc fuel) room (block run ++ rest) output
      ≡ decode_blocks fuel room rest (output ++ (run ++ (0 ∷ [])))
decode_block_zero fuel room run rest output small more fits =
    rw (decode_block fuel room run rest output (omega (arith, fits)), joined) refl
  where
    joined : join room (length run + 1) rest (output ++ run) ≡ ok (output ++ (run ++ (0 ∷ [])))
    joined =
        unfold join in ground (arith, append_assoc output run (0 ∷ []), length-append output run)

decode_block_last :
    (fuel room : ℕ) (run output : List ℕ)
    → length output + length run ≤ room
    → decode_blocks (suc fuel) room (block run) output ≡ ok (output ++ run)
decode_block_last fuel room run output fits =
    ap (λ b. decode_blocks (suc fuel) room b output) (sym (append-nil (block run)))
    ∙ decode_block fuel room run [] output fits
    ∙ rw last (finished fuel)
  where
    last : join room (length run + 1) [] (output ++ run) ≡ ok (output ++ run)
    last = unfold join in ground arith

    finished : (n : ℕ) → decode_blocks n room [] (output ++ run) ≡ ok (output ++ run)
    finished zero = unfold decode_blocks in refl
    finished (suc n) = unfold decode_blocks in refl

-- `cobs_decode` reads back what is left of a message.
pub decode_blocks-blocks :
    (run xs : List ℕ) (fuel room : ℕ) (output : List ℕ)
    → length run ≤ 254
    → length (blocks run xs) ≤ fuel
    → length output + length run + length xs ≤ room
    → decode_blocks fuel room (blocks run xs) output ≡ ok (output ++ (run ++ kept (length run) xs))
decode_blocks-blocks run xs zero room output small enough fits =
    absurd (omega (arith, blocks_nonempty run xs))
decode_blocks-blocks run [] (suc fuel) room output small enough fits =
    unfold blocks kept in
    rw append-nil (decode_block_last fuel room run output (omega (arith, fits)))
decode_blocks-blocks run (x ∷ xs) (suc fuel) room output small enough fits =
    elim (Bool-cases (x == 0)) [
      | inl zero_byte ↦ elim (Bool-cases (length run == 254)) [
        | inl filled ↦
            let n = ap length (blocks_zero run x xs zero_byte) in
            rw (blocks_zero run x xs zero_byte, kept_lost (length run) x xs zero_byte filled)
              (decode_block_full fuel room run (blocks [] xs) output (ground arith)
                  (omega (arith, fits))
                ∙ decode_blocks-blocks [] xs fuel room (output ++ run) (omega arith)
                    (omega (arith, enough, n, length-append (block run) (blocks [] xs)))
                    (omega (arith, fits, length-append output run))
                ∙ ap ok (append_assoc output run (kept 0 xs)))
        | inr more ↦
            let n = ap length (blocks_zero run x xs zero_byte) in
            rw
              (
                blocks_zero run x xs zero_byte,
                kept_zero (length run) x xs zero_byte more,
                (==_iff x 0).0 zero_byte,
              )
              (decode_block_zero fuel room run (blocks [] xs) output (ground arith)
                  (blocks_nonempty [] xs) (omega (arith, fits))
                ∙ decode_blocks-blocks [] xs fuel room (output ++ (run ++ (0 ∷ []))) (omega arith)
                    (omega (arith, enough, n, length-append (block run) (blocks [] xs)))
                    (omega (
                      arith,
                      fits,
                      length-append output (run ++ (0 ∷ [])),
                      length-append run (0 ∷ []),
                    ))
                ∙ ap ok (
                    append_assoc output (run ++ (0 ∷ [])) (kept 0 xs)
                    ∙ ap (λ r. output ++ r) (append_assoc run (0 ∷ []) (kept 0 xs))))
      ]
      | inr other ↦ elim (Bool-cases (length run == 254)) [
        | inl filled ↦
            let n = ap length (blocks_full run x xs other filled) in
            rw (blocks_full run x xs other filled, kept_full (length run) x xs other filled)
              (decode_block_full fuel room run (blocks (x ∷ []) xs) output (ground arith)
                  (omega (arith, fits))
                ∙ decode_blocks-blocks (x ∷ []) xs fuel room (output ++ run) (omega arith)
                    (omega (arith, enough, n, length-append (block run) (blocks (x ∷ []) xs)))
                    (omega (arith, fits, length-append output run))
                ∙ ap ok (append_assoc output run (x ∷ kept 1 xs)))
        | inr more ↦
            let n = ap length (blocks_more run x xs other more) in
            let longer : length (run ++ (x ∷ [])) ≡ length run + 1 = length-append run (x ∷ []) in
            rw (blocks_more run x xs other more, kept_more (length run) x xs other more)
              (decode_blocks-blocks (run ++ (x ∷ [])) xs (suc fuel) room output
                  (ground (arith, longer)) (omega (arith, enough, n)) (omega (arith, fits, longer))
                ∙ ap (λ r. ok (output ++ r))
                    (append_assoc run (x ∷ []) (kept (length (run ++ (x ∷ []))) xs)
                      ∙ ap (λ k. run ++ (x ∷ kept k xs)) longer))
      ]
    ]
