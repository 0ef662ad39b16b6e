-- ===== src/Protocol/Cobs/Layout.antt =====
-- Where `cobs_encode` stands in its output: finished blocks, a place for the next code, the bytes of
-- the block that is not finished, and the rest of the buffer.
use binbook.Prelude.{
  ℕ, suc, ◌+◌, ◌-◌, ◌≤◌, ◌≡◌, refl, sym, ap, ◌∙◌, true, false, inl, inr, List, [], ◌∷◌, ◌++◌,
  length, drop, ◌==◌, Option, some, Result, ok, arith, Bool-cases, length-append, set-append,
}
use mathlib.Core.List.{append_assoc}
use binbook.Protocol.Types.{ProtocolError}
use binbook.Protocol.Cobs.Encode.{
  Encoder, store, end_block, push_byte, encode_byte, encode_bytes, end_message, ◌>>=◌,
}
use binbook.Protocol.Cobs.Blocks.{
  block, blocks, blocks_nil, blocks_zero, blocks_full, blocks_more, blocks_nonempty, blocks_two,
}

unfoldable pub layout : List ℕ → ℕ → List ℕ → List ℕ → Encoder
layout done spare run rest = record {
  output = done ++ (spare ∷ (run ++ rest));
  write_pos = length done + 1 + length run;
  code_pos = length done;
  code = length run + 1;
}

pub store-append :
    (before : List ℕ) (x : ℕ) (after : List ℕ) (v : ℕ)
    → store (before ++ (x ∷ after)) (length before) v ≡ some (before ++ (v ∷ after))
unfolding store
store-append before x after v =
    ground (arith, length-append before (x ∷ after), set-append before x after v)

end_block-layout :
    (done : List ℕ) (spare : ℕ) (run : List ℕ) (y : ℕ) (rest : List ℕ)
    → end_block (layout done spare run (y ∷ rest)) ≡ some (layout (done ++ block run) y [] rest)
unfolding end_block layout
end_block-layout done spare run y rest =
    rw (store-append done spare (run ++ (y ∷ rest)) (length run + 1))
      (ground (arith, length-append done (block run), append_assoc done (block run) (y ∷ rest)))

push_byte-layout :
    (done : List ℕ) (spare : ℕ) (run : List ℕ) (y : ℕ) (rest : List ℕ) (x : ℕ)
    → push_byte (layout done spare run (y ∷ rest)) x
      ≡ some (layout done spare (run ++ (x ∷ [])) rest)
unfolding push_byte layout
push_byte-layout done spare run y rest x =
    let at : length (done ++ (spare ∷ run)) ≡ length done + 1 + length run =
      omega (arith, length-append done (spare ∷ run)) in
    let here = store-append (done ++ (spare ∷ run)) y rest x in
    ground (
      arith,
      at,
      here,
      append_assoc done (spare ∷ run) (y ∷ rest),
      append_assoc done (spare ∷ run) (x ∷ rest),
      append_assoc run (x ∷ []) rest,
      length-append run (x ∷ []),
    )

end_message-layout :
    (done : List ℕ) (spare : ℕ) (run : List ℕ) (y : ℕ) (rest : List ℕ)
    → end_message (layout done spare run (y ∷ rest))
      ≡ some (ok (length (done ++ block run) + 1), (done ++ block run) ++ (0 ∷ rest))
unfolding end_message layout
end_message-layout done spare run y rest =
    rw (store-append done spare (run ++ (y ∷ rest)) (length run + 1))
      let at : length (done ++ block run) ≡ length done + 1 + length run =
          omega (arith, length-append done (block run)) in
        let here = store-append (done ++ block run) y rest 0 in
        ground (arith, at, here, append_assoc done (block run) (y ∷ rest))

-- A turn of the loop, on each of its three paths.
code_layout :
    (done : List ℕ) (spare : ℕ) (run rest : List ℕ)
    → (layout done spare run rest).code ≡ length run + 1
unfolding layout
code_layout done spare run rest = refl

encode_byte_zero :
    (done : List ℕ) (spare : ℕ) (run : List ℕ) (y : ℕ) (rest : List ℕ) (x : ℕ)
    → x == 0 ≡ true
    → encode_byte (layout done spare run (y ∷ rest)) x ≡ some (layout (done ++ block run) y [] rest)
unfolding encode_byte
encode_byte_zero done spare run y rest x e =
    rw (e, encode_byte) (end_block-layout done spare run y rest)

encode_byte_full :
    (done : List ℕ) (spare : ℕ) (run : List ℕ) (y z : ℕ) (rest : List ℕ) (x : ℕ)
    → x == 0 ≡ false
    → length run == 254 ≡ true
    → encode_byte (layout done spare run (y ∷ z ∷ rest)) x
      ≡ some (layout (done ++ block run) y (x ∷ []) rest)
unfolding encode_byte
encode_byte_full done spare run y z rest x e f = ground (
  arith,
  end_block-layout done spare run y (z ∷ rest),
  push_byte-layout (done ++ block run) y [] z rest x,
  code_layout done spare run (y ∷ z ∷ rest),
)

encode_byte_more :
    (done : List ℕ) (spare : ℕ) (run : List ℕ) (y : ℕ) (rest : List ℕ) (x : ℕ)
    → x == 0 ≡ false
    → length run == 254 ≡ false
    → encode_byte (layout done spare run (y ∷ rest)) x
      ≡ some (layout done spare (run ++ (x ∷ [])) rest)
unfolding encode_byte
encode_byte_more done spare run y rest x e f =
    ground (arith, push_byte-layout done spare run y rest x, code_layout done spare run (y ∷ rest))

-- A message that takes the first `n` bytes of the rest of the buffer, and one for the delimiter.
abbrev pub framed : List ℕ → ℕ → List ℕ → Option (Result ProtocolError ℕ × List ℕ)
framed all n rest = some (ok (length all + 1), all ++ (0 ∷ drop n rest))

framed_eq :
    {all all' : List ℕ} (n n' : ℕ) (rest : List ℕ)
    → all ≡ all'
    → n ≡ n'
    → framed all n rest ≡ framed all' n' rest
framed_eq n n' rest same equal = rw (same, equal) refl

framed-cons :
    {all all' : List ℕ} (n n' y : ℕ) (rest : List ℕ)
    → all ≡ all'
    → n' ≡ n + 1
    → framed all n rest ≡ framed all' n' (y ∷ rest)
framed-cons n n' y rest same more =
    let next : n' ≡ suc n = omega (arith, more) in rw (same, next) refl

-- What the loop and the end of `cobs_encode` make of the rest of a message, in a buffer that is long
-- enough: the blocks, a zero, and the rest of the buffer as it was.
pub encode_bytes-blocks :
    (xs done : List ℕ) (spare : ℕ) (run rest : List ℕ)
    → length (blocks run xs) ≤ length run + length rest
    → (encode_bytes (layout done spare run rest) xs >>= end_message)
      ≡ framed (done ++ blocks run xs) (length (blocks run xs) - length run) rest
unfolding encode_bytes
encode_bytes-blocks xs done spare run [] fits = absurd (omega (arith, blocks_nonempty run xs))
encode_bytes-blocks [] done spare run (y ∷ rest) fits =
    end_message-layout done spare run y rest
    ∙ framed_eq 1 _ (y ∷ rest) (ap (λ b. done ++ b) (sym (blocks_nil run)))
        (omega (arith, ap length (blocks_nil run)))
encode_bytes-blocks (x ∷ xs) done spare run (y ∷ []) fits =
    absurd (omega (arith, fits, blocks_two run x xs))
encode_bytes-blocks (x ∷ xs) done spare run (y ∷ z ∷ rest) fits = elim (Bool-cases (x == 0)) [
  | inl zero_byte ↦
      let same = blocks_zero run x xs zero_byte in
      let size = ap length same ∙ length-append (block run) (blocks [] xs) in
      rw (encode_byte_zero done spare run y (z ∷ rest) x zero_byte) (
        encode_bytes-blocks xs (done ++ block run) y [] (z ∷ rest) (omega (arith, fits, size))
        ∙ framed-cons _ _ y (z ∷ rest)
            (append_assoc done (block run) (blocks [] xs) ∙ ap (λ b. done ++ b) (sym same))
            (omega (arith, size)))
  | inr other ↦ elim (Bool-cases (length run == 254)) [
    | inl filled ↦
        let same = blocks_full run x xs other filled in
        let size = ap length same ∙ length-append (block run) (blocks (x ∷ []) xs) in
        rw (encode_byte_full done spare run y z rest x other filled) (
          encode_bytes-blocks xs (done ++ block run) y (x ∷ []) rest (omega (arith, fits, size))
          ∙ framed-cons _ (length (blocks (x ∷ []) xs)) z rest
              (append_assoc done (block run) (blocks (x ∷ []) xs) ∙ ap (λ b. done ++ b) (sym same))
              (omega (arith, blocks_nonempty (x ∷ []) xs))
          ∙ framed-cons _ _ y (z ∷ rest) refl (omega (arith, size)))
    | inr more ↦
        let same = blocks_more run x xs other more in
        let longer = length-append run (x ∷ []) in
        rw (encode_byte_more done spare run y (z ∷ rest) x other more) (
          encode_bytes-blocks xs done spare (run ++ (x ∷ [])) (z ∷ rest)
            (omega (arith, fits, ap length same, longer))
          ∙ framed-cons _ _ y (z ∷ rest) (ap (λ b. done ++ b) (sym same))
              (omega (arith, ap length same, longer, blocks_nonempty (run ++ (x ∷ [])) xs)))
  ]
]
