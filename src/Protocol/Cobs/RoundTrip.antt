-- ===== src/Protocol/Cobs/RoundTrip.antt =====
-- What `cobs_decode` makes of what `cobs_encode` writes.
use binbook.Prelude.{
  ℕ, suc, ◌+◌, ◌-◌, ◌/◌, ◌≤◌, ◌<◌, ◌≡◌, ◌≢◌, refl, sym, ap, subst, ◌∙◌, false, inl, inr, List, [],
  ◌∷◌, ◌++◌, length, take, drop, ltb, ◌==◌, ==_iff, if◌then◌else◌, some, ok, All, arith, Bool-cases,
  length-append, take-append, get_or-append,
}
use mathlib.Core.List.{append_assoc}
use binbook.Protocol.Types.{frame_delimiter}
use binbook.Protocol.Cobs.Encode.{cobs_encode}
use binbook.Protocol.Cobs.Decode.{cobs_decode}
use binbook.Protocol.Cobs.Blocks.{
  block, blocks, blocks_nil, blocks_zero, blocks_full, blocks_more, kept, kept_lost, kept_zero,
  kept_full, kept_more, length-kept, decode_blocks-blocks,
}
use binbook.Protocol.Cobs.Layout.{layout, encode_bytes-blocks}

-- A code for each 254 bytes, and one more.
length-blocks :
    (run xs : List ℕ)
    → length run ≤ 254
    → (length run + length xs < length (blocks run xs))
      × (length (blocks run xs) ≤ length run + length xs + 1 + (length run + length xs) / 254)
length-blocks run [] small = omega (arith, ap length (blocks_nil run))
length-blocks run (x ∷ xs) small = elim (Bool-cases (x == 0)) [
  | inl e ↦ omega (
    arith,
    ap length (blocks_zero run x xs e),
    length-append (block run) (blocks [] xs),
    length-blocks [] xs (omega arith),
  )
  | inr e ↦ elim (Bool-cases (length run == 254)) [
    | inl f ↦ omega (
      arith,
      (==_iff (length run) 254).0 f,
      ap length (blocks_full run x xs e f),
      length-append (block run) (blocks (x ∷ []) xs),
      length-blocks (x ∷ []) xs (omega arith),
    )
    | inr f ↦ omega (
      arith,
      ap length (blocks_more run x xs e f),
      length-append run (x ∷ []),
      length-blocks (run ++ (x ∷ [])) xs (ground (arith, length-append run (x ∷ []))),
    )
  ]
]

abbrev pub NonZero : ℕ → Type 0
NonZero b = 0 < b

All-append : (xs ys : List ℕ) → All NonZero xs → All NonZero ys → All NonZero (xs ++ ys)
All-append [] ys h k = k
All-append (x ∷ xs) ys h k = (h.0, All-append xs ys h.1 k)

blocks-NonZero : (run xs : List ℕ) → All NonZero run → All NonZero (blocks run xs)
blocks-NonZero run [] h = rw (blocks_nil run) (omega arith, h)
blocks-NonZero run (x ∷ xs) h = elim (Bool-cases (x == 0)) [
  | inl e ↦
      rw (blocks_zero run x xs e)
        (All-append (block run) (blocks [] xs) (omega arith, h) (blocks-NonZero [] xs tt))
  | inr e ↦ elim (Bool-cases (length run == 254)) [
    | inl f ↦ rw (blocks_full run x xs e f) (
        All-append (block run) (blocks (x ∷ []) xs) (omega arith, h)
          (blocks-NonZero (x ∷ []) xs (ground arith, tt)))
    | inr f ↦
        rw (blocks_more run x xs e f)
          (blocks-NonZero (run ++ (x ∷ [])) xs (All-append run (x ∷ []) h (ground arith, tt)))
  ]
]

cobs_encode-blocks :
    (input output : List ℕ)
    → length input + length input / 254 + 2 ≤ length output
    → cobs_encode input output
      ≡ some (
        ok (length (blocks [] input) + 1),
        blocks [] input ++ (0 ∷ drop (length (blocks [] input) + 1) output),
      )
unfolding cobs_encode layout
cobs_encode-blocks input [] room = absurd (omega arith)
cobs_encode-blocks input (o ∷ rest) room =
    let size = length-blocks [] input (omega arith) in
    let test : ltb (length (o ∷ rest)) (length input + 2) ≡ false = ground (arith, room) in
    let shift : length (blocks [] input) + 1 ≡ suc (length (blocks [] input)) = omega arith in
    let none_held : length (blocks [] input) - 0 ≡ length (blocks [] input) = omega arith in
    let run = encode_bytes-blocks input [] o [] rest (omega (arith, size, room)) in
    rw (test, shift) (run ∙ rw (none_held, shift) refl)

cobs_decode-blocks :
    (input : List ℕ) (room : ℕ)
    → length input ≤ room
    → cobs_decode (blocks [] input ++ (0 ∷ [])) room ≡ ok (kept 0 input)
unfolding cobs_decode
cobs_decode-blocks input room fits =
    let size = length-append (blocks [] input) (0 ∷ []) in
    let last : length (blocks [] input ++ (0 ∷ [])) - 1 ≡ length (blocks [] input) =
      omega (arith, size) in
    let some_byte : length (blocks [] input ++ (0 ∷ [])) == 0 ≡ false = ground (arith, size) in
    rw
      (
        some_byte,
        last,
        get_or-append (blocks [] input) 0 [] 1,
        take-append (blocks [] input) (0 ∷ []),
      )
      (decode_blocks-blocks [] input _ room [] (omega arith) (omega (arith, size))
        (omega (arith, fits)))

-- No zero stands behind a full block, of 254 bytes; `n` bytes are in the block that is not finished.
abbrev pub ZerosKept : ℕ → List ℕ → Type 0
ZerosKept n [] = Unit {0}
ZerosKept n (x ∷ xs) =
    (x ≡ 0 → n ≢ 254) × ZerosKept (if x == 0 then 0 else if n == 254 then 1 else n + 1) xs

-- A message of up to 254 bytes is one of these.
pub short-ZerosKept : (n : ℕ) (xs : List ℕ) → n + length xs ≤ 254 → ZerosKept n xs
short-ZerosKept n [] h = tt
short-ZerosKept n (x ∷ xs) h = (
  λ e f. omega (arith, h, f),
  short-ZerosKept (if x == 0 then 0 else if n == 254 then 1 else n + 1) xs (ground (arith, h)),
)

kept-ZerosKept : (n : ℕ) (xs : List ℕ) → ZerosKept n xs → kept n xs ≡ xs
kept-ZerosKept n [] h = unfold kept in refl
kept-ZerosKept n (x ∷ xs) h = elim (Bool-cases (x == 0)) [
  | inl e ↦ elim (Bool-cases (n == 254)) [
    | inl f ↦ absurd (h.0 ((==_iff x 0).0 e) ((==_iff n 254).0 f))
    | inr f ↦
        kept_zero n x xs e f
        ∙ ap (λ r. x ∷ r) (kept-ZerosKept 0 xs (subst (λ k. ZerosKept k xs) (ground arith) h.1))
  ]
  | inr e ↦ elim (Bool-cases (n == 254)) [
    | inl f ↦
        kept_full n x xs e f
        ∙ ap (λ r. x ∷ r) (kept-ZerosKept 1 xs (subst (λ k. ZerosKept k xs) (ground arith) h.1))
    | inr f ↦
        kept_more n x xs e f
        ∙ ap (λ r. x ∷ r)
            (kept-ZerosKept (n + 1) xs (subst (λ k. ZerosKept k xs) (ground arith) h.1))
  ]
]

-- A run of bytes that fills a block takes the zero behind it along.
kept-run :
    (n : ℕ) (run xs : List ℕ)
    → All NonZero run
    → n + length run ≡ 254
    → kept n (run ++ (0 ∷ xs)) ≡ run ++ kept 0 xs
kept-run n [] xs h e = kept_lost n 0 xs refl (ground (arith, e))
kept-run n (x ∷ run) xs h e =
    kept_more n x (run ++ (0 ∷ xs)) (ground (arith, h.0)) (ground (arith, e))
    ∙ ap (λ r. x ∷ r) (kept-run (n + 1) run xs h.1 (omega (arith, e)))

take_framed : (all rest : List ℕ) → take (length all + 1) (all ++ (0 ∷ rest)) ≡ all ++ (0 ∷ [])
take_framed all rest =
    let one = length-append all (0 ∷ []) in
    rw (sym (append_assoc all (0 ∷ []) rest), sym one) (take-append (all ++ (0 ∷ [])) rest)

-- Where a message is encoded in a buffer that is long enough, what was written is read back.
module _ (input output : List ℕ)
    (room : length input + length input / 254 + 2 ≤ length output) where
  read_back :
      (space : ℕ)
      → length input ≤ space
      → (n : ℕ) × (out : List ℕ) × (cobs_encode input output ≡ some (ok n, out))
        × (cobs_decode (take n out) space ≡ ok (kept 0 input))
        × (n ≤ length input + length input / 254 + 2)
  read_back space fits = (
    _,
    _,
    cobs_encode-blocks input output room,
    ap (λ b. cobs_decode b space) (take_framed (blocks [] input) _)
        ∙ cobs_decode-blocks input space fits,
    omega (arith, length-blocks [] input (omega arith)),
  )

-- A message in which no zero stands directly behind a full block of 254 bytes is read back from what
-- `cobs_encode` writes to a buffer with a byte for each, one more for each 254 of them and two more, if
-- the output of `cobs_decode` has room for the message; no more bytes are written than this.
pub cobs_decode-cobs_encode :
    (input output : List ℕ) (space : ℕ)
    → ZerosKept 0 input
    → length input + length input / 254 + 2 ≤ length output
    → length input ≤ space
    → (n : ℕ) × (out : List ℕ) × (cobs_encode input output ≡ some (ok n, out))
      × (cobs_decode (take n out) space ≡ ok input)
      × (n ≤ length input + length input / 254 + 2)
cobs_decode-cobs_encode input output space zeros room fits =
    subst
      (λ xs.
        (n : ℕ) × (out : List ℕ) × (cobs_encode input output ≡ some (ok n, out))
        × (cobs_decode (take n out) space ≡ ok xs)
        × (n ≤ length input + length input / 254 + 2))
      (kept-ZerosKept 0 input zeros) (read_back input output room space fits)

-- Where a message starts with 254 bytes that are not zero and a zero behind them, what is read back
-- from its encoding is shorter than the message: the zero is lost.
pub cobs_decode-lost_zero :
    (run rest output : List ℕ) (space : ℕ)
    → All NonZero run
    → length run ≡ 254
    → length (run ++ (0 ∷ rest)) + length (run ++ (0 ∷ rest)) / 254 + 2 ≤ length output
    → length (run ++ (0 ∷ rest)) ≤ space
    → (n : ℕ) × (out read : List ℕ) × (cobs_encode (run ++ (0 ∷ rest)) output ≡ some (ok n, out))
      × (cobs_decode (take n out) space ≡ ok read)
      × (length read < length (run ++ (0 ∷ rest)))
cobs_decode-lost_zero run rest output space nonzero full room fits =
    let back = read_back (run ++ (0 ∷ rest)) output room space fits in
    (
      back.0,
      back.1,
      _,
      back.2,
      back.3,
      omega (
        arith,
        ap length (kept-run 0 run rest nonzero (omega (arith, full))),
        length-append run (kept 0 rest),
        length-append run (0 ∷ rest),
        length-kept 0 rest,
      ),
    )

-- In a buffer with a byte for each of the message, one more for each 254 of them and two more,
-- `cobs_encode` does not
-- panic: it answers how many bytes it wrote, no more than that, of which the last and no other is the
-- delimiter, and leaves the bytes behind them as they were.
pub cobs_encode-fits :
    (input output : List ℕ)
    → length input + length input / 254 + 2 ≤ length output
    → (encoded : List ℕ) × (cobs_encode input output
        ≡ some (
          ok (length encoded + 1),
          encoded ++ (frame_delimiter ∷ drop (length encoded + 1) output),
        ))
      × (length encoded + 1 ≤ length input + length input / 254 + 2)
      × All NonZero encoded
cobs_encode-fits input output room = (
  blocks [] input,
  cobs_encode-blocks input output room,
  omega (arith, length-blocks [] input (omega arith)),
  blocks-NonZero [] input tt,
)
