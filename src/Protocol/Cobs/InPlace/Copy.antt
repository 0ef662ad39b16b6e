-- ===== src/Protocol/Cobs/InPlace/Copy.antt =====
-- The copying of a block in `cobs_decode_in_place`, over the gap before it.
use binbook.Prelude.{
  ℕ, ◌+◌, ◌<◌, ◌≡◌, refl, sym, ap, ◌∙◌, some, List, [], ◌∷◌, ◌++◌, length, get_elem?, arith,
  length-append,
}
use mathlib.Core.List.{append-nil, append_assoc}
use binbook.Protocol.Cobs.Encode.{store}
use binbook.Protocol.Cobs.Layout.{store-append}
use binbook.Protocol.Cobs.InPlace.{copy}

pub get_elem?-append :
    (xs : List ℕ) (y : ℕ) (ys : List ℕ) → get_elem? (xs ++ (y ∷ ys)) (length xs) ≡ some y
get_elem?-append [] y ys = refl
get_elem?-append (x ∷ xs) y ys = get_elem?-append xs y ys

-- The byte behind the gap, and a write to the gap.
pub get-behind_gap :
    (output gap : List ℕ) (x : ℕ) (rest : List ℕ) (read_pos : ℕ)
    → read_pos ≡ length output + length gap
    → get_elem? (output ++ (gap ++ (x ∷ rest))) read_pos ≡ some x
get-behind_gap output gap x rest read_pos e =
    let at : read_pos ≡ length (output ++ gap) = omega (arith, e, length-append output gap) in
    rw (at, sym (append_assoc output gap (x ∷ rest))) (get_elem?-append (output ++ gap) x rest)

pub store-at :
    (output : List ℕ) (g : ℕ) (rest : List ℕ) (write_pos v : ℕ)
    → write_pos ≡ length output
    → store (output ++ (g ∷ rest)) write_pos v ≡ some ((output ++ (v ∷ [])) ++ rest)
store-at output g rest write_pos v e =
    rw (e, append_assoc output (v ∷ []) rest) (store-append output g rest v)

pub copy-gap :
    (run output gap after : List ℕ) (write_pos read_pos : ℕ)
    → 0 < length gap
    → write_pos ≡ length output
    → read_pos ≡ length output + length gap
    → (left : List ℕ) × (length left ≡ length gap)
      × (copy (length run) (output ++ (gap ++ (run ++ after))) write_pos read_pos
          ≡ some ((output ++ run) ++ (left ++ after)))
unfolding copy
copy-gap [] output gap after w r some_gap here there =
    (gap, refl, ap some (ap (λ o. o ++ (gap ++ after)) (sym (append-nil output))))
copy-gap (x ∷ run) output [] after w r some_gap here there = absurd (omega (arith, some_gap))
copy-gap (x ∷ run) output (g ∷ gap) after w r some_gap here there =
    let longer = length-append gap (x ∷ []) in
    let (left, size, moved) =
      copy-gap run (output ++ (x ∷ [])) (gap ++ (x ∷ [])) after (w + 1) (r + 1)
        (omega (arith, longer)) (omega (arith, here, length-append output (x ∷ [])))
        (omega (arith, there, longer, length-append output (x ∷ []))) in
    (
      left,
      omega (arith, size, longer),
      rw
          (
            get-behind_gap output (g ∷ gap) x (run ++ after) r there,
            store-at output g (gap ++ (x ∷ (run ++ after))) w x here,
            sym (append_assoc gap (x ∷ []) (run ++ after)),
          )
          (moved ∙ ap (λ o. some (o ++ (left ++ after))) (append_assoc output (x ∷ []) run)),
    )
