-- ===== src/Protocol/Cobs/Fuel.antt =====
-- The fuel of the loop of `cobs_decode`.
use binbook.Prelude.{
  ℕ, zero, suc, ◌+◌, ◌-◌, ◌≤◌, ◌≡◌, refl, ◌||◌, inl, inr, List, [], ◌∷◌, ◌++◌, length, take, drop,
  ltb, ◌==◌, arith, Bool-cases, Result-cases, length-drop,
}
use binbook.Protocol.Cobs.Decode.{join, decode_blocks}

-- Any two amounts of fuel of the length of the input or more give the same.
decode_blocks_fuel :
    (n m room : ℕ) (rest output : List ℕ)
    → length rest ≤ n
    → length rest ≤ m
    → decode_blocks n room rest output ≡ decode_blocks m room rest output
unfolding decode_blocks
decode_blocks_fuel zero zero room [] output p q = refl
decode_blocks_fuel zero (suc m) room [] output p q = refl
decode_blocks_fuel (suc n) zero room [] output p q = refl
decode_blocks_fuel (suc n) (suc m) room [] output p q = refl
decode_blocks_fuel zero m room (code ∷ rest) output p q = absurd (omega (arith, p))
decode_blocks_fuel (suc n) zero room (code ∷ rest) output p q = absurd (omega (arith, q))
decode_blocks_fuel (suc n) (suc m) room (code ∷ rest) output p q =
    let left = drop (code - 1) rest in
    elim (Bool-cases (code == 0 || ltb (length rest) (code - 1))) [
      | inl e ↦ rw e refl
      | inr e ↦ elim (Bool-cases (ltb room (length output + (code - 1)))) [
        | inl f ↦ rw (e, f) refl
        | inr f ↦ elim (Result-cases (join room code left (output ++ take (code - 1) rest))) [
          | inl (joined, j) ↦
              rw (e, f, j)
                (decode_blocks_fuel n m room left joined
                  (omega (arith, p, length-drop (code - 1) rest))
                  (omega (arith, q, length-drop (code - 1) rest)))
          | inr (error, j) ↦ rw (e, f, j) refl
        ]
      ]
    ]
