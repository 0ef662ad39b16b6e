-- ===== src/Packbits/Encode/Runs.antt =====
-- What the runs of crates/binbook-compress/src/packbits.rs hold.
use binbook.Prelude.{
  ℕ, zero, suc, ◌≤◌, ◌≡◌, refl, ap, List, [], ◌∷◌, leb, arith, length, take, replicate, leb→le,
  Bool-cases, inl, inr,
}
use binbook.Packbits.Encode.{
  Run, repeat, repeat_more, repeat_length, literal_more, next_run, max_run,
}

repeat_more_bounds :
    (n value : ℕ) (ys : List ℕ)
    → (repeat_more n value ys ≤ n) × (repeat_more n value ys ≤ length ys)
unfolding repeat_more
repeat_more_bounds zero value ys = omega arith
repeat_more_bounds (suc n) value [] = omega arith
repeat_more_bounds (suc n) value (y ∷ ys) = ground (arith, repeat_more_bounds n value ys)

repeat_more_same :
    (n value : ℕ) (ys : List ℕ)
    → take (repeat_more n value ys) ys ≡ replicate (repeat_more n value ys) value
unfolding repeat_more
repeat_more_same zero value ys = refl
repeat_more_same (suc n) value [] = refl
repeat_more_same (suc n) value (y ∷ ys) = ground (arith, repeat_more_same n value ys)

literal_more_bounds :
    (n : ℕ) (ys : List ℕ) → (literal_more n ys ≤ n) × (literal_more n ys ≤ length ys)
unfolding literal_more
literal_more_bounds zero ys = omega arith
literal_more_bounds (suc n) [] = omega arith
literal_more_bounds (suc n) (y ∷ ys) = ground (arith, literal_more_bounds n ys)

-- What `next_run` answers on an input that is not empty: a run of 1 to 128 bytes of the input, and
-- if it is a repeat, two bytes at least, which are all the first one.
pub record RunFits (x : ℕ) (xs : List ℕ) (r : Run) : Type 0 where
  pub lower : 1 ≤ r.length
  pub upper : r.length ≤ max_run
  pub inside : r.length ≤ length (x ∷ xs)
  pub same : r.kind ≡ repeat → take r.length (x ∷ xs) ≡ replicate r.length x
  pub longer : r.kind ≡ repeat → 2 ≤ r.length

pub next_run-RunFits : (x : ℕ) (xs : List ℕ) → RunFits x xs (next_run (x ∷ xs))
unfolding next_run repeat_length
next_run-RunFits x xs = elim (Bool-cases (leb 2 (repeat_length (x ∷ xs)))) [
  | inl long ↦
      let bounds = repeat_more_bounds 127 x xs in
      rw (long, next_run)
        (record {
          lower = omega arith;
          upper = omega arith;
          inside = omega arith;
          same = λ e. ap (λ r. x ∷ r) (repeat_more_same 127 x xs);
          longer = λ e. leb→le _ _ long;
        })
  | inr short ↦
      let bounds = literal_more_bounds 127 xs in
      rw (short, next_run)
        (record {
          lower = omega arith;
          upper = omega arith;
          inside = omega arith;
          same = λ e. cc;
          longer = λ e. cc;
        })
]
