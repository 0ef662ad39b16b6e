-- ===== src/Prelude/Search.antt =====
-- Searching and summing over lists: predicates on all members, the first position that passes a
-- test, and sums of weights, each with its law for a write by `set`.
use Prim.Native.Nat.{ℕ, zero, suc, ◌+◌, ◌≤◌, ◌<◌}
use mathlib.Core.Path.{◌≡◌, refl, ap}
use mathlib.Core.Bool.{Bool, true, false}
use mathlib.Core.List.{List, [], ◌∷◌}
use mathlib.Core.Option.{Option, none, some}
use native.Mathlib.Omega.{arith}
use binbook.Prelude.Tests.{if◌then◌else◌}
use binbook.Prelude.Lists.{length, get_elem?, set, replicate}

abbrev pub bit : Bool → ℕ
bit true = 1
bit false = 0

module _ {ℓ} {A : Type ℓ} where
  abbrev pub All {κ} : (A → Type κ) → List A → Type κ
  All P [] = Unit {κ}
  All P (x ∷ xs) = P x × All P xs

  -- The sum of a weight over the members.
  abbrev pub sum_of : (A → ℕ) → List A → ℕ
  sum_of w [] = 0
  sum_of w (x ∷ xs) = w x + sum_of w xs

  -- `iter().position(p)`
  abbrev pub position : (A → Bool) → List A → Option ℕ
  position p [] = none
  position p (x ∷ xs) =
      if p x then some 0 else elim (position p xs) [ none ↦ none | some i ↦ some (suc i) ]

module _ {ℓ κ} {A : Type ℓ} (P : A → Type κ) where
  pub All-set : (xs : List A) (i : ℕ) (v : A) → All P xs → P v → All P (set xs i v)
  All-set [] i v h hv = h
  All-set (x ∷ xs) zero v h hv = (hv, h.1)
  All-set (x ∷ xs) (suc i) v h hv = (h.0, All-set xs i v h.1 hv)

  pub All-replicate : (n : ℕ) (v : A) → P v → All P (replicate n v)
  All-replicate zero v h = tt
  All-replicate (suc n) v h = (h, All-replicate n v h)

  pub All-get : (xs : List A) (i : ℕ) {x : A} → All P xs → get_elem? xs i ≡ some x → P x
  All-get [] i h e = absurd (cc)
  All-get (y ∷ ys) zero {x} h e = let e' : y ≡ x = cc in rw (← e') h.0
  All-get (y ∷ ys) (suc i) h e = All-get ys i h.1 e

module _ {ℓ} {A : Type ℓ} where
  pub sum_of-set :
      (w : A → ℕ) (xs : List A) (i : ℕ) (v : A) {x : A}
      → get_elem? xs i ≡ some x
      → sum_of w (set xs i v) + w x ≡ sum_of w xs + w v
  sum_of-set w [] i v e = absurd (cc)
  sum_of-set w (y ∷ ys) zero v {x} e = let e' : y ≡ x = cc in rw e' (omega arith)
  sum_of-set w (y ∷ ys) (suc i) v e = omega (arith, sum_of-set w ys i v e)

  pub sum_of-bit_le : (p : A → Bool) (xs : List A) → sum_of (λ x. bit (p x)) xs ≤ length xs
  sum_of-bit_le p [] = omega arith
  sum_of-bit_le p (x ∷ xs) = ground (arith, sum_of-bit_le p xs)

  pub position-some :
      (p : A → Bool) (xs : List A) (i : ℕ)
      → position p xs ≡ some i
      → (x : A) × (get_elem? xs i ≡ some x) × (p x ≡ true)
  position-some p [] i e = absurd (cc)
  position-some p (x ∷ xs) zero e = (x, refl, ground arith)
  position-some p (x ∷ xs) (suc i) e = position-some p xs i (ground arith)

  pub position-none :
      (p : A → Bool) (xs : List A) → position p xs ≡ none → All (λ x. p x ≡ false) xs
  position-none p [] e = tt
  position-none p (x ∷ xs) e = ground (arith, position-none p xs)

module _ {ℓ} {A : Type ℓ} where
  pub get-lt : (xs : List A) (i : ℕ) {x : A} → get_elem? xs i ≡ some x → i < length xs
  get-lt [] i e = absurd (cc)
  get-lt (x ∷ xs) zero e = omega arith
  get-lt (x ∷ xs) (suc i) e = omega (arith, get-lt xs i e)

  pub set-set : (xs : List A) (i : ℕ) (a b : A) → set (set xs i a) i b ≡ set xs i b
  set-set [] i a b = refl
  set-set (x ∷ xs) zero a b = refl
  set-set (x ∷ xs) (suc i) a b = ap (λ r. x ∷ r) (set-set xs i a b)

  pub set-get : (xs : List A) (i : ℕ) {x : A} → get_elem? xs i ≡ some x → set xs i x ≡ xs
  set-get [] i e = refl
  set-get (y ∷ ys) zero {x} e = let e' : y ≡ x = cc in rw e'
  set-get (y ∷ ys) (suc i) e = ap (λ r. y ∷ r) (set-get ys i e)
