-- ===== src/Storage/StateOwner/Load/Newest.antt =====
-- Which of two slots a load of state_owner.rs takes.
use binbook.Prelude.{
  ℕ, ◌+◌, ◌-◌, ◌^◌, ◌%◌, ◌<◌, ◌≡◌, refl, inl, inr, ltb, some, List, ok, Bool-cases, arith,
  if◌then◌else◌, take,
}
use binbook.Reader.State.{ReaderState}
use binbook.Reader.State.Wire.{decode}
use binbook.Storage.StateOwner.Load.{StateLoadClient, choose, is_newer}

distance : (g d : ℕ) → g < 2 ^ 32 → d < 2 ^ 32 → ((g + d) % 2 ^ 32 + 2 ^ 32 - g) % 2 ^ 32 ≡ d
distance g d h k = omega (arith, h, k)

-- Where a slot is selected already and another one decodes, the other replaces it exactly where its
-- generation is the older one's and less than 2^31 steps more, modulo 2^32, so that the choice
-- survives a generation that wraps around.
pub choose_newer :
    (c : StateLoadClient) (k slot total d : ℕ) (buffer : List ℕ) (candidate : ReaderState)
    → c.selected_slot ≡ some k
    → c.selected_generation < 2 ^ 32
    → d < 2 ^ 32
    → decode (take total buffer) ≡ ok candidate
    → candidate.generation ≡ (c.selected_generation + d) % 2 ^ 32
    → ((choose c slot total buffer).target ≡ (if ltb d (2 ^ 31) then candidate else c.target))
      × ((choose c slot total buffer).selected_slot
          ≡ (if ltb d (2 ^ 31) then some (slot % 2) else some k))
unfolding choose is_newer
choose_newer c k slot total d buffer candidate e g h f v =
    let newer : is_newer c.selected_slot c.selected_generation candidate.generation
        ≡ ltb d (2 ^ 31) =
      rw (e, v, is_newer, distance c.selected_generation d g h) refl in
    elim (Bool-cases (ltb d (2 ^ 31))) [
      | inl t ↦ rw (choose, f, newer, t) (refl, refl)
      | inr t ↦ rw (choose, f, newer, t) (refl, e)
    ]
