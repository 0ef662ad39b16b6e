-- ===== src/Reader/State/Records.antt =====
-- The list of records of the reading state of reader_state.rs.
use binbook.Prelude.{
  ℕ, ◌≤◌, ◌≡◌, refl, sym, Bool, true, false, inl, inr, ◌⊎◌, none, some, List, [], ◌∷◌, ◌++◌, length,
  All, arith, Bool-cases,
}
use binbook.Reader.State.{ProgressRecord, bytes_eq, has_key, replace_record, retain}

pub bytes_eq_refl : (xs : List ℕ) → bytes_eq xs xs ≡ true
unfolding bytes_eq
bytes_eq_refl [] = refl
bytes_eq_refl (x ∷ xs) = ground (arith, bytes_eq_refl xs)

pub bytes_eq-eq : (xs ys : List ℕ) → bytes_eq xs ys ≡ true → xs ≡ ys
unfolding bytes_eq
bytes_eq-eq [] [] e = refl
bytes_eq-eq [] (y ∷ ys) e = absurd (ground (arith, e))
bytes_eq-eq (x ∷ xs) [] e = absurd (ground (arith, e))
bytes_eq-eq (x ∷ xs) (y ∷ ys) e = ground (arith, e, bytes_eq-eq xs ys)

-- The keys of a record.
pub has_key_self : (r : ProgressRecord) → has_key r.filename_hash r.rendition_hash r ≡ true
unfolding has_key
has_key_self r = ground (arith, bytes_eq_refl r.rendition_hash)

pub has_key-eq :
    (filename : ℕ) (rendition : List ℕ) (r : ProgressRecord)
    → has_key filename rendition r ≡ true
    → (r.filename_hash ≡ filename) × (r.rendition_hash ≡ rendition)
unfolding has_key
has_key-eq filename rendition r e =
    (ground (arith, e), bytes_eq-eq r.rendition_hash rendition (ground (arith, e)))

-- No record of the list has the key of the given one.
abbrev pub IsNew : ProgressRecord → List ProgressRecord → Type 0
IsNew r rs = All (λ other. has_key r.filename_hash r.rendition_hash other ≡ false) rs

abbrev pub Distinct : List ProgressRecord → Type 0
Distinct [] = Unit {0}
Distinct (r ∷ rs) = IsNew r rs × Distinct rs

pub has_key-sym :
    (q r : ProgressRecord)
    → has_key q.filename_hash q.rendition_hash r ≡ false
    → has_key r.filename_hash r.rendition_hash q ≡ false
has_key-sym q r e = elim (Bool-cases (has_key r.filename_hash r.rendition_hash q)) [
  | inl same ↦
      let (file, rendition) = has_key-eq r.filename_hash r.rendition_hash q same in
      let other : has_key q.filename_hash q.rendition_hash r ≡ true =
        rw (file, rendition) (has_key_self r) in
      absurd (ground (arith, e, other))
  | inr differ ↦ differ
]

-- A record replaced.
module _ (new : ProgressRecord) where
  replace-here :
      (r : ProgressRecord) (rs : List ProgressRecord)
      → has_key new.filename_hash new.rendition_hash r ≡ true
      → replace_record new (r ∷ rs) ≡ some (new ∷ rs)
  unfolding replace_record
  replace-here r rs e = rw (e, replace_record) refl

  replace-later :
      (r : ProgressRecord) (rs rest : List ProgressRecord)
      → has_key new.filename_hash new.rendition_hash r ≡ false
      → replace_record new rs ≡ some rest
      → replace_record new (r ∷ rs) ≡ some (r ∷ rest)
  unfolding replace_record
  replace-later r rs rest e f = rw (e, f, replace_record) refl

  replace-none :
      (r : ProgressRecord) (rs : List ProgressRecord)
      → has_key new.filename_hash new.rendition_hash r ≡ false
      → replace_record new rs ≡ none
      → replace_record new (r ∷ rs) ≡ none
  unfolding replace_record
  replace-none r rs e f = rw (e, f, replace_record) refl

-- The ways in which a record is replaced, or is not there.
pub data Replaced (new : ProgressRecord) : List ProgressRecord → List ProgressRecord → Type 0 where
  here :
      {r : ProgressRecord} {rs : List ProgressRecord}
      → has_key new.filename_hash new.rendition_hash r ≡ true
      → Replaced new (r ∷ rs) (new ∷ rs)
  later :
      {r : ProgressRecord} {rs rest : List ProgressRecord}
      → has_key new.filename_hash new.rendition_hash r ≡ false
      → Replaced new rs rest
      → Replaced new (r ∷ rs) (r ∷ rest)

pub replace-cases :
    (new : ProgressRecord) (rs : List ProgressRecord)
    → ((rest : List ProgressRecord) × (replace_record new rs ≡ some rest) × Replaced new rs rest)
      ⊎ ((replace_record new rs ≡ none) × IsNew new rs)
replace-cases new [] = inr (unfold replace_record in refl, tt)
replace-cases new (r ∷ rs) = elim (Bool-cases (has_key new.filename_hash new.rendition_hash r)) [
  | inl e ↦ inl (_, replace-here new r rs e, here e)
  | inr e ↦ elim (replace-cases new rs) [
    | inl (rest, same, replaced) ↦ inl (_, replace-later new r rs rest e same, later e replaced)
    | inr (same, fresh) ↦ inr (replace-none new r rs e same, (e, fresh))
  ]
]

pub Replaced-All {ℓ} :
    (P : ProgressRecord → Type ℓ) {new : ProgressRecord} {rs rest : List ProgressRecord}
    → Replaced new rs rest
    → P new
    → All P rs
    → All P rest
Replaced-All P (here e) p h = (p, h.1)
Replaced-All P (later e replaced) p h = (h.0, Replaced-All P replaced p h.1)

pub Replaced-length :
    {new : ProgressRecord} {rs rest : List ProgressRecord}
    → Replaced new rs rest
    → length rest ≡ length rs
Replaced-length (here e) = refl
Replaced-length (later e replaced) = omega (arith, Replaced-length replaced)

pub Replaced-Distinct :
    {new : ProgressRecord} {rs rest : List ProgressRecord}
    → Replaced new rs rest
    → Distinct rs
    → Distinct rest
Replaced-Distinct {new} (here {r} {rs} e) h =
    let (file, rendition) = has_key-eq new.filename_hash new.rendition_hash r e in
    (rw (sym file, sym rendition) h.0, h.1)
Replaced-Distinct {new} (later {r} e replaced) h =
    (Replaced-All _ replaced (has_key-sym new r e) h.0, Replaced-Distinct replaced h.1)

-- A record pushed.
pub All-push {ℓ} :
    (P : ProgressRecord → Type ℓ) (rs : List ProgressRecord) (new : ProgressRecord)
    → All P rs
    → P new
    → All P (rs ++ (new ∷ []))
All-push P [] new h p = (p, tt)
All-push P (r ∷ rs) new h p = (h.0, All-push P rs new h.1 p)

pub push-Distinct :
    (rs : List ProgressRecord) (new : ProgressRecord)
    → IsNew new rs
    → Distinct rs
    → Distinct (rs ++ (new ∷ []))
push-Distinct [] new fresh h = (tt, tt)
push-Distinct (r ∷ rs) new fresh h =
    (All-push _ rs new h.0 (has_key-sym new r fresh.0), push-Distinct rs new fresh.1 h.1)

-- Records retained.
module _ (keep : ProgressRecord → Bool) where
  pub retain-All {ℓ} :
      (P : ProgressRecord → Type ℓ) (rs : List ProgressRecord) → All P rs → All P (retain keep rs)
  retain-All P [] h = tt
  retain-All P (r ∷ rs) h = elim (Bool-cases (keep r)) [
    | inl e ↦ rw e (h.0, retain-All P rs h.1)
    | inr e ↦ rw e (retain-All P rs h.1)
  ]

  pub retain-Distinct : (rs : List ProgressRecord) → Distinct rs → Distinct (retain keep rs)
  retain-Distinct [] h = tt
  retain-Distinct (r ∷ rs) h = elim (Bool-cases (keep r)) [
    | inl e ↦ rw e (retain-All _ rs h.0, retain-Distinct rs h.1)
    | inr e ↦ rw e (retain-Distinct rs h.1)
  ]

  pub length-retain : (rs : List ProgressRecord) → length (retain keep rs) ≤ length rs
  length-retain [] = omega arith
  length-retain (r ∷ rs) = ground (arith, length-retain rs)
