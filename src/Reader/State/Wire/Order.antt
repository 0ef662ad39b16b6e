-- ===== src/Reader/State/Wire/Order.antt =====
-- The records of a reading state in another order.
use mathlib.Core.List.{Permᴰ}
use binbook.Prelude.{
  ℕ, ◌≡◌, refl, sym, ap, subst, ◌∙◌, true, false, inl, inr, List, ◌∷◌, length, All, arith,
  Bool-cases,
}
use binbook.Reader.State.{ProgressRecord, has_key, find_record}
use binbook.Reader.State.Records.{has_key-eq, has_key-sym, IsNew, Distinct}
use binbook.Reader.State.Lookup.{find-here, find-later, find-cons}
use binbook.Reader.State.Invariant.{Sound, HasHash}

pub Perm-All :
    (P : ProgressRecord → Type 0) {rs rest : List ProgressRecord}
    → Permᴰ rs rest
    → All P rs
    → All P rest
Perm-All P Permᴰ.nil h = h
Perm-All P (Permᴰ.cons e p) h = (subst P e h.0, Perm-All P p h.1)
Perm-All P (Permᴰ.swap e f) h = (subst P f h.1.0, (subst P e h.0, h.1.1))
Perm-All P (Permᴰ.trans p q) h = Perm-All P q (Perm-All P p h)

pub Perm-length : {rs rest : List ProgressRecord} → Permᴰ rs rest → length rs ≡ length rest
Perm-length Permᴰ.nil = refl
Perm-length (Permᴰ.cons e p) = omega (arith, Perm-length p)
Perm-length (Permᴰ.swap e f) = refl
Perm-length (Permᴰ.trans p q) = Perm-length p ∙ Perm-length q

-- The same for records that are equal to these.
Perm-Distinct : {rs rest : List ProgressRecord} → Permᴰ rs rest → Distinct rs → Distinct rest
Perm-Distinct Permᴰ.nil h = h
Perm-Distinct (Permᴰ.cons {l₂ = l₂} e p) h =
    (subst (λ r. IsNew r l₂) e (Perm-All _ p h.0), Perm-Distinct p h.1)
Perm-Distinct (Permᴰ.swap {a} {b} {a' = a'} {l = l} e f) h =
    subst (λ c. Distinct (a' ∷ c ∷ l)) e
      (subst (λ c. Distinct (c ∷ a ∷ l)) f ((has_key-sym a b h.0.0, h.1.0), (h.0.1, h.1.1)))
Perm-Distinct (Permᴰ.trans p q) h = Perm-Distinct q (Perm-Distinct p h)

pub Perm-Sound : {rs rest : List ProgressRecord} → Permᴰ rs rest → Sound rs → Sound rest
Perm-Sound p h = record {
  distinct = Perm-Distinct p h.distinct;
  bounded = omega (arith, Perm-length p, h.bounded);
  hashes = Perm-All HasHash p h.hashes;
}

-- Two records with different keys, in either order.
find-swap :
    (filename : ℕ) (rendition : List ℕ) (a b : ProgressRecord) (rs : List ProgressRecord)
    → has_key a.filename_hash a.rendition_hash b ≡ false
    → find_record filename rendition (a ∷ b ∷ rs) ≡ find_record filename rendition (b ∷ a ∷ rs)
find-swap filename rendition a b rs differ = elim (Bool-cases (has_key filename rendition a)) [
  | inl e ↦ elim (Bool-cases (has_key filename rendition b)) [
    | inl f ↦
        let (file, hash) = has_key-eq filename rendition a e in
        let same : has_key a.filename_hash a.rendition_hash b ≡ true = rw (file, hash) f in
        absurd (ground (arith, differ, same))
    | inr f ↦
        find-here filename rendition a (b ∷ rs) e
        ∙ sym (find-later filename rendition b (a ∷ rs) f ∙ find-here filename rendition a rs e)
  ]
  | inr e ↦
      find-later filename rendition a (b ∷ rs) e
      ∙ find-cons filename rendition b rs (a ∷ rs) (sym (find-later filename rendition a rs e))
]

pub Perm-find :
    (filename : ℕ) (rendition : List ℕ) {rs rest : List ProgressRecord}
    → Permᴰ rs rest
    → Distinct rs
    → find_record filename rendition rs ≡ find_record filename rendition rest
Perm-find filename rendition Permᴰ.nil h = refl
Perm-find filename rendition (Permᴰ.cons {a} {l₁ = l₁} {l₂ = l₂} e p) h =
    find-cons filename rendition a l₁ l₂ (Perm-find filename rendition p h.1)
    ∙ ap (λ r. find_record filename rendition (r ∷ l₂)) e
Perm-find filename rendition (Permᴰ.swap {a} {b} {a' = a'} {l = l} e f) h =
    find-swap filename rendition a b l h.0.0
    ∙ ap (λ r. find_record filename rendition (r ∷ a ∷ l)) f
    ∙ ap (λ r. find_record filename rendition (a' ∷ r ∷ l)) e
Perm-find filename rendition (Permᴰ.trans p q) h =
    Perm-find filename rendition p h ∙ Perm-find filename rendition q (Perm-Distinct p h)
