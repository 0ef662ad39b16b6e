-- ===== src/Reader/State/Lookup.antt =====
-- `lookup_page` of reader_state.rs on records that are replaced, pushed or retained.
use binbook.Prelude.{
  ℕ, ◌≡◌, refl, sym, ◌∙◌, Bool, true, false, inl, inr, some, List, [], ◌∷◌, ◌++◌, arith, Bool-cases,
}
use binbook.Reader.State.{ProgressRecord, has_key, find_record, retain}
use binbook.Reader.State.Records.{has_key-eq, has_key_self, IsNew, Replaced, here, later}

module _ (filename : ℕ) (rendition : List ℕ) where
  pub find-here :
      (r : ProgressRecord) (rs : List ProgressRecord)
      → has_key filename rendition r ≡ true
      → find_record filename rendition (r ∷ rs) ≡ some r
  unfolding find_record
  find-here r rs e = rw (e, find_record) refl

  pub find-later :
      (r : ProgressRecord) (rs : List ProgressRecord)
      → has_key filename rendition r ≡ false
      → find_record filename rendition (r ∷ rs) ≡ find_record filename rendition rs
  unfolding find_record
  find-later r rs e = rw (e, find_record) refl

  -- Behind the same first record.
  pub find-cons :
      (r : ProgressRecord) (rs rest : List ProgressRecord)
      → find_record filename rendition rs ≡ find_record filename rendition rest
      → find_record filename rendition (r ∷ rs) ≡ find_record filename rendition (r ∷ rest)
  find-cons r rs rest e = elim (Bool-cases (has_key filename rendition r)) [
    | inl k ↦ find-here r rs k ∙ sym (find-here r rest k)
    | inr k ↦ find-later r rs k ∙ e ∙ sym (find-later r rest k)
  ]

  -- A record with the same key is found as often.
  has_key-same :
      (new r : ProgressRecord)
      → has_key new.filename_hash new.rendition_hash r ≡ true
      → has_key filename rendition r ≡ has_key filename rendition new
  unfolding has_key
  has_key-same new r e =
      let (file, hash) = has_key-eq new.filename_hash new.rendition_hash r e in rw (file, hash) refl

  pub Replaced-find_other :
      {new : ProgressRecord} {rs rest : List ProgressRecord}
      → has_key filename rendition new ≡ false
      → Replaced new rs rest
      → find_record filename rendition rest ≡ find_record filename rendition rs
  Replaced-find_other {new} k (here {r} {rs} e) =
      find-later new rs k ∙ sym (find-later r rs (has_key-same new r e ∙ k))
  Replaced-find_other {new} k (later {r} {rs} {rest} e replaced) =
      find-cons r rest rs (Replaced-find_other k replaced)

  pub push-find_other :
      (rs : List ProgressRecord) (new : ProgressRecord)
      → has_key filename rendition new ≡ false
      → find_record filename rendition (rs ++ (new ∷ [])) ≡ find_record filename rendition rs
  push-find_other [] new k = find-later new [] k
  push-find_other (r ∷ rs) new k = find-cons r (rs ++ (new ∷ [])) rs (push-find_other rs new k)

  pub retain-find :
      (keep : ProgressRecord → Bool) (rs : List ProgressRecord)
      → ((r : ProgressRecord) → has_key filename rendition r ≡ true → keep r ≡ true)
      → find_record filename rendition (retain keep rs) ≡ find_record filename rendition rs
  retain-find keep [] kept = refl
  retain-find keep (r ∷ rs) kept = elim (Bool-cases (keep r)) [
    | inl e ↦ rw e (find-cons r (retain keep rs) rs (retain-find keep rs kept))
    | inr e ↦ elim (Bool-cases (has_key filename rendition r)) [
      | inl k ↦ absurd (ground (arith, e, kept r k))
      | inr k ↦ rw e (retain-find keep rs kept ∙ sym (find-later r rs k))
    ]
  ]

pub Replaced-find_new :
    {new : ProgressRecord} {rs rest : List ProgressRecord}
    → Replaced new rs rest
    → find_record new.filename_hash new.rendition_hash rest ≡ some new
Replaced-find_new {new} (here {r} {rs} e) =
    find-here new.filename_hash new.rendition_hash new rs (has_key_self new)
Replaced-find_new {new} (later {r} {rs} {rest} e replaced) =
    find-later new.filename_hash new.rendition_hash r rest e ∙ Replaced-find_new replaced

pub push-find_new :
    (rs : List ProgressRecord) (new : ProgressRecord)
    → IsNew new rs
    → find_record new.filename_hash new.rendition_hash (rs ++ (new ∷ [])) ≡ some new
push-find_new [] new fresh =
    find-here new.filename_hash new.rendition_hash new [] (has_key_self new)
push-find_new (r ∷ rs) new fresh =
    find-later new.filename_hash new.rendition_hash r (rs ++ (new ∷ [])) fresh.0
    ∙ push-find_new rs new fresh.1
