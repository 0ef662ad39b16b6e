-- ===== src/Storage/Mailbox/OfClient.antt =====
-- The request that `pop_client` of storage_owner.rs chooses.
use binbook.Prelude.{
  ℕ, ◌+◌, ◌≤◌, ◌<◌, ◌≡◌, refl, sym, ◌∙◌, ◌⊎◌, inl, inr, Bool, true, false, Option, none, some, List,
  [], ◌∷◌, ◌++◌, length, length-append, All, ltb, ltb→lt, Bool-cases, arith,
}
use mathlib.Core.List.{append_assoc, append-nil}
use binbook.Storage.Types.{OwnedRequest, StorageClient}
use binbook.Storage.Mailbox.{
  remove, priority_at, better, select_client, OwnedMailbox, owned_priority, of_client, pop_client,
}
use binbook.Storage.Mailbox.Priority.{
  remove-append, All-append, All-map, priority_at-append, ltb_false→le,
}

-- The choice among the members that pass a test.
pub record ChosenOf {ℓ} {A : Type ℓ} (p : A → ℕ) (c : A → Bool) (xs : List A) (r : A)
    (rest : List A) : Type ℓ where
  pub before : List A
  pub after : List A
  pub whole : xs ≡ before ++ (r ∷ after)
  pub others : rest ≡ before ++ after
  pub passes : c r ≡ true
  pub first : All (λ x. c x ≡ true → p x < p r) before
  pub most : All (λ x. c x ≡ true → p x ≤ p r) after

module _ {ℓ} {A : Type ℓ} (p : A → ℕ) (c : A → Bool) where
  -- What the loop knows of the members it has seen.
  data Seen (seen : List A) : Option ℕ → Type ℓ where
    nothing : All (λ x. c x ≡ false) seen → Seen seen none
    best :
        (before : List A) (s : A) (mid : List A)
        → seen ≡ before ++ (s ∷ mid)
        → c s ≡ true
        → All (λ x. c x ≡ true → p x < p s) before
        → All (λ x. c x ≡ true → p x ≤ p s) mid
        → Seen seen (some (length before))

  skip :
      (seen : List A) (x : A) (selected : Option ℕ)
      → c x ≡ false
      → Seen seen selected
      → Seen (seen ++ (x ∷ [])) selected
  skip seen x selected fail (nothing h) = nothing (All-append _ seen (x ∷ []) h (fail, tt))
  skip seen x selected fail (best before s mid e cs first most) =
      best before s (mid ++ (x ∷ [])) (rw e (append_assoc before (s ∷ mid) (x ∷ []))) cs first
        (All-append (λ x. c x ≡ true → p x ≤ p s) mid (x ∷ []) most ((λ pass. absurd (cc)), tt))

  replace :
      (seen : List A) (x : A)
      → c x ≡ true
      → All (λ y. c y ≡ true → p y < p x) seen
      → Seen (seen ++ (x ∷ [])) (some (length seen))
  replace seen x pass below = best seen x [] refl pass below tt

  compare_best :
      (xs seen : List A) (x : A) (rest : List A) (selected : Option ℕ)
      → xs ≡ seen ++ (x ∷ rest)
      → c x ≡ true
      → Seen seen selected
      → Seen (seen ++ (x ∷ [])) (better p xs (length seen) x selected)
  unfolding better
  compare_best xs seen x rest selected e pass (nothing h) =
      replace seen x pass (
        All-map (λ y. c y ≡ false) (λ y. c y ≡ true → p y < p x) (λ y fail pass. absurd (cc)) seen
          h)
  compare_best xs seen x rest selected e pass (best before s mid e' cs first most) =
      let at : priority_at p xs (length before) ≡ p s =
        rw (e, e', append_assoc before (s ∷ mid) (x ∷ rest))
          (priority_at-append p before s (mid ++ (x ∷ rest))) in
      elim (Bool-cases (ltb (p s) (p x))) [
        | inl above ↦
            let h = ltb→lt _ _ above in
            rw (at, above)
              (replace seen x pass (
                rw e' (
                  All-append (λ y. c y ≡ true → p y < p x) before (s ∷ mid)
                    (All-map (λ y. c y ≡ true → p y < p s) (λ y. c y ≡ true → p y < p x)
                      (λ y k t. omega (arith, h, k t)) before first)
                    (
                      (λ _. h),
                      All-map (λ y. c y ≡ true → p y ≤ p s) (λ y. c y ≡ true → p y < p x)
                          (λ y k t. omega (arith, h, k t)) mid most,
                    ))))
        | inr below ↦
            rw (at, below)
              (best before s (mid ++ (x ∷ [])) (rw e' (append_assoc before (s ∷ mid) (x ∷ []))) cs
                first
                (All-append (λ x. c x ≡ true → p x ≤ p s) mid (x ∷ []) most
                  ((λ _. ltb_false→le (p s) (p x) below), tt)))
      ]

  seen_all :
      (xs seen rest : List A) (index : ℕ) (selected : Option ℕ)
      → xs ≡ seen ++ rest
      → index ≡ length seen
      → Seen seen selected
      → Seen xs (select_client p c xs index rest selected)
  unfolding select_client
  seen_all xs seen [] index selected e i s = let e' : xs ≡ seen = e ∙ append-nil seen in rw e' s
  seen_all xs seen (x ∷ rest) index selected e i s =
      let e' : xs ≡ (seen ++ (x ∷ [])) ++ rest = e ∙ sym (append_assoc seen (x ∷ []) rest) in
      let i' : index + 1 ≡ length (seen ++ (x ∷ [])) =
        omega (arith, i, length-append seen (x ∷ [])) in
      elim (Bool-cases (c x)) [
        | inl pass ↦ rw pass (
            seen_all xs (seen ++ (x ∷ [])) rest (index + 1) _ e' i'
              (rw i (compare_best xs seen x rest selected e pass s)))
        | inr fail ↦ rw fail (
            seen_all xs (seen ++ (x ∷ [])) rest (index + 1) selected e' i'
              (skip seen x selected fail s))
      ]

  Outcome : List A → Option ℕ → Type ℓ
  Outcome xs selected =
      (All (λ x. c x ≡ false) xs × (selected ≡ none))
      ⊎ ((i : ℕ) × (r : A) × (rest : List A) × (selected ≡ some i)
          × (remove i xs ≡ some (r, rest))
          × ChosenOf p c xs r rest)

  outcome : (xs : List A) (selected : Option ℕ) → Seen xs selected → Outcome xs selected
  unfolding Outcome
  outcome xs selected (nothing h) = inl (h, refl)
  outcome xs selected (best before s mid e pass first most) = inr (
    length before,
    s,
    before ++ mid,
    refl,
    rw e (remove-append before s mid),
    record {
      before = before;
      after = mid;
      whole = e;
      others = refl;
      passes = pass;
      first = first;
      most = most;
    },
  )

-- `pop_client` returns nothing exactly where no request of the client is pending. Otherwise it
-- takes a request of the client that no other one of the client beats in priority and that is the
-- oldest of those with its priority, and leaves all the others, of whichever client, in their order.
pub pop_client_takes_first :
    (m : OwnedMailbox) (client : StorageClient)
    → (All (λ r. of_client client r ≡ false) m.pending × (pop_client m client ≡ none))
      ⊎ ((taken : OwnedRequest) × (rest : List OwnedRequest) × (pop_client m client
            ≡ some (taken, record m { pending = rest }))
          × ChosenOf owned_priority (of_client client) m.pending taken rest)
unfolding pop_client Outcome
pop_client_takes_first m client =
    elim (outcome owned_priority (of_client client) m.pending _ (
      seen_all owned_priority (of_client client) m.pending [] m.pending 0 none refl refl
        (nothing tt))) [
          | inl (h, e) ↦ inl (h, rw (e, pop_client) refl)
          | inr (i, r, rest, e, found, chosen) ↦
              inr (r, rest, rw (e, pop_client, found) refl, chosen)
        ]
