-- ===== src/Storage/Mailbox/Priority.antt =====
-- The request that `pop` and `pop_client` of storage_owner.rs choose.
use binbook.Prelude.{
  ℕ, suc, ◌+◌, ◌≤◌, ◌<◌, ◌≡◌, refl, sym, ap, ◌∙◌, ◌⊎◌, inl, inr, false, none, some, List, [], ◌∷◌,
  ◌++◌, length, length-append, get_elem?, All, ltb, ltb→lt, Bool-cases, arith,
}
use mathlib.Core.List.{append_assoc, append-nil}
use binbook.Storage.Types.{OwnedRequest}
use binbook.Storage.Mailbox.{remove, priority_at, select, OwnedMailbox, owned_priority, pop}

pub ltb_false→le : (a b : ℕ) → ltb a b ≡ false → b ≤ a
ltb_false→le a b h = ground arith

module _ {ℓ} {A : Type ℓ} where
  List-cases : (xs : List A) → (xs ≡ []) ⊎ ((y : A) × (ys : List A) × (xs ≡ y ∷ ys))
  List-cases [] = inl refl
  List-cases (y ∷ ys) = inr (y, ys, refl)

  pub remove-append :
      (before : List A) (x : A) (after : List A)
      → remove (length before) (before ++ (x ∷ after)) ≡ some (x, before ++ after)
  unfolding remove
  remove-append [] x after = refl
  remove-append (b ∷ before) x after = rw (remove-append before x after) refl

  get-append :
      (before : List A) (x : A) (after : List A)
      → get_elem? (before ++ (x ∷ after)) (length before) ≡ some x
  get-append [] x after = refl
  get-append (b ∷ before) x after = get-append before x after

  pub All-append {κ} : (P : A → Type κ) (xs ys : List A) → All P xs → All P ys → All P (xs ++ ys)
  All-append P [] ys h k = k
  All-append P (x ∷ xs) ys h k = (h.0, All-append P xs ys h.1 k)

  pub All-map {κ ι} :
      (P : A → Type κ) (Q : A → Type ι)
      → ((x : A) → P x → Q x)
      → (xs : List A) → All P xs
      → All Q xs
  All-map P Q f [] h = tt
  All-map P Q f (x ∷ xs) h = (f x h.0, All-map P Q f xs h.1)

  -- The chosen member comes before what it beats: the ones before it have less priority, the ones
  -- behind it no more.
  pub record Chosen (p : A → ℕ) (xs : List A) (r : A) (rest : List A) : Type ℓ where
    pub before : List A
    pub after : List A
    pub whole : xs ≡ before ++ (r ∷ after)
    pub others : rest ≡ before ++ after
    pub first : All (λ x. p x < p r) before
    pub most : All (λ x. p x ≤ p r) after

module _ {ℓ} {A : Type ℓ} (p : A → ℕ) where
  pub priority_at-append :
      (before : List A) (x : A) (after : List A)
      → priority_at p (before ++ (x ∷ after)) (length before) ≡ p x
  unfolding priority_at
  priority_at-append before x after = rw (get-append before x after, priority_at) refl

  Outcome : List A → ℕ → Type ℓ
  Outcome xs i = (r : A) × (rest : List A) × (remove i xs ≡ some (r, rest)) × Chosen p xs r rest

  here :
      (xs before : List A) (s : A) (after : List A) (i : ℕ)
      → xs ≡ before ++ (s ∷ after)
      → i ≡ length before
      → All (λ x. p x < p s) before
      → All (λ x. p x ≤ p s) after
      → Outcome xs i
  unfolding Outcome
  here xs before s after i e at first most = (
    s,
    before ++ after,
    rw (e, at) (remove-append before s after),
    record { before = before; after = after; whole = e; others = refl; first = first; most = most },
  )

  raised :
      (before mid : List A) (s x : A)
      → p s < p x
      → All (λ y. p y < p s) before
      → All (λ y. p y ≤ p s) mid
      → All (λ y. p y < p x) (before ++ (s ∷ mid))
  raised before mid s x h first most =
      All-append (λ y. p y < p x) before (s ∷ mid)
        (All-map (λ y. p y < p s) (λ y. p y < p x) (λ y k. omega (arith, h, k)) before first)
        (h, All-map (λ y. p y ≤ p s) (λ y. p y < p x) (λ y k. omega (arith, h, k)) mid most)

  grow :
      (before mid : List A) (s x : A) (rest : List A)
      → before ++ (s ∷ (mid ++ (x ∷ rest))) ≡ (before ++ (s ∷ mid)) ++ (x ∷ rest)
  grow before mid s x rest = sym (append_assoc before (s ∷ mid) (x ∷ rest))

  choose_all :
      (xs before : List A) (s : A) (mid rest : List A) (index selected : ℕ)
      → xs ≡ before ++ (s ∷ (mid ++ rest))
      → index ≡ length before + suc (length mid)
      → selected ≡ length before
      → All (λ x. p x < p s) before
      → All (λ x. p x ≤ p s) mid
      → Outcome xs (select p xs index rest selected)
  unfolding select
  choose_all xs before s mid [] index selected e i at first most =
      here xs before s (mid ++ []) selected e at first (rw append-nil most)
  choose_all xs before s mid (x ∷ rest) index selected e i at first most =
      let seen : priority_at p xs selected ≡ p s =
        rw (e, at) (priority_at-append before s (mid ++ (x ∷ rest))) in
      elim (Bool-cases (ltb (p s) (p x))) [
        | inl above ↦
            rw (seen, above)
              (choose_all xs (before ++ (s ∷ mid)) x [] rest (index + 1) index
                (e ∙ grow before mid s x rest) (omega (arith, i, length-append before (s ∷ mid)))
                (omega (arith, i, length-append before (s ∷ mid)))
                (raised before mid s x (ltb→lt _ _ above) first most) tt)
        | inr below ↦
            rw (seen, below)
              (choose_all xs before s (mid ++ (x ∷ [])) rest (index + 1) selected
                (e ∙ ap (λ r. before ++ (s ∷ r)) (sym (append_assoc mid (x ∷ []) rest)))
                (omega (arith, i, length-append mid (x ∷ []))) at first
                (All-append (λ y. p y ≤ p s) mid (x ∷ []) most
                  (ltb_false→le (p s) (p x) below, tt)))
      ]

-- `OwnedMailbox::pop` returns nothing from an empty queue. From any other it takes a request that
-- none beats in priority and that is the oldest of those with its priority, and leaves all the
-- others in their order.
pub pop_takes_first :
    (m : OwnedMailbox)
    → ((m.pending ≡ []) × (pop m ≡ none))
      ⊎ ((taken : OwnedRequest) × (rest : List OwnedRequest) × (pop m
            ≡ some (taken, record m { pending = rest }))
          × Chosen owned_priority m.pending taken rest)
unfolding pop Outcome
pop_takes_first m = elim (List-cases m.pending) [
  | inl e ↦ inl (e, rw e refl)
  | inr (r, rs, e) ↦
      let (taken, rest, found, chosen) =
        choose_all owned_priority m.pending [] r [] rs 1 0 e refl refl tt tt in
      let found' : remove (select owned_priority (r ∷ rs) 1 rs 0) (r ∷ rs) ≡ some (taken, rest) =
        rw e at found in
      inr (taken, rest, rw (e, found') refl, chosen)
]
