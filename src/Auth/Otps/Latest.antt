-- ===== src/Auth/Otps/Latest.antt =====
-- The newest code of a query, of src/modules/auth/auth.repository.ts, in a table with a primary key
-- and under writes of one row.
use backend_softlogic.Base.{
  ◌≡◌, ◌≢◌, ◌⊎◌, refl, ap, subst, Bool, true, false, Option, none, some, List, [], ◌∷◌, ◌==◌, keep,
  ltb, inl, inr, Bool-cases, arith, eq_iff, eq_refl,
}
use backend_softlogic.Base.Table.{find, update}
use backend_softlogic.Base.Table.Columns.{IsKeyed}
use backend_softlogic.Auth.Store.{Otp, otp_row}
use backend_softlogic.Auth.Otps.{later, latest}

-- `o` is the newer one, and a row in its place would be.
abbrev IsLater : Otp → Otp → Option Otp → Type 0
IsLater x o l = (x ≡ o) × ((y : Otp) → y.created_at ≡ x.created_at → later y l ≡ y)

later-cases : (x o : Otp) (l : Option Otp) → later x l ≡ o → IsLater x o l ⊎ (l ≡ some o)
later-cases x o none h = inl (h, λ y e. refl)
later-cases x o (some b) h = elim (Bool-cases (ltb x.created_at b.created_at)) [
  | inl e ↦ inr (ground arith)
  | inr e ↦ inl (ground arith, λ y q. rw q (rw e refl))
]

module _ (p : Otp → Bool) where
  latest-cons :
      (x o : Otp) (t : List Otp)
      → latest (keep p (x ∷ t)) ≡ some o
      → (p x ≡ true) × IsLater x o (latest (keep p t)) ⊎ (latest (keep p t) ≡ some o)
  latest-cons x o t h = elim (Bool-cases (p x)) [
    | inl e ↦ elim (later-cases x o (latest (keep p t)) (ground arith)) [
      | inl q ↦ inl (e, q)
      | inr q ↦ inr q
    ]
    | inr e ↦ inr (ground arith)
  ]

  latest-find_ne : (o : Otp) (t : List Otp) → latest (keep p t) ≡ some o → find o.id t ≢ none
  unfolding find
  latest-find_ne o [] h n = cc
  latest-find_ne o (x ∷ t) h n = elim (latest-cons x o t h) [
    | inl (e, (q, s)) ↦ ground (arith, eq_iff x.id o.id, ap (λ (y : Otp). y.id) q)
    | inr q ↦ ground (arith, latest-find_ne o t q)
  ]

  other_id :
      (x o : Otp) (t : List Otp)
      → find x.id t ≡ none
      → latest (keep p t) ≡ some o
      → (x.id == o.id) ≡ false
  other_id x o t n h = elim (Bool-cases (x.id == o.id)) [
    | inl e ↦
        absurd (latest-find_ne o t h (subst (λ k. find k t ≡ none) ((eq_iff x.id o.id).0 e) n))
    | inr e ↦ e
  ]

  -- The newest row of a query is the row of its key.
  pub find-latest :
      (o : Otp) (t : List Otp) → IsKeyed t → latest (keep p t) ≡ some o → find o.id t ≡ some o
  unfolding find
  find-latest o [] u h = absurd (cc)
  find-latest o (x ∷ t) u h = elim (latest-cons x o t h) [
    | inl (e, (q, s)) ↦ subst (λ y. find y.id (x ∷ t) ≡ some y) q (rw (eq_refl x.id))
    | inr q ↦ rw (other_id x o t u.0 q) (find-latest o t u.1 q)
  ]

  later_kept :
      (f : Otp → Otp) (x o : Otp) (t : List Otp)
      → (x.id == o.id) ≡ false
      → later x (some o) ≡ o
      → (f o).created_at ≡ o.created_at
      → later x (some (f o)) ≡ f o
  later_kept f x o t n h c = elim (Bool-cases (ltb x.created_at o.created_at)) [
    | inl e ↦ rw c (rw e refl)
    | inr e ↦
        let same : x ≡ o = ground arith in
        let out : (o.id == o.id) ≡ false = subst (λ (y : Otp). (y.id == o.id) ≡ false) same n in
        ground (arith, eq_refl o.id)
  ]

  -- A write that keeps the row in the query keeps it the newest.
  pub latest-update :
      (f : Otp → Otp) (o : Otp) (t : List Otp)
      → ((y : Otp) → (f y).created_at ≡ y.created_at)
      → ((y : Otp) → p (f y) ≡ p y)
      → IsKeyed t
      → latest (keep p t) ≡ some o
      → latest (keep p (update o.id f t)) ≡ some (f o)
  unfolding find update
  latest-update f o [] keeps stays u h = absurd (cc)
  latest-update f o (x ∷ t) keeps stays u h = elim (latest-cons x o t h) [
    | inl (e, (q, s)) ↦
        subst (λ (y : Otp). latest (keep p (update y.id f (x ∷ t))) ≡ some (f y)) q
          (rw (eq_refl x.id) (rw (stays x, e) (ap some (s (f x) (keeps x)))))
    | inr q ↦
        let n = other_id x o t u.0 q in
        let rest = latest-update f o t keeps stays u.1 q in
        rw n (elim (Bool-cases (p x)) [
          | inl e ↦ rw e (rw rest (ap some (later_kept f x o t n (ground (arith, q)) (keeps o))))
          | inr e ↦ rw e rest
        ])
  ]
