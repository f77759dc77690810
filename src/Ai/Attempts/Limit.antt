-- ===== src/Ai/Attempts/Limit.antt =====
-- The attempts of a user under every order of requests.
use backend_softlogic.Base.{
  ℕ, ◌+◌, ◌≤◌, String, ◌≡◌, refl, sym, subst, inl, inr, Bool, true, false, ◌&&◌, none, some, [],
  ◌∷◌, ◌++◌, ◌==◌, count, leb, if◌then◌else◌, arith, All, eq_iff, Bool-cases,
}
use backend_softlogic.Base.Exec.{Result-cases}
use backend_softlogic.Base.Table.{find, update, All-update}
use backend_softlogic.Base.Table.Columns.{
  All-append_one, IsKeyed, IsKeyed-append_one, IsKeyed-update,
}
use backend_softlogic.Access.Roles.{Actor}
use backend_softlogic.Ai.Accounts.{is_ai_user_role}
use backend_softlogic.Ai.Attempts.Final.{settle_attempt-cases}
use backend_softlogic.Ai.Attempts.{
  AiFeatureUsageAttemptStatus, AiFeatureUsageAttempt, Attempts, attempt_row, AiFeatureAttemptInput,
  text_to_media_window_ms, in_window, is_reserved, since, assert_ai_user, normalize_feature_key,
  new_attempt, create_attempt, reserve_feature_attempt, resolved, settle_attempt,
  commit_feature_attempt, fail_feature_attempt,
}

-- The tables that requests lead to, each at a time that never goes back. A new attempt gets an id
-- that no attempt has.
pub data Reachable : ℕ → Attempts → Type 0 where
  empty : Reachable 0 []
  wait : {now : ℕ} {s : Attempts} (later : ℕ) → now ≤ later → Reachable now s → Reachable later s
  reserve :
      {now : ℕ} {s : Attempts} (actor : Actor) (input : AiFeatureAttemptInput) (new_id : String)
      → find new_id s ≡ none
      → Reachable now s
      → Reachable now (reserve_feature_attempt actor input new_id now s).1
  commit :
      {now : ℕ} {s : Attempts} (actor : Actor) (input : AiFeatureAttemptInput)
      → Reachable now s
      → Reachable now (commit_feature_attempt actor input now s).1
  fail :
      {now : ℕ} {s : Attempts} (actor : Actor) (input : AiFeatureAttemptInput)
      → Reachable now s
      → Reachable now (fail_feature_attempt actor input now s).1

-- the attempts of one user that count, from `start` to 24 hours later
abbrev pub in_span : String → String → ℕ → AiFeatureUsageAttempt → Bool
in_span user_id feature_key start a =
    in_window user_id feature_key start a && leb a.created_at (start + text_to_media_window_ms)

record IsLimited (now : ℕ) (s : Attempts) : Type 0 where
  keyed : IsKeyed s
  past : All (λ a. a.created_at ≤ now) s
  limit : (u f : String) (start : ℕ) → count (in_span u f start) s ≤ 3

module _ (p : AiFeatureUsageAttempt → Bool) where
  count-append_one :
      (a : AiFeatureUsageAttempt) (s : Attempts)
      → count p (s ++ a ∷ []) ≡ count p s + (if p a then 1 else 0)
  count-append_one a [] = omega arith
  count-append_one a (x ∷ s) = omega (arith, count-append_one a s)

  count-update_le :
      (k : String) (f : AiFeatureUsageAttempt → AiFeatureUsageAttempt) (s : Attempts)
      → ((a : AiFeatureUsageAttempt) → find k s ≡ some a → p (f a) ≡ true → p a ≡ true)
      → count p (update k f s) ≤ count p s
  unfolding find update
  count-update_le k f [] h = omega arith
  count-update_le k f (x ∷ s) h = elim (Bool-cases (x.id == k)) [
    | inl here ↦ let one = h x (rw here) in ground arith
    | inr there ↦ let rest = count-update_le k f s (λ a e. h a (rw there e)) in ground arith
  ]

count-span_le :
    (u f : String) (start now : ℕ) (s : Attempts)
    → since now ≤ start
    → count (in_span u f start) s ≤ count (in_window u f (since now)) s
count-span_le u f start now [] le = omega arith
count-span_le u f start now (a ∷ s) le = ground (arith, count-span_le u f start now s)

-- a new attempt under the limit
limit-append :
    (a : AiFeatureUsageAttempt) (s : Attempts) (u f : String) (start : ℕ)
    → leb 3 (count (in_window a.user_id a.feature_key (since a.created_at)) s) ≡ false
    → count (in_span u f start) s ≤ 3
    → count (in_span u f start) (s ++ a ∷ []) ≤ 3
limit-append a s u f start under h = elim (Bool-cases (in_span u f start a)) [
  | inr out ↦ let grown = count-append_one (in_span u f start) a s in ground arith
  | inl inside ↦
      let grown = count-append_one (in_span u f start) a s in
      let user : a.user_id ≡ u = (eq_iff a.user_id u).0 (ground arith) in
      let feature : a.feature_key ≡ f = (eq_iff a.feature_key f).0 (ground arith) in
      let late : since a.created_at ≤ start = ground arith in
      let le = count-span_le u f start a.created_at s late in
      let used =
        subst (λ v. leb 3 (count (in_window v f (since a.created_at)) s) ≡ false) user
          (subst (λ g. leb 3 (count (in_window a.user_id g (since a.created_at)) s) ≡ false) feature
            under) in
      ground arith
]

IsLimited-reserve :
    (actor : Actor) (input : AiFeatureAttemptInput) (new_id : String) (now : ℕ) (s : Attempts)
    → find new_id s ≡ none
    → IsLimited now s
    → IsLimited now (reserve_feature_attempt actor input new_id now s).1
unfolding reserve_feature_attempt create_attempt assert_ai_user
IsLimited-reserve actor input new_id now s fresh h =
    elim (Bool-cases (is_ai_user_role actor.role)) [
      | inr out ↦ rw out h
      | inl user ↦ elim (Result-cases (normalize_feature_key input.feature_key)) [
        | inr (e, bad) ↦ rw (user, bad) h
        | inl (key, good) ↦
            let a = new_attempt actor input key new_id now in
            elim (Bool-cases (leb 3 (count (in_window a.user_id a.feature_key (since now)) s))) [
              | inl full ↦ rw (user, good) (rw full h)
              | inr under ↦
                  rw (user, good)
                    (rw under (record {
                      keyed = IsKeyed-append_one a s (unfold new_attempt in fresh) h.keyed;
                      past =
                          All-append_one (λ x. x.created_at ≤ now) a s h.past
                            (unfold new_attempt in omega arith);
                      limit = λ u f start.
                          limit-append a s u f start (unfold new_attempt in under)
                            (h.limit u f start);
                    }))
            ]
      ]
    ]

-- An attempt that is resolved counted before.
reserved_counts :
    (status : AiFeatureUsageAttemptStatus) (input : AiFeatureAttemptInput)
    (a : AiFeatureUsageAttempt) (u f : String) (start : ℕ)
    → is_reserved a.status ≡ true
    → in_span u f start (resolved status input a) ≡ true
    → in_span u f start a ≡ true
unfolding resolved
reserved_counts status input a u f start h c = ground arith

IsLimited-settle :
    (status : AiFeatureUsageAttemptStatus) (actor : Actor) (input : AiFeatureAttemptInput) (now : ℕ)
    (s : Attempts)
    → IsLimited now s
    → IsLimited now (settle_attempt status actor input now s).1
IsLimited-settle status actor input now s h =
    elim (settle_attempt-cases status actor input now s h.keyed) [
      | inl same ↦ subst (IsLimited now) (sym same) h
      | inr r ↦
          let id = r.attempt.id in
          let f = resolved status input in
          let same_row : (a : AiFeatureUsageAttempt)
              → find id s ≡ some a
              → is_reserved a.status ≡ true =
            λ a e.
              let found = r.found in
              let same : r.attempt ≡ a = cc in
              subst (λ x. is_reserved x.status ≡ true) same r.open_before in
          subst (IsLimited now) (sym r.written) (record {
            keyed = IsKeyed-update id f s (λ a. unfold resolved in refl) h.keyed;
            past =
                All-update (λ a. a.created_at ≤ now) id f s h.past (λ a e p. unfold resolved in p);
            limit = λ u g start.
                let one =
                  count-update_le (in_span u g start) id f s
                    (λ a e. reserved_counts status input a u g start (same_row a e)) in
                let before = h.limit u g start in omega arith;
          })
    ]

later_past :
    (now later : ℕ) (s : Attempts)
    → now ≤ later
    → All (λ a. a.created_at ≤ now) s
    → All (λ a. a.created_at ≤ later) s
later_past now later [] le h = tt
later_past now later (a ∷ s) le h = (let one = h.0 in omega arith, later_past now later s le h.1)

Reachable-IsLimited : {now : ℕ} {s : Attempts} → Reachable now s → IsLimited now s
unfolding commit_feature_attempt fail_feature_attempt
Reachable-IsLimited empty = record { keyed = tt; past = tt; limit = λ u f start. omega arith }
Reachable-IsLimited (wait {now} {s} later le r) =
    let h = Reachable-IsLimited r in
    record { keyed = h.keyed; past = later_past now later s le h.past; limit = h.limit }
Reachable-IsLimited (reserve {now} {s} actor input new_id fresh r) =
    IsLimited-reserve actor input new_id now s fresh (Reachable-IsLimited r)
Reachable-IsLimited (commit {now} {s} actor input r) =
    IsLimited-settle AiFeatureUsageAttemptStatus.committed actor input now s (Reachable-IsLimited r)
Reachable-IsLimited (fail {now} {s} actor input r) =
    IsLimited-settle AiFeatureUsageAttemptStatus.failed actor input now s (Reachable-IsLimited r)

-- Whatever sequence of reservations, commits and failures has been served, for any users and at any
-- times, no user has more than three attempts at a feature that are reserved or committed and were
-- made within any 24 hours.
pub attempts-limited :
    (now : ℕ) (s : Attempts) (u f : String) (start : ℕ)
    → Reachable now s
    → count (in_span u f start) s ≤ 3
attempts-limited now s u f start r = (Reachable-IsLimited r).limit u f start
