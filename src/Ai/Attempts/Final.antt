-- ===== src/Ai/Attempts/Final.antt =====
-- What a commit or a failure of an attempt may write.
use backend_softlogic.Base.{
  first_holds, ℕ, String, ◌≡◌, ◌≢◌, refl, ◌∙◌, subst, ◌⊎◌, inl, inr, true, false, some, first,
  arith, Bool-cases, Option-cases, eq_iff,
}
use backend_softlogic.Base.Exec.{Result-cases, ok}
use backend_softlogic.Base.Table.{find, update, find-update_ne}
use backend_softlogic.Base.Table.Columns.{IsKeyed, find-first}
use backend_softlogic.Access.Roles.{Actor}
use backend_softlogic.Ai.Accounts.{is_ai_user_role}
use backend_softlogic.Ai.Attempts.{
  AiFeatureUsageAttemptStatus, AiFeatureUsageAttempt, Attempts, attempt_row, AiFeatureAttemptInput,
  is_reserved, assert_ai_user, normalize_feature_key, resolved, is_own, given_id, write_status,
  update_own_feature_attempt, settle_attempt, commit_feature_attempt, fail_feature_attempt,
}

-- the attempt that a request resolves, and the table after it
pub record Resolves (actor : Actor) (input : AiFeatureAttemptInput)
    (status : AiFeatureUsageAttemptStatus) (s after : Attempts) : Type 0 where
  pub attempt : AiFeatureUsageAttempt
  pub found : find attempt.id s ≡ some attempt
  pub own : attempt.user_id ≡ actor.user_id
  pub open_before : is_reserved attempt.status ≡ true
  pub written : after ≡ update attempt.id (resolved status input) s

module _ (status : AiFeatureUsageAttemptStatus) (actor : Actor) (input : AiFeatureAttemptInput)
    (now : ℕ) (s : Attempts) where
  settled :
      (id key : String) (a : AiFeatureUsageAttempt)
      → is_ai_user_role actor.role ≡ true
      → given_id input.attempt_id ≡ ok id
      → normalize_feature_key input.feature_key ≡ ok key
      → first (is_own id actor.user_id key) s ≡ some a
      → IsKeyed s
      → let after = (settle_attempt status actor input now s).1 in
        (after ≡ s) ⊎ Resolves actor input status s after
  unfolding settle_attempt assert_ai_user update_own_feature_attempt write_status is_own
  settled id key a user given good e keyed = elim (Bool-cases (is_reserved a.status)) [
    | inr final ↦ inl (ground arith)
    | inl free ↦
        let holds = first_holds (is_own id actor.user_id key) a s e in
        inr (record {
          attempt = a;
          found = find-first (is_own id actor.user_id key) a s keyed e;
          own = (eq_iff a.user_id actor.user_id).0 (ground arith);
          open_before = free;
          written = ground arith;
        })
  ]

  pub settle_attempt-cases :
      IsKeyed s
      → let after = (settle_attempt status actor input now s).1 in
        (after ≡ s) ⊎ Resolves actor input status s after
  unfolding settle_attempt assert_ai_user update_own_feature_attempt
  settle_attempt-cases keyed = elim (Bool-cases (is_ai_user_role actor.role)) [
    | inr out ↦ inl (ground arith)
    | inl user ↦ elim (Result-cases (given_id input.attempt_id)) [
      | inr (e, bad) ↦ inl (ground arith)
      | inl (id, given) ↦ elim (Result-cases (normalize_feature_key input.feature_key)) [
        | inr (e, bad) ↦ inl (ground arith)
        | inl (key, good) ↦ elim (Option-cases (first (is_own id actor.user_id key) s)) [
          | inl none_e ↦ inl (ground arith)
          | inr (a, e) ↦ settled id key a user given good e keyed
        ]
      ]
    ]
  ]

  others :
      (k : String) (a : AiFeatureUsageAttempt)
      → IsKeyed s
      → find k s ≡ some a
      → ((is_reserved a.status ≡ false) ⊎ (a.user_id ≢ actor.user_id))
      → find k (settle_attempt status actor input now s).1 ≡ some a
  others k a keyed e closed = elim (settle_attempt-cases keyed) [
    | inl same ↦ rw same e
    | inr r ↦
        let apart : r.attempt.id ≢ k = λ q.
          let found : find k s ≡ some r.attempt =
            subst (λ j. find j s ≡ some r.attempt) q r.found in
          let same : r.attempt ≡ a = cc in
          let own = r.own in
          let free = r.open_before in
          elim closed [
            | inl final ↦
                (let free' : is_reserved a.status ≡ true =
                    subst (λ x. is_reserved x.status ≡ true) same free in
                  cc)
            | inr foreign ↦ foreign (subst (λ x. x.user_id ≡ actor.user_id) same own)
          ] in
        rw r.written (
          find-update_ne r.attempt.id k (resolved status input) s (λ x. unfold resolved in refl)
            apart
          ∙ e)
  ]

-- Committing or failing an attempt changes no attempt that was committed or failed before, and none
-- of another user. (Ids are unique, as the primary key requires.)
pub commit-fail_others :
    (actor : Actor) (input : AiFeatureAttemptInput) (now : ℕ) (s : Attempts) (k : String)
    (a : AiFeatureUsageAttempt)
    → IsKeyed s
    → find k s ≡ some a
    → ((is_reserved a.status ≡ false) ⊎ (a.user_id ≢ actor.user_id))
    → (find k (commit_feature_attempt actor input now s).1 ≡ some a)
      × (find k (fail_feature_attempt actor input now s).1 ≡ some a)
unfolding commit_feature_attempt fail_feature_attempt
commit-fail_others actor input now s k a keyed e closed = (
  others AiFeatureUsageAttemptStatus.committed actor input now s k a keyed e closed,
  others AiFeatureUsageAttemptStatus.failed actor input now s k a keyed e closed,
)
