-- ===== src/Ai/Gemini/Outcome.antt =====
-- What the call of Gemini leaves on the accounts, after the reservation and with its commit or refund.
use backend_softlogic.Base.{
  String, ◌≡◌, ◌≢◌, refl, ap, sym, ◌∙◌, ◌⊎◌, inl, inr, Bool, false, Option, some, arith,
}
use backend_softlogic.Base.Int.{ℤ, clamp_ℤ, int_laws, pos, ◌+ℤ◌, ◌-ℤ◌, ◌≤ℤ◌}
use backend_softlogic.Base.Exec.{Exec, Result, Result-cases, ok, err}
use backend_softlogic.Base.Failure.{Failure}
use backend_softlogic.Base.Table.{find, find-update_self, find-update_ne}
use backend_softlogic.Access.Roles.{Actor}
use backend_softlogic.Ai.Json.{Number, Json}
use backend_softlogic.Ai.Pricing.{AiPricingRecord, AiUsageEstimate}
use backend_softlogic.Ai.Store.{AiCreditAccount, AiStore, account_row}
use backend_softlogic.Ai.Accounts.{account_available}
use backend_softlogic.Ai.Credits.{
  reserve_tokens, commit_usage, add_reserved, commit_charge, chargeable_credits,
}
use backend_softlogic.Ai.Credits.Reservation.{
  reserve_tokens-found, reserve_tokens_fails, reserve-refund, id-add_reserved,
  unlimited-add_reserved,
}
use backend_softlogic.Ai.Credits.Balance.{available-add_reserved}
use backend_softlogic.Ai.Credits.Charge.{
  IsCharge, restored, commit_usage-IsCharge, commit_usage-found,
}
use backend_softlogic.Ai.Gemini.{
  GeminiResponse, ProxyAnswer, post_gemini, generate, give_back, generate_reserved,
  actual_usage_credits, not_null, answer_of,
}

-- The account `b` is the account `a` with the credits that the answer says were used added to what is
-- used. They are not negative, and the answer splits the cost of the request into them and what is
-- not billed. They are the whole cost, or all that the account has available.
pub record IsBilled (answer : ProxyAnswer) (a b : AiCreditAccount) : Type 0 where
  pub nonneg : pos 0 ≤ℤ answer.used_credits
  pub within : answer.used_credits ≤ℤ answer.actual_credits
  pub in_full :
      (answer.used_credits ≡ answer.actual_credits)
      ⊎ ((a.unlimited ≡ false) × (answer.used_credits ≡ clamp_ℤ (account_available a)))
  pub unbilled : answer.unbilled_overage_credits ≡ answer.actual_credits -ℤ answer.used_credits
  pub same : b ≡ record a { used_tokens = a.used_tokens +ℤ answer.used_credits }

-- What a run does to the accounts: nothing if it fails, and one charge if it answers.
abbrev pub Outcome : String → AiStore → Result ProxyAnswer × AiStore → Type 0
Outcome id s after =
    ((e : Failure) × (after.0 ≡ err e) × (after.1.accounts ≡ s.accounts))
    ⊎ ((answer : ProxyAnswer) × (a : AiCreditAccount) × (b : AiCreditAccount) × (after.0
          ≡ ok answer)
        × (find id s.accounts ≡ some a)
        × IsBilled answer a b
        × (find id after.1.accounts ≡ some b)
        × ((j : String) → id ≢ j → find j after.1.accounts ≡ find j s.accounts))

available_before :
    (a : AiCreditAccount) (n : ℤ) → account_available (add_reserved n a) +ℤ n ≡ account_available a
available_before a n = rw (available-add_reserved n a) (omega int_laws)

billed_in_full :
    (a : AiCreditAccount) (n k charged : ℤ)
    → IsCharge (add_reserved n a).unlimited (account_available (add_reserved n a) +ℤ n) k charged
    → (charged ≡ k) ⊎ ((a.unlimited ≡ false) × (charged ≡ clamp_ℤ (account_available a)))
billed_in_full a n k charged bounds = elim bounds.in_full [
  | inl all ↦ inl all
  | inr (limited, rest) ↦
      inr (sym (unlimited-add_reserved n a) ∙ limited, rest ∙ ap clamp_ℤ (available_before a n))
]

module _ (coerce : Json → Number) (decrypt : Option String → Option String)
    (fetch : String → String → Json → Option GeminiResponse) (actor : Actor)
    (id api_key path : String) (body : Json) (pricing : AiPricingRecord)
    (reservation : AiUsageEstimate) (search : Bool) (model_id : String) where
  abbrev run : Exec AiStore ProxyAnswer
  run =
      generate_reserved coerce decrypt fetch actor id api_key path body pricing reservation search
        model_id

  abbrev reserved : AiStore → Result (Unit {0}) × AiStore
  reserved = reserve_tokens id (pos reservation.credits) actor reservation model_id

  given_back :
      (s : AiStore) (e : Failure)
      → (reserved s).0 ≡ ok tt
      → let after = give_back coerce decrypt fetch actor id reservation e (reserved s).1 in
        (after.0 ≡ err e) × (after.1.accounts ≡ s.accounts)
  unfolding give_back
  given_back s e h =
      let (a, found, result, accounts) =
        reserve-refund id (pos reservation.credits) actor reservation model_id s h in
      (ground (arith, result), ground (arith, result, accounts))

  RunOutcome : AiStore → Type 0
  RunOutcome s = Outcome id s (run s)

  refused : (s : AiStore) (f : Failure) → (reserved s).0 ≡ err f → RunOutcome s
  unfolding generate_reserved RunOutcome
  refused s f h =
      let same =
        reserve_tokens_fails id (pos reservation.credits) actor reservation model_id s f h in
      inl (f, ground arith, ground (arith, same))

  failed_call :
      (s : AiStore) (f : Failure)
      → (reserved s).0 ≡ ok tt
      → post_gemini coerce decrypt fetch path api_key body ≡ err f
      → RunOutcome s
  unfolding generate_reserved RunOutcome generate
  failed_call s f h bad =
      let (raised, accounts) = given_back s f h in
      inl (f, ground (arith, raised), ground (arith, accounts))

  null_answer :
      (s : AiStore) (gemini : Json) (f : Failure)
      → (reserved s).0 ≡ ok tt
      → post_gemini coerce decrypt fetch path api_key body ≡ ok gemini
      → not_null gemini ≡ err f
      → RunOutcome s
  unfolding generate_reserved RunOutcome generate
  null_answer s gemini f h good bad =
      let (raised, accounts) = given_back s f h in
      inl (f, ground (arith, raised), ground (arith, accounts))

  answered :
      (s : AiStore) (gemini response : Json)
      → (reserved s).0 ≡ ok tt
      → post_gemini coerce decrypt fetch path api_key body ≡ ok gemini
      → not_null gemini ≡ ok response
      → RunOutcome s
  unfolding generate_reserved RunOutcome generate
  answered s gemini response h good whole =
      let n = pos reservation.credits in
      let actual = actual_usage_credits coerce decrypt fetch response pricing reservation search in
      let (a, found, can, accounts) = reserve_tokens-found id n actor reservation model_id s h in
      let there : find id (reserved s).1.accounts ≡ some (add_reserved n a) =
        rw accounts (find-update_self id (add_reserved n) a s.accounts (id-add_reserved n) found) in
      let (c, result, kept, bounds, unbilled, account) =
        commit_usage-IsCharge id n actual actor model_id (reserved s).1 (add_reserved n a) there in
      let (_, written) =
        commit_usage-found id n actual actor model_id (reserved s).1 (add_reserved n a) there in
      let answer = answer_of coerce decrypt fetch response reservation actual c in
      let ends : run s ≡ (ok answer, (commit_usage id n actual actor model_id (reserved s).1).1) =
        ground (arith, result) in
      let charge = commit_charge n (chargeable_credits (add_reserved n a) n (pos actual.credits)) in
      let billed : IsBilled answer a c.account =
        unfold answer_of in
        record {
          nonneg = bounds.nonneg;
          within = bounds.within_usage;
          in_full = billed_in_full a n (pos actual.credits) c.charged_credits bounds;
          unbilled = unbilled;
          same = account ∙ restored a n c.charged_credits;
        } in
      inr (
        answer,
        a,
        c.account,
        ap (λ p. p.0) ends,
        found,
        billed,
        ap (λ p. find id p.1.accounts) ends ∙ kept,
        λ j ne.
            ap (λ p. find j p.1.accounts) ends
            ∙ ap (find j) written
            ∙ find-update_ne id j charge (reserved s).1.accounts (λ x. unfold commit_charge in refl)
                ne
            ∙ ap (find j) accounts
            ∙ find-update_ne id j (add_reserved n) s.accounts (id-add_reserved n) ne,
      )

  pub outcome : (s : AiStore) → Outcome id s (run s)
  unfolding RunOutcome
  outcome s = elim (Result-cases (reserved s).0) [
    | inr (f, h) ↦ refused s f h
    | inl (_, h) ↦ elim (Result-cases (post_gemini coerce decrypt fetch path api_key body)) [
      | inr (f, bad) ↦ failed_call s f h bad
      | inl (gemini, good) ↦ elim (Result-cases (not_null gemini)) [
        | inr (f, bad) ↦ null_answer s gemini f h good bad
        | inl (response, whole) ↦ answered s gemini response h good whole
      ]
    ]
  ]
