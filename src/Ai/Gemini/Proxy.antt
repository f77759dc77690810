-- ===== src/Ai/Gemini/Proxy.antt =====
-- What a request to Gemini leaves on the accounts.
use backend_softlogic.Base.{
  String, ◌≡◌, ◌≢◌, refl, ap, sym, subst, ◌∙◌, ◌⊎◌, inl, inr, not, ◌&&◌, Option, none, some, ◌==◌,
  first, arith, is_some, or_else, Bool-cases, Option-cases,
}
use backend_softlogic.Base.Int.{pos}
use backend_softlogic.Base.Exec.{Result, Result-cases, ok, err}
use backend_softlogic.Base.Failure.{Failure, ai_role_only, ai_not_enabled, api_key_missing}
use backend_softlogic.Base.Table.{find}
use backend_softlogic.Base.Table.Columns.{find-append_one}
use backend_softlogic.Ai.Gemini.Outcome.{IsBilled, Outcome, outcome}
use backend_softlogic.Access.Roles.{Actor, is_super_admin}
use backend_softlogic.Ai.Json.{Number, Json}
use backend_softlogic.Ai.Pricing.{AiPricingRecord, default_ai_model_pricing}
use backend_softlogic.Ai.Store.{AiCreditAccount, AiStore, account_row}
use backend_softlogic.Ai.Accounts.{
  resolve_usage_account, or_create, own_or_organization, ensure_organization_account,
  ensure_master_account, usable_user_account, is_ai_user_role,
}
use backend_softlogic.Ai.Gemini.{
  default_config, ensure_config, pricing_for_model, ensure_default_pricing, usable_key,
  normalize_allowed_model, priced, add_missing, AiMasterConfig, is_model, request_for,
  priced_request, AiSystem, GeminiResponse, GeminiProxyInput, ProxyAnswer, proxy_gemini_generate,
}

-- Accounts have only been added: each other account is there as it was, and of a new one nothing is used
-- and nothing is reserved.
abbrev pub OnlyAdds : AiStore → AiStore → Type 0
OnlyAdds s s' =
    (j : String)
    → (find j s'.accounts ≡ find j s.accounts)
      ⊎ ((find j s.accounts ≡ none)
          × (b : AiCreditAccount) × (find j s'.accounts ≡ some b)
          × (b.used_tokens ≡ pos 0)
          × (b.reserved_tokens ≡ pos 0))

or_create-OnlyAdds :
    (o : Option AiCreditAccount) (made : AiCreditAccount) (s : AiStore)
    → made.used_tokens ≡ pos 0
    → made.reserved_tokens ≡ pos 0
    → OnlyAdds s (or_create o made s).1
or_create-OnlyAdds (some found) made s used reserved j = inl refl
or_create-OnlyAdds none made s used reserved j =
    let added = find-append_one j made s.accounts in
    elim (Option-cases (find j s.accounts)) [
      | inr (a, here) ↦ inl (ground arith)
      | inl gone ↦ elim (Bool-cases (made.id == j)) [
        | inl same ↦ inr (gone, made, ground arith, used, reserved)
        | inr other ↦ inl (ground arith)
      ]
    ]

own-OnlyAdds :
    (new_id o : String) (own : Option AiCreditAccount) (s : AiStore)
    → OnlyAdds s (own_or_organization new_id o own s).1
unfolding own_or_organization ensure_organization_account
own-OnlyAdds new_id o none s = or_create-OnlyAdds _ _ s refl refl
own-OnlyAdds new_id o (some own) s = λ j. inl refl

-- Choosing the account that pays changes no account that is there.
resolve-OnlyAdds :
    (actor : Actor) (new_id : String) (s : AiStore)
    → OnlyAdds s (resolve_usage_account actor new_id s).1
unfolding resolve_usage_account ensure_master_account
resolve-OnlyAdds actor new_id s =
    elim (Bool-cases (is_super_admin actor.role && not (is_some actor.organization_id))) [
      | inl master ↦ rw master (or_create-OnlyAdds _ _ s refl refl)
      | inr scoped ↦ elim (Option-cases actor.organization_id) [
        | inl none_e ↦ rw scoped (rw none_e (λ j. inl refl))
        | inr (o, some_e) ↦
            rw scoped (rw some_e (own-OnlyAdds new_id o (usable_user_account actor s) s))
      ]
    ]

OnlyAdds-accounts : (s s' t : AiStore) → OnlyAdds s s' → t.accounts ≡ s'.accounts → OnlyAdds s t
OnlyAdds-accounts s s' t adds same j = elim (adds j) [
  | inl kept ↦ inl (ap (find j) same ∙ kept)
  | inr (gone, b, here, used, reserved) ↦ inr (gone, b, ap (find j) same ∙ here, used, reserved)
]

-- the answer, and what is left of the credits
abbrev credits_after : Result ProxyAnswer × AiSystem → Result ProxyAnswer × AiStore
credits_after after = (after.0, after.1.store)

-- The outcome of a request: it fails, and accounts have only been added, or it is answered. Then the
-- account that pays has been chosen, which only adds accounts, and has been billed, and every other
-- account is as the choice has left it.
abbrev pub ProxyOutcome : Actor → String → AiSystem → Result ProxyAnswer × AiSystem → Type 0
ProxyOutcome actor new_id w after =
    let chosen = resolve_usage_account actor new_id w.store in
    ((e : Failure) × (after.0 ≡ err e) × OnlyAdds w.store after.1.store)
    ⊎ ((answer : ProxyAnswer) × (payer : AiCreditAccount) × (a : AiCreditAccount)
        × (b : AiCreditAccount) × (after.0 ≡ ok answer)
        × (chosen.0 ≡ ok payer)
        × OnlyAdds w.store chosen.1
        × (find payer.id chosen.1.accounts ≡ some a)
        × IsBilled answer a b
        × (find payer.id after.1.store.accounts ≡ some b)
        × ((j : String) → payer.id ≢ j → find j after.1.store.accounts ≡ find j chosen.1.accounts))

settled :
    (actor : Actor) (new_id : String) (w : AiSystem) (payer : AiCreditAccount)
    (after : Result ProxyAnswer × AiSystem)
    → (resolve_usage_account actor new_id w.store).0 ≡ ok payer
    → Outcome payer.id (resolve_usage_account actor new_id w.store).1 (credits_after after)
    → ProxyOutcome actor new_id w after
settled actor new_id w payer after good out =
    let adds = resolve-OnlyAdds actor new_id w.store in
    elim out [
      | inl (f, raised, same) ↦ inl (
        f,
        raised,
        OnlyAdds-accounts w.store (resolve_usage_account actor new_id w.store).1 after.1.store adds
            same,
      )
      | inr (answer, a, b, result, found, billed, here, others) ↦
          inr (answer, payer, a, b, result, good, adds, found, billed, here, others)
    ]

-- Gemini, the key and the conversion of JSON to numbers are arbitrary functions.
module _ (coerce : Json → Number) (decrypt : Option String → Option String)
    (fetch : String → String → Json → Option GeminiResponse) where
  priced-Outcome :
      (actor : Actor) (input : GeminiProxyInput) (config : AiMasterConfig) (key : String)
      (account : AiCreditAccount) (model : String) (pricing : AiPricingRecord) (w : AiSystem)
      → Outcome account.id w.store (
          credits_after
            (priced_request coerce decrypt fetch actor input config key account model pricing w))
  unfolding priced_request
  priced-Outcome actor input config key account model pricing w =
      outcome coerce decrypt fetch actor account.id key _ _ pricing _ _ model w.store

  request-Outcome :
      (actor : Actor) (input : GeminiProxyInput) (config : AiMasterConfig) (key : String)
      (account : AiCreditAccount) (w : AiSystem)
      → Outcome account.id w.store
          (credits_after (request_for coerce decrypt fetch actor input config key account w))
  unfolding request_for pricing_for_model ensure_default_pricing
  request-Outcome actor input config key account w =
      let table = add_missing default_ai_model_pricing w.pricing in
      elim (Result-cases (normalize_allowed_model input.model_id config)) [
        | inr (f, bad) ↦ inl (f, ground arith, ground arith)
        | inl (model, allowed) ↦ elim (Result-cases (priced model (first (is_model model) table))) [
          | inr (f, bad) ↦ inl (f, ground arith, ground arith)
          | inl (pricing, known) ↦
              let next = record w { pricing = table } in
              let ends : request_for coerce decrypt fetch actor input config key account w
                  ≡ priced_request coerce decrypt fetch actor input config key account model pricing
                      next =
                ground arith in
              subst (λ r. Outcome account.id w.store (credits_after r)) (sym ends)
                (priced-Outcome actor input config key account model pricing next)
        ]
      ]

  -- A request to Gemini leaves no reservation behind, whatever Gemini answers and wherever the
  -- request fails. If it fails, every account that was there is as it was before, and of one that was
  -- added nothing is used or reserved. If it is answered, one account is charged, the one that
  -- `resolveUsageAccount` chooses, and every other one is as that choice has left it. The charge is added
  -- to what is used; it is the cost of the request or, on an account that is not unlimited, all that is
  -- available, is not negative and at most the cost, and the answer reports it and the rest of the cost as
  -- unbilled.
  pub proxy_gemini_generate-settles :
      (actor : Actor) (input : GeminiProxyInput) (new_id : String) (w : AiSystem)
      → ProxyOutcome actor new_id w
          (proxy_gemini_generate coerce decrypt fetch actor input new_id w)
  unfolding proxy_gemini_generate ensure_config
  proxy_gemini_generate-settles actor input new_id w =
      let config = or_else w.config default_config in
      let resolved = resolve_usage_account actor new_id w.store in
      let adds = resolve-OnlyAdds actor new_id w.store in
      elim (Bool-cases (is_ai_user_role actor.role)) [
        | inr out ↦ inl (ai_role_only, ground arith, λ j. inl (ground arith))
        | inl user ↦ elim (Bool-cases config.enabled) [
          | inr off ↦ inl (ai_not_enabled, ground arith, λ j. inl (ground arith))
          | inl on ↦ elim (Option-cases (usable_key (decrypt config.gemini_api_key_encrypted))) [
            | inl missing ↦ inl (api_key_missing, ground arith, λ j. inl (ground arith))
            | inr (key, has_key) ↦ elim (Result-cases resolved.0) [
              | inr (f, bad) ↦
                  let left : (proxy_gemini_generate coerce decrypt fetch actor input new_id
                        w).1.store
                      ≡ resolved.1 =
                    ground arith in
                  inl (f, ground arith, subst (OnlyAdds w.store) (sym left) adds)
              | inl (account, good) ↦
                  let next = record w { config = some config; store = resolved.1 } in
                  let answered =
                    request_for coerce decrypt fetch actor input config key account next in
                  let rest = request-Outcome actor input config key account next in
                  let ends : proxy_gemini_generate coerce decrypt fetch actor input new_id w
                      ≡ answered =
                    ground arith in
                  subst (ProxyOutcome actor new_id w) (sym ends)
                    (settled actor new_id w account answered good rest)
            ]
          ]
        ]
      ]
