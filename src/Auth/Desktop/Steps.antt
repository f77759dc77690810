-- ===== src/Auth/Desktop/Steps.antt =====
-- Starts, callbacks and polls of sign-ins with Google on a desktop, in any order.
use backend_softlogic.Base.{
  ℕ, String, ◌≡◌, ◌≢◌, refl, subst, Bool, Option, none, some, List, [], ◌∷◌, is_some, arith, inl,
  inr, Bool-cases, Option-cases,
}
use backend_softlogic.Base.Exec.{Result, ok}
use backend_softlogic.Base.Exec.Granted.{run-cases}
use backend_softlogic.Base.Keeps.{Keeps, keeps_rules}
use backend_softlogic.Base.Table.{find, update, key-find, find-update_self}
use backend_softlogic.Auth.Store.{
  AuthResponse, AuthStore, GoogleDesktopAuthAttempt, GoogleDesktopAuthAttemptStatus, AttemptMessage,
  attempt_row,
}
use backend_softlogic.Auth.Login.{LoginContext, Drawn}
use backend_softlogic.Auth.Desktop.{
  CallbackParams, AttemptStatus, update_attempt, with_status, expired_attempt, should_expire,
  expire_attempt_if_needed, start_desktop_google_sign_in, handle_desktop_google_callback, consumed,
  consume_attempt, answer_payload, answer_completed, answer_status,
  get_desktop_google_sign_in_status,
}
use backend_softlogic.Auth.Google.{GoogleUser}
use backend_softlogic.Auth.Desktop.Once.{
  IsConsumed, update-IsConsumed, Keeps-create_attempt, Keeps-with_status, Keeps-expire,
  Keeps-callback, consumed_answer,
}

module _ (id : String) where
  consume_state :
      (k : String) (now : ℕ) (r : AuthResponse) (st : AuthStore)
      → IsConsumed id st
      → IsConsumed id (consume_attempt k now r st).1
  unfolding consume_attempt consumed
  consume_state k now r st h = elim (Option-cases (find k st.attempts)) [
    | inl n ↦ rw (n, consume_attempt) h
    | inr (a, n) ↦ elim (Bool-cases (is_some a.consumed_at)) [
      | inl c ↦ rw (n, consume_attempt) (rw c h)
      | inr c ↦
          rw (n, consume_attempt)
            (rw c (update-IsConsumed id k (consumed now) (λ b. (refl, λ x. refl)) st h))
    ]
  ]

  Keeps-consume :
      (k : String) (now : ℕ) (r : AuthResponse) → Keeps (IsConsumed id) (consume_attempt k now r)
  Keeps-consume k now r = record { at = consume_state k now r }

  Keeps-payload :
      (k : String) (now : ℕ) (p : Option AuthResponse)
      → Keeps (IsConsumed id) (answer_payload k now p)
  unfolding answer_payload
  Keeps-payload k now none = search (keeps_rules, Keeps-with_status id) depth 5
  Keeps-payload k now (some r) = Keeps-consume k now r

  Keeps-completed :
      (a : GoogleDesktopAuthAttempt) (now : ℕ) → Keeps (IsConsumed id) (answer_completed a now)
  unfolding answer_completed
  Keeps-completed a now = search (keeps_rules, Keeps-payload) depth 5

  Keeps-answer :
      (t : GoogleDesktopAuthAttemptStatus) (a : GoogleDesktopAuthAttempt) (now : ℕ)
      → Keeps (IsConsumed id) (answer_status t a now)
  unfolding answer_status
  Keeps-answer GoogleDesktopAuthAttemptStatus.pending a now = search keeps_rules depth 3
  Keeps-answer GoogleDesktopAuthAttemptStatus.expired a now = search keeps_rules depth 3
  Keeps-answer GoogleDesktopAuthAttemptStatus.failed a now = search keeps_rules depth 3
  Keeps-answer GoogleDesktopAuthAttemptStatus.completed a now = Keeps-completed a now

  Keeps-poll :
      (k : String) (now : ℕ) → Keeps (IsConsumed id) (get_desktop_google_sign_in_status k now)
  unfolding get_desktop_google_sign_in_status
  Keeps-poll k now = search (keeps_rules, Keeps-expire id, Keeps-answer) depth 8

  Keeps-start :
      (configured : Bool) (k state : String) (now : ℕ)
      → Keeps (IsConsumed id) (start_desktop_google_sign_in configured k state now)
  unfolding start_desktop_google_sign_in
  Keeps-start configured k state now = search (keeps_rules, Keeps-create_attempt id) depth 8

consume-IsConsumed :
    (k : String) (now : ℕ) (r r' : AuthResponse) (st st' : AuthStore)
    → consume_attempt k now r st ≡ (ok (AttemptStatus.completed r'), st')
    → IsConsumed k st'
unfolding consume_attempt consumed
consume-IsConsumed k now r r' st st' h = elim (Option-cases (find k st.attempts)) [
  | inl n ↦ absurd (ground (arith, n))
  | inr (a, n) ↦ elim (Bool-cases (is_some a.consumed_at)) [
    | inl c ↦ absurd (ground (arith, n, c))
    | inr c ↦
        let done : st' ≡ record st { attempts = update k (consumed now) st.attempts } =
          ground (arith, n, c) in
        rw done (record {
          attempt = consumed now a;
          found = find-update_self k (consumed now) a st.attempts (λ b. refl) n;
          consumed = refl;
        })
  ]
]

payload-IsConsumed :
    (k : String) (now : ℕ) (p : Option AuthResponse) (r : AuthResponse) (st st' : AuthStore)
    → answer_payload k now p st ≡ (ok (AttemptStatus.completed r), st')
    → IsConsumed k st'
unfolding answer_payload
payload-IsConsumed k now (some x) r st st' h = consume-IsConsumed k now x r st st' h
payload-IsConsumed k now none r st st' h =
    elim (run-cases (
      update_attempt k (with_status GoogleDesktopAuthAttemptStatus.failed AttemptMessage.no_payload)
        st)) [
          | inl (u, s, x) ↦ absurd (ground (arith, x))
          | inr (f, s, x) ↦ absurd (ground (arith, x))
        ]

answer-IsConsumed :
    (t : GoogleDesktopAuthAttemptStatus) (a : GoogleDesktopAuthAttempt) (now : ℕ) (r : AuthResponse)
    (st st' : AuthStore)
    → answer_status t a now st ≡ (ok (AttemptStatus.completed r), st')
    → IsConsumed a.id st'
unfolding answer_status answer_completed
answer-IsConsumed GoogleDesktopAuthAttemptStatus.pending a now r st st' h = absurd (cc)
answer-IsConsumed GoogleDesktopAuthAttemptStatus.expired a now r st st' h = absurd (cc)
answer-IsConsumed GoogleDesktopAuthAttemptStatus.failed a now r st st' h = absurd (cc)
answer-IsConsumed GoogleDesktopAuthAttemptStatus.completed a now r st st' h =
    elim (Bool-cases (is_some a.consumed_at)) [
      | inl c ↦ absurd (ground (arith, c))
      | inr c ↦ payload-IsConsumed a.id now a.session_payload r st st' (ground (arith, c))
    ]

expire_id :
    (a b : GoogleDesktopAuthAttempt) (now : ℕ) (st s : AuthStore)
    → expire_attempt_if_needed a now st ≡ (ok b, s)
    → b.id ≡ a.id
unfolding expire_attempt_if_needed with_status
expire_id a b now st s h = elim (Bool-cases (should_expire now a)) [
  | inl e ↦ elim (run-cases (update_attempt a.id expired_attempt st)) [
    | inl (u, t, x) ↦
        let same : expired_attempt a ≡ b = ground (arith, e, x) in
        subst (λ (y : GoogleDesktopAuthAttempt). y.id ≡ a.id) same refl
    | inr (f, t, x) ↦ absurd (ground (arith, e, x))
  ]
  | inr e ↦
      let same : a ≡ b = ground (arith, e) in
      subst (λ (y : GoogleDesktopAuthAttempt). y.id ≡ a.id) same refl
]

poll-IsConsumed :
    (id : String) (now : ℕ) (r : AuthResponse) (st st' : AuthStore)
    → get_desktop_google_sign_in_status id now st ≡ (ok (AttemptStatus.completed r), st')
    → IsConsumed id st'
unfolding get_desktop_google_sign_in_status
poll-IsConsumed id now r st st' h = elim (Option-cases (find id st.attempts)) [
  | inl n ↦ absurd (ground (arith, n))
  | inr (a, n) ↦ elim (run-cases (expire_attempt_if_needed a now st)) [
    | inr (f, s, x) ↦ absurd (ground (arith, n, x))
    | inl (b, s, x) ↦
        let own : b.id ≡ a.id = expire_id a b now st s x in
        let key : a.id ≡ id = key-find id a st.attempts n in
        let step = answer-IsConsumed b.status b now r s st' (ground (arith, n, x)) in
        subst (λ k. IsConsumed k st') key (subst (λ k. IsConsumed k st') own step)
  ]
]

-- what happens to attempts, each at a time
pub data AttemptStep : Type 0 where
  start : Bool → String → String → AttemptStep
  callback : Bool → CallbackParams → LoginContext → Drawn → AttemptStep
  poll : String → AttemptStep

module _ (lower : String → String) (identify : String → Result GoogleUser)
    (exchange : String → Result String) (ttl : ℕ) where
  pub after_step : AuthStore → ℕ × AttemptStep → AuthStore
  after_step st (now, AttemptStep.start configured id state) =
      (start_desktop_google_sign_in configured id state now st).1
  after_step st (now, AttemptStep.callback configured params ctx drawn) =
      (handle_desktop_google_callback lower identify exchange ttl configured params ctx now drawn
        st).1
  after_step st (now, AttemptStep.poll id) = (get_desktop_google_sign_in_status id now st).1

  abbrev pub after_steps : AuthStore → List (ℕ × AttemptStep) → AuthStore
  after_steps st [] = st
  after_steps st (x ∷ xs) = after_steps (after_step st x) xs

  step-IsConsumed :
      (id : String) (st : AuthStore) (x : ℕ × AttemptStep)
      → IsConsumed id st
      → IsConsumed id (after_step st x)
  unfolding after_step
  step-IsConsumed id st (now, AttemptStep.start configured k state) h =
      (Keeps-start id configured k state now).at st h
  step-IsConsumed id st (now, AttemptStep.callback configured params ctx drawn) h =
      (Keeps-callback id lower identify exchange ttl params ctx now drawn configured).at st h
  step-IsConsumed id st (now, AttemptStep.poll k) h = (Keeps-poll id k now).at st h

  steps-IsConsumed :
      (id : String) (xs : List (ℕ × AttemptStep)) (st : AuthStore)
      → IsConsumed id st
      → IsConsumed id (after_steps st xs)
  steps-IsConsumed id [] st h = h
  steps-IsConsumed id (x ∷ xs) st h =
      steps-IsConsumed id xs (after_step st x) (step-IsConsumed id st x h)

  -- Once a poll has handed out the session of an attempt, no later poll for that attempt hands out a
  -- session, whatever starts, callbacks and polls come in between and at whatever times.
  pub poll-once :
      (id : String) (now : ℕ) (r : AuthResponse) (st st' : AuthStore)
      → get_desktop_google_sign_in_status id now st ≡ (ok (AttemptStatus.completed r), st')
      → (xs : List (ℕ × AttemptStep)) (later : ℕ) (r' : AuthResponse)
      → (get_desktop_google_sign_in_status id later (after_steps st' xs)).0
        ≢ ok (AttemptStatus.completed r')
  poll-once id now r st st' h xs later r' =
      consumed_answer id later (after_steps st' xs) r'
        (steps-IsConsumed id xs st' (poll-IsConsumed id now r st st' h))
