-- ===== src/Auth/Desktop.antt =====
-- src/modules/auth/auth.service.ts: the attempts to sign in with Google on a desktop. `exchange` is
-- `exchangeGoogleCodeForIdToken`; `lower`, `identify` and `ttl` are those of the sign-in. Of the page
-- that answers a callback its status is kept. Ids, states and times are arguments.
pub mod Once
pub mod Steps
use backend_softlogic.Base.{
  ℕ, ◌+◌, ◌*◌, String, Bool, true, false, not, ◌&&◌, Option, none, some, List, [], ◌∷◌, ◌++◌, ◌==◌,
  first, ltb, is_some, or_else, trim, trimmed, if◌then◌else◌,
}
use backend_softlogic.Base.Exec.{
  Exec, Result, ok, err, pure, raise, lift, gets, or_raise, raise_if, modify, try_catch, ◌>>=◌,
  ◌>>◌,
}
use backend_softlogic.Base.Failure.{
  Failure, status_code, account_suspended, google_token_required, google_attempt_not_found,
  google_not_configured, record_not_found,
}
use backend_softlogic.Base.Table.{find, update}
use backend_softlogic.Auth.Store.{
  AuthResponse, AuthUser, auth_user_row, AuthStore, AttemptMessage, GoogleDesktopAuthAttempt,
  GoogleDesktopAuthAttemptStatus, attempt_row, is_deleted, find_user_by_email,
  no_active_account_error, update_user,
}
use backend_softlogic.Auth.Sessions.{or_option}
use backend_softlogic.Auth.Login.{LoginContext, Drawn, can_login, open_session}
use backend_softlogic.Auth.Google.{GoogleUser, google_sign_in}

abbrev pub google_desktop_auth_expiry : ℕ
google_desktop_auth_expiry = 10 * 60 * 1000

abbrev pub create_attempt : GoogleDesktopAuthAttempt → Exec AuthStore Unit
create_attempt a st = (ok tt, record st { attempts = st.attempts ++ a ∷ [] })

abbrev pub update_attempt :
    String → (GoogleDesktopAuthAttempt → GoogleDesktopAuthAttempt) → Exec AuthStore Unit
update_attempt id f st = elim (find id st.attempts) [
  | none ↦ (err record_not_found, st)
  | some a ↦ (ok tt, record st { attempts = update id f st.attempts })
]

-- the id of the attempt
unfoldable pub start_desktop_google_sign_in : Bool → String → String → ℕ → Exec AuthStore String
start_desktop_google_sign_in configured id state now = do
  raise_if (not configured) google_not_configured
  create_attempt (record {
    id = id;
    user_id = none;
    state = state;
    status = GoogleDesktopAuthAttemptStatus.pending;
    error_message = none;
    session_payload = none;
    expires_at = now + google_desktop_auth_expiry;
    completed_at = none;
    consumed_at = none;
  })
  pure id

abbrev pub is_pending : GoogleDesktopAuthAttemptStatus → Bool
is_pending GoogleDesktopAuthAttemptStatus.pending = true
is_pending _ = false

unfoldable pub with_status :
    GoogleDesktopAuthAttemptStatus
    → AttemptMessage
    → GoogleDesktopAuthAttempt
    → GoogleDesktopAuthAttempt
with_status status message a = record a { error_message = some message; status = status }

unfoldable pub should_expire : ℕ → GoogleDesktopAuthAttempt → Bool
should_expire now a = is_pending a.status && ltb a.expires_at now

abbrev pub expired_attempt : GoogleDesktopAuthAttempt → GoogleDesktopAuthAttempt
expired_attempt = with_status GoogleDesktopAuthAttemptStatus.expired AttemptMessage.session_expired

-- the attempt as it stands after `expireAttemptIfNeeded`
unfoldable pub expire_attempt_if_needed :
    GoogleDesktopAuthAttempt → ℕ → Exec AuthStore GoogleDesktopAuthAttempt
expire_attempt_if_needed a now =
    if should_expire now a
    then (update_attempt a.id expired_attempt >> pure (expired_attempt a))
    else pure a

unfoldable pub with_session : AuthResponse → ℕ → GoogleDesktopAuthAttempt → GoogleDesktopAuthAttempt
with_session r now a = record a {
  completed_at = some now;
  error_message = none;
  session_payload = some r;
  status = GoogleDesktopAuthAttemptStatus.completed;
  user_id = some r.user.licensed.row.id;
}

pub record CallbackParams : Type 0 where
  pub code : Option String
  pub error : Option String
  pub error_description : Option String
  pub state : Option String

unfoldable pub fail_attempt : String → AttemptMessage → ℕ → Exec AuthStore ℕ
fail_attempt id message status =
    update_attempt id (with_status GoogleDesktopAuthAttemptStatus.failed message) >> pure status

unfoldable pub cancel_message : Option String → AttemptMessage
cancel_message none = AttemptMessage.cancelled
cancel_message (some s) = AttemptMessage.described s

module _ (lower : String → String) (identify : String → Result GoogleUser)
    (exchange : String → Result String) (ttl : ℕ) where
  -- the body of the `try`
  unfoldable pub complete_attempt : String → String → LoginContext → ℕ → Drawn → Exec AuthStore ℕ
  complete_attempt id code ctx now drawn = do
    id_token ← lift (exchange code)
    session ←
        google_sign_in lower identify ttl id_token (record ctx { client_session_id = none }) now
          drawn
    update_attempt id (with_session session now)
    pure 200

  unfoldable pub settle_code : LoginContext → ℕ → Drawn → String → Option String → Exec AuthStore ℕ
  settle_code ctx now drawn id none = fail_attempt id AttemptMessage.no_code 400
  settle_code ctx now drawn id (some code) =
      try_catch (complete_attempt id code ctx now drawn)
        (λ e. fail_attempt id (AttemptMessage.refused e) (status_code e))

  unfoldable pub settle_attempt :
      CallbackParams → LoginContext → ℕ → Drawn → String → Exec AuthStore ℕ
  unfolding cancel_message
  settle_attempt params ctx now drawn id =
      if is_some (trimmed params.error)
      then fail_attempt id (cancel_message (trimmed params.error_description)) 400
      else settle_code ctx now drawn id (trimmed params.code)

  unfoldable pub handle_found :
      CallbackParams → LoginContext → ℕ → Drawn → Option GoogleDesktopAuthAttempt → Exec AuthStore ℕ
  handle_found params ctx now drawn none = pure 404
  handle_found params ctx now drawn (some a) = do
    attempt ← expire_attempt_if_needed a now
    if should_expire now a then pure 410 else settle_attempt params ctx now drawn a.id

  unfoldable pub handle_state :
      CallbackParams → LoginContext → ℕ → Drawn → Option String → Exec AuthStore ℕ
  handle_state params ctx now drawn none = pure 400
  handle_state params ctx now drawn (some state) = do
    found ←
        gets (λ (st : AuthStore).
          first (λ (a : GoogleDesktopAuthAttempt). a.state == state) st.attempts)
    handle_found params ctx now drawn found

  -- the status of the page
  unfoldable pub handle_desktop_google_callback :
      Bool → CallbackParams → LoginContext → ℕ → Drawn → Exec AuthStore ℕ
  handle_desktop_google_callback configured params ctx now drawn =
      raise_if (not configured) google_not_configured
      >> handle_state params ctx now drawn (trimmed params.state)

-- what a poll is answered
pub data AttemptStatus : Type 0 where
  waiting : AttemptStatus
  expired failed : AttemptMessage → AttemptStatus
  completed : AuthResponse → AttemptStatus

unfoldable pub consumed : ℕ → GoogleDesktopAuthAttempt → GoogleDesktopAuthAttempt
consumed now a = record a { consumed_at = some now }

-- `consumeGoogleDesktopAuthAttempt` and the answer: the first to consume the attempt gets the session.
unfoldable pub consume_attempt : String → ℕ → AuthResponse → Exec AuthStore AttemptStatus
consume_attempt id now r st = elim (find id st.attempts) [
  | none ↦ (ok (AttemptStatus.failed AttemptMessage.already_completed), st)
  | some a ↦
      if is_some a.consumed_at
      then (ok (AttemptStatus.failed AttemptMessage.already_completed), st)
      else (
        ok (AttemptStatus.completed r),
        record st { attempts = update id (consumed now) st.attempts },
      )
]

unfoldable pub answer_payload : String → ℕ → Option AuthResponse → Exec AuthStore AttemptStatus
answer_payload id now none =
    update_attempt id (with_status GoogleDesktopAuthAttemptStatus.failed AttemptMessage.no_payload)
    >> pure (AttemptStatus.failed AttemptMessage.no_payload)
answer_payload id now (some r) = consume_attempt id now r

unfoldable pub answer_completed : GoogleDesktopAuthAttempt → ℕ → Exec AuthStore AttemptStatus
answer_completed a now =
    if is_some a.consumed_at
    then pure (AttemptStatus.failed AttemptMessage.already_completed)
    else answer_payload a.id now a.session_payload

unfoldable pub answer_status :
    GoogleDesktopAuthAttemptStatus → GoogleDesktopAuthAttempt → ℕ → Exec AuthStore AttemptStatus
answer_status GoogleDesktopAuthAttemptStatus.pending a now = pure AttemptStatus.waiting
answer_status GoogleDesktopAuthAttemptStatus.expired a now =
    pure (AttemptStatus.expired (or_else a.error_message AttemptMessage.session_expired))
answer_status GoogleDesktopAuthAttemptStatus.failed a now =
    pure (AttemptStatus.failed (or_else a.error_message AttemptMessage.not_completed))
answer_status GoogleDesktopAuthAttemptStatus.completed a now = answer_completed a now

unfoldable pub get_desktop_google_sign_in_status : String → ℕ → Exec AuthStore AttemptStatus
get_desktop_google_sign_in_status id now = do
  found ← gets (λ (st : AuthStore). find id st.attempts)
  attempt ← or_raise found google_attempt_not_found
  refreshed ← expire_attempt_if_needed attempt now
  answer_status refreshed.status refreshed now
