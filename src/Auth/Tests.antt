-- ===== src/Auth/Tests.antt =====
-- Runs of logins, of codes and of refresh tokens.
use backend_softlogic.Base.{
  ℕ, ◌≢◌, String, ◌≡◌, refl, Bool, true, false, Option, none, some, List, [], ◌∷◌, ◌==◌, arith,
  eq_iff,
}
use backend_softlogic.Base.Text.{trim, trimmed}
use backend_softlogic.Base.Exec.{Result, ok, err}
use backend_softlogic.Base.Failure.{otp_max_attempts, token_invalid}
use backend_softlogic.Base.Table.{find, update}
use backend_softlogic.Access.Roles.{UserRole, is_super_admin}
use backend_softlogic.Licensing.Admission.{assert_organization_can_login}
use backend_softlogic.Auth.Store.{
  AuthResponse, GoogleDesktopAuthAttemptStatus, AuthUser, Otp, OtpType, LoginSession, AuthStore,
  AuthEnv, NodeEnv, licensing_of, should_relax_auth_limits, find_user_by_email, find_user_by_id,
  find_user_context_by_id, login_session_row,
}
use backend_softlogic.Auth.Sessions.{
  find_session_by_token, find_token, find_client, touched, write_session, touch_sessions,
  touch_own_session,
}
use backend_softlogic.Auth.Sessions.Tokens.{IsConsistent}
use backend_softlogic.Auth.Login.{
  LoginContext, Drawn, can_login, end_session_if, decoded_user, refresh_options, renew_session,
  exchange_for, exchange_session, exchange_token, exchange_refresh_token,
}
use backend_softlogic.Auth.OwnSessions.Requests.{
  SessionRequest, after_all, brings_back, exchange-replay,
}
use backend_softlogic.Auth.OwnSessions.{logout, heartbeat_own_session}
use backend_softlogic.Auth.OwnSessions.Revival.{token_alone, IsRevived, logout-heartbeat}
use backend_softlogic.Auth.Otps.{find_latest_otp, is_valid_code, fixed_otp_code, verify_otp}
use backend_softlogic.Auth.Otps.Guesses.{Guess, HasCode, after_guesses, guesses-locked}
use backend_softlogic.Auth.Passwords.{complete_password_reset_otp}
use backend_softlogic.Auth.Desktop.{
  CallbackParams, AttemptStatus, should_expire, expire_attempt_if_needed, consume_attempt,
  answer_payload, answer_completed, answer_status, get_desktop_google_sign_in_status,
}
use backend_softlogic.Auth.Google.{GoogleUser}
use backend_softlogic.Auth.Desktop.Steps.{AttemptStep, after_steps, poll-once}

abbrev same : String → String
same s = s

abbrev matches : String → String → Bool
matches a b = a == b

abbrev known : String → Option String
known token = some "u"

abbrev live_env : AuthEnv
live_env = record {
  node_env = NodeEnv.production;
  testing_relax_auth_limits = false;
  dev_fixed_otp_enabled = false;
  dev_fixed_otp_code = none;
  dev_fixed_otp_allowed_emails = none;
}

abbrev ann : AuthUser
ann = record {
  licensed = record {
    row = record {
      id = "u";
      role = UserRole.super_admin;
      primary_organization_id = none;
      deleted_at = none;
    };
    email = "a@b";
    name = none;
    is_active = true;
  };
  archived_email = none;
  google_id = none;
  avatar = none;
  password_hash = some "old";
  is_email_verified = true;
  last_login_at = none;
}

abbrev laptop : LoginSession
laptop = record {
  id = "s";
  user_id = "u";
  refresh_token = some "a";
  client_session_id = none;
  device_info = none;
  ip_address = none;
  expires_at = 100;
  last_seen_at = none;
  revoked_at = none;
  created_at = 1;
}

abbrev code_of : OtpType → Otp
code_of t = record {
  id = "c";
  user_id = "u";
  code = "1111";
  otp_type = t;
  expires_at = 90;
  used_at = none;
  attempts = 0;
  created_at = 1;
}

abbrev tables : OtpType → AuthStore
tables t = record {
  organizations = [];
  memberships = [];
  users = ann ∷ [];
  sessions = laptop ∷ [];
  otps = code_of t ∷ [];
  outbox = [];
  attempts = [];
}

abbrev browser : LoginContext
browser = record { client_session_id = none; device_info = none; ip_address = none }

abbrev drawn : Drawn
drawn = record { session_id = "t"; refresh_token = "b" }

abbrev renewed : AuthStore
renewed = record (tables OtpType.email_login) {
  sessions =
      record laptop { refresh_token = some "b"; expires_at = 70; last_seen_at = some 20 } ∷ [];
}

tables-IsConsistent : (t : OtpType) → IsConsistent (tables t)
unfolding find
tables-IsConsistent t = record { keyed = (refl, tt); unique = λ s. ground arith }

is_renewed :
    exchange_refresh_token known 50 live_env "a" browser 20 drawn (tables OtpType.email_login)
    ≡ (ok (record { refresh_token = "b"; user = ann }), renewed)
unfolding exchange_refresh_token exchange_token exchange_session exchange_for renew_session
    find_session_by_token end_session_if decoded_user should_relax_auth_limits find_user_by_id
    can_login assert_organization_can_login licensing_of is_super_admin find update
    touch_own_session touch_sessions find_token find_client write_session touched refresh_options
    trimmed trim find_user_context_by_id
is_renewed = refl

-- A heartbeat with the new token, and a sign-out of another one.
abbrev later_requests : List (ℕ × SessionRequest)
later_requests =
    (30, SessionRequest.heartbeat "u" (token_alone "b") 80 "s3")
    ∷ (40, SessionRequest.sign_out "c")
    ∷ []

exchange-replay_example :
    let later = after_all known 50 live_env renewed later_requests in
    exchange_refresh_token known 50 live_env "a" browser 60 drawn later ≡ (err token_invalid, later)
unfolding trimmed trim brings_back
exchange-replay_example =
    exchange-replay known 50 live_env live_env "a" browser 20 drawn (tables OtpType.email_login)
      renewed (record { refresh_token = "b"; user = ann }) (tables-IsConsistent OtpType.email_login)
      refl refl (λ e. let t = (eq_iff "b" "a").1 e in cc) is_renewed later_requests refl browser 60
      drawn

logout-heartbeat_example :
    IsRevived "a" "u" "t" 70 20
      (heartbeat_own_session "u"
        (token_alone "a")
        70
        20
        "t"
        (logout "a" 10 (tables OtpType.email_login)).1).1
unfolding trimmed trim find
logout-heartbeat_example =
    logout-heartbeat "a" "u" "t" 70 20 10 (tables OtpType.email_login) refl refl refl

abbrev guess : String → Guess
guess code = record { code = code; context = browser; now = 20; drawn = drawn }

abbrev wrong_guesses : List Guess
wrong_guesses = guess "1" ∷ guess "2" ∷ guess "3" ∷ []

has_code :
    HasCode same matches 50 live_env "a@b" ann
      (code_of OtpType.email_login)
      (tables OtpType.email_login)
unfolding find_user_by_email find_latest_otp find
has_code = record { known = refl; active = refl; newest = refl; keyed = (refl, tt) }

guesses-locked_example :
    verify_otp same matches 50 live_env "a@b" "1111" browser 20 drawn
      (after_guesses same matches 50 live_env "a@b" wrong_guesses (tables OtpType.email_login))
    ≡ (
      err otp_max_attempts,
      after_guesses same matches 50 live_env "a@b" wrong_guesses (tables OtpType.email_login),
    )
unfolding is_valid_code fixed_otp_code trim should_relax_auth_limits
guesses-locked_example =
    guesses-locked same matches 50 live_env "a@b" ann refl wrong_guesses
      (code_of OtpType.email_login) (tables OtpType.email_login) (guess "1111") has_code
      ((refl, refl), ((refl, refl), ((refl, refl), tt))) (omega arith) refl

abbrev reset_tables : AuthStore
reset_tables =
    (complete_password_reset_otp same matches same live_env "a@b" "1111" "new" 20
      (tables OtpType.password_reset)).1

abbrev answered : AuthResponse
answered = record { refresh_token = "b"; user = ann }

abbrev desktop : AuthStore
desktop = record (tables OtpType.email_login) {
  attempts =
      record {
        id = "d";
        user_id = some "u";
        state = "x";
        status = GoogleDesktopAuthAttemptStatus.completed;
        error_message = none;
        session_payload = some answered;
        expires_at = 90;
        completed_at = some 20;
        consumed_at = none;
      }
      ∷ [];
}

abbrev polled : AuthStore
polled = (get_desktop_google_sign_in_status "d" 25 desktop).1

is_handed_out :
    get_desktop_google_sign_in_status "d" 25 desktop
    ≡ (ok (AttemptStatus.completed answered), polled)
unfolding get_desktop_google_sign_in_status expire_attempt_if_needed should_expire find
    answer_status answer_completed answer_payload consume_attempt
is_handed_out = refl

abbrev nobody : String → Result GoogleUser
nobody id_token = err token_invalid

abbrev no_exchange : String → Result String
no_exchange code = ok code

abbrev back : CallbackParams
back = record { code = some "1"; error = none; error_description = none; state = some "x" }

abbrev later_steps : List (ℕ × AttemptStep)
later_steps =
    (30, AttemptStep.callback true back browser drawn)
    ∷ (31, AttemptStep.poll "d")
    ∷ (32, AttemptStep.start true "e" "y")
    ∷ []

poll-once_example :
    (get_desktop_google_sign_in_status "d" 40
      (after_steps same nobody no_exchange 50 polled later_steps)).0
    ≢ ok (AttemptStatus.completed answered)
poll-once_example =
    poll-once same nobody no_exchange 50 "d" 25 answered desktop polled is_handed_out later_steps 40
      answered
