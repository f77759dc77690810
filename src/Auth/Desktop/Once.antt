-- ===== src/Auth/Desktop/Once.antt =====
-- The session of a sign-in with Google on a desktop is handed out once.
use backend_softlogic.Base.{
  ℕ, String, ◌≡◌, ◌≢◌, refl, subst, Bool, true, not, Option, none, some, ◌==◌, is_some, any, ◌&&◌,
  ◌||◌, arith, inl, inr, Bool-cases, Option-cases,
}
use backend_softlogic.Base.Exec.{Result, ok}
use backend_softlogic.Base.Exec.Granted.{run-cases}
use backend_softlogic.Base.Keeps.{Keeps, Keeps-pure, keeps_rules}
use backend_softlogic.Base.Table.{find, update, find-update}
use backend_softlogic.Base.Table.Columns.{find-append_one}
use backend_softlogic.Auth.Store.{
  AuthResponse, AuthUser, LoginSession, auth_user_row, login_session_row, AuthStore,
  GoogleDesktopAuthAttempt, GoogleDesktopAuthAttemptStatus, attempt_row, update_user,
  AttemptMessage,
}
use backend_softlogic.Auth.Sessions.{
  TouchOptions, update_session, create_session, drop_token_session, write_session, touch_sessions,
  touch_own_session, new_session, touched, clashes,
}
use backend_softlogic.Auth.Login.{LoginContext, Drawn, can_login, open_session}
use backend_softlogic.Auth.Desktop.{
  create_attempt, update_attempt, with_status, with_session, expired_attempt, should_expire,
  expire_attempt_if_needed, CallbackParams, complete_attempt, settle_attempt,
  handle_desktop_google_callback, AttemptStatus, answer_completed, answer_status, fail_attempt,
  settle_code, handle_found, handle_state, get_desktop_google_sign_in_status,
}
use backend_softlogic.Auth.Google.{GoogleUser, google_sign_in}

-- the attempt has handed out its session
pub record IsConsumed (id : String) (st : AuthStore) : Type 0 where
  pub attempt : GoogleDesktopAuthAttempt
  pub found : find id st.attempts ≡ some attempt
  pub consumed : is_some attempt.consumed_at ≡ true

module _ (id : String) where
  frame_state :
      (st st' : AuthStore) → st'.attempts ≡ st.attempts → IsConsumed id st → IsConsumed id st'
  frame_state st st' e h = record {
    attempt = h.attempt;
    found = rw e h.found;
    consumed = h.consumed;
  }

  update_user_state :
      (k : String) (f : AuthUser → AuthUser) (st : AuthStore)
      → IsConsumed id st
      → IsConsumed id (update_user k f st).1
  update_user_state k f st h = elim (Option-cases (find k st.users)) [
    | inl n ↦ rw (n, update_user) h
    | inr (u, n) ↦ rw (n, update_user) (frame_state st _ refl h)
  ]

  update_session-attempts :
      (k : String) (f : LoginSession → LoginSession) (st : AuthStore)
      → (update_session k f st).1.attempts ≡ st.attempts
  update_session-attempts k f st = elim (Option-cases (find k st.sessions)) [
    | inl n ↦ rw (n, update_session) refl
    | inr (s, n) ↦
        elim (Bool-cases
          (any (λ (t : LoginSession). not (t.id == s.id) && clashes (f s) t) st.sessions)) [
            | inl c ↦ rw (n, update_session) (rw c refl)
            | inr c ↦ rw (n, update_session) (rw c refl)
          ]
  ]

  create_session-attempts :
      (s : LoginSession) (st : AuthStore) → (create_session s st).1.attempts ≡ st.attempts
  create_session-attempts s st =
      elim (Bool-cases (any (λ (t : LoginSession). (t.id == s.id) || clashes s t) st.sessions)) [
        | inl c ↦ rw (c, create_session) refl
        | inr c ↦ rw (c, create_session) refl
      ]

  abbrev KeepsConsumed : GoogleDesktopAuthAttempt → GoogleDesktopAuthAttempt → Type 0
  KeepsConsumed a b = (b.id ≡ a.id) × (is_some a.consumed_at ≡ true → is_some b.consumed_at ≡ true)

  pub update-IsConsumed :
      (k : String) (f : GoogleDesktopAuthAttempt → GoogleDesktopAuthAttempt)
      → ((a : GoogleDesktopAuthAttempt) → KeepsConsumed a (f a))
      → (st : AuthStore) → IsConsumed id st
      → IsConsumed id (record st { attempts = update k f st.attempts })
  update-IsConsumed k f keeps st h = elim (Bool-cases (k == id)) [
    | inl e ↦ record {
      attempt = f h.attempt;
      found = rw (find-update k id f st.attempts (λ a. (keeps a).0)) (rw (e, h.found) refl);
      consumed = (keeps h.attempt).1 h.consumed;
    }
    | inr e ↦ record {
      attempt = h.attempt;
      found = rw (find-update k id f st.attempts (λ a. (keeps a).0)) (rw (e, h.found) refl);
      consumed = h.consumed;
    }
  ]

  update_attempt_state :
      (k : String) (f : GoogleDesktopAuthAttempt → GoogleDesktopAuthAttempt)
      → ((a : GoogleDesktopAuthAttempt) → KeepsConsumed a (f a))
      → (st : AuthStore) → IsConsumed id st
      → IsConsumed id (update_attempt k f st).1
  update_attempt_state k f keeps st h = elim (Option-cases (find k st.attempts)) [
    | inl n ↦ rw (n, update_attempt) h
    | inr (a, n) ↦ rw (n, update_attempt) (update-IsConsumed k f keeps st h)
  ]

  Keeps-update_user :
      (k : String) (f : AuthUser → AuthUser) → Keeps (IsConsumed id) (update_user k f)
  Keeps-update_user k f = record { at = update_user_state k f }

  Keeps-update_session :
      (k : String) (f : LoginSession → LoginSession) → Keeps (IsConsumed id) (update_session k f)
  Keeps-update_session k f = record {
    at = λ st h. frame_state st (update_session k f st).1 (update_session-attempts k f st) h;
  }

  Keeps-create_session : (s : LoginSession) → Keeps (IsConsumed id) (create_session s)
  Keeps-create_session s = record {
    at = λ st h. frame_state st (create_session s st).1 (create_session-attempts s st) h;
  }

  pub Keeps-with_status :
      (k : String) (s : GoogleDesktopAuthAttemptStatus) (m : AttemptMessage)
      → Keeps (IsConsumed id) (update_attempt k (with_status s m))
  unfolding with_status
  Keeps-with_status k s m = record {
    at = update_attempt_state k (with_status s m) (λ a. (refl, λ h. h));
  }

  Keeps-with_session :
      (k : String) (r : AuthResponse) (now : ℕ)
      → Keeps (IsConsumed id) (update_attempt k (with_session r now))
  unfolding with_session
  Keeps-with_session k r now = record {
    at = update_attempt_state k (with_session r now) (λ a. (refl, λ h. h));
  }

  pub Keeps-create_attempt :
      (a : GoogleDesktopAuthAttempt) → Keeps (IsConsumed id) (create_attempt a)
  Keeps-create_attempt a = record {
    at = λ st h. record {
      attempt = h.attempt;
      found = rw (find-append_one id a st.attempts) (rw h.found refl);
      consumed = h.consumed;
    };
  }

  ruleset table_rules = (
    Keeps-update_user, Keeps-update_session, Keeps-create_session, Keeps-with_status,
    Keeps-with_session, Keeps-create_attempt,
  )

  Keeps-drop :
      (ts cs : Option LoginSession) (now : ℕ) → Keeps (IsConsumed id) (drop_token_session ts cs now)
  Keeps-drop none cs now = Keeps-pure tt
  Keeps-drop (some t) none now = Keeps-pure tt
  Keeps-drop (some t) (some c) now = search (keeps_rules, table_rules) depth 6

  Keeps-write :
      (user_id : String) (o : TouchOptions) (e now : ℕ) (fresh : String) (s : Option LoginSession)
      → Keeps (IsConsumed id) (write_session user_id o e now fresh s)
  unfolding write_session
  Keeps-write user_id o e now fresh none = Keeps-create_session (new_session user_id o e now fresh)
  Keeps-write user_id o e now fresh (some s) = Keeps-update_session s.id (touched o e now)

  Keeps-touch :
      (user_id : String) (o : TouchOptions) (e now : ℕ) (fresh : String)
      → Keeps (IsConsumed id) (touch_own_session user_id o e now fresh)
  unfolding touch_own_session touch_sessions
  Keeps-touch user_id o e now fresh = search (keeps_rules, Keeps-drop, Keeps-write) depth 9

  Keeps-can_login : (k : String) → Keeps (IsConsumed id) (can_login k)
  unfolding can_login
  Keeps-can_login k = record { at = λ s h. h }

  Keeps-open_session :
      (ttl : ℕ) (k : String) (ctx : LoginContext) (now : ℕ) (drawn : Drawn)
      → Keeps (IsConsumed id) (open_session ttl k ctx now drawn)
  unfolding open_session
  Keeps-open_session ttl k ctx now drawn = search (keeps_rules, Keeps-touch) depth 8

  pub Keeps-expire :
      (a : GoogleDesktopAuthAttempt) (now : ℕ)
      → Keeps (IsConsumed id) (expire_attempt_if_needed a now)
  unfolding expire_attempt_if_needed
  Keeps-expire a now = search (keeps_rules, table_rules) depth 8

  expire-consumed :
      (a b : GoogleDesktopAuthAttempt) (now : ℕ) (st s : AuthStore)
      → is_some a.consumed_at ≡ true
      → expire_attempt_if_needed a now st ≡ (ok b, s)
      → is_some b.consumed_at ≡ true
  unfolding expire_attempt_if_needed with_status
  expire-consumed a b now st s c h = elim (Bool-cases (should_expire now a)) [
    | inl e ↦ elim (run-cases (update_attempt a.id expired_attempt st)) [
      | inl (u, t, x) ↦
          let same : expired_attempt a ≡ b = ground (arith, e, x) in
          subst (λ (y : GoogleDesktopAuthAttempt). is_some y.consumed_at ≡ true) same c
      | inr (f, t, x) ↦ absurd (ground (arith, e, x))
    ]
    | inr e ↦
        let same : a ≡ b = ground (arith, e) in
        subst (λ (y : GoogleDesktopAuthAttempt). is_some y.consumed_at ≡ true) same c
  ]

  answer-consumed :
      (t : GoogleDesktopAuthAttemptStatus) (a : GoogleDesktopAuthAttempt) (now : ℕ) (st : AuthStore)
      (r : AuthResponse)
      → is_some a.consumed_at ≡ true
      → (answer_status t a now st).0 ≢ ok (AttemptStatus.completed r)
  unfolding answer_status answer_completed
  answer-consumed GoogleDesktopAuthAttemptStatus.pending a now st r c e = cc
  answer-consumed GoogleDesktopAuthAttemptStatus.expired a now st r c e = cc
  answer-consumed GoogleDesktopAuthAttemptStatus.failed a now st r c e = cc
  answer-consumed GoogleDesktopAuthAttemptStatus.completed a now st r c e = ground (arith, c)

  -- A poll for a consumed attempt hands out no session.
  pub consumed_answer :
      (now : ℕ) (st : AuthStore) (r : AuthResponse)
      → IsConsumed id st
      → (get_desktop_google_sign_in_status id now st).0 ≢ ok (AttemptStatus.completed r)
  unfolding get_desktop_google_sign_in_status
  consumed_answer now st r h e = elim (run-cases (expire_attempt_if_needed h.attempt now st)) [
    | inr (f, s, x) ↦ ground (arith, h.found, x)
    | inl (a, s, x) ↦
        answer-consumed a.status a now s r (expire-consumed h.attempt a now st s h.consumed x)
          (ground (arith, h.found, x))
  ]

  Keeps-complete_attempt :
      (lower : String → String) (identify : String → Result GoogleUser)
      (exchange : String → Result String) (ttl : ℕ) (k code : String) (ctx : LoginContext) (now : ℕ)
      (drawn : Drawn)
      → Keeps (IsConsumed id) (complete_attempt lower identify exchange ttl k code ctx now drawn)
  unfolding complete_attempt google_sign_in
  Keeps-complete_attempt lower identify exchange ttl k code ctx now drawn =
      search (keeps_rules, table_rules, Keeps-open_session, Keeps-can_login) depth 12

  Keeps-fail :
      (k : String) (m : AttemptMessage) (n : ℕ) → Keeps (IsConsumed id) (fail_attempt k m n)
  unfolding fail_attempt
  Keeps-fail k m n = search (keeps_rules, table_rules) depth 6

  module _ (lower : String → String) (identify : String → Result GoogleUser)
      (exchange : String → Result String) (ttl : ℕ) (params : CallbackParams) (ctx : LoginContext)
      (now : ℕ) (drawn : Drawn) where
    Keeps-settle_code :
        (k : String) (code : Option String)
        → Keeps (IsConsumed id) (settle_code lower identify exchange ttl ctx now drawn k code)
    unfolding settle_code
    Keeps-settle_code k none = Keeps-fail k AttemptMessage.no_code 400
    Keeps-settle_code k (some code) =
        search (keeps_rules, Keeps-fail, Keeps-complete_attempt) depth 5

    Keeps-settle_attempt :
        (k : String)
        → Keeps (IsConsumed id) (settle_attempt lower identify exchange ttl params ctx now drawn k)
    unfolding settle_attempt
    Keeps-settle_attempt k = search (keeps_rules, Keeps-fail, Keeps-settle_code) depth 5

    Keeps-found :
        (a : Option GoogleDesktopAuthAttempt)
        → Keeps (IsConsumed id) (handle_found lower identify exchange ttl params ctx now drawn a)
    unfolding handle_found
    Keeps-found none = Keeps-pure 404
    Keeps-found (some a) = search (keeps_rules, Keeps-expire, Keeps-settle_attempt) depth 7

    Keeps-state :
        (state : Option String)
        → Keeps
            (IsConsumed id)
            (handle_state lower identify exchange ttl params ctx now drawn state)
    unfolding handle_state
    Keeps-state none = Keeps-pure 400
    Keeps-state (some state) = search (keeps_rules, Keeps-found) depth 5

    pub Keeps-callback :
        (configured : Bool)
        → Keeps (IsConsumed id) (
            handle_desktop_google_callback lower identify exchange ttl configured params ctx now
              drawn)
    unfolding handle_desktop_google_callback
    Keeps-callback configured = search (keeps_rules, Keeps-state) depth 6
