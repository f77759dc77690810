-- ===== src/Auth/Sessions/Silence.antt =====
-- A token that no session holds, under the writes of sessions.
use backend_softlogic.Base.{
  ℕ, String, ◌≡◌, refl, Bool, false, not, ◌&&◌, ◌||◌, ◌==◌, Option, none, some, List, [], ◌∷◌, any,
  count, trimmed, arith, inl, inr, Bool-cases, Option-cases,
}
use backend_softlogic.Base.Keeps.{Keeps, Keeps-pure, keeps_rules}
use backend_softlogic.Base.Table.{find, update_where}
use backend_softlogic.Base.Table.Queries.{count-update, count-append_one}
use backend_softlogic.Auth.Store.{LoginSession, login_session_row, AuthStore}
use backend_softlogic.Auth.Sessions.{
  TouchOptions, or_option, holds, has_token, clashes, revoked, touched, new_session, update_session,
  create_session, delete_session, drop_token_session, write_session, touch_sessions,
  touch_own_session,
}
use backend_softlogic.Auth.Sessions.Tokens.{IsGone}

-- the token that a touch writes, if it writes one
abbrev pub written_token : TouchOptions → Option String
written_token o = or_option (trimmed o.next_refresh_token) (trimmed o.current_refresh_token)

module _ (t : String) where
  found_without :
      (k : String) (s : LoginSession) (ss : List LoginSession)
      → find k ss ≡ some s
      → count (has_token t) ss ≡ 0
      → has_token t s ≡ false
  unfolding find
  found_without k s [] e z = absurd (cc)
  found_without k s (x ∷ ss) e z = elim (Bool-cases (has_token t x)) [
    | inl held ↦ absurd (ground (arith, held))
    | inr free ↦ elim (Bool-cases (x.id == k)) [
      | inl here ↦ let same : x ≡ s = ground (arith, here) in rw⁻¹ same free
      | inr there ↦ found_without k s ss (ground (arith, there)) (ground (arith, free))
    ]
  ]

  update_session-IsGone :
      (id : String) (f : LoginSession → LoginSession)
      → ((s : LoginSession) → has_token t s ≡ false → has_token t (f s) ≡ false)
      → (st : AuthStore) → IsGone t st
      → IsGone t (update_session id f st).1
  update_session-IsGone id f without st z = elim (Option-cases (find id st.sessions)) [
    | inl gone ↦ rw (update_session, gone) z
    | inr (s, here) ↦
        let free = without s (found_without id s st.sessions here z) in
        let counts = count-update (has_token t) id f s st.sessions here in
        elim (Bool-cases
          (any (λ (x : LoginSession). not (x.id == s.id) && clashes (f s) x) st.sessions)) [
            | inl taken ↦ rw (update_session, here, taken) z
            | inr apart ↦ rw (update_session, here, apart) (ground (arith, counts, free, z))
          ]
  ]

  create_session-IsGone :
      (s : LoginSession)
      → has_token t s ≡ false
      → (st : AuthStore) → IsGone t st
      → IsGone t (create_session s st).1
  create_session-IsGone s free st z =
      elim (Bool-cases (any (λ (x : LoginSession). (x.id == s.id) || clashes s x) st.sessions)) [
        | inl taken ↦ rw taken z
        | inr apart ↦
            let counts = count-append_one (has_token t) s st.sessions in
            rw apart (ground (arith, counts, free, z))
      ]

  touched-without :
      (o : TouchOptions) (e now : ℕ)
      → holds (written_token o) t ≡ false
      → (s : LoginSession) → has_token t s ≡ false
      → has_token t (touched o e now s) ≡ false
  unfolding touched
  touched-without o e now silent s free = elim (Option-cases (written_token o)) [
    | inl kept ↦ rw kept free
    | inr (n, written) ↦ ground (arith, written, silent)
  ]

  pub Keeps-delete_session : (id : String) (now : ℕ) → Keeps (IsGone t) (delete_session id now)
  unfolding revoked
  Keeps-delete_session id now = record {
    at = update_session-IsGone id (revoked now) (λ s free. refl);
  }

  Keeps-touched :
      (id : String) (o : TouchOptions) (e now : ℕ)
      → holds (written_token o) t ≡ false
      → Keeps (IsGone t) (update_session id (touched o e now))
  Keeps-touched id o e now silent = record {
    at = update_session-IsGone id (touched o e now) (touched-without o e now silent);
  }

  Keeps-drop :
      (ts cs : Option LoginSession) (now : ℕ) → Keeps (IsGone t) (drop_token_session ts cs now)
  Keeps-drop none cs now = Keeps-pure tt
  Keeps-drop (some a) none now = Keeps-pure tt
  Keeps-drop (some a) (some c) now = search (keeps_rules, Keeps-delete_session) depth 6

  Keeps-write :
      (user_id : String) (o : TouchOptions) (e now : ℕ) (fresh : String) (s : Option LoginSession)
      → holds (written_token o) t ≡ false
      → Keeps (IsGone t) (write_session user_id o e now fresh s)
  unfolding write_session new_session
  Keeps-write user_id o e now fresh none silent = record {
    at = create_session-IsGone (new_session user_id o e now fresh) silent;
  }
  Keeps-write user_id o e now fresh (some s) silent = Keeps-touched s.id o e now silent

  pub Keeps-touch :
      (user_id : String) (o : TouchOptions) (e now : ℕ) (fresh : String)
      → holds (written_token o) t ≡ false
      → Keeps (IsGone t) (touch_own_session user_id o e now fresh)
  unfolding touch_own_session touch_sessions
  Keeps-touch user_id o e now fresh silent = search (keeps_rules, Keeps-drop, Keeps-write) depth 9

  pub ended-IsGone :
      (p : LoginSession → Bool) (now : ℕ) (ss : List LoginSession)
      → count (has_token t) ss ≡ 0
      → count (has_token t) (update_where p (revoked now) ss) ≡ 0
  unfolding revoked
  ended-IsGone p now [] z = z
  ended-IsGone p now (s ∷ ss) z = elim (Bool-cases (has_token t s)) [
    | inl held ↦ absurd (ground (arith, held))
    | inr free ↦
        let rest = ended-IsGone p now ss (ground (arith, free)) in
        elim (Bool-cases (p s)) [
          | inl ends ↦ ground (arith, ends, rest)
          | inr stays ↦ ground (arith, stays, free, rest)
        ]
  ]
