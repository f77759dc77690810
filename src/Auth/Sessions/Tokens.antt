-- ===== src/Auth/Sessions/Tokens.antt =====
-- The refresh tokens that sessions hold after `touchOwnSession` of
-- src/modules/auth/auth.service.ts.
use backend_softlogic.Base.{
  ℕ, ◌≤◌, String, ◌≡◌, ◌≢◌, refl, sym, true, false, not, ◌&&◌, ◌==◌, Option, none, some, List, any,
  count, trimmed, is_some, arith, inl, inr, Bool-cases, Option-cases, eq_iff, first_holds,
}
use backend_softlogic.Base.Exec.{ok}
use backend_softlogic.Base.Exec.Granted.{run-cases}
use backend_softlogic.Base.Table.{find, update}
use backend_softlogic.Base.Table.Columns.{IsKeyed, find-first}
use backend_softlogic.Base.Table.Queries.{count-update}
use backend_softlogic.Auth.Store.{LoginSession, login_session_row, AuthStore}
use backend_softlogic.Auth.Sessions.{
  TouchOptions, has_token, clashes, find_session_by_token, find_token, find_client, revoked,
  touched, update_session, delete_session, is_of_other, is_revoked, drop_token_session,
  write_session, or_option, touch_sessions, touch_own_session,
}

-- Ids are unique and so are tokens, as the indexes of the table require.
pub record IsConsistent (st : AuthStore) : Type 0 where
  pub keyed : IsKeyed st.sessions
  pub unique : (t : String) → count (has_token t) st.sessions ≤ 1

-- No session holds the token.
abbrev pub IsGone : String → AuthStore → Type 0
IsGone t st = count (has_token t) st.sessions ≡ 0

pub update_session-ok :
    (id : String) (f : LoginSession → LoginSession) (st st' : AuthStore) (s' : LoginSession)
    → update_session id f st ≡ (ok s', st')
    → (s : LoginSession) × (find id st.sessions ≡ some s)
      × (st' ≡ record st { sessions = update id f st.sessions })
update_session-ok id f st st' s' h = elim (Option-cases (find id st.sessions)) [
  | inl n ↦ absurd (ground (arith, n))
  | inr (s, n) ↦
      elim (Bool-cases
        (any (λ (t : LoginSession). not (t.id == s.id) && clashes (f s) t) st.sessions)) [
          | inl c ↦ absurd (ground (arith, n, c))
          | inr c ↦ (s, n, ground (arith, n, c))
        ]
]

module _ (t : String) (st : AuthStore) (ts : LoginSession) (u : IsConsistent st) where
  pub found_by_id : find_session_by_token t st ≡ some ts → find ts.id st.sessions ≡ some ts
  unfolding find_session_by_token
  found_by_id e = find-first (has_token t) ts st.sessions u.keyed (ground arith)

  holds_token : find_session_by_token t st ≡ some ts → has_token t ts ≡ true
  unfolding find_session_by_token
  holds_token e = first_holds (has_token t) ts st.sessions (ground arith)

  -- The only session with the token is written without it.
  gone_by_write :
      (f : LoginSession → LoginSession)
      → find_session_by_token t st ≡ some ts
      → has_token t (f ts) ≡ false
      → count (has_token t) (update ts.id f st.sessions) ≡ 0
  gone_by_write f e n =
      let held = holds_token e in
      let c = count-update (has_token t) ts.id f ts st.sessions (found_by_id e) in
      let one = u.unique t in ground (arith, c, held, n, one)

  -- Then another session is written without the token.
  gone_by_other :
      (f : LoginSession → LoginSession) (k : String) (c : LoginSession) (ss : List LoginSession)
      → find k ss ≡ some c
      → has_token t (f c) ≡ false
      → count (has_token t) ss ≡ 0
      → count (has_token t) (update k f ss) ≡ 0
  gone_by_other f k c ss e n z =
      let d = count-update (has_token t) k f c ss e in ground (arith, d, n, z)

module _ (user_id : String) (o : TouchOptions) (expires_at now : ℕ) (fresh : String) where
  -- What a touch has passed before it writes the session.
  written_after :
      (ts cs : Option LoginSession) (st st' : AuthStore) (w : LoginSession)
      → touch_sessions user_id o expires_at now fresh ts cs st ≡ (ok w, st')
      → (s : AuthStore) × (drop_token_session ts cs now st ≡ (ok tt, s))
        × (write_session user_id o expires_at now fresh (or_option cs ts) s ≡ (ok w, st'))
  unfolding touch_sessions
  written_after ts cs st st' w h = elim (Bool-cases (is_of_other user_id ts)) [
    | inl x ↦ absurd (ground (arith, x))
    | inr x ↦ elim (Bool-cases (is_of_other user_id cs)) [
      | inl y ↦ absurd (ground (arith, x, y))
      | inr y ↦ elim (Bool-cases (is_revoked (or_option cs ts) && is_some ts)) [
        | inl z ↦ absurd (ground (arith, x, y, z))
        | inr z ↦ elim (run-cases (drop_token_session ts cs now st)) [
          | inl (u, s, d) ↦ (s, d, ground (arith, x, y, z, d))
          | inr (e, s, d) ↦ absurd (ground (arith, x, y, z, d))
        ]
      ]
    ]
  ]

  module _ (t n : String) (other : n ≢ t) (next : trimmed o.next_refresh_token ≡ some n) where
    touched_token : (s : LoginSession) → has_token t (touched o expires_at now s) ≡ false
    unfolding touched
    touched_token s = rw next (ground (arith, eq_iff n t))

    module _ (ts : LoginSession) (st st' : AuthStore) (w : LoginSession) (u : IsConsistent st) where
      touch_sessions-IsGone_alone :
          find_session_by_token t st ≡ some ts
          → touch_sessions user_id o expires_at now fresh (some ts) none st ≡ (ok w, st')
          → IsGone t st'
      unfolding write_session
      touch_sessions-IsGone_alone e h =
          let (s, d, x) = written_after (some ts) none st st' w h in
          let (a, f, q) = update_session-ok ts.id (touched o expires_at now) s st' w x in
          let same : st ≡ s = cc in
          rw q (
            rw (sym same) (gone_by_write t st ts u (touched o expires_at now) e (touched_token ts)))

      drop_token_session-IsGone :
          (c : LoginSession)
          → find_session_by_token t st ≡ some ts
          → (s : AuthStore) → drop_token_session (some ts) (some c) now st ≡ (ok tt, s)
          → (ts.id == c.id) ≡ false
          → IsGone t s
      unfolding revoked
      drop_token_session-IsGone c e s d apart = elim (run-cases (delete_session ts.id now st)) [
        | inr (f, s₁, y) ↦ absurd (ground (arith, apart, y))
        | inl (v, s₁, y) ↦
            let same : s₁ ≡ s = ground (arith, apart, y) in
            let (a, f, q) = update_session-ok ts.id (revoked now) st s₁ v y in
            rw (sym same) (rw q (gone_by_write t st ts u (revoked now) e refl))
      ]

      touch_sessions-IsGone_client :
          (c : LoginSession)
          → find_session_by_token t st ≡ some ts
          → touch_sessions user_id o expires_at now fresh (some ts) (some c) st ≡ (ok w, st')
          → IsGone t st'
      unfolding write_session revoked
      touch_sessions-IsGone_client c e h =
          let (s, d, x) = written_after (some ts) (some c) st st' w h in
          let (a, f, q) = update_session-ok c.id (touched o expires_at now) s st' w x in
          elim (Bool-cases (ts.id == c.id)) [
            | inl same ↦
                let p : ts.id ≡ c.id = (eq_iff ts.id c.id).0 same in
                let kept : st ≡ s = ground (arith, d, same) in
                rw q (
                  rw (sym kept) (
                    rw (sym p)
                      (gone_by_write t st ts u (touched o expires_at now) e (touched_token ts))))
            | inr apart ↦
                let z = drop_token_session-IsGone c e s d apart in
                rw q (
                  gone_by_other t st ts u (touched o expires_at now) c.id a s.sessions f
                    (touched_token a) z)
          ]

      -- The session of the token is written with another token, or ended where the client has another
      -- session: then no session has the token.
      pub touch_own_session-IsGone :
          trimmed o.current_refresh_token ≡ some t
          → find_session_by_token t st ≡ some ts
          → touch_own_session user_id o expires_at now fresh st ≡ (ok w, st')
          → IsGone t st'
      unfolding touch_own_session find_token
      touch_own_session-IsGone i e h =
          elim (Option-cases (find_client user_id (trimmed o.client_session_id) st)) [
            | inl a ↦ touch_sessions-IsGone_alone e (ground (arith, i, e, a))
            | inr (c, a) ↦ touch_sessions-IsGone_client c e (ground (arith, i, e, a))
          ]
