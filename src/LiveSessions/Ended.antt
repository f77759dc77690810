-- ===== src/LiveSessions/Ended.antt =====
-- What the end of a session does.
use backend_softlogic.Base.{
  ℕ, String, ◌≡◌, ◌≢◌, inl, inr, refl, sym, subst, true, some, List, [], ◌∷◌, first, map, All,
  arith, eq_iff, is_some,
}
use backend_softlogic.Base.Exec.{Result-cases, ok}
use backend_softlogic.Base.Table.{update}
use backend_softlogic.Base.Table.Columns.{IsKeyed, first-update-other}
use backend_softlogic.Access.Roles.{Actor}
use backend_softlogic.Access.Directory.{Directory}
use backend_softlogic.LiveSessions.{
  LiveSession, Participant, LiveStore, session_row, invite_row, ensure_host_access, write_event,
  ended_at_time, leave, end_session, has_code,
}

-- the participant has left, if it is one of the session
abbrev pub HasLeft : String → Participant → Type 0
HasLeft id p = p.live_session_id ≡ id → is_some p.left_at ≡ true

everyone_leaves :
    (id : String) (now : ℕ) (ps : List Participant) → All (HasLeft id) (map (leave id now) ps)
unfolding leave
everyone_leaves id now [] = tt
everyone_leaves id now (p ∷ ps) =
    (λ e. ground (arith, eq_iff p.live_session_id id), everyone_leaves id now ps)

module _ (dir : Directory) (user : Actor) (id : String) (now : ℕ) (st : LiveStore) where
  ends :
      (s : LiveSession)
      → (end_session dir user id now st).0 ≡ ok s
      → ((end_session dir user id now st).1.sessions ≡ update id (ended_at_time now) st.sessions)
        × ((end_session dir user id now st).1.participants ≡ map (leave id now) st.participants)
  unfolding end_session ensure_host_access write_event
  ends s h = elim (Result-cases (ensure_host_access dir user id st).0) [
    | inl (x, e) ↦ (ground arith, ground arith)
    | inr (f, e) ↦ absurd (ground arith)
  ]

  -- After a session has been ended, every participant of it has left, and no code at any time leads
  -- to it as the code of a session. (Ids are unique.)
  pub end_session-closes :
      (s : LiveSession)
      → IsKeyed st.sessions
      → (end_session dir user id now st).0 ≡ ok s
      → let after = (end_session dir user id now st).1 in
        All (HasLeft id) after.participants
        × ((hash : String → String) (code : String) (later : ℕ) (x : LiveSession)
            → first (has_code hash code later) after.sessions ≡ some x
            → x.id ≢ id)
  end_session-closes s keyed h =
      let (sessions, participants) = ends s h in
      (
        subst (All (HasLeft id)) (sym participants) (everyone_leaves id now st.participants),
        λ hash code later x e.
            first-update-other (has_code hash code later) id (ended_at_time now) x st.sessions
              (λ y. unfold ended_at_time in refl)
              (λ y. unfold ended_at_time in unfold has_code in ground arith) keyed
              (subst (λ t. first (has_code hash code later) t ≡ some x) sessions e),
      )
