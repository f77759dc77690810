-- ===== src/LiveSessions/Rights.antt =====
-- Rights on a live session.
use backend_softlogic.Base.{
  ℕ, String, ◌≡◌, ◌⊎◌, inl, inr, ap, sym, subst, Bool, true, ◌&&◌, Option, none, some, List, [],
  ◌∷◌, any, first, arith, Bool-cases, Option-cases, eq_iff, eq_refl, ◌==◌, same_text_iff,
}
use backend_softlogic.Base.Exec.{ok}
use backend_softlogic.Base.Failure.{Failure, session_host_only}
use backend_softlogic.Base.Table.{find, key-find}
use backend_softlogic.Access.Roles.{Actor, is_admin_role}
use backend_softlogic.Access.Directory.{Directory}
use backend_softlogic.Access.Canvas.{is_teacher}
use backend_softlogic.LiveSessions.{
  LiveSession, Participant, LiveStore, session_row, invite_row, takes_part, may_host, may_enter,
  permitted, ensure_session_access, ensure_host_access, admin_can_manage_organization,
  teacher_owns_canvas, join_participants, join, join_session, join_invited, join_with, join_by_code,
  has_code, opens, wrong_student, write_event,
}

permitted-ok :
    (p : LiveSession → Bool) (e : Failure) (found : Option LiveSession) (s : LiveSession)
    → permitted p e found ≡ ok s
    → (found ≡ some s) × (p s ≡ true)
unfolding permitted
permitted-ok p e none s h = absurd (cc)
permitted-ok p e (some x) s h = elim (Bool-cases (p x)) [
  | inl t ↦ let same : x ≡ s = ground arith in (ap some same, subst (λ y. p y ≡ true) same t)
  | inr f ↦ absurd (ground arith)
]

host-enters :
    (dir : Directory) (st : LiveStore) (user : Actor) (s : LiveSession)
    → may_host dir st user s ≡ true
    → may_enter dir st user s ≡ true
unfolding may_host may_enter
host-enters dir st user s h = ground arith

host_reasons :
    (dir : Directory) (st : LiveStore) (user : Actor) (s : LiveSession)
    → may_host dir st user s ≡ true
    → (is_admin_role user.role ≡ true)
      ⊎ ((is_teacher user.role ≡ true)
          ⊎ ((s.created_by_id ≡ user.user_id) ⊎ (s.host_user_id ≡ some user.user_id)))
unfolding may_host admin_can_manage_organization teacher_owns_canvas
host_reasons dir st user s h =
    ground
      (arith, eq_iff s.created_by_id user.user_id, same_text_iff s.host_user_id (some user.user_id))

-- Whoever passes the check of hosts gets the session that was asked for, passes the check of access
-- to it too, and is an admin, a teacher, or its creator or host.
pub ensure_host_access-ok :
    (dir : Directory) (user : Actor) (id : String) (st : LiveStore) (s : LiveSession)
    → (ensure_host_access dir user id st).0 ≡ ok s
    → (find id st.sessions ≡ some s)
      × ((ensure_session_access dir user id st).0 ≡ ok s)
      × ((is_admin_role user.role ≡ true)
          ⊎ ((is_teacher user.role ≡ true)
              ⊎ ((s.created_by_id ≡ user.user_id) ⊎ (s.host_user_id ≡ some user.user_id))))
unfolding ensure_host_access ensure_session_access permitted
ensure_host_access-ok dir user id st s h =
    let (found, host) =
      permitted-ok (may_host dir st user) session_host_only (find id st.sessions) s h in
    let enters = host-enters dir st user s host in
    (found, ground (arith, found, enters), host_reasons dir st user s host)

pub takes_part-join :
    (id : String) (user : Actor) (ps : List Participant)
    → any
        (λ p. (p.live_session_id == id) && (p.user_id == user.user_id))
        (join_participants id user ps)
      ≡ true
unfolding join_participants
takes_part-join id user [] = ground (arith, eq_refl id, eq_refl user.user_id)
takes_part-join id user (p ∷ ps) = ground (arith, takes_part-join id user ps)

-- what an accepted code changes: the participants of the session that it is for
record Joined (user : Actor) (id : String) (st after : LiveStore) : Type 0 where
  sessions : after.sessions ≡ st.sessions
  participants : after.participants ≡ join_participants id user st.participants

joined :
    (hash : String → String) (user : Actor) (email code : String) (now : ℕ) (st : LiveStore)
    (id : String)
    → (join_by_code hash user email code now st).0 ≡ ok id
    → Joined user id st (join_by_code hash user email code now st).1
unfolding join_by_code join_with join_session join_invited join write_event
joined hash user email code now st id h =
    elim (Option-cases (first (has_code hash code now) st.sessions)) [
      | inr (s, e) ↦
          let same : s.id ≡ id = ground arith in
          record {
            sessions = ground arith;
            participants =
                subst
                  (λ k.
                    (join_by_code hash user email code now st).1.participants
                    ≡ join_participants k user st.participants)
                  same (ground arith);
          }
      | inl none_e ↦ elim (Option-cases (first (opens hash code now) st.invites)) [
        | inl bad ↦ absurd (ground arith)
        | inr (i, e) ↦ elim (Bool-cases (wrong_student hash user email i)) [
          | inl wrong ↦ absurd (ground arith)
          | inr right ↦
              let same : i.live_session_id ≡ id = ground arith in
              record {
                sessions = ground arith;
                participants =
                    subst
                      (λ k.
                        (join_by_code hash user email code now st).1.participants
                        ≡ join_participants k user st.participants)
                      same (ground arith);
              }
        ]
      ]
    ]

enters_taking_part :
    (dir : Directory) (st : LiveStore) (user : Actor) (s : LiveSession)
    → takes_part st s.id user.user_id ≡ true
    → may_enter dir st user s ≡ true
unfolding may_enter
enters_taking_part dir st user s h = ground arith

-- A code that is accepted lets its user in: if the session that `joinByCode` answers with is in the
-- table, then the user passes the check of access to it afterwards.
pub join_by_code-access :
    (hash : String → String) (dir : Directory) (user : Actor) (email code : String) (now : ℕ)
    (st : LiveStore) (id : String) (s : LiveSession)
    → (join_by_code hash user email code now st).0 ≡ ok id
    → find id st.sessions ≡ some s
    → (ensure_session_access dir user id (join_by_code hash user email code now st).1).0 ≡ ok s
unfolding ensure_session_access permitted
join_by_code-access hash dir user email code now st id s h e =
    let after = (join_by_code hash user email code now st).1 in
    let j = joined hash user email code now st id h in
    let there : find id after.sessions ≡ some s = rw j.sessions e in
    let key = key-find id s st.sessions e in
    let here : takes_part after id user.user_id ≡ true =
      rw j.participants (takes_part-join id user st.participants) in
    let enters =
      enters_taking_part dir after user s
        (subst (λ k. takes_part after k user.user_id ≡ true) (sym key) here) in
    ground (arith, there, enters)
