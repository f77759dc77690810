-- ===== src/LiveSessions.antt =====
-- src/modules/live-sessions/live-session.service.ts: who may enter and who may manage a live session, its
-- start and end, and joining by a code. `hash` stands for `hashCode`, and the code that
-- `generateJoinCode` draws, the ids of new rows and the time of a request are arguments.
pub mod Rights
pub mod Ended
pub mod Codes
mod Tests
use backend_softlogic.Base.{
  ℕ, ◌+◌, ◌*◌, String, Bool, true, false, not, ◌&&◌, ◌||◌, Option, none, some, List, [], ◌∷◌, ◌++◌,
  ◌==◌, any, first, map, includes, ltb, leb, is_some, or_else, same_text, if◌then◌else◌,
}
use backend_softlogic.Base.Exec.{
  Exec, Result, ok, err, pure, raise, lift, gets, or_raise, raise_if, modify, ◌>>=◌, ◌>>◌,
}
use backend_softlogic.Base.Failure.{
  Failure, session_not_found, no_session_access, session_host_only, invalid_join_code,
  code_for_other_email,
}
use backend_softlogic.Base.Table.{Row, find, update}
use backend_softlogic.Access.Roles.{UserRole, Actor, is_super_admin, is_admin_role}
use backend_softlogic.Access.Directory.{Directory, get_linked_student_ids_for_parent}
use backend_softlogic.Access.Managed.{get_managed_organization_ids, manages}
use backend_softlogic.Access.Canvas.{Canvas, canvas_row, is_teacher}

pub data LiveSessionStatus : Type 0 where
  scheduled live ended cancelled : LiveSessionStatus

pub data LiveSessionParticipantRole : Type 0 where
  host teacher student observer : LiveSessionParticipantRole

pub record LiveSession : Type 0 where
  pub id : String
  pub canvas_id : String
  pub organization_id : Option String
  pub created_by_id : String
  pub host_user_id : Option String
  pub status : LiveSessionStatus
  pub started_at : Option ℕ
  pub ended_at : Option ℕ
  pub join_code : Option String
  pub join_code_hash : Option String
  pub join_code_expires_at : Option ℕ

pub record Participant : Type 0 where
  pub live_session_id : String
  pub user_id : String
  pub role : LiveSessionParticipantRole
  pub left_at : Option ℕ

pub record Invite : Type 0 where
  pub id : String
  pub live_session_id : String
  pub email : String
  pub invited_user_id : Option String
  pub code_hash : String
  pub code_expires_at : ℕ
  pub used_at : Option ℕ

-- an event, without its payload
pub record SessionEvent : Type 0 where
  pub live_session_id : String
  pub actor_user_id : String
  pub event_type : String

pub record LiveStore : Type 0 where
  pub canvases : List Canvas
  pub sessions : List LiveSession
  pub participants : List Participant
  pub invites : List Invite
  pub events : List SessionEvent

instance abbrev pub session_row : Row LiveSession
session_row = record { key = λ s. s.id }

instance abbrev pub invite_row : Row Invite
invite_row = record { key = λ i. i.id }

abbrev pub canvas_owner : LiveStore → LiveSession → Option String
canvas_owner st s = elim (find s.canvas_id st.canvases) [ none ↦ none | some c ↦ some c.user_id ]

abbrev pub takes_part : LiveStore → String → String → Bool
takes_part st session_id user_id =
    any (λ p. (p.live_session_id == session_id) && (p.user_id == user_id)) st.participants

abbrev pub is_invited : LiveStore → String → String → Bool
is_invited st session_id user_id =
    any (λ i. (i.live_session_id == session_id) && same_text i.invited_user_id (some user_id))
      st.invites

abbrev pub is_student : UserRole → Bool
is_student UserRole.student = true
is_student _ = false

abbrev pub is_parent : UserRole → Bool
is_parent UserRole.parent = true
is_parent _ = false

-- the count of the session under the conditions on the linked students
parent_can_view : Directory → LiveStore → Actor → LiveSession → Bool
parent_can_view dir st user s =
    is_parent user.role
    && any
        (λ id.
          takes_part st s.id id || is_invited st s.id id || same_text (canvas_owner st s) (some id))
        (get_linked_student_ids_for_parent dir user.user_id)

admin_can_manage_organization : Directory → Actor → Option String → Bool
admin_can_manage_organization dir user organization_id =
    is_admin_role user.role
    && (is_super_admin user.role || elim organization_id [
      | none ↦ false
      | some o ↦ manages (get_managed_organization_ids dir user) o
    ])

teacher_owns_canvas : LiveStore → Actor → LiveSession → Bool
teacher_owns_canvas st user s =
    is_teacher user.role && same_text (canvas_owner st s) (some user.user_id)

-- the conditions on a host
unfoldable pub may_host : Directory → LiveStore → Actor → LiveSession → Bool
unfolding admin_can_manage_organization teacher_owns_canvas
may_host dir st user s =
    admin_can_manage_organization dir user s.organization_id
    || (s.created_by_id == user.user_id)
    || same_text s.host_user_id (some user.user_id)
    || teacher_owns_canvas st user s

unfoldable pub may_enter : Directory → LiveStore → Actor → LiveSession → Bool
unfolding admin_can_manage_organization teacher_owns_canvas parent_can_view
may_enter dir st user s =
    admin_can_manage_organization dir user s.organization_id
    || (s.created_by_id == user.user_id)
    || same_text s.host_user_id (some user.user_id)
    || teacher_owns_canvas st user s
    || takes_part st s.id user.user_id
    || (not (is_student user.role) && is_invited st s.id user.user_id)
    || parent_can_view dir st user s

permitted : (LiveSession → Bool) → Failure → Option LiveSession → Result LiveSession
permitted p e none = err session_not_found
permitted p e (some s) = if p s then ok s else err e

unfoldable pub ensure_session_access : Directory → Actor → String → Exec LiveStore LiveSession
unfolding permitted
ensure_session_access dir user id st =
    (permitted (may_enter dir st user) no_session_access (find id st.sessions), st)

unfoldable pub ensure_host_access : Directory → Actor → String → Exec LiveStore LiveSession
unfolding permitted
ensure_host_access dir user id st =
    (permitted (may_host dir st user) session_host_only (find id st.sessions), st)

write_event : String → String → String → Exec LiveStore Unit
write_event session_id actor event_type = modify (λ st. record st {
  events =
      st.events
      ++ record { live_session_id = session_id; actor_user_id = actor; event_type = event_type }
        ∷ [];
})

-- `liveSession.update`, whose row is there: it has just been read
abbrev pub write_session : String → (LiveSession → LiveSession) → Exec LiveStore Unit
write_session id f = modify (λ st. record st { sessions = update id f st.sessions })

abbrev pub canvas_organization : LiveStore → LiveSession → Option String
canvas_organization st s = elim (find s.canvas_id st.canvases) [
  | none ↦ none
  | some c ↦ c.organization_id
]

started : LiveStore → Actor → ℕ → LiveSession → LiveSession
started st user now s = record s {
  status = LiveSessionStatus.live;
  started_at = some now;
  ended_at = none;
  host_user_id = some (or_else s.host_user_id user.user_id);
  organization_id = elim s.organization_id [ none ↦ canvas_organization st s | some o ↦ some o ];
}

unfoldable pub start_session : Directory → Actor → String → ℕ → Exec LiveStore LiveSession
unfolding started write_event
start_session dir user id now = do
  session ← ensure_host_access dir user id
  st ← gets (λ st. st)
  write_session id (started st user now)
  write_event id user.user_id "SESSION_STARTED"
  pure (started st user now session)

unfoldable pub ended_at_time : ℕ → LiveSession → LiveSession
ended_at_time now s = record s { status = LiveSessionStatus.ended; ended_at = some now }

unfoldable pub leave : String → ℕ → Participant → Participant
leave session_id now p =
    if (p.live_session_id == session_id) && not (is_some p.left_at)
    then record p { left_at = some now }
    else p

unfoldable pub end_session : Directory → Actor → String → ℕ → Exec LiveStore LiveSession
unfolding write_event
end_session dir user id now = do
  session ← ensure_host_access dir user id
  write_session id (ended_at_time now)
  modify (λ st. record st { participants = map (leave id now) st.participants })
  write_event id user.user_id "SESSION_ENDED"
  pure (ended_at_time now session)

abbrev pub can_be_joined : LiveSessionStatus → Bool
can_be_joined LiveSessionStatus.scheduled = true
can_be_joined LiveSessionStatus.live = true
can_be_joined _ = false

-- `expiresAt > now`, false for null
abbrev pub is_after : Option ℕ → ℕ → Bool
is_after none now = false
is_after (some t) now = ltb now t

pub record JoinCode : Type 0 where
  pub live_session_id : String
  pub canvas_id : String
  pub code : String
  pub expires_at : ℕ

-- the code of a session that is still valid
unfoldable pub valid_code : ℕ → LiveSession → Option JoinCode
valid_code now s = elim s.join_code [
  | none ↦ none
  | some code ↦ elim s.join_code_expires_at [
    | none ↦ none
    | some t ↦
        if ltb now t && not (code == "")
        then some (record {
          live_session_id = s.id;
          canvas_id = s.canvas_id;
          code = code;
          expires_at = t;
        })
        else none
  ]
]

unfoldable pub get_session_join_code :
    Directory → Actor → String → ℕ → Exec LiveStore (Option JoinCode)
get_session_join_code dir user id now = do
  session ← ensure_host_access dir user id
  pure (valid_code now session)

-- `participantRoleFor`
abbrev pub participant_role_for : UserRole → LiveSessionParticipantRole
participant_role_for role =
    if is_admin_role role || is_teacher role
    then LiveSessionParticipantRole.teacher
    else LiveSessionParticipantRole.student

-- `upsert` by the session and the user
unfoldable pub join_participants : String → Actor → List Participant → List Participant
join_participants session_id user [] =
    record {
      live_session_id = session_id;
      user_id = user.user_id;
      role = participant_role_for user.role;
      left_at = none;
    }
    ∷ []
join_participants session_id user (p ∷ ps) =
    if (p.live_session_id == session_id) && (p.user_id == user.user_id)
    then record p { left_at = none; role = participant_role_for user.role } ∷ ps
    else p ∷ join_participants session_id user ps

join : String → Actor → Exec LiveStore Unit
join session_id user =
    modify (λ st. record st { participants = join_participants session_id user st.participants })

-- `usedAt` and `invitedUserId` of an invitation that is used
unfoldable pub used : String → ℕ → Invite → Invite
used user_id now i = record i { used_at = some now; invited_user_id = some user_id }

module _ (hash : String → String) where
  coded : String → ℕ → LiveSession → LiveSession
  coded code expires_at s = record s {
    join_code = some code;
    join_code_hash = some (hash code);
    join_code_expires_at = some expires_at;
  }

  -- the branch that draws a new code
  new_code : Actor → LiveSession → String → ℕ → Exec LiveStore JoinCode
  unfolding coded write_event
  new_code user session code expires_at = do
    write_session session.id (coded code expires_at)
    write_event session.id user.user_id "SESSION_JOIN_CODE_CREATED"
    pure (record {
      live_session_id = session.id;
      canvas_id = session.canvas_id;
      code = code;
      expires_at = expires_at;
    })

  keep_or_draw : Actor → LiveSession → String → ℕ → Option JoinCode → Exec LiveStore JoinCode
  unfolding new_code
  keep_or_draw user session code expires_at (some valid) = pure valid
  keep_or_draw user session code expires_at none = new_code user session code expires_at

  -- `minutes` and `force` are the input; 240 is the default time to live.
  unfoldable pub generate_session_join_code :
      Directory → Actor → String → Option ℕ → Bool → String → ℕ → Exec LiveStore JoinCode
  unfolding keep_or_draw
  generate_session_join_code dir user id minutes force code now = do
    session ← ensure_host_access dir user id
    keep_or_draw user session code (now + or_else minutes 240 * 60 * 1000)
        (if force then none else valid_code now session)

  -- the `where` clauses of `findActiveSessionByCode` and `findActiveInviteByCode`
  unfoldable pub has_code : String → ℕ → LiveSession → Bool
  has_code code now s =
      same_text s.join_code_hash (some (hash code))
      && is_after s.join_code_expires_at now
      && can_be_joined s.status

  unfoldable pub opens : String → ℕ → Invite → Bool
  opens code now i =
      (i.code_hash == hash code) && ltb now i.code_expires_at && not (is_some i.used_at)

  join_session : Actor → LiveSession → Exec LiveStore String
  unfolding join write_event
  join_session user session = do
    join session.id user
    write_event session.id user.user_id "SESSION_CODE_USED"
    pure session.id

  -- `userEmail && userEmail !== invite.email && user.role === STUDENT`
  unfoldable pub wrong_student : Actor → String → Invite → Bool
  wrong_student user email i = not (email == "") && not (email == i.email) && is_student user.role

  join_invited : Actor → String → String → ℕ → Exec LiveStore String
  unfolding wrong_student join write_event
  join_invited user email code now = do
    found ← gets (λ st. first (opens code now) st.invites)
    invite ← or_raise found invalid_join_code
    raise_if (wrong_student user email invite) code_for_other_email
    join invite.live_session_id user
    modify (λ st. record st { invites = update invite.id (used user.user_id now) st.invites })
    write_event invite.live_session_id user.user_id "JOIN_CODE_USED"
    pure invite.live_session_id

  join_with : Actor → String → String → ℕ → Option LiveSession → Exec LiveStore String
  unfolding join_session join_invited
  join_with user email code now (some session) = join_session user session
  join_with user email code now none = join_invited user email code now

  -- `email` is the user's, trimmed and in lower case. Of the answer, the id of the session joined.
  unfoldable pub join_by_code : Actor → String → String → ℕ → Exec LiveStore String
  unfolding join_with
  join_by_code user email code now = do
    found ← gets (λ st. first (has_code code now) st.sessions)
    join_with user email code now found
