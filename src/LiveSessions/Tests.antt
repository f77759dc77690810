-- ===== src/LiveSessions/Tests.antt =====
-- Runs of the live-session service: a session that is ended, and one that is entered by a code.
use backend_softlogic.Base.{
  ℕ, String, ◌≡◌, ◌≢◌, ◌⊎◌, refl, true, false, none, some, [], ◌∷◌, first, All,
}
use backend_softlogic.Base.Exec.{ok, err}
use backend_softlogic.Base.Failure.{code_for_other_email}
use backend_softlogic.Base.Table.{find}
use backend_softlogic.Access.Roles.{UserRole, Actor, is_admin_role}
use backend_softlogic.Access.Directory.{Directory}
use backend_softlogic.LiveSessions.{
  LiveSessionStatus, LiveSessionParticipantRole, LiveSession, Invite, LiveStore, session_row,
  takes_part, ensure_host_access, ensure_session_access, may_host, end_session, ended_at_time,
  has_code, join_by_code, opens, wrong_student,
}
use backend_softlogic.LiveSessions.Rights.{join_by_code-access}
use backend_softlogic.LiveSessions.Ended.{HasLeft, end_session-closes}
use backend_softlogic.LiveSessions.Codes.{join_by_code-invited}

abbrev directory : Directory
directory = record { organizations = []; users = []; memberships = []; parent_links = [] }

abbrev teacher : Actor
teacher = record { user_id = "t"; role = UserRole.teacher; organization_id = none }

abbrev student : Actor
student = record { user_id = "s"; role = UserRole.student; organization_id = none }

abbrev session : LiveSessionStatus → LiveSession
session status = record {
  id = "live";
  canvas_id = "board";
  organization_id = none;
  created_by_id = "t";
  host_user_id = some "t";
  status = status;
  started_at = some 1;
  ended_at = none;
  join_code = some "CODE";
  join_code_hash = some "CODE";
  join_code_expires_at = some 100;
}

abbrev invite : Invite
invite = record {
  id = "i";
  live_session_id = "live";
  email = "s@school";
  invited_user_id = none;
  code_hash = "PASS";
  code_expires_at = 100;
  used_at = none;
}

abbrev store : LiveSessionStatus → LiveStore
store status = record {
  canvases = [];
  sessions = session status ∷ [];
  participants =
      record {
        live_session_id = "live";
        user_id = "x";
        role = LiveSessionParticipantRole.student;
        left_at = none;
      }
      ∷ [];
  invites = invite ∷ [];
  events = [];
}

-- hashes are the codes themselves
abbrev hash : String → String
hash code = code

join_by_code-access_example :
    (ensure_session_access directory student "live"
      (join_by_code hash student "" "CODE" 50 (store LiveSessionStatus.live)).1).0
    ≡ ok (session LiveSessionStatus.live)
unfolding join_by_code has_code find
join_by_code-access_example =
    join_by_code-access hash directory student "" "CODE" 50 (store LiveSessionStatus.live) "live"
      (session LiveSessionStatus.live) refl refl

end_session-closes_example :
    let after = (end_session directory teacher "live" 60 (store LiveSessionStatus.live)).1 in
    All (HasLeft "live") after.participants
    × ((hash : String → String) (code : String) (later : ℕ) (x : LiveSession)
        → first (has_code hash code later) after.sessions ≡ some x
        → x.id ≢ "live")
unfolding end_session ensure_host_access may_host find is_admin_role ended_at_time
end_session-closes_example =
    end_session-closes directory teacher "live" 60 (store LiveSessionStatus.live)
      (record (session LiveSessionStatus.live) {
        status = LiveSessionStatus.ended;
        ended_at = some 60;
      })
      (refl, tt) refl

-- The session has ended, and the student joins it all the same.
join_by_code-invited_example :
    let after = join_by_code hash student "s@school" "PASS" 50 (store LiveSessionStatus.ended) in
    ((wrong_student hash student "s@school" invite ≡ true)
      × (after ≡ (err code_for_other_email, store LiveSessionStatus.ended)))
    ⊎ ((wrong_student hash student "s@school" invite ≡ false)
        × (after.0 ≡ ok "live")
        × (takes_part after.1 "live" "s" ≡ true)
        × ((later : ℕ) (again : String) (x : Invite)
            → first (opens hash again later) after.1.invites ≡ some x
            → x.id ≢ "i"))
unfolding has_code opens find
join_by_code-invited_example =
    join_by_code-invited hash student "s@school" "PASS" 50 (store LiveSessionStatus.ended) refl
      invite refl (refl, tt)
