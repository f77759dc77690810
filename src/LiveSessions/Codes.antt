-- ===== src/LiveSessions/Codes.antt =====
-- Joining by the code of an invitation.
use backend_softlogic.Base.{
  ℕ, String, ◌≡◌, ◌≢◌, ◌⊎◌, inl, inr, refl, subst, true, false, none, some, first, arith,
  Bool-cases,
}
use backend_softlogic.Base.Exec.{Result, ok, err}
use backend_softlogic.Base.Failure.{code_for_other_email}
use backend_softlogic.Base.Table.{update}
use backend_softlogic.Base.Table.Columns.{IsKeyed, first-update-other}
use backend_softlogic.Access.Roles.{Actor}
use backend_softlogic.LiveSessions.{
  Invite, LiveStore, session_row, invite_row, takes_part, write_event, has_code, join_by_code,
  join_with, join_invited, join, opens, wrong_student, join_participants, used,
}
use backend_softlogic.LiveSessions.Rights.{takes_part-join}

module _ (hash : String → String) (user : Actor) (email code : String) (now : ℕ) (st : LiveStore)
    (no_session : first (has_code hash code now) st.sessions ≡ none) (i : Invite)
    (open_invite : first (opens hash code now) st.invites ≡ some i) where
  abbrev after : Result String × LiveStore
  after = join_by_code hash user email code now st

  by_invite :
      wrong_student hash user email i ≡ false
      → (after.0 ≡ ok i.live_session_id)
        × (after.1.participants ≡ join_participants i.live_session_id user st.participants)
        × (after.1.invites ≡ update i.id (used user.user_id now) st.invites)
  unfolding join_by_code join_with join_invited join write_event
  by_invite right = (ground arith, ground arith, ground arith)

  -- A code of no open session that is the code of an open invitation: a student with another email is
  -- refused and nothing changes; anybody else joins, whatever the status of the invitation's session,
  -- and the invitation is not accepted again, with any code at any time. (Ids are unique.)
  pub join_by_code-invited :
      IsKeyed st.invites
      → ((wrong_student hash user email i ≡ true) × (after ≡ (err code_for_other_email, st)))
        ⊎ ((wrong_student hash user email i ≡ false)
            × (after.0 ≡ ok i.live_session_id)
            × (takes_part after.1 i.live_session_id user.user_id ≡ true)
            × ((later : ℕ) (again : String) (x : Invite)
                → first (opens hash again later) after.1.invites ≡ some x
                → x.id ≢ i.id))
  unfolding join_by_code join_with join_invited
  join_by_code-invited keyed = elim (Bool-cases (wrong_student hash user email i)) [
    | inl wrong ↦ inl (wrong, ground arith)
    | inr right ↦
        let (result, participants, invites) = by_invite right in
        inr (
          right,
          result,
          rw participants (takes_part-join i.live_session_id user st.participants),
          λ later again x e.
              first-update-other (opens hash again later) i.id (used user.user_id now) x st.invites
                (λ y. unfold used in refl) (λ y. unfold used in unfold opens in ground arith) keyed
                (subst (λ t. first (opens hash again later) t ≡ some x) invites e),
        )
  ]
