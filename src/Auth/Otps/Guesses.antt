-- ===== src/Auth/Otps/Guesses.antt =====
-- Guesses of a login code, `verifyOtp` of src/modules/auth/auth.service.ts.
use backend_softlogic.Base.{
  ℕ, ◌+◌, ◌≤◌, String, ◌≡◌, refl, Bool, true, false, some, List, [], ◌∷◌, ltb, leb, All, length,
  inl, inr, Bool-cases, arith,
}
use backend_softlogic.Base.Exec.{ok, err, ◌>>=◌, ◌>>◌}
use backend_softlogic.Base.Failure.{otp_invalid, otp_max_attempts}
use backend_softlogic.Base.Table.{update}
use backend_softlogic.Base.Table.Columns.{IsKeyed, IsKeyed-update}
use backend_softlogic.Auth.Store.{
  AuthUser, Otp, OtpType, otp_row, AuthStore, AuthEnv, should_relax_auth_limits, find_user_by_email,
  active_account,
}
use backend_softlogic.Auth.Login.{LoginContext, Drawn}
use backend_softlogic.Auth.Otps.{
  is_open_otp, find_latest_otp, increment_attempts, is_valid_code, refuse_code, refuse_code_if,
  accept_code, update_otp, verify_otp,
}
use backend_softlogic.Auth.Otps.Latest.{find-latest, latest-update}

-- a call of `verifyOtp` for one address
pub record Guess : Type 0 where
  pub code : String
  pub context : LoginContext
  pub now : ℕ
  pub drawn : Drawn

module _ (lower : String → String) (compare : String → String → Bool) (ttl : ℕ) (env : AuthEnv)
    (email : String) where
  -- the tables after the guesses
  abbrev pub after_guesses : List Guess → AuthStore → AuthStore
  after_guesses [] st = st
  after_guesses (g ∷ gs) st =
      after_guesses gs (verify_otp lower compare ttl env email g.code g.context g.now g.drawn st).1

  -- Before the code expires, a text that it does not accept.
  abbrev pub IsWrong : Otp → Guess → Type 0
  IsWrong o g =
      (ltb o.expires_at g.now ≡ false) × (is_valid_code lower compare env email g.code o ≡ false)

  -- The account is in use, and this is its newest code.
  pub record HasCode (u : AuthUser) (o : Otp) (st : AuthStore) : Type 0 where
    pub known : find_user_by_email email st ≡ some u
    pub active : u.licensed.is_active ≡ true
    pub newest : find_latest_otp u.licensed.row.id OtpType.email_login st ≡ some o
    pub keyed : IsKeyed st.otps

  module _ (u : AuthUser) (strict : should_relax_auth_limits env ≡ false) where
    account : (o : Otp) (st : AuthStore) → HasCode u o st → active_account lower email st ≡ ok u
    unfolding active_account
    account o st h = rw (h.known, active_account) (rw h.active refl)

    locked_out :
        (o : Otp) (st : AuthStore) (g : Guess)
        → HasCode u o st
        → ltb o.expires_at g.now ≡ false
        → 3 ≤ o.attempts
        → verify_otp lower compare ttl env email g.code g.context g.now g.drawn st
          ≡ (err otp_max_attempts, st)
    unfolding verify_otp accept_code
    locked_out o st g h e n = rw (account o st h) (rw h.newest (rw (e, strict) (ground arith)))

    counted :
        (o : Otp) (st : AuthStore)
        → HasCode u o st
        → refuse_code o.id st
          ≡ (err otp_invalid, record st { otps = update o.id increment_attempts st.otps })
    unfolding refuse_code find_latest_otp
    counted o st h =
        let found =
          find-latest (is_open_otp u.licensed.row.id OtpType.email_login) o st.otps h.keyed
            h.newest in
        rw (found, ◌>>◌, ◌>>=◌, update_otp) refl

    refused :
        (o : Otp) (st : AuthStore) (g : Guess)
        → HasCode u o st
        → IsWrong o g
        → leb 3 o.attempts ≡ false
        → verify_otp lower compare ttl env email g.code g.context g.now g.drawn st
          ≡ (err otp_invalid, record st { otps = update o.id increment_attempts st.otps })
    unfolding verify_otp accept_code refuse_code_if
    refused o st g h w n =
        rw (account o st h) (rw h.newest (rw (w.0, strict, n, w.1) (rw (counted o st h) refl)))

    HasCode-counted :
        (o : Otp) (st : AuthStore)
        → HasCode u o st
        → HasCode u
            (increment_attempts o)
            (record st { otps = update o.id increment_attempts st.otps })
    unfolding find_user_by_email find_latest_otp increment_attempts
    HasCode-counted o st h = record {
      known = h.known;
      active = h.active;
      newest =
          latest-update (is_open_otp u.licensed.row.id OtpType.email_login) increment_attempts o
            st.otps (λ y. refl) (λ y. refl) h.keyed h.newest;
      keyed = IsKeyed-update o.id increment_attempts st.otps (λ y. refl) h.keyed;
    }

    IsWrong-counted : (o : Otp) (g : Guess) → IsWrong o g → IsWrong (increment_attempts o) g
    unfolding is_valid_code increment_attempts
    IsWrong-counted o g w = w

    All-counted :
        (o : Otp) (gs : List Guess) → All (IsWrong o) gs → All (IsWrong (increment_attempts o)) gs
    All-counted o [] w = tt
    All-counted o (g ∷ gs) w = (IsWrong-counted o g w.0, All-counted o gs w.1)

    -- Where limits are not relaxed: once wrong texts were given three times in all for the newest code
    -- of an active account, and before that code expires, every text is refused with
    -- `otpMaxAttempts`, the right one included, and the tables stay as they are.
    pub guesses-locked :
        (gs : List Guess) (o : Otp) (st : AuthStore) (g : Guess)
        → HasCode u o st
        → All (IsWrong o) gs
        → 3 ≤ o.attempts + length gs
        → ltb o.expires_at g.now ≡ false
        → verify_otp lower compare ttl env email g.code g.context g.now g.drawn
            (after_guesses gs st)
          ≡ (err otp_max_attempts, after_guesses gs st)
    unfolding increment_attempts
    guesses-locked [] o st g h w n e = locked_out o st g h e (omega arith)
    guesses-locked (x ∷ gs) o st g h w n e = elim (Bool-cases (leb 3 o.attempts)) [
      | inl full ↦
          rw (locked_out o st x h w.0.0 (ground arith))
            (guesses-locked gs o st g h w.1 (ground arith) e)
      | inr room ↦ rw (refused o st x h w.0 room) (
          guesses-locked gs (increment_attempts o)
            (record st { otps = update o.id increment_attempts st.otps }) g (HasCode-counted o st h)
            (All-counted o gs w.1) (omega arith) e)
    ]
