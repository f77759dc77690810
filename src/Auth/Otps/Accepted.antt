-- ===== src/Auth/Otps/Accepted.antt =====
-- What an accepted code was, of src/modules/auth/auth.service.ts.
use backend_softlogic.Base.{
  ℕ, String, ◌≡◌, refl, sym, Bool, true, false, not, ◌&&◌, some, ltb, leb, inl, inr, Bool-cases,
  Option-cases, arith,
}
use backend_softlogic.Base.Exec.{ok, err}
use backend_softlogic.Base.Failure.{Failure, otp_invalid}
use backend_softlogic.Base.Exec.Granted.{run-cases}
use backend_softlogic.Auth.Store.{
  Otp, OtpType, otp_row, AuthStore, AuthEnv, should_relax_auth_limits,
}
use backend_softlogic.Auth.Otps.{
  find_latest_otp, max_otp_attempts, is_valid_code, update_otp, increment_attempts, refuse_code,
  refuse_code_if, accept_code,
}

module _ (lower : String → String) (compare : String → String → Bool) (env : AuthEnv)
    (user_id : String) (t : OtpType) (email code : String) (now : ℕ) where
  -- the newest code of the user, which the text is, in time and with guesses left
  pub record Accepts (st : AuthStore) (o : Otp) : Type 0 where
    pub newest : find_latest_otp user_id t st ≡ some o
    pub in_time : ltb o.expires_at now ≡ false
    pub guesses_left :
        (not (should_relax_auth_limits env) && leb max_otp_attempts o.attempts) ≡ false
    pub valid : is_valid_code lower compare env email code o ≡ true

  refused_code :
      (id : String) (st : AuthStore)
      → (f : Failure) × (s : AuthStore) × (refuse_code_if true id st ≡ (err f, s))
  unfolding refuse_code_if refuse_code
  refused_code id st = elim (run-cases (update_otp id increment_attempts st)) [
    | inl (u, s, n) ↦ (otp_invalid, s, ground (arith, n))
    | inr (f, s, n) ↦ (f, s, ground (arith, n))
  ]

  passed_code : (id : String) (st : AuthStore) → refuse_code_if false id st ≡ (ok tt, st)
  unfolding refuse_code_if
  passed_code id st = refl

  pub accept_code-Accepts :
      (st st' : AuthStore) (o : Otp)
      → accept_code lower compare env user_id t email code now st ≡ (ok o, st')
      → Accepts st o × (st ≡ st')
  unfolding accept_code
  accept_code-Accepts st st' o h = elim (Option-cases (find_latest_otp user_id t st)) [
    | inl n ↦ absurd (ground (arith, n))
    | inr (p, n) ↦ elim (Bool-cases (ltb p.expires_at now)) [
      | inl x ↦ absurd (ground (arith, n, x))
      | inr x ↦
          elim (Bool-cases
            (not (should_relax_auth_limits env) && leb max_otp_attempts p.attempts)) [
              | inl a ↦ absurd (ground (arith, n, x, a))
              | inr a ↦ elim (Bool-cases (is_valid_code lower compare env email code p)) [
                | inl v ↦
                    let pass = passed_code p.id st in
                    let same : p ≡ o = ground (arith, n, x, a, v, pass) in
                    (
                      rw (sym same)
                          (record { newest = n; in_time = x; guesses_left = a; valid = v }),
                      ground (arith, n, x, a, v, pass),
                    )
                | inr v ↦
                    let (f, s, q) = refused_code p.id st in absurd (ground (arith, n, x, a, v, q))
              ]
            ]
    ]
  ]
