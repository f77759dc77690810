-- ===== src/Licensing/Sweep/Reminders.antt =====
-- Reminders end, whatever the mail transport does, and write little.
use backend_softlogic.Base.{
  ℕ, ◌+◌, String, ◌≡◌, refl, subst, inl, inr, Bool, Option, none, some, List, [], ◌∷◌, arith,
  Bool-cases,
}
use backend_softlogic.Base.Int.{ℤ}
use backend_softlogic.Base.Exec.{Exec, Result, ok, err, pure, try_catch, recover}
use backend_softlogic.Base.Keeps.{Keeps, Keeps-pure, Keeps-bind, keeps_rules}
use backend_softlogic.Base.Table.{find, update}
use backend_softlogic.Licensing.Store.{
  Subscription, LicensedUser, LicensedOrganization, LicensingStore, Mail, subscription_row, send,
  update_subscription,
}
use backend_softlogic.Licensing.Seats.{send_each}
use backend_softlogic.Licensing.Sweep.{
  remind_admins, set_reminder_tier, remind_tier, remind_dated, remind_one, remind_each, days_until,
  current_expiry_tier,
}

module _ {S A : Type 0} (P : S → Type 0) where
  -- A method that returns, in a state with `P`.
  abbrev pub Returns : Result A × S → Type 0
  Returns r = (a : A) × (s : S) × (r ≡ (ok a, s)) × P s

  recover-Returns : (z : A) (r : Result A) (s : S) → P s → Returns (recover (λ _. pure z) (r, s))
  recover-Returns z (ok a) s h = (a, s, refl, h)
  recover-Returns z (err e) s h = (z, s, refl, h)

  try-Returns :
      (m : Exec S A) (z : A) (s : S) → Keeps P m → P s → Returns (try_catch m (λ _. pure z) s)
  try-Returns m z s k h = let (r, s') = m s in recover-Returns z r s' (k.at s h)

module _ (lower : String → String) (sends : Mail → Bool) (now : ℕ) (P : LicensingStore → Type 0)
    (mailed : (m : Mail) (st : LicensingStore) → P st → P (record st { outbox = m ∷ st.outbox }))
    (reminded : (id : String) (tier : ℕ) (st : LicensingStore)
      → P st
      → P (record st {
        subscriptions = update id (set_reminder_tier tier now) st.subscriptions;
      })) where
  sent : (m : Mail) (st : LicensingStore) → P st → P (send sends m st).1
  unfolding send
  sent m st h = elim (Bool-cases (sends m)) [
    | inl taken ↦ subst P (ground (arith, taken)) (mailed m st h)
    | inr lost ↦ subst P (ground (arith, lost)) h
  ]

  send-Keeps : (m : Mail) → Keeps P (send sends m)
  send-Keeps m = record { at = λ st h. sent m st h }

  tiered :
      (id : String) (tier : ℕ) (st : LicensingStore) (o : Option Subscription)
      → find id st.subscriptions ≡ o
      → P st
      → P (update_subscription id (set_reminder_tier tier now) st).1
  tiered id tier st none e h = subst P (ground (arith, e)) h
  tiered id tier st (some s) e h = subst P (ground (arith, e)) (reminded id tier st h)

  tier-Keeps :
      (id : String) (tier : ℕ) → Keeps P (update_subscription id (set_reminder_tier tier now))
  tier-Keeps id tier = record { at = λ st h. tiered id tier st (find id st.subscriptions) refl h }

  each-Keeps :
      (mail : LicensedUser → Mail) (us : List LicensedUser) → Keeps P (send_each sends mail us)
  unfolding send_each
  each-Keeps mail [] = Keeps-pure tt
  each-Keeps mail (u ∷ us) =
      Keeps-bind (send sends (mail u)) (λ _. send_each sends mail us) (send-Keeps (mail u))
        (λ _. each-Keeps mail us)

  admins-Keeps :
      (t : ℕ) (d : ℤ) (o : Option LicensedOrganization) → Keeps P (remind_admins lower sends t d o)
  unfolding remind_admins
  admins-Keeps t d none = Keeps-pure tt
  admins-Keeps t d (some o) = search (each-Keeps, keeps_rules)

  tier_reminder-Keeps :
      (s : Subscription) (o : String) (t : ℕ) (d : ℤ) (tier : Option ℕ)
      → Keeps P (remind_tier lower sends now s o t d tier)
  unfolding remind_tier
  tier_reminder-Keeps s o t d none = Keeps-pure 0
  tier_reminder-Keeps s o t d (some tier) = search (admins-Keeps, tier-Keeps, keeps_rules)

  dated-Keeps :
      (s : Subscription) (o : Option String) (t : Option ℕ)
      → Keeps P (remind_dated lower sends now s o t)
  unfolding remind_dated
  dated-Keeps s none t = Keeps-pure 0
  dated-Keeps s (some o) none = Keeps-pure 0
  dated-Keeps s (some o) (some t) =
      tier_reminder-Keeps s o t (days_until t now) (current_expiry_tier (days_until t now))

  one-Returns :
      (s : Subscription) (st : LicensingStore) → P st → Returns P (remind_one lower sends now s st)
  unfolding remind_one
  one-Returns s st h = try-Returns P _ 0 st (dated-Keeps s s.organization_id s.end_date) h

  -- The loop over the reminders returns, and keeps what mails and tiers keep.
  pub each-Returns :
      (ss : List Subscription) (st : LicensingStore)
      → P st
      → Returns P (remind_each lower sends now ss st)
  unfolding remind_each
  each-Returns [] st h = (0, st, refl, h)
  each-Returns (s ∷ ss) st h =
      let (n, st₁, e, h₁) = one-Returns s st h in
      let (m, st₂, e₂, h₂) = each-Returns ss st₁ h₁ in (n + m, st₂, rw (e, e₂) refl, h₂)
