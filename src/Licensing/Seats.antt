-- ===== src/Licensing/Seats.antt =====
-- Seats: the usage of a subscription and its warnings, the capacity that a change of the limit needs,
-- and who may log in or be activated.
use backend_softlogic.Base.{
  ℕ, ◌+◌, ◌-◌, ◌*◌, ◌/◌, String, Bool, true, false, not, ◌&&◌, ◌||◌, Option, none, some, List, [],
  ◌∷◌, ◌++◌, map, ◌==◌, any, includes, count, keep, ltb, leb, is_some, or_else, same_text,
  if◌then◌else◌,
}
use backend_softlogic.Base.Exec.{Exec, pure, gets, try_catch, ◌>>=◌, ◌>>◌}
use backend_softlogic.Base.Table.{find}
use backend_softlogic.Access.Roles.{UserRole}
use backend_softlogic.Access.Directory.{Membership}
use backend_softlogic.Licensing.Store.{
  Subscription, LicensedOrganization, LicensedUser, LicensingStore, Mail, subscription_row,
  licensed_organization_row, licensed_user_row, is_active_subscription_status, is_licensed_role,
  update_subscription, send,
}

-- `SEAT_ALERT_TIERS`
abbrev pub seat_alert_tiers : List ℕ
seat_alert_tiers = 90 ∷ 95 ∷ 100 ∷ []

crossed_tier : ℕ → List ℕ → Option ℕ → Option ℕ
crossed_tier pct [] crossed = crossed
crossed_tier pct (tier ∷ tiers) crossed =
    crossed_tier pct tiers (if leb tier pct then some tier else crossed)

unfoldable pub highest_seat_tier_crossed : ℕ → Option ℕ
unfolding crossed_tier
highest_seat_tier_crossed pct = crossed_tier pct seat_alert_tiers none

-- `Math.round((100 * used) / seatLimit)`: a half is rounded up.
unfoldable pub seat_percentage : ℕ → ℕ → ℕ
seat_percentage used limit = if ltb 0 limit then (200 * used + limit) / (2 * limit) else 0

pub record SeatSnapshot : Type 0 where
  pub total : ℕ
  pub used : ℕ
  pub remaining : ℕ

abbrev pub pool_snapshot : ℕ → ℕ → SeatSnapshot
pool_snapshot total used = record { total = total; used = used; remaining = total - used }

-- `orderBy updatedAt desc, take 1`
newest : List Subscription → Option Subscription → Option Subscription
newest [] best = best
newest (s ∷ ss) none = newest ss (some s)
newest (s ∷ ss) (some b) = newest ss (some (if ltb b.updated_at s.updated_at then s else b))

abbrev pub is_subscription_of : String → Subscription → Bool
is_subscription_of organization_id s =
    same_text s.organization_id (some organization_id) && is_active_subscription_status s.status

unfoldable pub get_active_organization_subscription : String → LicensingStore → Option Subscription
unfolding newest
get_active_organization_subscription organization_id st =
    newest (keep (is_subscription_of organization_id) st.subscriptions) none

-- an active user of the organization, not deleted
abbrev pub is_active_member : String → LicensedUser → Bool
is_active_member organization_id u =
    same_text u.row.primary_organization_id (some organization_id)
    && u.is_active
    && not (is_some u.row.deleted_at)

abbrev pub takes_seat : String → LicensedUser → Bool
takes_seat organization_id u = is_active_member organization_id u && is_licensed_role u.row.role

unfoldable pub active_licensed_users : String → LicensingStore → ℕ
active_licensed_users organization_id st = count (takes_seat organization_id) st.users

-- `role: { in: [CUSTOMER_ADMIN, ADMIN] }`
is_organization_admin : UserRole → Bool
is_organization_admin UserRole.customer_admin = true
is_organization_admin UserRole.admin = true
is_organization_admin _ = false

abbrev belongs_to : LicensingStore → String → LicensedUser → Bool
belongs_to st organization_id u =
    same_text u.row.primary_organization_id (some organization_id)
    || any (λ (m : Membership). (m.user_id == u.row.id) && (m.organization_id == organization_id))
        st.memberships

organization_admins : String → LicensingStore → List LicensedUser
unfolding is_organization_admin
organization_admins organization_id st =
    keep
      (λ u.
        u.is_active
        && not (is_some u.row.deleted_at)
        && is_organization_admin u.row.role
        && belongs_to st organization_id u)
      st.users

-- the primary admin of the organization, if the account is in use
primary_admin : String → LicensingStore → List LicensedUser
primary_admin organization_id st = elim (find organization_id st.organizations) [
  | none ↦ []
  | some o ↦ elim o.primary_admin_user_id [
    | none ↦ []
    | some id ↦ elim (find id st.users) [
      | none ↦ []
      | some u ↦
          if not (u.email == "") && not (is_some u.row.deleted_at) && u.is_active
          then u ∷ []
          else []
    ]
  ]
]

module _ (sends : Mail → Bool) where
  unfoldable pub send_each : (LicensedUser → Mail) → List LicensedUser → Exec LicensingStore Unit
  send_each mail [] = pure tt
  send_each mail (u ∷ us) = do send sends (mail u); send_each mail us

set_alert_tier : Option ℕ → ℕ → Subscription → Subscription
set_alert_tier tier now s = record s { seat_alert_tier = tier; updated_at = now }

reset_alert : Subscription → ℕ → Exec LicensingStore Unit
unfolding set_alert_tier
reset_alert subscription now =
    if is_some subscription.seat_alert_tier
    then update_subscription subscription.id (set_alert_tier none now)
    else pure tt

-- `stored !== null && crossed <= stored`
unfoldable pub already_alerted : Option ℕ → ℕ → Bool
already_alerted none crossed = false
already_alerted (some stored) crossed = leb crossed stored

set_usage : ℕ → ℕ → Subscription → Subscription
set_usage used now s = record s { seat_usage = used; updated_at = now }

module _ (lower : String → String) where
  -- the loop over the members; `seen` are the addresses in the map
  add_members : List String → List LicensedUser → List LicensedUser
  add_members seen [] = []
  add_members seen (u ∷ us) =
      let fresh = not (u.email == "") && not (includes (lower u.email) seen) in
      let rest = add_members (if fresh then lower u.email ∷ seen else seen) us in
      if fresh then u ∷ rest else rest

  -- `lower` stands for `toLowerCase`.
  unfoldable pub get_organization_admin_recipients : String → LicensingStore → List LicensedUser
  unfolding add_members organization_admins primary_admin
  get_organization_admin_recipients organization_id st =
      let primary = primary_admin organization_id st in
      primary
      ++ add_members (map (λ (u : LicensedUser). lower u.email) primary)
          (organization_admins organization_id st)

  module _ (sends : Mail → Bool) where
    warn_admins : ℕ → ℕ → ℕ → Option LicensedOrganization → Exec LicensingStore Unit
    unfolding send_each
    warn_admins used limit pct none = pure tt
    warn_admins used limit pct (some organization) = do
      recipients ← gets (get_organization_admin_recipients organization.row.id)
      send_each sends (λ u. Mail.seat_usage_warning u.email organization.name used limit pct)
          recipients

    alert : Subscription → String → ℕ → ℕ → ℕ → Exec LicensingStore Unit
    unfolding warn_admins set_alert_tier
    alert subscription organization_id used now crossed = do
      organization ← gets (λ st. find organization_id st.organizations)
      warn_admins used subscription.seat_limit (seat_percentage used subscription.seat_limit)
          organization
      update_subscription subscription.id (set_alert_tier (some crossed) now)

    warn_crossed : Subscription → String → ℕ → ℕ → Option ℕ → Exec LicensingStore Unit
    unfolding reset_alert alert already_alerted
    warn_crossed subscription organization_id used now none = reset_alert subscription now
    warn_crossed subscription organization_id used now (some crossed) =
        if already_alerted subscription.seat_alert_tier crossed
        then pure tt
        else alert subscription organization_id used now crossed

    -- What is thrown is caught and logged.
    unfoldable pub maybe_send_seat_usage_warning :
        Subscription → String → ℕ → ℕ → Exec LicensingStore Unit
    unfolding warn_crossed
    maybe_send_seat_usage_warning subscription organization_id used now =
        try_catch
          (warn_crossed subscription organization_id used now
            (highest_seat_tier_crossed (seat_percentage used subscription.seat_limit)))
          (λ _. pure tt)

    recalculate : String → ℕ → Option Subscription → Exec LicensingStore (Option SeatSnapshot)
    unfolding set_usage
    recalculate organization_id now none = pure none
    recalculate organization_id now (some subscription) = do
      used ← gets (active_licensed_users organization_id)
      update_subscription subscription.id (set_usage used now)
      maybe_send_seat_usage_warning subscription
          (or_else subscription.organization_id organization_id) used now
      pure (some (pool_snapshot subscription.seat_limit used))

    unfoldable pub recalculate_license_usage :
        String → ℕ → Exec LicensingStore (Option SeatSnapshot)
    unfolding recalculate
    recalculate_license_usage organization_id now = do
      subscription ← gets (get_active_organization_subscription organization_id)
      recalculate organization_id now subscription
