-- ===== src/Licensing/Sweep/Tiers.antt =====
-- The tiers of the reminders and of the warnings.
use backend_softlogic.Base.{ℕ, ◌≤◌, ◌⊎◌, Option, none, some, All, arith}
use backend_softlogic.Base.Int.{ℤ, pos, ◌≤ℤ◌, ◌<ℤ◌}
use backend_softlogic.Licensing.Sweep.{expiry_reminder_tiers, current_expiry_tier}

-- `tier` is the smallest tier that the days left have reached, or none is reached.
abbrev pub IsClosest : ℤ → Option ℕ → Type 0
IsClosest d none = All (λ t. pos t <ℤ d) expiry_reminder_tiers
IsClosest d (some tier) =
    (d ≤ℤ pos tier) × All (λ t. (tier ≤ t) ⊎ (pos t <ℤ d)) expiry_reminder_tiers

-- The reminder tier is the smallest of 30, 14, 7 and 0 days that the days left have reached, and there is
-- none exactly while more days are left than each.
pub current_expiry_tier-IsClosest : (d : ℤ) → IsClosest d (current_expiry_tier d)
unfolding current_expiry_tier
current_expiry_tier-IsClosest d = ground arith
