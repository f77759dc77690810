-- ===== src/Ai/Accounts/Levels.antt =====
-- `warningLevelFor`: the levels against what is available.
use native.Mathlib.Nat.{div-add-mod', mod-lt}
use backend_softlogic.Base.{ℕ, zero, suc, ◌*◌, ◌/◌, ◌≤◌, ◌<◌, ◌≡◌, refl, ◌↔◌, ◌⊎◌, inl, inr, arith}
use backend_softlogic.Base.Int.{ℤ, pos, negsuc, ◌≤ℤ◌}
use backend_softlogic.Ai.Accounts.{WarningLevel, level_of, warning_level_for}

-- the levels by how much is left
abbrev pub severity : WarningLevel → ℕ
severity WarningLevel.exhausted = 0
severity WarningLevel.low_5 = 1
severity WarningLevel.low_10 = 2
severity WarningLevel.low_20 = 3
severity WarningLevel.none_level = 4

div_mono : (m n d : ℕ) → 0 < d → m ≤ n → m / d ≤ n / d
div_mono m n d h k = grind (arith, div-add-mod' m d, div-add-mod' n d, mod-lt n h, mod-lt m h)

level_of_mono : (m n : ℕ) → m ≤ n → severity (level_of m) ≤ severity (level_of n)
unfolding level_of
level_of_mono m n h = ground arith

positive_mono :
    (a b n : ℕ)
    → a ≤ b
    → severity (warning_level_for (pos a) (pos n)) ≤ severity (warning_level_for (pos b) (pos n))
unfolding warning_level_for
positive_mono a b zero h = omega arith
positive_mono a b (suc n) h =
    let quotients = div_mono (a * 10000) (b * 10000) (suc n) (omega arith) (omega arith) in
    let levels = level_of_mono (a * 10000 / suc n) (b * 10000 / suc n) quotients in ground arith

-- An account is reported as exhausted exactly if nothing was allocated to it or nothing is available;
-- and of two accounts with the same allocation, the one with more available credits has no more
-- severe warning.
pub warning_level_for_mono :
    (available more allocated : ℤ)
    → available ≤ℤ more
    → ((severity (warning_level_for available allocated) ≡ 0)
        ↔ ((allocated ≤ℤ pos 0) ⊎ (available ≤ℤ pos 0)))
      × (severity (warning_level_for available allocated)
          ≤ severity (warning_level_for more allocated))
unfolding warning_level_for level_of
warning_level_for_mono (pos a) (pos b) (pos n) h =
    ((λ e. ground arith, λ e. ground arith), positive_mono a b n (omega arith))
warning_level_for_mono (pos a) (negsuc b) (pos n) h = absurd (omega arith)
warning_level_for_mono (negsuc a) b (pos n) h = ((λ e. inr (omega arith), λ e. refl), omega arith)
warning_level_for_mono (pos a) b (negsuc n) h = ((λ e. inl (omega arith), λ e. refl), omega arith)
warning_level_for_mono (negsuc a) b (negsuc n) h =
    ((λ e. inl (omega arith), λ e. refl), omega arith)
