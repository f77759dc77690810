-- ===== src/Access/Managed/Search.antt =====
-- The steps of the search of `getManagedOrganizationIds`.
use backend_softlogic.Base.{
  ℕ, ◌+◌, ◌≤◌, ◌<◌, String, ◌≡◌, refl, inl, inr, Bool, true, false, not, ◌&&◌, ◌||◌, Option-cases,
  List, [], ◌∷◌, ◌++◌, arith, length, includes, includes-append, eq_iff, eq_refl, ◌==◌, Bool-cases,
  if◌then◌else◌,
}
use backend_softlogic.Access.Directory.{Organization}
use backend_softlogic.Access.Managed.{is_child_of, find_children, not_in, add_all}

pub includes-not_in :
    (x : String) (managed xs : List String)
    → includes x (not_in managed xs) ≡ (includes x xs && not (includes x managed))
unfolding not_in
includes-not_in x managed [] = refl
includes-not_in x managed (y ∷ ys) = ground (arith, includes-not_in x managed ys, eq_iff y x)

pub includes-add_all :
    (x : String) (set xs : List String)
    → includes x (add_all set xs) ≡ (includes x set || includes x xs)
unfolding add_all
includes-add_all x set [] = ground arith
includes-add_all x set (y ∷ ys) = ground (
  arith,
  includes-add_all x (if includes y set then set else set ++ y ∷ []) ys,
  includes-append x set (y ∷ []),
  eq_iff y x,
)

-- Organization `x` is a live partner or customer whose parent is `p`.
pub is_link : List Organization → String → String → Bool
is_link [] p x = false
is_link (o ∷ os) p x = ((o.id == x) && is_child_of (p ∷ []) o) || is_link os p x

pub find_children_complete :
    (os : List Organization) (frontier : List String) (p x : String)
    → includes p frontier ≡ true
    → is_link os p x ≡ true
    → includes x (find_children os frontier) ≡ true
unfolding find_children is_link is_child_of
find_children_complete [] frontier p x h k = ground arith
find_children_complete (o ∷ os) frontier p x h k = elim (Option-cases o.parent_organization_id) [
  | inl e ↦ ground (arith, find_children_complete os frontier p x)
  | inr (q, e) ↦ ground (arith, find_children_complete os frontier p x, eq_iff p q)
]

pub find_children_sound :
    (os : List Organization) (frontier : List String) (x : String)
    → includes x (find_children os frontier) ≡ true
    → (p : String) × (includes p frontier ≡ true) × (is_link os p x ≡ true)
unfolding find_children is_link is_child_of
find_children_sound [] frontier x h = ground arith
find_children_sound (o ∷ os) frontier x h =
    elim (Bool-cases (is_child_of frontier o && (o.id == x))) [
      | inl here ↦ elim (Option-cases o.parent_organization_id) [
        | inl e ↦ absurd (ground arith)
        | inr (q, e) ↦ (q, ground arith, ground (arith, eq_refl q))
      ]
      | inr later ↦
          let (p, i, l) = find_children_sound os frontier x (ground arith) in (p, i, ground arith)
    ]

-- The organizations that `managed` lacks; each round of the search takes one of them at least.
pub missing : List Organization → List String → ℕ
missing [] managed = 0
missing (o ∷ os) managed = (if includes o.id managed then 0 else 1) + missing os managed

pub missing-le-length :
    (os : List Organization) (managed : List String) → missing os managed ≤ length os
unfolding missing
missing-le-length [] managed = omega arith
missing-le-length (o ∷ os) managed = ground (arith, missing-le-length os managed)

missing_mono :
    (os : List Organization) (managed xs : List String)
    → missing os (add_all managed xs) ≤ missing os managed
unfolding missing
missing_mono [] managed xs = omega arith
missing_mono (o ∷ os) managed xs =
    ground (arith, missing_mono os managed xs, includes-add_all o.id managed xs)

pub missing_falls :
    (os : List Organization) (frontier managed xs : List String) (x : String)
    → includes x (find_children os frontier) ≡ true
    → includes x managed ≡ false
    → includes x xs ≡ true
    → missing os (add_all managed xs) < missing os managed
unfolding missing find_children
missing_falls [] frontier managed xs x h n k = absurd (ground arith)
missing_falls (o ∷ os) frontier managed xs x h n k = ground (
  arith,
  missing_mono os managed xs,
  missing_falls os frontier managed xs x,
  includes-add_all o.id managed xs,
  eq_iff o.id x,
)
