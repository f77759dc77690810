-- ===== src/Access/Managed/Reach.antt =====
-- What the loop of `getManagedOrganizationIds` returns.
use backend_softlogic.Base.{
  ℕ, zero, suc, ◌+◌, ◌≤◌, String, ◌≡◌, refl, inl, inr, true, false, Option, some, List, [], ◌∷◌,
  arith, length, includes, eq_refl, Bool-cases,
}
use backend_softlogic.Access.Directory.{Organization, Directory, get_membership_organization_ids}
use backend_softlogic.Access.Managed.{find_children, not_in, add_all, descend, partner_managed_ids}
use backend_softlogic.Access.Managed.Search.{
  includes-not_in, includes-add_all, is_link, find_children_complete, find_children_sound, missing,
  missing-le-length, missing_falls,
}

-- The organizations at and below the roots, by links to live partners and customers.
pub data Below (os : List Organization) (roots : List String) : String → Type 0 where
  root : {x : String} → includes x roots ≡ true → Below os roots x
  child : {p x : String} → Below os roots p → is_link os p x ≡ true → Below os roots x

abbrev Ends : Option (List String) → Type 0
Ends o = (r : List String) × (o ≡ some r)

module _ (os : List Organization) (managed xs : List String) where
  next_total :
      (fuel : ℕ) (next : List String)
      → not_in managed (find_children os xs) ≡ next
      → ((m f : List String) → missing os m + 2 ≤ fuel → Ends (descend fuel os m f))
      → missing os managed + 2 ≤ suc fuel
      → Ends (descend fuel os (add_all managed next) next)
  unfolding descend
  next_total zero next e ih h = absurd (omega arith)
  next_total (suc fuel) [] e ih h = (add_all managed [], refl)
  next_total (suc fuel) (y ∷ ys) e ih h = ih (add_all managed (y ∷ ys)) (y ∷ ys) (
      ground (
        arith,
        includes-not_in y managed (find_children os xs),
        eq_refl y,
        missing_falls os xs managed (y ∷ ys) y,
        e,
      ))

-- With fuel for each organization that is missing and two rounds more, the loop ends.
descend_total :
    (fuel : ℕ) (os : List Organization) (managed frontier : List String)
    → missing os managed + 2 ≤ fuel
    → Ends (descend fuel os managed frontier)
unfolding descend
descend_total zero os managed frontier h = absurd (omega arith)
descend_total (suc fuel) os managed [] h = (managed, refl)
descend_total (suc fuel) os managed (x ∷ xs) h =
    next_total os managed (x ∷ xs) fuel (not_in managed (find_children os (x ∷ xs))) refl
      (descend_total fuel os) h

module _ (os : List Organization) (roots : List String) where
  -- Whatever the loop returns is a root or below one.
  descend_sound :
      (fuel : ℕ) (managed frontier : List String) (r : List String)
      → ((x : String) → includes x managed ≡ true → Below os roots x)
      → ((x : String) → includes x frontier ≡ true → Below os roots x)
      → descend fuel os managed frontier ≡ some r
      → (x : String) → includes x r ≡ true
      → Below os roots x
  unfolding descend
  descend_sound zero managed frontier r hm hf e x i = absurd (cc)
  descend_sound (suc fuel) managed [] r hm hf e x i = hm x (ground arith)
  descend_sound (suc fuel) managed (y ∷ ys) r hm hf e x i =
      descend_sound fuel (add_all managed next) next r
        (λ z k. elim (Bool-cases (includes z managed)) [
          | inl old ↦ hm z old
          | inr new ↦ fresh z (ground (arith, includes-add_all z managed next))
        ])
        fresh e x i
    where
      next : List String
      next = not_in managed (find_children os (y ∷ ys))

      fresh : (z : String) → includes z next ≡ true → Below os roots z
      fresh z k =
          let (p, ip, l) =
            find_children_sound os (y ∷ ys) z
              (ground (arith, includes-not_in z managed (find_children os (y ∷ ys)))) in
          Below.child (hf p ip) l

  -- Every link from a managed organization that is not on the frontier leads to a managed one.
  abbrev IsClosed : List String → List String → Type 0
  IsClosed managed frontier =
      (p x : String)
      → includes p managed ≡ true
      → includes p frontier ≡ false
      → is_link os p x ≡ true
      → includes x managed ≡ true

  next-IsClosed :
      (managed frontier : List String)
      → IsClosed managed frontier
      → let next = not_in managed (find_children os frontier) in
        IsClosed (add_all managed next) next
  next-IsClosed managed frontier closed p x ip nf l =
      let children = find_children os frontier in
      let next = not_in managed children in
      ground (
        arith,
        includes-add_all p managed next,
        includes-add_all x managed next,
        includes-not_in x managed children,
        find_children_complete os frontier p x,
        closed p x,
      )

  descend_complete :
      (fuel : ℕ) (managed frontier : List String) (r : List String)
      → IsClosed managed frontier
      → descend fuel os managed frontier ≡ some r
      → ((x : String) → includes x managed ≡ true → includes x r ≡ true) × IsClosed r []
  unfolding descend
  descend_complete zero managed frontier r closed e = absurd (cc)
  descend_complete (suc fuel) managed [] r closed e =
      (λ x i. ground arith, λ p x ip n l. ground (arith, closed p x))
  descend_complete (suc fuel) managed (y ∷ ys) r closed e =
      let next = not_in managed (find_children os (y ∷ ys)) in
      let (kept, done) =
        descend_complete fuel (add_all managed next) next r (next-IsClosed managed (y ∷ ys) closed)
          e in
      (λ x i. kept x (ground (arith, includes-add_all x managed next)), done)

  Below-includes :
      (r : List String)
      → ((x : String) → includes x roots ≡ true → includes x r ≡ true)
      → IsClosed r []
      → (x : String) → Below os roots x
      → includes x r ≡ true
  Below-includes r kept closed x (Below.root i) = kept x i
  Below-includes r kept closed x (Below.child {p = p} b l) =
      closed p x (Below-includes r kept closed p b) refl l

-- The search of a partner admin ends within its fuel, and what it returns holds exactly the
-- organizations of the user's memberships and those that hang below them by links from an
-- organization to a partner or customer that is not deleted.
pub partner_managed_ids-Below :
    (dir : Directory) (user_id : String)
    → (r : List String) × (partner_managed_ids dir user_id ≡ some r)
      × ((x : String)
          → includes x r ≡ true
          → Below dir.organizations (get_membership_organization_ids dir user_id) x)
      × ((x : String)
          → Below dir.organizations (get_membership_organization_ids dir user_id) x
          → includes x r ≡ true)
unfolding partner_managed_ids
partner_managed_ids-Below dir user_id =
    let os = dir.organizations in
    let ids = get_membership_organization_ids dir user_id in
    let (r, e) =
      descend_total (length os + 2) os (add_all [] ids) ids
        (omega (arith, missing-le-length os (add_all [] ids))) in
    let start = λ (x : String) (i : includes x (add_all [] ids) ≡ true).
      let k : includes x ids ≡ true = ground (arith, includes-add_all x [] ids) in k in
    let (kept, closed) =
      descend_complete os ids (length os + 2) (add_all [] ids) ids r
        (λ p x ip n l. absurd (ground (arith, start p ip))) e in
    (
      r,
      e,
      descend_sound os ids (length os + 2) (add_all [] ids) ids r (λ x i. Below.root (start x i))
          (λ x i. Below.root i) e,
      Below-includes os ids r (λ x i. kept x (ground (arith, includes-add_all x [] ids))) closed,
    )
