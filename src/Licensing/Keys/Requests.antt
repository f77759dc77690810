-- ===== src/Licensing/Keys/Requests.antt =====
-- Requests of the administration of keys, in any order.
use backend_softlogic.Base.{String, Option, List, [], ◌∷◌}
use backend_softlogic.Access.Roles.{Actor}
use backend_softlogic.Licensing.Store.{LicensingStore}
use backend_softlogic.Licensing.Keys.{
  KeyInput, Draw, create_hardware_activation_key, bulk_create_hardware_activation_keys,
  revoke_hardware_activation_key, replace_hardware_activation_key,
}
use backend_softlogic.Licensing.Keys.Capacity.{
  WithinSeats, create-WithinSeats, bulk_create-WithinSeats, revoke-WithinSeats, replace-WithinSeats,
}

-- a request of the administration of keys
pub data KeyRequest : Type 0 where
  create : String → KeyInput → Draw → KeyRequest
  bulk_create : String → Option String → List (KeyInput × Draw) → KeyRequest
  revoke : String → KeyRequest
  replace : String → Draw → KeyRequest

module _ (hash encrypt : String → String) where
  -- the tables after a request, granted or refused
  pub after : LicensingStore → Actor × KeyRequest → LicensingStore
  after st (actor, KeyRequest.create organization_id input draw) =
      (create_hardware_activation_key hash encrypt actor organization_id input draw st).1
  after st (actor, KeyRequest.bulk_create organization_id sub rows) =
      (bulk_create_hardware_activation_keys hash encrypt actor organization_id sub rows st).1
  after st (actor, KeyRequest.revoke key_id) = (revoke_hardware_activation_key actor key_id st).1
  after st (actor, KeyRequest.replace key_id draw) =
      (replace_hardware_activation_key hash encrypt actor key_id draw st).1

  abbrev pub after_all : LicensingStore → List (Actor × KeyRequest) → LicensingStore
  after_all st [] = st
  after_all st (r ∷ rs) = after_all (after st r) rs

  after-WithinSeats :
      (st : LicensingStore) (r : Actor × KeyRequest) → WithinSeats st → WithinSeats (after st r)
  unfolding after
  after-WithinSeats st (actor, KeyRequest.create o input draw) h =
      (create-WithinSeats hash encrypt actor o input draw).at st h
  after-WithinSeats st (actor, KeyRequest.bulk_create o sub rows) h =
      (bulk_create-WithinSeats hash encrypt actor o sub rows).at st h
  after-WithinSeats st (actor, KeyRequest.revoke key_id) h =
      (revoke-WithinSeats actor key_id).at st h
  after-WithinSeats st (actor, KeyRequest.replace key_id draw) h =
      (replace-WithinSeats hash encrypt actor key_id draw).at st h

  -- Creating, bulk-creating, revoking and replacing keys, granted or refused and in any order, leave no
  -- subscription with more usable keys than seats, if none had more before.
  pub key_requests-WithinSeats :
      (rs : List (Actor × KeyRequest)) (st : LicensingStore)
      → WithinSeats st
      → WithinSeats (after_all st rs)
  key_requests-WithinSeats [] st h = h
  key_requests-WithinSeats (r ∷ rs) st h =
      key_requests-WithinSeats rs (after st r) (after-WithinSeats st r h)
