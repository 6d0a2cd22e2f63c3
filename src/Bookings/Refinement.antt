-- ===== src/Bookings/Refinement.antt =====
-- Every call keeps to the contract of the service.
use pms_homestay.Prelude.{ℕ, refl, Ensures, Ensures-next, Ensures-then, throw_if, keep}
use pms_homestay.Bookings.Types.{
  Store, Services, Caller, load_resource, authorize, booking_create, booking_update,
  booking_invalid_status, surcharge_not_found,
}
use pms_homestay.Bookings.Create.{CreateBookingRequest, create, is_empty}
use pms_homestay.Bookings.Status.{is_terminal}
use pms_homestay.Bookings.Surcharges.{
  CreateBookingSurchargeRequest, add_surcharge, remove_surcharge, is_surcharge,
}
use pms_homestay.Bookings.Requests.{
  Request, handle, to_create, to_create_from_ical, to_update, to_cancel, to_pay_deposit, to_confirm,
  to_check_in, to_check_out, to_switch, to_reschedule, to_add_surcharge, to_remove_surcharge,
  to_expire,
}
use pms_homestay.Bookings.Spec.{Effects, idle, start, after}
use pms_homestay.Bookings.Spec.Changes.{
  read_twice, update-Effects, cancel-Effects, confirm-Effects, confirm_from_deposit_paid-Effects,
  check_in-Effects, check_out-Effects,
}
use pms_homestay.Bookings.Spec.Moves.{
  create_tx-Effects, create_from_ical_tx-Effects, switch_resource-Effects, reschedule-Effects,
}
use pms_homestay.Bookings.Spec.Expiry.{expire_holds-Effects}

module _ {S : Type 0} (sv : Services S) where
  create-Effects :
      (dto : CreateBookingRequest) (c : Caller) (id : ℕ) (db : Store S)
      → Ensures (Effects db) (create sv dto c id db)
  unfolding create
  create-Effects dto c id db =
      Ensures-next (Effects db) (load_resource db dto.resource_id) _ (λ r x.
        Ensures-then (Effects db) (authorize c r.property_id booking_create) _
          (create_tx-Effects sv dto c id r db))

  add_surcharge-Effects :
      (id : ℕ) (dto : CreateBookingSurchargeRequest) (c : Caller) (key : ℕ) (db : Store S)
      → Ensures (Effects db) (add_surcharge id dto c key db)
  unfolding add_surcharge
  add_surcharge-Effects id dto c key db = read_twice db id _ (Effects db) (λ b e.
      Ensures-then (Effects db) (authorize c b.property_id booking_update) _ (
        Ensures-then (Effects db) (throw_if (is_terminal b.status) booking_invalid_status) _
          (after start (idle refl refl refl))))

  remove_surcharge-Effects :
      (id surcharge_id : ℕ) (c : Caller) (db : Store S)
      → Ensures (Effects db) (remove_surcharge id surcharge_id c db)
  unfolding remove_surcharge
  remove_surcharge-Effects id surcharge_id c db = read_twice db id _ (Effects db) (λ b e.
      Ensures-then (Effects db) (authorize c b.property_id booking_update) _ (
        Ensures-then (Effects db) (throw_if (is_terminal b.status) booking_invalid_status) _ (
          Ensures-then (Effects db)
            (throw_if (is_empty (keep (is_surcharge surcharge_id id) db.surcharges))
              surcharge_not_found)
            _ (after start (idle refl refl refl)))))

  -- Every call that returns, cancelFromIcalTx not being one of them, has done to the bookings and
  -- to the rows of room_occupancy what the contract allows: it has opened bookings with the rows of
  -- all their rooms, or changed bookings along the state machine, keeping, freeing or moving their
  -- rows as the contract says.
  pub handle-Effects : (r : Request) (db : Store S) → Ensures (Effects db) (handle sv r db)
  unfolding handle
  handle-Effects (to_create dto c id) db = create-Effects dto c id db
  handle-Effects (to_create_from_ical input id) db = create_from_ical_tx-Effects input id db
  handle-Effects (to_update id version dto c) db = update-Effects id version dto c db
  handle-Effects (to_cancel id reason c) db = cancel-Effects id reason c db
  handle-Effects (to_pay_deposit id actor) db = confirm_from_deposit_paid-Effects id actor db
  handle-Effects (to_confirm id force c) db = confirm-Effects sv id force c db
  handle-Effects (to_check_in id c) db = check_in-Effects id c db
  handle-Effects (to_check_out id c) db = check_out-Effects sv id c db
  handle-Effects (to_switch id resource_id reason c) db =
      switch_resource-Effects sv id resource_id reason c db
  handle-Effects (to_reschedule id ci co reason c) db = reschedule-Effects sv id ci co reason c db
  handle-Effects (to_add_surcharge id dto c key) db = add_surcharge-Effects id dto c key db
  handle-Effects (to_remove_surcharge id surcharge_id c) db =
      remove_surcharge-Effects id surcharge_id c db
  handle-Effects (to_expire now) db = expire_holds-Effects now db

  pub joined : {a b c : Store S} → Effects a b → Effects b c → Effects a c
  joined h start = h
  joined h (after k e) = after (joined h k) e
