-- ===== src/Bookings/NoOverlap.antt =====
-- No room is given to two bookings, or to a booking and a block, at one time: the transactions keep
-- the constraint of room_occupancy, whatever snapshots they act upon and in whichever order.
pub mod Steps
use Prim.Native.String.{String}
use pms_homestay.Prelude.{
  arith, ℕ, ◌≤◌, ◌<◌, ◌+◌, ◌≡◌, refl, Bool, true, false, not, Option, none, some, List, [], ◌∷◌,
  Result, ok, err, get_elem?, Ensures, Ensures-ok, Ensures-intro, Ensures-bind, Ensures-next,
  Ensures-guard, Ensures-then, Option-cases, Bool-cases, inl, inr, if◌then◌else◌, throw_if, map,
  ◌>>=◌, ◌>>◌,
}
use pms_homestay.Occupancy.{
  MemberRoom, OccupancyRow, insert_for_booking, insert_for_block, insert_row, is_of_booking,
  is_of_block, delete_for_booking, delete_for_block,
}
use pms_homestay.Occupancy.NoOverlap.{
  NoOverlap, keep-NoOverlap, insert_for_booking-NoOverlap, insert_row-NoOverlap, NoOverlap-apart,
}
use pms_homestay.Bookings.Status.{BookingStatus, status_eq}
use pms_homestay.Bookings.Types.{
  Booking, BookingError, Store, Services, Resource, Caller, Call, EventType, Reason, HistoryRow,
  update_booking, update_if, from_service, from_database, emit_booking, add_history,
  resource_no_rooms, unique_violation,
}
use pms_homestay.Bookings.Effects.{
  update_booking-Updated, update_if-Updated, from_database-eq_ok, Ensures-service,
}
use pms_homestay.Bookings.Create.{
  CreateBookingRequest, IcalInput, create_tx, create_from_ical_tx, insert_booking, check_overlaps,
  new_booking, ical_booking, created_history, is_empty, is_taken, redeem, deposit_if_pending,
}
use pms_homestay.Bookings.Lifecycle.{
  UpdateBookingRequest, free_rooms, note_change, emit_if_confirmed, update_tx, cancel_tx,
  cancel_from_ical_tx, confirm_from_deposit_paid, confirm_tx, check_in_tx, check_out_tx,
}
use pms_homestay.Bookings.Moves.{replace_rows, new_total, switch_resource_tx, reschedule_tx}
use pms_homestay.Bookings.Expiry.{expire_hold, expire_loop, expire_holds_for_tenant}
use pms_homestay.Bookings.Transactions.{
  Transaction, creating, creating_from_ical, updating, cancelling, cancelling_from_ical,
  paying_deposit, confirming, checking_in, checking_out, switching, rescheduling, expiring,
  blocking, unblocking, run, run_all, commit,
}
use pms_homestay.Bookings.NoOverlap.Steps.{
  Apart, create_tx-Apart, create_from_ical_tx-Apart, update_if-Apart, cancel_tx-Apart,
  cancel_from_ical_tx-Apart, confirm_from_deposit_paid-Apart, confirm_tx-Apart, check_in_tx-Apart,
  check_out_tx-Apart, switch_resource_tx-Apart, reschedule_tx-Apart, expire_loop-Apart,
  insert_for_block-Apart,
}

module _ {S : Type 0} (sv : Services S) where
  run-Apart : (t : Transaction) (db : Store S) → Apart db → Ensures Apart (run sv t db)
  unfolding run
  run-Apart (creating dto c id resource) db h = create_tx-Apart sv dto c id resource db h
  run-Apart (creating_from_ical input id) db h = create_from_ical_tx-Apart input id db h
  run-Apart (updating id version dto) db h = unfold update_tx in update_if-Apart _ _ id _ db h
  run-Apart (cancelling id reason c loaded) db h = cancel_tx-Apart id reason c loaded db h
  run-Apart (cancelling_from_ical id property_id reason now) db h =
      cancel_from_ical_tx-Apart id property_id reason now db h
  run-Apart (paying_deposit id actor) db h = confirm_from_deposit_paid-Apart id actor db h
  run-Apart (confirming id target c loaded) db h = confirm_tx-Apart sv id target c loaded db h
  run-Apart (checking_in id c loaded) db h = check_in_tx-Apart id c loaded db h
  run-Apart (checking_out id c loaded) db h = check_out_tx-Apart sv id c loaded db h
  run-Apart (switching id reason c loaded resource) db h =
      switch_resource_tx-Apart sv id reason c loaded resource db h
  run-Apart (rescheduling id ci co reason c loaded) db h =
      reschedule_tx-Apart sv id ci co reason c loaded db h
  run-Apart (expiring now) db h =
      unfold expire_holds_for_tenant in
      Ensures-bind Apart (λ (r : Store S × ℕ). Apart r.0) _ _
        (Ensures-bind (λ (r : Store S × ℕ). Apart r.0) Apart _ _ (expire_loop-Apart now _ db db h)
          (λ d k. k))
        (λ r k. k)
  run-Apart (blocking block_id room_id start end) db h =
      Ensures-bind Apart NoOverlap _ _
        (insert_for_block-Apart sv block_id room_id start end db.occupancy h) (λ rows k. k)
  run-Apart (unblocking block_id) db h =
      unfold delete_for_block in
      keep-NoOverlap (λ r. not (is_of_block block_id r.source)) db.occupancy h

  commit-Apart :
      (db : Store S) (r : Call (Store S)) → Apart db → Ensures Apart r → Apart (commit db r)
  commit-Apart db (ok d) h k = k
  commit-Apart db (err e) h k = h

  pub run_all-Apart : (ts : List Transaction) (db : Store S) → Apart db → Apart (run_all sv ts db)
  unfolding run_all
  run_all-Apart [] db h = h
  run_all-Apart (t ∷ ts) db h =
      run_all-Apart ts (commit db (run sv t db))
        (commit-Apart db (run sv t db) h (run-Apart t db h))

-- From a store whose rows of room_occupancy do not overlap, after any transactions in any order, each
-- on any snapshot of a booking, those that throw being rolled back, two rows of one room at different
-- places of the table share no instant.
pub run_all-apart :
    {S : Type 0} (sv : Services S) (ts : List Transaction) (db : Store S) (i j : ℕ)
    (a b : OccupancyRow) (t : ℕ)
    → NoOverlap db.occupancy
    → get_elem? (run_all sv ts db).occupancy i ≡ some a
    → get_elem? (run_all sv ts db).occupancy j ≡ some b
    → i < j
    → a.room_id ≡ b.room_id
    → ¬ ((a.start_at ≤ t) × (t < a.end_at) × (b.start_at ≤ t) × (t < b.end_at))
run_all-apart sv ts db i j a b t h =
    NoOverlap-apart (run_all sv ts db).occupancy i j a b t (run_all-Apart sv ts db h)
