-- ===== src/Bookings/Transactions.antt =====
-- The transactions that write bookings and room_occupancy, in any order. Each carries the booking
-- that its method loaded before, which may be out of date by then; one that throws is rolled back.
use Prim.Native.String.{String}
use pms_homestay.Prelude.{ℕ, Option, List, [], ◌∷◌, ok, err, ◌>>=◌}
use pms_homestay.Occupancy.{OccupancyRow, insert_for_block, delete_for_block}
use pms_homestay.Bookings.Status.{BookingStatus}
use pms_homestay.Bookings.Types.{Booking, Store, Services, Resource, Caller, Call, from_database}
use pms_homestay.Bookings.Create.{CreateBookingRequest, IcalInput, create_tx, create_from_ical_tx}
use pms_homestay.Bookings.Lifecycle.{
  UpdateBookingRequest, update_tx, cancel_tx, cancel_from_ical_tx, confirm_from_deposit_paid,
  confirm_tx, check_in_tx, check_out_tx,
}
use pms_homestay.Bookings.Moves.{switch_resource_tx, reschedule_tx}
use pms_homestay.Bookings.Expiry.{expire_holds_for_tenant}

pub data Transaction : Type 0 where
  creating : CreateBookingRequest → Caller → ℕ → Resource → Transaction
  creating_from_ical : IcalInput → ℕ → Transaction
  updating : ℕ → ℕ → UpdateBookingRequest → Transaction
  cancelling : ℕ → String → Caller → Booking → Transaction
  cancelling_from_ical : ℕ → ℕ → String → ℕ → Transaction
  paying_deposit : ℕ → Option ℕ → Transaction
  confirming : ℕ → BookingStatus → Caller → Booking → Transaction
  checking_in : ℕ → Caller → Booking → Transaction
  checking_out : ℕ → Caller → Booking → Transaction
  switching : ℕ → String → Caller → Booking → Resource → Transaction
  rescheduling : ℕ → ℕ → ℕ → String → Caller → Booking → Transaction
  expiring : ℕ → Transaction
  -- a room is blocked, or is free again
  blocking : (block_id room_id start_at end_at : ℕ) → Transaction
  unblocking : ℕ → Transaction

module _ {S : Type 0} where
  abbrev pub with_occupancy : Store S → List OccupancyRow → Store S
  with_occupancy db rows = record db { occupancy = rows }

  -- A transaction that throws leaves the tables as they were.
  abbrev pub commit : Store S → Call (Store S) → Store S
  commit db (ok d) = d
  commit db (err e) = db

module _ {S : Type 0} (sv : Services S) where
  unfoldable pub run : Transaction → Store S → Call (Store S)
  run (creating dto c id resource) db = create_tx sv dto c id resource db
  run (creating_from_ical input id) db = create_from_ical_tx input id db
  run (updating id version dto) db = update_tx id version dto db
  run (cancelling id reason c loaded) db = cancel_tx id reason c loaded db
  run (cancelling_from_ical id property_id reason now) db =
      cancel_from_ical_tx id property_id reason now db
  run (paying_deposit id actor) db = ok (confirm_from_deposit_paid id actor db)
  run (confirming id target c loaded) db = confirm_tx sv id target c loaded db
  run (checking_in id c loaded) db = check_in_tx id c loaded db
  run (checking_out id c loaded) db = check_out_tx sv id c loaded db
  run (switching id reason c loaded resource) db =
      switch_resource_tx sv id reason c loaded resource db
  run (rescheduling id check_in check_out reason c loaded) db =
      reschedule_tx sv id check_in check_out reason c loaded db
  run (expiring now) db = expire_holds_for_tenant now db >>= λ r. ok r.0
  run (blocking block_id room_id start_at end_at) db =
      from_database (insert_for_block block_id room_id start_at end_at db.occupancy) >>= λ rows.
      ok (with_occupancy db rows)
  run (unblocking block_id) db = ok (with_occupancy db (delete_for_block block_id db.occupancy))

  unfoldable pub run_all : List Transaction → Store S → Store S
  unfolding run
  run_all [] db = db
  run_all (t ∷ ts) db = run_all ts (commit db (run t db))
