-- ===== src/Bookings/Tests.antt =====
-- Bookings of a small house: resource 1 is room 11, resource 2 is the rooms 11 and 12.
use pms_homestay.Prelude.{
  ℕ, ◌+◌, ◌-◌, ◌≤◌, ◌<◌, ◌≡◌, refl, true, false, none, some, List, [], ◌∷◌, Ensures, arith, ok, err,
  ◌==◌, if◌then◌else◌,
}
use pms_homestay.Prelude.Int.{pos}
use pms_homestay.Engine.Types.{daily}
use pms_homestay.Occupancy.{MemberRoom, OccupancyRow, of_booking, exclusion_violation}
use pms_homestay.Occupancy.Presence.{rows_of, stack}
use pms_homestay.Bookings.Status.{status_eq, BookingStatus, confirmed, checked_in, cancelled}
use pms_homestay.Bookings.Types.{
  Booking, direct, Store, Services, Resource, Caller, version_conflict, booking_invalid_status_409,
  put,
}
use pms_homestay.Bookings.Create.{CreateBookingRequest}
use pms_homestay.Bookings.Lifecycle.{UpdateBookingRequest}
use pms_homestay.Bookings.Transactions.{Transaction, commit, creating}
use pms_homestay.Bookings.Requests.{
  Request, to_create, to_confirm, to_check_in, to_cancel, to_switch,
}
use pms_homestay.Bookings.Spec.{Effects}
use pms_homestay.Bookings.NoOverlap.{run_all-apart}
use pms_homestay.Bookings.Presence.{Present, expected_rows, handle_all-Present}
use pms_homestay.Bookings.Paths.{StatusPath, handle_all-status, handle_all-terminal}
use pms_homestay.Bookings.Refinement.{handle-Effects}
use pms_homestay.Bookings.Races.{
  update_tx-once, check_out_tx-once, cancel_tx-overrides, switch_resource_tx-rows,
  IsCancelledInside,
}
use pms_homestay.Bookings.Types.{
  from_service, from_database, emit_booking, add_history, load_or_throw, load_resource, authorize,
  assert_transition, update_booking, update_if,
}
use pms_homestay.Bookings.Create.{
  redeem, check_overlaps, insert_booking, uid_is_taken, new_booking, deposit_if_pending,
  initial_status, created_history, create_tx, create, hold_expiry,
}
use pms_homestay.Occupancy.{
  find_overlaps, insert_for_booking, insert_row, booking_row, has_conflict, ranges_meet,
  rows_conflict, is_of_booking, delete_for_booking,
}
use pms_homestay.Bookings.Transactions.{run, run_all}
use pms_homestay.Bookings.Requests.{handle, handle_all}
use pms_homestay.Bookings.Lifecycle.{
  confirm, confirm_tx, confirm_target, deposit_deadline, emit_if_confirmed, note_change, free_rooms,
  with_status, is_forced, check_in, check_in_tx, with_check_in, check_out, check_out_tx,
  with_check_out, cancel, cancel_tx, with_cancellation, update_tx, with_details,
}
use pms_homestay.Bookings.Moves.{switch_resource, switch_resource_tx, replace_rows, with_resource}
use pms_homestay.Bookings.Status.{status_eq, can_transition, is_terminal}

-- The other services, with the number of the calls that they have had for a state.
abbrev house : Services ℕ
house = record {
  verify_quote = λ s q r ci co m.
      if q == 1
      then ok
          (record { id = 1; rate_plan_id = 5; total_vnd = pos 300_000; discount_code_id = none })
      else err 7;
  redeem_discount = λ d s. ok (s + 1);
  mark_quote_used = λ q b s. ok (s + 1);
  issue_deposit = λ b s. ok (s + 1);
  issue_stay = λ b extras s. ok (s + 1);
  create_ota_commission = λ b s. ok s;
  create_checkout_tasks = λ p b ms s. ok (s + 1);
  recompute_total = λ s p q b ci co. ok (pos 400_000);
}

abbrev owner : Caller
owner = record { sub = 9; is_owner = true; authorized = λ p q. true; now = 1_000 }

abbrev room_11 : MemberRoom
room_11 = record { room_id = 11; buffer_minutes = 1 }

abbrev room_12 : MemberRoom
room_12 = record { room_id = 12; buffer_minutes = 0 }

abbrev members_of : ℕ → List MemberRoom
members_of r = if r == 1 then room_11 ∷ [] else if r == 2 then room_11 ∷ room_12 ∷ [] else []

abbrev house_of : ℕ → Resource
house_of i = record { id = i; property_id = 3 }

abbrev empty_store : Store ℕ
empty_store = record {
  bookings = λ i. none;
  ids = [];
  occupancy = [];
  history = [];
  outbox = [];
  surcharges = [];
  resources = λ i. some (house_of i);
  member_rooms = members_of;
  counter = 0;
  others = 0;
}

abbrev wish : ℕ → ℕ → ℕ → CreateBookingRequest
wish resource check_in check_out = record {
  resource_id = resource;
  quote_id = 1;
  guest_id = none;
  mode = daily;
  check_in = check_in;
  check_out = check_out;
  adults = some 2;
  children = none;
  source = none;
  hold = none;
  notes = none;
}

abbrev row : ℕ → ℕ → ℕ → ℕ → OccupancyRow
row id room start end = record {
  room_id = room;
  source = of_booking id;
  start_at = start;
  end_at = end;
}

-- A booking, one that clashes with it, and one after it.
abbrev three : List Transaction
three =
    creating (wish 1 100_000 200_000) owner 1 (house_of 1)
    ∷ creating (wish 2 150_000 400_000) owner 2 (house_of 2)
    ∷ creating (wish 2 320_000 400_000) owner 3 (house_of 2)
    ∷ []

rows_of_three :
    (run_all house three empty_store).occupancy
    ≡ row 3 12 320_000 400_000 ∷ row 3 11 260_000 460_000 ∷ row 1 11 40_000 260_000 ∷ []
unfolding from_service from_database emit_booking add_history load_or_throw load_resource authorize
    assert_transition update_booking update_if redeem check_overlaps uid_is_taken insert_booking
    new_booking deposit_if_pending initial_status created_history create_tx create hold_expiry
    find_overlaps insert_for_booking insert_row booking_row has_conflict ranges_meet rows_conflict
    is_of_booking delete_for_booking run run_all handle handle_all confirm confirm_tx confirm_target
    deposit_deadline emit_if_confirmed note_change free_rooms with_status is_forced check_in
    check_in_tx with_check_in check_out check_out_tx with_check_out cancel cancel_tx
    with_cancellation update_tx with_details switch_resource switch_resource_tx replace_rows
    with_resource status_eq can_transition is_terminal
rows_of_three = refl

run_all-apart_example :
    ¬ ((260_000 ≤ 300_000) × (300_000 < 460_000) × (40_000 ≤ 300_000) × (300_000 < 260_000))
unfolding from_service from_database emit_booking add_history load_or_throw load_resource authorize
    assert_transition update_booking update_if redeem check_overlaps uid_is_taken insert_booking
    new_booking deposit_if_pending initial_status created_history create_tx create hold_expiry
    find_overlaps insert_for_booking insert_row booking_row has_conflict ranges_meet rows_conflict
    is_of_booking delete_for_booking run run_all handle handle_all confirm confirm_tx confirm_target
    deposit_deadline emit_if_confirmed note_change free_rooms with_status is_forced check_in
    check_in_tx with_check_in check_out check_out_tx with_check_out cancel cancel_tx
    with_cancellation update_tx with_details switch_resource switch_resource_tx replace_rows
    with_resource status_eq can_transition is_terminal
run_all-apart_example =
    run_all-apart house three empty_store 1 2 (row 3 11 260_000 460_000) (row 1 11 40_000 260_000)
      300_000 tt refl refl (omega arith) refl

-- Booking 1 is made and confirmed, booking 2 is cancelled, and booking 3 is refused.
abbrev day : List Request
day =
    to_create (wish 1 100_000 200_000) owner 1
    ∷ to_create (wish 2 320_000 400_000) owner 2
    ∷ to_confirm 1 (some true) owner
    ∷ to_create (wish 1 90_000 110_000) owner 3
    ∷ to_cancel 2 "ill" owner
    ∷ to_switch 1 2 "leak" owner
    ∷ []

empty_store-Present : Present empty_store
empty_store-Present i = refl

handle_all-Present_example :
    rows_of 1 (handle_all house day empty_store).occupancy
    ≡ expected_rows
        (handle_all house day empty_store).member_rooms
        1
        ((handle_all house day empty_store).bookings 1)
handle_all-Present_example = handle_all-Present house day empty_store empty_store-Present 1

rows_after_day :
    (handle_all house day empty_store).occupancy
    ≡ row 1 12 100_000 200_000 ∷ row 1 11 40_000 260_000 ∷ []
unfolding from_service from_database emit_booking add_history load_or_throw load_resource authorize
    assert_transition update_booking update_if redeem check_overlaps uid_is_taken insert_booking
    new_booking deposit_if_pending initial_status created_history create_tx create hold_expiry
    find_overlaps insert_for_booking insert_row booking_row has_conflict ranges_meet rows_conflict
    is_of_booking delete_for_booking run run_all handle handle_all confirm confirm_tx confirm_target
    deposit_deadline emit_if_confirmed note_change free_rooms with_status is_forced check_in
    check_in_tx with_check_in check_out check_out_tx with_check_out cancel cancel_tx
    with_cancellation update_tx with_details switch_resource switch_resource_tx replace_rows
    with_resource status_eq can_transition is_terminal
rows_after_day = refl

handle-Effects_example :
    Ensures
      (Effects empty_store)
      (handle house (to_create (wish 1 100_000 200_000) owner 1) empty_store)
handle-Effects_example =
    handle-Effects house (to_create (wish 1 100_000 200_000) owner 1) empty_store

abbrev stay_of : BookingStatus → Booking
stay_of status = record {
  id = 1;
  property_id = 3;
  resource_id = 1;
  guest_id = none;
  booking_code = 1;
  source = direct;
  external_uid = none;
  channel_mapping_id = none;
  status = status;
  mode = daily;
  rate_plan_id = none;
  quote_id = none;
  check_in = 100_000;
  check_out = 200_000;
  actual_check_in = none;
  actual_check_out = none;
  adults = 1;
  children = 0;
  total_amount_vnd = pos 300_000;
  notes = none;
  cancellation_reason = none;
  cancelled_at = none;
  cancelled_by = none;
  expires_at = none;
  created_by = none;
  version = 1;
}

abbrev store_with : BookingStatus → List OccupancyRow → Store ℕ
store_with status rows = record empty_store {
  bookings = put 1 (stay_of status) (λ i. none);
  ids = 1 ∷ [];
  occupancy = rows;
}

abbrev held : List OccupancyRow
held = row 1 11 40_000 260_000 ∷ []

handle_all-status_example :
    (b : Booking) × ((handle_all house
          (to_check_in 1 owner ∷ [])
          (store_with confirmed held)).bookings
        1
      ≡ some b)
    × StatusPath confirmed b.status
handle_all-status_example =
    handle_all-status house 1 (to_check_in 1 owner ∷ []) (store_with confirmed held)
      (stay_of confirmed) refl

handle_all-terminal_example :
    (b : Booking) × ((handle_all house
          (to_check_in 1 owner ∷ [])
          (store_with cancelled [])).bookings
        1
      ≡ some b)
    × (b.status ≡ cancelled)
handle_all-terminal_example =
    handle_all-terminal house 1 (to_check_in 1 owner ∷ []) (store_with cancelled [])
      (stay_of cancelled) refl (unfold is_terminal in refl)

abbrev more_guests : UpdateBookingRequest
more_guests = record { guest_id = none; adults = some 3; children = none; notes = none }

abbrev updated_store : Store ℕ
updated_store = record (store_with confirmed held) {
  bookings =
      put 1 (record (stay_of confirmed) { adults = 3; version = 2 })
        (put 1 (stay_of confirmed) (λ i. none));
}

update_tx-once_example : update_tx 1 1 more_guests updated_store ≡ err version_conflict
update_tx-once_example =
    update_tx-once 1 1 more_guests more_guests (store_with confirmed held) updated_store
      (unfold update_tx update_if with_details in refl)

abbrev checked_in_store : Store ℕ
checked_in_store =
    commit (store_with confirmed held)
      (check_in_tx 1 owner (stay_of confirmed) (store_with confirmed held))

cancel_tx-overrides_example :
    (e : Store ℕ) × (cancel_tx 1 "ill" owner (stay_of confirmed) checked_in_store ≡ ok e)
    × IsCancelledInside 1 1_000 1_000 e
    × (rows_of 1 e.occupancy ≡ [])
    × ((j : ℕ)
        → (j == 1) ≡ false
        → (e.bookings j ≡ (store_with confirmed held).bookings j)
          × (rows_of j e.occupancy ≡ rows_of j held))
    × ((c_out : Caller) (loaded_out : Booking)
        → check_out_tx house 1 c_out loaded_out e ≡ err booking_invalid_status_409)
unfolding status_eq
cancel_tx-overrides_example =
    cancel_tx-overrides house 1 "ill" owner owner (stay_of confirmed) (stay_of confirmed)
      (store_with confirmed held) checked_in_store
      (unfold check_in_tx update_if emit_booking note_change add_history in refl)

abbrev after_check_out : Store ℕ
after_check_out =
    commit (store_with checked_in held)
      (check_out_tx house 1 owner (stay_of checked_in) (store_with checked_in held))

check_out_tx-once_example :
    check_out_tx house 1 owner (stay_of checked_in) after_check_out ≡ err booking_invalid_status_409
check_out_tx-once_example =
    check_out_tx-once house 1 owner owner (stay_of checked_in) (stay_of checked_in)
      (store_with checked_in held) after_check_out
      (unfold from_service from_database emit_booking add_history load_or_throw load_resource
          authorize assert_transition update_booking update_if redeem check_overlaps uid_is_taken
          insert_booking new_booking deposit_if_pending initial_status created_history create_tx
          create hold_expiry find_overlaps insert_for_booking insert_row booking_row has_conflict
          ranges_meet rows_conflict is_of_booking delete_for_booking run run_all handle handle_all
          confirm confirm_tx confirm_target deposit_deadline emit_if_confirmed note_change
          free_rooms with_status is_forced check_in check_in_tx with_check_in check_out check_out_tx
          with_check_out cancel cancel_tx with_cancellation update_tx with_details switch_resource
          switch_resource_tx replace_rows with_resource status_eq can_transition is_terminal in
        refl)

-- The booking has been cancelled since it was loaded.
abbrev after_switch : Store ℕ
after_switch = commit (store_with cancelled []) (
    switch_resource_tx house 1 "leak" owner (stay_of confirmed) (house_of 2)
      (store_with cancelled []))

switch_resource_tx-rows_example :
    (after_switch.bookings 1 ≡ some (with_resource 2 (stay_of cancelled)))
    × (rows_of 1 after_switch.occupancy ≡ stack 1 (members_of 2) 100_000 200_000 [])
switch_resource_tx-rows_example =
    switch_resource_tx-rows house 1 "leak" owner (stay_of confirmed) (house_of 2)
      (store_with cancelled []) after_switch (stay_of cancelled) refl
      (unfold from_service from_database emit_booking add_history load_or_throw load_resource
          authorize assert_transition update_booking update_if redeem check_overlaps uid_is_taken
          insert_booking new_booking deposit_if_pending initial_status created_history create_tx
          create hold_expiry find_overlaps insert_for_booking insert_row booking_row has_conflict
          ranges_meet rows_conflict is_of_booking delete_for_booking run run_all handle handle_all
          confirm confirm_tx confirm_target deposit_deadline emit_if_confirmed note_change
          free_rooms with_status is_forced check_in check_in_tx with_check_in check_out check_out_tx
          with_check_out cancel cancel_tx with_cancellation update_tx with_details switch_resource
          switch_resource_tx replace_rows with_resource status_eq can_transition is_terminal in
        refl)

-- A room with a buffer of half an hour, booked from 14:00 to 16:00: a stay from 16:30 is refused, as
-- its row starts at 16:00, and that of the first ends at 16:30.
abbrev cleaned_room : List MemberRoom
cleaned_room = record { room_id = 11; buffer_minutes = 30 } ∷ []

half_hour_after :
    insert_for_booking 2 cleaned_room 59_400_000 64_800_000
      (row 1 11 (50_400_000 - 1_800_000) (57_600_000 + 1_800_000) ∷ [])
    ≡ err exclusion_violation
unfolding insert_for_booking insert_row booking_row has_conflict ranges_meet rows_conflict
half_hour_after = refl
