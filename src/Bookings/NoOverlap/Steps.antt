-- ===== src/Bookings/NoOverlap/Steps.antt =====
-- Each transaction of a booking by itself keeps the rows of room_occupancy apart.
use Prim.Native.String.{String}
use pms_homestay.Prelude.{
  arith, ℕ, ◌+◌, ◌≡◌, Bool, not, Option, List, [], ◌∷◌, ok, Ensures, Ensures-ok, Ensures-intro,
  Ensures-bind, Ensures-next, Ensures-then, throw_if, ltb,
}
use pms_homestay.Occupancy.{
  MemberRoom, OccupancyRow, insert_for_booking, insert_for_block, insert_row, is_of_booking,
  delete_for_booking,
}
use pms_homestay.Occupancy.NoOverlap.{
  NoOverlap, keep-NoOverlap, insert_for_booking-NoOverlap, insert_row-NoOverlap,
}
use pms_homestay.Bookings.Status.{BookingStatus}
use pms_homestay.Bookings.Types.{
  Booking, BookingError, Store, Services, Resource, Caller, update_booking, update_if,
  from_database, emit_booking, add_history, resource_no_rooms, unique_violation, check_violation,
}
use pms_homestay.Bookings.Effects.{
  update_booking-Updated, update_if-Updated, from_database-eq_ok, Ensures-service,
}
use pms_homestay.Bookings.Create.{
  CreateBookingRequest, IcalInput, create_tx, create_from_ical_tx, insert_booking, check_overlaps,
  new_booking, created_history, is_empty, is_taken, uid_is_taken, redeem, deposit_if_pending,
}
use pms_homestay.Bookings.Lifecycle.{
  free_rooms, note_change, emit_if_confirmed, cancel_tx, cancel_from_ical_tx,
  confirm_from_deposit_paid, confirm_tx, check_in_tx, check_out_tx,
}
use pms_homestay.Bookings.Moves.{replace_rows, new_total, switch_resource_tx, reschedule_tx}
use pms_homestay.Bookings.Expiry.{expire_hold, expire_loop}

insert_rows-Apart :
    (id : ℕ) (ms : List MemberRoom) (ci co : ℕ) (rows : List OccupancyRow)
    → NoOverlap rows
    → Ensures NoOverlap (from_database (insert_for_booking id ms ci co rows))
insert_rows-Apart id ms ci co rows h =
    Ensures-intro NoOverlap (from_database (insert_for_booking id ms ci co rows)) (λ out e.
      insert_for_booking-NoOverlap id ms ci co rows out h (
        Ensures-ok (λ a. insert_for_booking id ms ci co rows ≡ ok a)
          (from_database (insert_for_booking id ms ci co rows)) out
          (from_database-eq_ok (insert_for_booking id ms ci co rows)) e))

module _ {S : Type 0} where
  abbrev pub Apart : Store S → Type 0
  Apart db = NoOverlap db.occupancy

  pub free_rooms-Apart : (id : ℕ) (db : Store S) → Apart db → Apart (free_rooms id db)
  unfolding free_rooms delete_for_booking
  free_rooms-Apart id db h = keep-NoOverlap (λ r. not (is_of_booking id r.source)) db.occupancy h

  pub insert_booking-Apart :
      (b : Booking) (ms : List MemberRoom) (db : Store S)
      → Apart db
      → Ensures Apart (insert_booking b ms db)
  unfolding insert_booking
  insert_booking-Apart b ms db h =
      Ensures-then Apart (throw_if (not (ltb b.check_in b.check_out)) check_violation) _ (
        Ensures-then Apart (throw_if (is_taken (db.bookings b.id)) unique_violation) _ (
          Ensures-then Apart (throw_if (uid_is_taken b db.ids db.bookings) unique_violation) _ (
            Ensures-bind Apart NoOverlap _ _
              (insert_rows-Apart b.id ms b.check_in b.check_out db.occupancy h) (λ rows k. k))))

  pub update_booking-Apart :
      (id : ℕ) (f : Booking → Booking) (db : Store S)
      → Apart db
      → Ensures Apart (update_booking id f db)
  update_booking-Apart id f db h = Ensures-intro Apart (update_booking id f db) (λ d e.
      let (b, shape) = Ensures-ok _ (update_booking id f db) d (update_booking-Updated id f db) e in
      rw shape.1 h)

  pub update_if-Apart :
      (test : Booking → Bool) (e : BookingError) (id : ℕ) (f : Booking → Booking) (db : Store S)
      → Apart db
      → Ensures Apart (update_if test e id f db)
  update_if-Apart test x id f db h = Ensures-intro Apart (update_if test x id f db) (λ d e.
      let (b, t, shape) =
        Ensures-ok _ (update_if test x id f db) d (update_if-Updated test x id f db) e in
      rw shape.1 h)

  pub replace_rows-Apart :
      (id : ℕ) (ms : List MemberRoom) (ci co : ℕ) (db : Store S)
      → Apart db
      → Ensures Apart (replace_rows id ms ci co db)
  unfolding replace_rows
  replace_rows-Apart id ms ci co db h = Ensures-then Apart _ _ (
      Ensures-bind Apart NoOverlap _ _
        (insert_rows-Apart id ms ci co (free_rooms id db).occupancy (free_rooms-Apart id db h))
        (λ rows k. k))

  pub cancel_tx-Apart :
      (id : ℕ) (reason : String) (c : Caller) (loaded : Booking) (db : Store S)
      → Apart db
      → Ensures Apart (cancel_tx id reason c loaded db)
  unfolding cancel_tx emit_booking note_change add_history
  cancel_tx-Apart id reason c loaded db h =
      Ensures-bind Apart Apart _ _ (update_booking-Apart id _ db h) (λ d k. free_rooms-Apart id d k)

  pub cancel_from_ical_tx-Apart :
      (id property_id : ℕ) (reason : String) (now : ℕ) (db : Store S)
      → Apart db
      → Ensures Apart (cancel_from_ical_tx id property_id reason now db)
  unfolding cancel_from_ical_tx emit_booking add_history
  cancel_from_ical_tx-Apart id property_id reason now db h =
      Ensures-bind Apart Apart _ _ (update_booking-Apart id _ db h) (λ d k. free_rooms-Apart id d k)

  pub check_in_tx-Apart :
      (id : ℕ) (c : Caller) (loaded : Booking) (db : Store S)
      → Apart db
      → Ensures Apart (check_in_tx id c loaded db)
  unfolding check_in_tx emit_booking note_change add_history
  check_in_tx-Apart id c loaded db h =
      Ensures-bind Apart Apart _ _ (update_if-Apart _ _ id _ db h) (λ d k. k)

  pub confirm_from_deposit_paid-Apart :
      (id : ℕ) (actor : Option ℕ) (db : Store S)
      → Apart db
      → Apart (confirm_from_deposit_paid id actor db)
  unfolding confirm_from_deposit_paid emit_booking note_change add_history
  confirm_from_deposit_paid-Apart id actor db h = ground arith

  pub create_from_ical_tx-Apart :
      (input : IcalInput) (id : ℕ) (db : Store S)
      → Apart db
      → Ensures Apart (create_from_ical_tx input id db)
  unfolding create_from_ical_tx emit_booking created_history add_history
  create_from_ical_tx-Apart input id db h =
      Ensures-then Apart _ _
        (Ensures-bind Apart Apart _ _ (insert_booking-Apart _ _ db h) (λ d k. k))

  pub expire_hold-Apart :
      (now id property_id : ℕ) (db : Store S)
      → Apart db
      → Ensures Apart (expire_hold now id property_id db)
  unfolding expire_hold emit_booking note_change add_history
  expire_hold-Apart now id property_id db h =
      Ensures-bind Apart Apart _ _ (update_booking-Apart id _ db h) (λ d k. free_rooms-Apart id d k)

  pub expire_loop-Apart :
      (now : ℕ) (ids : List ℕ) (selected db : Store S)
      → Apart db
      → Ensures Apart (expire_loop now ids selected db)
  unfolding expire_loop
  expire_loop-Apart now [] selected db h = h
  expire_loop-Apart now (id ∷ ids) selected db h =
      Ensures-bind Apart Apart _ _ (expire_hold-Apart now id _ db h)
        (λ d k. expire_loop-Apart now ids selected d k)

  pub emitted_if_confirmed-Apart :
      (target : BookingStatus) (id property_id : ℕ) (db : Store S)
      → Apart db
      → Apart (emit_if_confirmed target id property_id db)
  unfolding emit_if_confirmed emit_booking
  emitted_if_confirmed-Apart target id property_id db h = ground arith

module _ {S : Type 0} (sv : Services S) where
  pub create_tx-Apart :
      (dto : CreateBookingRequest) (c : Caller) (id : ℕ) (resource : Resource) (db : Store S)
      → Apart db
      → Ensures Apart (create_tx sv dto c id resource db)
  unfolding create_tx emit_booking created_history add_history
  create_tx-Apart dto c id resource db h = Ensures-service Apart _ _ (λ q.
      Ensures-next Apart (redeem sv q.discount_code_id db.others) _ (λ redeemed e.
        let ms = db.member_rooms resource.id in
        Ensures-then Apart (throw_if (is_empty ms) resource_no_rooms) _ (
          Ensures-then Apart (check_overlaps ms dto.check_in dto.check_out db) _ (
            Ensures-bind Apart Apart _ _ (insert_booking-Apart _ ms db h) (λ d k.
              Ensures-service Apart _ _ (λ used.
                let b = new_booking dto c id resource q (db.counter + 1) in
                Ensures-next Apart (deposit_if_pending sv b.status b used) _ (λ others e. k)))))))

  pub confirm_tx-Apart :
      (id : ℕ) (target : BookingStatus) (c : Caller) (loaded : Booking) (db : Store S)
      → Apart db
      → Ensures Apart (confirm_tx sv id target c loaded db)
  unfolding confirm_tx note_change add_history
  confirm_tx-Apart id target c loaded db h =
      Ensures-bind Apart Apart _ _ (update_if-Apart _ _ id _ db h) (λ d k.
        Ensures-next Apart (deposit_if_pending sv target loaded d.others) _
          (λ others e. emitted_if_confirmed-Apart target id _ _ k))

  pub check_out_tx-Apart :
      (id : ℕ) (c : Caller) (loaded : Booking) (db : Store S)
      → Apart db
      → Ensures Apart (check_out_tx sv id c loaded db)
  unfolding check_out_tx emit_booking note_change add_history
  check_out_tx-Apart id c loaded db h =
      Ensures-bind Apart Apart _ _ (update_if-Apart _ _ id _ db h) (λ d k.
        Ensures-service Apart _ _ (λ x.
          Ensures-service Apart _ _
            (λ x. Ensures-service Apart _ _ (λ x. free_rooms-Apart id d k))))

  pub switch_resource_tx-Apart :
      (id : ℕ) (reason : String) (c : Caller) (loaded : Booking) (r : Resource) (db : Store S)
      → Apart db
      → Ensures Apart (switch_resource_tx sv id reason c loaded r db)
  unfolding switch_resource_tx emit_booking note_change add_history
  switch_resource_tx-Apart id reason c loaded r db h = Ensures-then Apart _ _ (
      Ensures-bind Apart Apart _ _ (replace_rows-Apart id _ _ _ db h) (λ d k.
        Ensures-bind Apart Apart _ _ (update_booking-Apart id _ d k)
          (λ d' k'. Ensures-service Apart _ _ (λ x. k'))))

  pub reschedule_tx-Apart :
      (id ci co : ℕ) (reason : String) (c : Caller) (loaded : Booking) (db : Store S)
      → Apart db
      → Ensures Apart (reschedule_tx sv id ci co reason c loaded db)
  unfolding reschedule_tx emit_booking note_change add_history
  reschedule_tx-Apart id ci co reason c loaded db h =
      Ensures-bind Apart Apart _ _ (replace_rows-Apart id _ ci co db h) (λ d k.
        Ensures-next Apart (new_total sv loaded.rate_plan_id loaded ci co d.others) _
          (λ x e. Ensures-bind Apart Apart _ _ (update_booking-Apart id _ d k) (λ d' k'. k')))

  pub insert_for_block-Apart :
      (block_id room_id start end : ℕ) (rows : List OccupancyRow)
      → NoOverlap rows
      → Ensures NoOverlap (from_database (insert_for_block block_id room_id start end rows))
  unfolding insert_for_block
  insert_for_block-Apart block_id room_id start end rows h =
      Ensures-intro NoOverlap (from_database (insert_row _ rows)) (λ out e.
        insert_row-NoOverlap _ rows out h (
          Ensures-ok (λ a. insert_row _ rows ≡ ok a) (from_database (insert_row _ rows)) out
            (from_database-eq_ok (insert_row _ rows)) e))
