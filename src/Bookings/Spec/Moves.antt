-- ===== src/Bookings/Spec/Moves.antt =====
-- The calls that make a booking, move it or let it expire keep to the contract.
use Prim.Native.String.{String}
use pms_homestay.Prelude.{
  ℕ, ◌+◌, ◌≡◌, refl, Bool, true, false, ◌||◌, ◌&&◌, Option, none, some, List, ◌∷◌, ok, ◌==◌,
  Ensures, Ensures-bind, Ensures-next, Ensures-guard, Ensures-then, inl, if◌then◌else◌, throw_if,
  ◌>>=◌, arith, not, ltb,
}
use pms_homestay.Occupancy.{MemberRoom, OccupancyRow, insert_for_booking, delete_for_booking}
use pms_homestay.Bookings.Status.{status_eq, is_terminal, checked_in}
use pms_homestay.Bookings.Types.{
  Booking, Store, Services, Resource, Caller, Call, authorize, emit_booking, add_history, put,
  resource_no_rooms, unique_violation, check_violation, load_resource, booking_update,
  booking_invalid_status,
}
use pms_homestay.Bookings.Effects.{from_database-eq_ok, Ensures-service}
use pms_homestay.Bookings.Create.{deposit_if_pending}
use pms_homestay.Bookings.Lifecycle.{free_rooms, note_change}
use pms_homestay.Bookings.Spec.{Effects, opened, changed, rooms_moved, start, after}
use pms_homestay.Bookings.Spec.Changes.{read_twice, after_update}
use pms_homestay.Bookings.Create.{
  CreateBookingRequest, IcalInput, create_tx, create_from_ical_tx, insert_booking, check_overlaps,
  new_booking, ical_booking, is_empty, is_taken, uid_is_taken, redeem, created_history,
  initial_status,
}
use pms_homestay.Bookings.Moves.{
  replace_rows, new_total, switch_resource, switch_resource_tx, reschedule, reschedule_tx,
  with_resource, with_dates,
}
use pms_homestay.Bookings.Types.{
  booking_switch_resource, booking_same_resource, booking_same_dates, resource_property_mismatch,
}

not_taken : {A : Type 0} (o : Option A) → is_taken o ≡ false → o ≡ none
not_taken none h = refl
not_taken (some a) h = cc

initial_status-IsOpen : (h : Option Bool) → is_terminal (initial_status h) ≡ false
unfolding initial_status is_terminal
initial_status-IsOpen h = ground arith

or_false : (a b : Bool) → (a || b) ≡ false → a ≡ false
or_false a b h = ground arith

module _ {S : Type 0} where
  -- The tables after insert_booking.
  abbrev Inserted : Booking → List MemberRoom → Store S → Store S → Type 0
  Inserted b ms db d =
      (rows : List OccupancyRow) × (db.bookings b.id ≡ none)
      × (insert_for_booking b.id ms b.check_in b.check_out db.occupancy ≡ ok rows)
      × (d ≡ record db {
        bookings = put b.id b db.bookings;
        ids = b.id ∷ db.ids;
        occupancy = rows;
        counter = db.counter + 1;
      })

  insert_booking-Inserted :
      (b : Booking) (ms : List MemberRoom) (db : Store S)
      → Ensures (Inserted b ms db) (insert_booking b ms db)
  unfolding insert_booking
  insert_booking-Inserted b ms db =
      Ensures-then (Inserted b ms db) (throw_if (not (ltb b.check_in b.check_out)) check_violation)
        _
        (Ensures-guard (Inserted b ms db) (is_taken (db.bookings b.id)) unique_violation _ (λ g.
          Ensures-then (Inserted b ms db)
            (throw_if (uid_is_taken b db.ids db.bookings) unique_violation) _
            (Ensures-bind (Inserted b ms db)
              (λ rows. insert_for_booking b.id ms b.check_in b.check_out db.occupancy ≡ ok rows) _ _
              (from_database-eq_ok (insert_for_booking b.id ms b.check_in b.check_out db.occupancy))
              (λ rows e. (rows, not_taken (db.bookings b.id) g, e, refl)))))

  after_insert :
      (P : Store S → Type 0) (b : Booking) (ms : List MemberRoom) (db : Store S)
      (next : Store S → Call (Store S))
      → ((d : Store S) → Inserted b ms db d → Ensures P (next d))
      → Ensures P (insert_booking b ms db >>= next)
  after_insert P b ms db next k =
      Ensures-bind P (Inserted b ms db) (insert_booking b ms db) next
        (insert_booking-Inserted b ms db) k

  abbrev pub Replaced : ℕ → List MemberRoom → ℕ → ℕ → Store S → Store S → Type 0
  Replaced id ms ci co db d =
      (rows : List OccupancyRow) × (insert_for_booking id ms ci co
          (delete_for_booking id db.occupancy)
        ≡ ok rows)
      × (d ≡ record db { occupancy = rows })

  pub after_replace :
      (P : Store S → Type 0) (id : ℕ) (ms : List MemberRoom) (ci co : ℕ) (db : Store S)
      (next : Store S → Call (Store S))
      → ((d : Store S) → Replaced id ms ci co db d → Ensures P (next d))
      → Ensures P (replace_rows id ms ci co db >>= next)
  unfolding replace_rows free_rooms
  after_replace P id ms ci co db next k =
      Ensures-bind P (Replaced id ms ci co db) (replace_rows id ms ci co db) next
        (Ensures-then (Replaced id ms ci co db) _ _ (
          Ensures-bind (Replaced id ms ci co db)
            (λ rows. insert_for_booking id ms ci co (delete_for_booking id db.occupancy) ≡ ok rows)
            _ _
            (from_database-eq_ok
              (insert_for_booking id ms ci co (delete_for_booking id db.occupancy)))
            (λ rows e. (rows, e, refl))))
        k

  pub create_from_ical_tx-Effects :
      (input : IcalInput) (id : ℕ) (db : Store S)
      → Ensures (Effects db) (create_from_ical_tx input id db)
  unfolding create_from_ical_tx emit_booking created_history add_history ical_booking is_terminal
  create_from_ical_tx-Effects input id db =
      let ms = db.member_rooms input.resource_id in
      let b = ical_booking input id (db.counter + 1) in
      Ensures-then (Effects db) (throw_if (is_empty ms) resource_no_rooms) _ (
        after_insert (Effects db) b ms db _
          (λ d u. rw u.3 (after start (opened b u.1 refl refl u.2 refl))))

module _ {S : Type 0} (sv : Services S) where
  pub create_tx-Effects :
      (dto : CreateBookingRequest) (c : Caller) (id : ℕ) (resource : Resource) (db : Store S)
      → Ensures (Effects db) (create_tx sv dto c id resource db)
  unfolding create_tx emit_booking created_history add_history new_booking
  create_tx-Effects dto c id resource db = Ensures-service (Effects db) _ _ (λ q.
      Ensures-next (Effects db) (redeem sv q.discount_code_id db.others) _ (λ redeemed x.
        let ms = db.member_rooms resource.id in
        let b = new_booking dto c id resource q (db.counter + 1) in
        Ensures-then (Effects db) (throw_if (is_empty ms) resource_no_rooms) _ (
          Ensures-then (Effects db) (check_overlaps ms dto.check_in dto.check_out db) _ (
            after_insert (Effects db) b ms db _ (λ d u. Ensures-service (Effects db) _ _ (λ used.
              Ensures-next (Effects db) (deposit_if_pending sv b.status b used) _ (λ others y.
                rw u.3
                  (after start (opened b u.1 (initial_status-IsOpen dto.hold) refl u.2 refl)))))))))

  pub switch_resource-Effects :
      (id resource_id : ℕ) (reason : String) (c : Caller) (db : Store S)
      → Ensures (Effects db) (switch_resource sv id resource_id reason c db)
  unfolding switch_resource switch_resource_tx emit_booking note_change add_history with_resource
  switch_resource-Effects id resource_id reason c db = read_twice db id _ (Effects db) (λ b e.
      Ensures-then (Effects db) (authorize c b.property_id booking_switch_resource) _ (
        Ensures-guard (Effects db) (is_terminal b.status) booking_invalid_status _ (λ g.
          Ensures-then (Effects db) (throw_if (resource_id == b.resource_id) booking_same_resource)
            _
            (Ensures-next (Effects db) (load_resource db resource_id) _ (λ r x.
              Ensures-then (Effects db)
                (throw_if (if r.property_id == b.property_id then false else true)
                  resource_property_mismatch)
                _
                (let ms = db.member_rooms r.id in
                  Ensures-then (Effects db) (throw_if (is_empty ms) resource_no_rooms) _ (
                    after_replace (Effects db) id ms b.check_in b.check_out db _ (λ d u. rw u.2 (
                      after_update (Effects db) id (with_resource r.id)
                        (record db { occupancy = u.0 }) b _ e
                        (Ensures-service (Effects db) _ _ (λ y.
                          after start
                            (changed id b _ e (inl refl) refl (rooms_moved g u.1) refl))))))))))))

  pub reschedule-Effects :
      (id ci co : ℕ) (reason : String) (c : Caller) (db : Store S)
      → Ensures (Effects db) (reschedule sv id ci co reason c db)
  unfolding reschedule reschedule_tx emit_booking note_change add_history with_dates
  reschedule-Effects id ci co reason c db = read_twice db id _ (Effects db) (λ b e.
      Ensures-then (Effects db) (authorize c b.property_id booking_update) _ (
        Ensures-guard (Effects db) (is_terminal b.status || status_eq b.status checked_in)
          booking_invalid_status _
          (λ g.
            Ensures-then (Effects db)
              (throw_if (ci == b.check_in && co == b.check_out) booking_same_dates) _
              (let ms = db.member_rooms b.resource_id in
                after_replace (Effects db) id ms ci co db _ (λ d u. rw u.2 (
                  Ensures-next (Effects db) (new_total sv b.rate_plan_id b ci co db.others) _
                    (λ total y.
                      after_update (Effects db) id (with_dates ci co total)
                        (record db { occupancy = u.0 }) b _ e
                        (after start (
                          changed id b _ e (inl refl) refl
                            (rooms_moved
                              (or_false (is_terminal b.status) (status_eq b.status checked_in) g)
                              u.1)
                            refl)))))))))
