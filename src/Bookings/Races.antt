-- ===== src/Bookings/Races.antt =====
-- Transactions that act upon a booking that was loaded before others have changed it.
use Prim.Native.String.{String}
use pms_homestay.Prelude.{
  ℕ, ◌+◌, ◌≡◌, refl, ap, ◌∙◌, Bool, true, false, Option, some, List, [], Ensures, Ensures-ok,
  Ensures-then, Ensures-bind, arith, ok, err, ◌==◌, throw_if,
}
use pms_homestay.Occupancy.{MemberRoom, OccupancyRow, delete_for_booking}
use pms_homestay.Occupancy.Presence.{
  rows_of, stack, rows_of-delete_self, rows_of-delete_other, rows_of-stack_self,
  insert_for_booking-eq_ok,
}
use pms_homestay.Bookings.Status.{status_eq, confirmed, checked_in, checked_out, cancelled}
use pms_homestay.Bookings.Types.{
  Booking, BookingError, Store, Services, Resource, Caller, given, put, booking_invalid_status_409,
  version_conflict, update_if, update_booking, emit_booking, add_history, resource_no_rooms,
}
use pms_homestay.Bookings.Effects.{Updated, update_if-Updated, Ensures-service}
use pms_homestay.Bookings.Create.{is_empty}
use pms_homestay.Bookings.Lifecycle.{
  UpdateBookingRequest, update_tx, cancel_tx, check_in_tx, check_out_tx, with_check_in, free_rooms,
  note_change, with_details, with_check_out, with_cancellation,
}
use pms_homestay.Bookings.Moves.{switch_resource_tx, with_resource}
use pms_homestay.Bookings.Spec.Changes.{after_update}
use pms_homestay.Bookings.Spec.Moves.{after_replace}

next_version : (v w : ℕ) → (w == v) ≡ true → ((w + 1) == v) ≡ false
next_version v w h = ground arith

key_refl : (i : ℕ) → (i == i) ≡ true
key_refl i = ground arith

key_sym : (i j : ℕ) → (j == i) ≡ false → (i == j) ≡ false
key_sym i j h = ground arith

put_self : {V : Type 0} (i : ℕ) (v : V) (f : ℕ → Option V) → put i v f i ≡ some v
put_self i v f = rw (key_refl i) refl

module _ {S : Type 0} where
  update_if_fails :
      (test : Booking → Bool) (x : BookingError) (id : ℕ) (f : Booking → Booking) (d : Store S)
      (b : Booking)
      → d.bookings id ≡ some b
      → test b ≡ false
      → update_if test x id f d ≡ err x
  unfolding update_if
  update_if_fails test x id f d b e t = ground arith

  update_booking-eq :
      (id : ℕ) (f : Booking → Booking) (db : Store S) (b : Booking)
      → db.bookings id ≡ some b
      → update_booking id f db ≡ ok (record db { bookings = put id (f b) db.bookings })
  unfolding update_booking
  update_booking-eq id f db b e = ground arith

  -- An update that was accepted makes every other update fail that expects the same version: it throws
  -- VERSION_CONFLICT.
  pub update_tx-once :
      (id version : ℕ) (dto dto' : UpdateBookingRequest) (db d : Store S)
      → update_tx id version dto db ≡ ok d
      → update_tx id version dto' d ≡ err version_conflict
  unfolding update_tx with_details
  update_tx-once id version dto dto' db d e =
      let (b, t, u) =
        Ensures-ok _ _ d
          (update_if-Updated (λ r. r.version == version) version_conflict id (with_details dto) db)
          e in
      let row : d.bookings id ≡ some (with_details dto b) =
        ap (λ (m : Store S). m.bookings id) u.1 ∙ put_self id (with_details dto b) db.bookings in
      update_if_fails (λ r. r.version == version) version_conflict id (with_details dto') d
        (with_details dto b) row (next_version version b.version t)

  -- The booking as it is when a cancellation has followed a check-in
  abbrev pub IsCancelledInside : ℕ → (arrived left : ℕ) → Store S → Type 0
  IsCancelledInside id arrived left d =
      (b : Booking) × (d.bookings id ≡ some b)
      × (b.status ≡ cancelled)
      × (b.actual_check_in ≡ some arrived)
      × (b.cancelled_at ≡ some left)

  abbrev IsCheckedOut : ℕ → Store S → Type 0
  IsCheckedOut id d = (b : Booking) × (d.bookings id ≡ some b) × (b.status ≡ checked_out)

module _ {S : Type 0} (sv : Services S) where
  check_out_tx-status :
      (id : ℕ) (c : Caller) (loaded : Booking) (db : Store S)
      → Ensures (IsCheckedOut id) (check_out_tx sv id c loaded db)
  unfolding check_out_tx emit_booking note_change add_history free_rooms with_check_out
  check_out_tx-status id c loaded db =
      Ensures-bind (IsCheckedOut id)
        (λ d.
          (r : Booking) × (status_eq r.status checked_in ≡ true)
          × Updated id (with_check_out c.now) db r d)
        _ _
        (update_if-Updated (λ r. status_eq r.status checked_in) booking_invalid_status_409 id
          (with_check_out c.now) db)
        (λ d u. Ensures-service (IsCheckedOut id) _ _ (λ x.
          Ensures-service (IsCheckedOut id) _ _ (λ x.
            Ensures-service (IsCheckedOut id) _ _
              (λ x. (with_check_out c.now u.0, rw (u.2.1, key_refl id) refl, refl)))))

  check_out_tx-refused :
      (id : ℕ) (c : Caller) (loaded : Booking) (d : Store S) (b : Booking)
      → d.bookings id ≡ some b
      → status_eq b.status checked_in ≡ false
      → check_out_tx sv id c loaded d ≡ err booking_invalid_status_409
  unfolding check_out_tx
  check_out_tx-refused id c loaded d b row other =
      rw
        (update_if_fails (λ r. status_eq r.status checked_in) booking_invalid_status_409 id
          (with_check_out c.now) d b row other)
        refl

  -- If the transaction of a check-out returns, another one for that booking throws
  -- BOOKING_INVALID_STATUS with 409, whatever it had loaded: the stay is not billed twice.
  pub check_out_tx-once :
      (id : ℕ) (c c' : Caller) (loaded loaded' : Booking) (db d : Store S)
      → check_out_tx sv id c loaded db ≡ ok d
      → check_out_tx sv id c' loaded' d ≡ err booking_invalid_status_409
  check_out_tx-once id c c' loaded loaded' db d e =
      let (b, row, status) =
        Ensures-ok (IsCheckedOut id) (check_out_tx sv id c loaded db) d
          (check_out_tx-status id c loaded db) e in
      check_out_tx-refused id c' loaded' d b row (rw status (unfold status_eq in refl))

  check_in_tx-arrived :
      (id : ℕ) (c : Caller) (loaded : Booking) (db : Store S)
      → Ensures
          (λ d.
            (b : Booking) × (d.bookings id ≡ some b)
            × (b.actual_check_in ≡ some c.now)
            × (d.occupancy ≡ db.occupancy)
            × ((j : ℕ) → (j == id) ≡ false → d.bookings j ≡ db.bookings j))
          (check_in_tx id c loaded db)
  unfolding check_in_tx emit_booking note_change add_history with_check_in
  check_in_tx-arrived id c loaded db =
      Ensures-bind _
        (λ d.
          (r : Booking) × (status_eq r.status confirmed ≡ true)
          × Updated id (with_check_in c.now) db r d)
        _ _
        (update_if-Updated (λ r. status_eq r.status confirmed) booking_invalid_status_409 id
          (with_check_in c.now) db)
        (λ d u. (
          with_check_in c.now u.0,
          rw (u.2.1, key_refl id) refl,
          refl,
          rw u.2.1 refl,
          λ j h. rw (u.2.1, h) refl,
        ))

  -- If the transaction of a check-in returns, then that of a cancellation after it returns all the
  -- same, whatever booking it has loaded before: the booking is CANCELLED, with the times of the
  -- check-in and of the cancellation, it has no row in room_occupancy, the other bookings and their
  -- rows are as before, and every check-out of it throws BOOKING_INVALID_STATUS with 409.
  pub cancel_tx-overrides :
      (id : ℕ) (reason : String) (c_in c : Caller) (loaded_in loaded : Booking) (db d : Store S)
      → check_in_tx id c_in loaded_in db ≡ ok d
      → (e : Store S) × (cancel_tx id reason c loaded d ≡ ok e)
        × IsCancelledInside id c_in.now c.now e
        × (rows_of id e.occupancy ≡ [])
        × ((j : ℕ)
            → (j == id) ≡ false
            → (e.bookings j ≡ db.bookings j) × (rows_of j e.occupancy ≡ rows_of j db.occupancy))
        × ((c_out : Caller) (loaded_out : Booking)
            → check_out_tx sv id c_out loaded_out e ≡ err booking_invalid_status_409)
  unfolding cancel_tx emit_booking note_change add_history free_rooms with_cancellation
  cancel_tx-overrides id reason c_in c loaded_in loaded db d q =
      let f = with_cancellation (given reason) c.now (some c.sub) in
      let (b, row, arrived, same, others) =
        Ensures-ok _ (check_in_tx id c_in loaded_in db) d (check_in_tx-arrived id c_in loaded_in db)
          q in
      let own : put id (f b) d.bookings id ≡ some (f b) = put_self id (f b) d.bookings in
      rw (update_booking-eq id f d b row) (
        _,
        refl,
        (f b, own, refl, arrived, refl),
        rows_of-delete_self id d.occupancy,
        λ j h. (
          rw h (others j h),
          rows_of-delete_other id j d.occupancy (key_sym id j h) ∙ ap (λ o. rows_of j o) same,
        ),
        λ c_out loaded_out.
            check_out_tx-refused id c_out loaded_out _ (f b) own (unfold status_eq in refl),
      )

  -- If the transaction of a change of resource returns, the booking keeps the status that it has by
  -- then, be it a terminal one, and its rows are those of the rooms of the new resource, for the dates
  -- that it had when it was loaded.
  pub switch_resource_tx-rows :
      (id : ℕ) (reason : String) (c : Caller) (loaded : Booking) (r : Resource) (db d : Store S)
      (b : Booking)
      → db.bookings id ≡ some b
      → switch_resource_tx sv id reason c loaded r db ≡ ok d
      → (d.bookings id ≡ some (with_resource r.id b))
        × (rows_of id d.occupancy
            ≡ stack id (db.member_rooms r.id) loaded.check_in loaded.check_out [])
  unfolding switch_resource_tx emit_booking note_change add_history
  switch_resource_tx-rows id reason c loaded r db d b e q =
      Ensures-ok P (switch_resource_tx sv id reason c loaded r db) d
        (Ensures-then P (throw_if (is_empty ms) resource_no_rooms) _ (
          after_replace P id ms loaded.check_in loaded.check_out db _ (λ m u. rw u.2 (
            after_update P id (with_resource r.id) (record db { occupancy = u.0 }) b _ e
              (Ensures-service P _ _ (λ y. (
                rw (key_refl id) refl,
                rw
                    (
                      insert_for_booking-eq_ok id ms loaded.check_in loaded.check_out freed u.0 u.1,
                      rows_of-stack_self id ms loaded.check_in loaded.check_out freed,
                      rows_of-delete_self id db.occupancy,
                    )
                    refl,
              )))))))
        q
    where
      ms : List MemberRoom
      ms = db.member_rooms r.id

      freed : List OccupancyRow
      freed = delete_for_booking id db.occupancy

      P : Store S → Type 0
      P m =
          (m.bookings id ≡ some (with_resource r.id b))
          × (rows_of id m.occupancy
              ≡ stack id (db.member_rooms r.id) loaded.check_in loaded.check_out [])
