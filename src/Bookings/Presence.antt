-- ===== src/Bookings/Presence.antt =====
-- A live booking holds all the rooms of its resource for its dates, and no other booking has a row.
use pms_homestay.Prelude.{
  ℕ, ◌≡◌, refl, ◌∙◌, ap, true, false, Option, none, some, List, [], ◌∷◌, Ensures, Bool-cases, inl,
  inr, if◌then◌else◌, arith, ok, err, ◌==◌,
}
use pms_homestay.Occupancy.{MemberRoom, OccupancyRow, delete_for_booking, insert_for_booking}
use pms_homestay.Occupancy.Presence.{
  rows_of, stack, insert_for_booking-eq_ok, rows_of-stack_self, rows_of-stack_other,
  rows_of-delete_self, rows_of-delete_other,
}
use pms_homestay.Bookings.Status.{is_terminal}
use pms_homestay.Bookings.Types.{Booking, Store, Services, Call, put}
use pms_homestay.Bookings.Transactions.{commit}
use pms_homestay.Bookings.Requests.{Request, handle, handle_all}
use pms_homestay.Bookings.Spec.{
  Effect, Effects, idle, opened, changed, RoomsChange, rooms_kept, rooms_freed, rooms_moved, start,
  after,
}
use pms_homestay.Bookings.Refinement.{handle-Effects}

-- The rows that the booking of an id should have.
abbrev pub expected_rows : (ℕ → List MemberRoom) → ℕ → Option Booking → List OccupancyRow
expected_rows members i none = []
expected_rows members i (some b) =
    if is_terminal b.status then [] else stack i (members b.resource_id) b.check_in b.check_out []

same_key : (i j : ℕ) → (i == j) ≡ true → i ≡ j
same_key i j h = ground arith

other_key : (i j : ℕ) → (i == j) ≡ false → (j == i) ≡ false
other_key i j h = ground arith

key_refl : (i : ℕ) → (i == i) ≡ true
key_refl i = ground arith

rooms_changed :
    (members : ℕ → List MemberRoom) (i : ℕ) (b b' : Booking) (rows rows' : List OccupancyRow)
    → RoomsChange members i b b' rows rows'
    → rows_of i rows ≡ expected_rows members i (some b)
    → rows_of i rows' ≡ expected_rows members i (some b')
rooms_changed members i b b' rows rows' (rooms_kept t r ci co e) h = rw (e, t, r, ci, co) h
rooms_changed members i b b' rows rows' (rooms_freed t e) h = rw (e, t) (rows_of-delete_self i rows)
rooms_changed members i b b' rows rows' (rooms_moved t ins) h =
    let ms = members b'.resource_id in
    let freed = delete_for_booking i rows in
    rw
      (
        insert_for_booking-eq_ok i ms b'.check_in b'.check_out freed rows' ins,
        t,
        rows_of-stack_self i ms b'.check_in b'.check_out freed,
        rows_of-delete_self i rows,
      )
      refl

others_unchanged :
    (members : ℕ → List MemberRoom) (i j : ℕ) (b b' : Booking) (rows rows' : List OccupancyRow)
    → RoomsChange members i b b' rows rows'
    → (i == j) ≡ false
    → rows_of j rows' ≡ rows_of j rows
others_unchanged members i j b b' rows rows' (rooms_kept t r ci co e) h = ap (rows_of j) e
others_unchanged members i j b b' rows rows' (rooms_freed t e) h =
    rw e (rows_of-delete_other i j rows h)
others_unchanged members i j b b' rows rows' (rooms_moved t ins) h =
    let ms = members b'.resource_id in
    let freed = delete_for_booking i rows in
    rw
      (
        insert_for_booking-eq_ok i ms b'.check_in b'.check_out freed rows' ins,
        rows_of-stack_other i j ms b'.check_in b'.check_out freed h,
      )
      (rows_of-delete_other i j rows h)

module _ {S : Type 0} where
  abbrev pub Present : Store S → Type 0
  Present db = (i : ℕ) → rows_of i db.occupancy ≡ expected_rows db.member_rooms i (db.bookings i)

  opened-Present :
      (db : Store S) (b : Booking) (rows : List OccupancyRow) (i : ℕ)
      → Present db
      → db.bookings b.id ≡ none
      → is_terminal b.status ≡ false
      → insert_for_booking b.id (db.member_rooms b.resource_id) b.check_in b.check_out db.occupancy
        ≡ ok rows
      → rows_of i rows ≡ expected_rows db.member_rooms i (put b.id b db.bookings i)
  opened-Present db b rows i h n o ins =
      let ms = db.member_rooms b.resource_id in
      let shape = insert_for_booking-eq_ok b.id ms b.check_in b.check_out db.occupancy rows ins in
      elim (Bool-cases (i == b.id)) [
        | inl t ↦
            let none_yet : rows_of b.id db.occupancy ≡ [] =
              h b.id ∙ ap (expected_rows db.member_rooms b.id) n in
            rw
              (
                same_key i b.id t,
                shape,
                key_refl b.id,
                o,
                rows_of-stack_self b.id ms b.check_in b.check_out db.occupancy,
                none_yet,
              )
              refl
        | inr t ↦
            rw
              (
                shape,
                t,
                rows_of-stack_other b.id i ms b.check_in b.check_out db.occupancy
                    (other_key i b.id t),
              )
              (h i)
      ]

  changed-Present :
      (db : Store S) (id : ℕ) (b b' : Booking) (rows : List OccupancyRow) (i : ℕ)
      → Present db
      → db.bookings id ≡ some b
      → RoomsChange db.member_rooms id b b' db.occupancy rows
      → rows_of i rows ≡ expected_rows db.member_rooms i (put id b' db.bookings i)
  changed-Present db id b b' rows i h e c = elim (Bool-cases (i == id)) [
    | inl t ↦
        let before : rows_of id db.occupancy ≡ expected_rows db.member_rooms id (some b) =
          h id ∙ ap (expected_rows db.member_rooms id) e in
        rw (same_key i id t, key_refl id)
          (rooms_changed db.member_rooms id b b' db.occupancy rows c before)
    | inr t ↦
        rw (t, others_unchanged db.member_rooms id i b b' db.occupancy rows c (other_key i id t))
          (h i)
  ]

  Effect-Present : (db d : Store S) → Effect db d → Present db → Present d
  Effect-Present db d (idle eb eo em) h i = rw (eb, eo, em) (h i)
  Effect-Present db d (opened b n o eb ins em) h i =
      rw (eb, em) (opened-Present db b d.occupancy i h n o ins)
  Effect-Present db d (changed id b b' e s eb c em) h i =
      rw (eb, em) (changed-Present db id b b' d.occupancy i h e c)

  Effects-Present : (db d : Store S) → Effects db d → Present db → Present d
  Effects-Present db d start h = h
  Effects-Present db d (after {d = m} k e) h = Effect-Present m d e (Effects-Present db m k h)

  commit-Present :
      (db : Store S) (r : Call (Store S))
      → Ensures (Effects db) r
      → Present db
      → Present (commit db r)
  commit-Present db (ok d) k h = Effects-Present db d k h
  commit-Present db (err e) k h = h

-- From a store in which every booking has the rows that it should have, after any calls one after
-- the other, cancelFromIcalTx not being one of them, those that throw being rolled back, the rows
-- of room_occupancy that belong to an id are those of every member room of the booking's resource,
-- from its check-in to its check-out with the room's buffer on both sides, if there is a booking of
-- that id that is not in a terminal status, and none otherwise.
pub handle_all-Present :
    {S : Type 0} (sv : Services S) (rs : List Request) (db : Store S)
    → Present db
    → (i : ℕ)
    → rows_of i (handle_all sv rs db).occupancy
      ≡ expected_rows (handle_all sv rs db).member_rooms i ((handle_all sv rs db).bookings i)
unfolding handle_all
handle_all-Present sv [] db h = h
handle_all-Present sv (r ∷ rs) db h =
    handle_all-Present sv rs (commit db (handle sv r db))
      (commit-Present db (handle sv r db) (handle-Effects sv r db) h)
