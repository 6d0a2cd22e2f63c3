-- ===== src/Bookings/Effects.antt =====
-- What the writes that the calls share do to the tables.
use pms_homestay.Prelude.{
  ℕ, ◌≡◌, refl, Bool, true, Option, none, some, Result, ok, err, Ensures, inl, inr, Bool-cases,
  if◌then◌else◌, ◌>>=◌,
}
use pms_homestay.Occupancy.{OccupancyError}
use pms_homestay.Bookings.Types.{
  Booking, BookingError, Store, Call, put, update_booking, update_if, from_database, from_service,
  load_or_throw, booking_not_found,
}

module _ {S : Type 0} where
  -- The row of the booking `id` is `b`, and `f b` after the call.
  abbrev pub Updated : ℕ → (Booking → Booking) → Store S → Booking → Store S → Type 0
  Updated id f db b d =
      (db.bookings id ≡ some b) × (d ≡ record db { bookings = put id (f b) db.bookings })

  pub update_booking-Updated :
      (id : ℕ) (f : Booking → Booking) (db : Store S)
      → Ensures (λ d. (b : Booking) × Updated id f db b d) (update_booking id f db)
  unfolding update_booking
  update_booking-Updated id f db = go (db.bookings id) refl
    where
      go :
          (o : Option Booking)
          → db.bookings id ≡ o
          → Ensures
              (λ d. (b : Booking) × Updated id f db b d)
              (elim o [
                | none ↦ err booking_not_found
                | some b ↦ ok (record db { bookings = put id (f b) db.bookings })
              ])
      go none h = tt
      go (some b) h = (b, (h, refl))

  pub update_if-Updated :
      (test : Booking → Bool) (e : BookingError) (id : ℕ) (f : Booking → Booking) (db : Store S)
      → Ensures
          (λ d. (b : Booking) × (test b ≡ true) × Updated id f db b d)
          (update_if test e id f db)
  unfolding update_if
  update_if-Updated test e id f db = go (db.bookings id) refl
    where
      go :
          (o : Option Booking)
          → db.bookings id ≡ o
          → Ensures
              (λ d. (b : Booking) × (test b ≡ true) × Updated id f db b d)
              (elim o [
                | none ↦ err e
                | some b ↦
                    if test b then ok (record db { bookings = put id (f b) db.bookings }) else err e
              ])
      go none h = tt
      go (some b) h = elim (Bool-cases (test b)) [
        | inl t ↦ rw t (b, t, (h, refl))
        | inr t ↦ rw t tt
      ]

  pub load_or_throw-eq_ok :
      (db : Store S) (id : ℕ) → Ensures (λ b. db.bookings id ≡ some b) (load_or_throw db id)
  unfolding load_or_throw
  load_or_throw-eq_ok db id = go (db.bookings id) refl
    where
      go :
          (o : Option Booking)
          → db.bookings id ≡ o
          → Ensures
              (λ b. db.bookings id ≡ some b)
              (elim o [ none ↦ err booking_not_found | some b ↦ ok b ])
      go none h = tt
      go (some b) h = h

pub from_database-eq_ok :
    {A : Type 0} (r : Result OccupancyError A) → Ensures (λ a. r ≡ ok a) (from_database r)
unfolding from_database
from_database-eq_ok (ok a) = refl
from_database-eq_ok (err e) = tt

pub Ensures-service :
    {A B : Type 0} (P : B → Type 0) (r : Result ℕ A) (next : A → Call B)
    → ((a : A) → Ensures P (next a))
    → Ensures P (from_service r >>= next)
unfolding from_service
Ensures-service P (ok a) next k = k a
Ensures-service P (err e) next k = tt
