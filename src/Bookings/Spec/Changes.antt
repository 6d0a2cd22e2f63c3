-- ===== src/Bookings/Spec/Changes.antt =====
-- The calls that change the status or the details of a booking keep to the contract.
use Prim.Native.String.{String}
use pms_homestay.Prelude.{
  ℕ, ◌≡◌, refl, Bool, true, false, Option, none, some, ◌==◌, Ensures, Ensures-ok, Ensures-intro,
  Ensures-bind, Ensures-next, Ensures-guard, Ensures-then, Bool-cases, inl, inr, if◌then◌else◌,
  throw_if, ◌>>=◌, arith,
}
use pms_homestay.Bookings.Status.{
  BookingStatus, status_eq, can_transition, is_terminal, hold, pending, confirmed, checked_in,
  checked_out, cancelled, no_show,
}
use pms_homestay.Bookings.Types.{
  Booking, BookingError, Store, Services, Caller, Call, EventType, authorize, assert_transition,
  update_booking, update_if, emit_booking, add_history, put, load_or_throw, booking_update,
  booking_cancel, booking_checkin_out, booking_invalid_status, booking_invalid_status_409,
  version_conflict, given, deposit_paid, forbidden,
}
use pms_homestay.Bookings.Effects.{
  update_booking-Updated, update_if-Updated, Ensures-service, load_or_throw-eq_ok, Updated,
}
use pms_homestay.Bookings.Create.{deposit_if_pending}
use pms_homestay.Bookings.Lifecycle.{
  UpdateBookingRequest, free_rooms, update_tx, cancel_tx, note_change, emit_if_confirmed,
  confirm_from_deposit_paid, confirm_tx, check_in_tx, check_out_tx, update, cancel, confirm,
  check_in, check_out, with_cancellation, with_details, with_status, with_check_in, with_check_out,
  is_forced, confirm_target, deposit_deadline,
}
use pms_homestay.Bookings.Spec.{
  Effect, Effects, idle, changed, rooms_kept, rooms_freed, start, after,
}

pub status_eq_sound : (s t : BookingStatus) → status_eq s t ≡ true → s ≡ t
unfolding status_eq
status_eq_sound s t h = ground arith

pub same_row : {o : Option Booking} (a b : Booking) → o ≡ some a → o ≡ some b → a ≡ b
same_row a b e e' = cc

pub transition_allowed :
    (s t : BookingStatus)
    → (if can_transition s t then false else true) ≡ false
    → can_transition s t ≡ true
transition_allowed s t h = ground arith

from_open :
    (s t : BookingStatus)
    → can_transition s t ≡ true
    → is_terminal t ≡ false
    → is_terminal t ≡ is_terminal s
unfolding can_transition is_terminal
from_open hold t h o = o
from_open pending t h o = o
from_open confirmed t h o = o
from_open checked_in t h o = o
from_open checked_out t h o = cc
from_open cancelled t h o = cc
from_open no_show t h o = cc

confirm_target-IsOpen : (force : Option Bool) → is_terminal (confirm_target force) ≡ false
unfolding confirm_target is_terminal
confirm_target-IsOpen force = ground arith

module _ {S : Type 0} where
  -- The row read by the transaction is the row that was loaded.
  pub read_twice :
      (db : Store S) (id : ℕ) (next : Booking → Call (Store S)) (P : Store S → Type 0)
      → ((b : Booking) → db.bookings id ≡ some b → Ensures P (next b))
      → Ensures P (load_or_throw db id >>= next)
  read_twice db id next P k =
      Ensures-bind P (λ b. db.bookings id ≡ some b) (load_or_throw db id) next
        (load_or_throw-eq_ok db id) k

  pub after_update :
      (P : Store S → Type 0) (id : ℕ) (f : Booking → Booking) (db : Store S) (b : Booking)
      (next : Store S → Call (Store S))
      → db.bookings id ≡ some b
      → Ensures P (next (record db { bookings = put id (f b) db.bookings }))
      → Ensures P (update_booking id f db >>= next)
  after_update P id f db b next e k =
      Ensures-bind P (λ d. (r : Booking) × Updated id f db r d) (update_booking id f db) next
        (update_booking-Updated id f db) (λ d u. rw (u.1.1, same_row u.0 b u.1.0 e) k)

  after_update_if :
      (P : Store S → Type 0) (test : Booking → Bool) (x : BookingError) (id : ℕ)
      (f : Booking → Booking) (db : Store S) (b : Booking) (next : Store S → Call (Store S))
      → db.bookings id ≡ some b
      → (test b ≡ true → Ensures P (next (record db { bookings = put id (f b) db.bookings })))
      → Ensures P (update_if test x id f db >>= next)
  after_update_if P test x id f db b next e k =
      Ensures-bind P (λ d. (r : Booking) × (test r ≡ true) × Updated id f db r d)
        (update_if test x id f db) next (update_if-Updated test x id f db)
        (λ d u. let same = same_row u.0 b u.2.0 e in rw (u.2.1, same) (k (rw (← same) u.1)))

  pub cancel-Effects :
      (id : ℕ) (reason : String) (c : Caller) (db : Store S)
      → Ensures (Effects db) (cancel id reason c db)
  unfolding cancel cancel_tx assert_transition emit_booking note_change add_history free_rooms
      with_cancellation is_terminal
  cancel-Effects id reason c db = read_twice db id _ (Effects db) (λ b e.
      Ensures-then (Effects db) (authorize c b.property_id booking_cancel) _ (
        Ensures-guard (Effects db) (if can_transition b.status cancelled then false else true)
          booking_invalid_status _
          (λ g.
            after_update (Effects db) id (with_cancellation (given reason) c.now (some c.sub)) db b
              _ e
              (after start (
                changed id b _ e (inr (transition_allowed b.status cancelled g)) refl
                  (rooms_freed refl refl) refl)))))

  pub update-Effects :
      (id version : ℕ) (dto : UpdateBookingRequest) (c : Caller) (db : Store S)
      → Ensures (Effects db) (update id version dto c db)
  unfolding update update_tx with_details
  update-Effects id version dto c db = read_twice db id _ (Effects db) (λ b e.
      Ensures-then (Effects db) (authorize c b.property_id booking_update) _ (
        Ensures-guard (Effects db) (is_terminal b.status) booking_invalid_status _ (λ g.
          Ensures-intro (Effects db)
            (update_if (λ r. r.version == version) version_conflict id (with_details dto) db)
            (λ d q.
              let u =
                Ensures-ok _ _ d
                  (update_if-Updated (λ r. r.version == version) version_conflict id
                    (with_details dto) db)
                  q in
              rw u.2.1 (
                after start (
                  changed id u.0 _ u.2.0 (inl refl) refl (rooms_kept refl refl refl refl refl)
                    refl))))))

  pub check_in-Effects :
      (id : ℕ) (c : Caller) (db : Store S) → Ensures (Effects db) (check_in id c db)
  unfolding check_in check_in_tx assert_transition emit_booking note_change add_history
      with_check_in
  check_in-Effects id c db = read_twice db id _ (Effects db) (λ b e.
      Ensures-then (Effects db) (authorize c b.property_id booking_checkin_out) _ (
        Ensures-guard (Effects db) (if can_transition b.status checked_in then false else true)
          booking_invalid_status _
          (λ g.
            let allowed = transition_allowed b.status checked_in g in
            after_update_if (Effects db) (λ r. status_eq r.status confirmed)
              booking_invalid_status_409 id (with_check_in c.now) db b _ e
              (λ t. after start (
                changed id b _ e (inr allowed) refl
                  (rooms_kept (from_open b.status checked_in allowed (unfold is_terminal in refl))
                    refl refl refl refl)
                  refl)))))

  emit_if_confirmed-Effect :
      (target : BookingStatus) (id property_id : ℕ) (db : Store S)
      → Effect db (emit_if_confirmed target id property_id db)
  unfolding emit_if_confirmed emit_booking
  emit_if_confirmed-Effect hold id property_id db = idle refl refl refl
  emit_if_confirmed-Effect pending id property_id db = idle refl refl refl
  emit_if_confirmed-Effect confirmed id property_id db = idle refl refl refl
  emit_if_confirmed-Effect checked_in id property_id db = idle refl refl refl
  emit_if_confirmed-Effect checked_out id property_id db = idle refl refl refl
  emit_if_confirmed-Effect cancelled id property_id db = idle refl refl refl
  emit_if_confirmed-Effect no_show id property_id db = idle refl refl refl

  pub confirm_from_deposit_paid-Effects :
      (id : ℕ) (actor : Option ℕ) (db : Store S)
      → Effects db (confirm_from_deposit_paid id actor db)
  unfolding confirm_from_deposit_paid emit_booking note_change add_history with_status
  confirm_from_deposit_paid-Effects id actor db = go (db.bookings id) refl
    where
      paid : Booking → Store S
      paid b = emit_booking EventType.confirmed id b.property_id none (
          note_change id pending confirmed actor (some deposit_paid)
            (record db { bookings = put id (with_status confirmed none b) db.bookings }))

      go :
          (o : Option Booking)
          → db.bookings id ≡ o
          → Effects db
              (elim o [ none ↦ db | some b ↦ if status_eq b.status pending then paid b else db ])
      go none h = start
      go (some b) h = elim (Bool-cases (status_eq b.status pending)) [
        | inr f ↦ rw f start
        | inl t ↦
            let s = status_eq_sound b.status pending t in
            let allowed : can_transition b.status confirmed ≡ true =
              rw s (unfold can_transition in refl) in
            rw t (
              after start (
                changed id b _ h (inr allowed) refl
                  (rooms_kept (from_open b.status confirmed allowed (unfold is_terminal in refl))
                    refl refl refl refl)
                  refl))
      ]

module _ {S : Type 0} (sv : Services S) where
  pub check_out-Effects :
      (id : ℕ) (c : Caller) (db : Store S) → Ensures (Effects db) (check_out sv id c db)
  unfolding check_out check_out_tx assert_transition emit_booking note_change add_history free_rooms
      with_check_out is_terminal
  check_out-Effects id c db = read_twice db id _ (Effects db) (λ b e.
      Ensures-then (Effects db) (authorize c b.property_id booking_checkin_out) _ (
        Ensures-guard (Effects db) (if can_transition b.status checked_out then false else true)
          booking_invalid_status _
          (λ g.
            after_update_if (Effects db) (λ r. status_eq r.status checked_in)
              booking_invalid_status_409 id (with_check_out c.now) db b _ e
              (λ t. Ensures-service (Effects db) _ _ (λ x. Ensures-service (Effects db) _ _ (λ x.
                Ensures-service (Effects db) _ _ (λ x. after start (
                  changed id b _ e (inr (transition_allowed b.status checked_out g)) refl
                    (rooms_freed refl refl) refl))))))))

  pub confirm-Effects :
      (id : ℕ) (force : Option Bool) (c : Caller) (db : Store S)
      → Ensures (Effects db) (confirm sv id force c db)
  unfolding confirm confirm_tx assert_transition note_change add_history with_status
  confirm-Effects id force c db = read_twice db id _ (Effects db) (λ b e.
      Ensures-then (Effects db) (authorize c b.property_id booking_update) _ (
        Ensures-then (Effects db)
          (throw_if (if is_forced force then (if c.is_owner then false else true) else false)
            forbidden)
          _
          (let target = confirm_target force in
            Ensures-guard (Effects db) (if can_transition b.status target then false else true)
              booking_invalid_status _
              (λ g.
                let allowed = transition_allowed b.status target g in
                after_update_if (Effects db) (λ r. status_eq r.status b.status)
                  booking_invalid_status_409 id (with_status target (deposit_deadline target c.now))
                  db b _ e
                  (λ t.
                    Ensures-next (Effects db) (deposit_if_pending sv target b db.others) _
                      (λ others x.
                        after
                          (after start (
                            changed id b _ e (inr allowed) refl
                              (rooms_kept
                                (from_open b.status target allowed (confirm_target-IsOpen force))
                                refl refl refl refl)
                              refl))
                          (emit_if_confirmed-Effect target id b.property_id _)))))))
