-- ===== src/Bookings/Others.antt =====
-- The tables of the other services: a transaction of a booking changes them only by their calls, and
-- keeps what each of the calls keeps.
use Prim.Native.String.{String}
use pms_homestay.Prelude.{
  arith, ℕ, ◌+◌, Bool, Option, none, some, List, [], ◌∷◌, Result, ok, err, Ensures, Ensures-ok,
  Ensures-intro, Ensures-bind, Ensures-next, Ensures-then, throw_if, not, ltb,
}
use pms_homestay.Occupancy.{MemberRoom}
use pms_homestay.Bookings.Status.{BookingStatus, pending}
use pms_homestay.Bookings.Types.{
  Booking, BookingError, Store, Services, Resource, Caller, Surcharge, update_booking, update_if,
  from_service, from_database, emit_booking, add_history, resource_no_rooms, unique_violation,
  check_violation,
}
use pms_homestay.Bookings.Effects.{update_booking-Updated, update_if-Updated, Ensures-service}
use pms_homestay.Bookings.Create.{
  CreateBookingRequest, create_tx, create_from_ical_tx, insert_booking, check_overlaps, new_booking,
  created_history, is_empty, is_taken, uid_is_taken, redeem, deposit_if_pending,
}
use pms_homestay.Bookings.Lifecycle.{
  free_rooms, note_change, emit_if_confirmed, update_tx, cancel_tx, cancel_from_ical_tx,
  confirm_from_deposit_paid, confirm_tx, check_in_tx, check_out_tx,
}
use pms_homestay.Bookings.Moves.{replace_rows, new_total, switch_resource_tx, reschedule_tx}
use pms_homestay.Bookings.Expiry.{expire_hold, expire_loop, expire_holds_for_tenant}
use pms_homestay.Bookings.Transactions.{
  Transaction, creating, creating_from_ical, updating, cancelling, cancelling_from_ical,
  paying_deposit, confirming, checking_in, checking_out, switching, rescheduling, expiring,
  blocking, unblocking, run,
}

-- Each call of a service that writes keeps `P`.
pub record Keeps {S : Type 0} (P : S → Type 0) (sv : Services S) : Type 0 where
  pub redeem_keeps : (code : ℕ) (s : S) → P s → Ensures P (sv.redeem_discount code s)
  pub quote_keeps :
      (quote booking : ℕ) (s : S) → P s → Ensures P (sv.mark_quote_used quote booking s)
  pub deposit_keeps : (b : Booking) (s : S) → P s → Ensures P (sv.issue_deposit b s)
  pub stay_keeps :
      (b : Booking) (extras : List Surcharge) (s : S) → P s → Ensures P (sv.issue_stay b extras s)
  pub commission_keeps : (b : Booking) (s : S) → P s → Ensures P (sv.create_ota_commission b s)
  pub cleaning_keeps :
      (property booking : ℕ) (rooms : List MemberRoom) (s : S)
      → P s
      → Ensures P (sv.create_checkout_tasks property booking rooms s)

module _ {S : Type 0} (P : S → Type 0) where
  abbrev Kept : Store S → Type 0
  Kept d = P d.others

  service-keeps : (r : Result ℕ S) → Ensures P r → Ensures P (from_service r)
  unfolding from_service
  service-keeps (ok a) h = h
  service-keeps (err e) h = tt

  update_booking-Kept :
      (id : ℕ) (f : Booking → Booking) (db : Store S)
      → Kept db
      → Ensures Kept (update_booking id f db)
  update_booking-Kept id f db h = Ensures-intro Kept (update_booking id f db) (λ d e.
      let (b, shape) = Ensures-ok _ (update_booking id f db) d (update_booking-Updated id f db) e in
      rw shape.1 h)

  update_if-Kept :
      (test : Booking → Bool) (e : BookingError) (id : ℕ) (f : Booking → Booking) (db : Store S)
      → Kept db
      → Ensures Kept (update_if test e id f db)
  update_if-Kept test x id f db h = Ensures-intro Kept (update_if test x id f db) (λ d e.
      let (b, t, shape) =
        Ensures-ok _ (update_if test x id f db) d (update_if-Updated test x id f db) e in
      rw shape.1 h)

  insert_booking-Kept :
      (b : Booking) (ms : List MemberRoom) (db : Store S)
      → Kept db
      → Ensures Kept (insert_booking b ms db)
  unfolding insert_booking
  insert_booking-Kept b ms db h =
      Ensures-then Kept (throw_if (not (ltb b.check_in b.check_out)) check_violation) _ (
        Ensures-then Kept (throw_if (is_taken (db.bookings b.id)) unique_violation) _ (
          Ensures-then Kept (throw_if (uid_is_taken b db.ids db.bookings) unique_violation) _
            (Ensures-next Kept (from_database _) _ (λ rows e. h))))

  replace_rows-Kept :
      (id : ℕ) (ms : List MemberRoom) (ci co : ℕ) (db : Store S)
      → Kept db
      → Ensures Kept (replace_rows id ms ci co db)
  unfolding replace_rows free_rooms
  replace_rows-Kept id ms ci co db h =
      Ensures-then Kept _ _ (Ensures-next Kept (from_database _) _ (λ rows e. h))

  expire_loop-Kept :
      (now : ℕ) (ids : List ℕ) (selected db : Store S)
      → Kept db
      → Ensures Kept (expire_loop now ids selected db)
  unfolding expire_loop expire_hold emit_booking note_change add_history free_rooms
  expire_loop-Kept now [] selected db h = h
  expire_loop-Kept now (id ∷ ids) selected db h =
      Ensures-bind Kept Kept _ _
        (Ensures-bind Kept Kept _ _ (update_booking-Kept id _ db h) (λ d k. k))
        (λ d k. expire_loop-Kept now ids selected d k)

  confirm_from_deposit_paid-Kept :
      (id : ℕ) (actor : Option ℕ) (db : Store S)
      → Kept db
      → Kept (confirm_from_deposit_paid id actor db)
  unfolding confirm_from_deposit_paid emit_booking note_change add_history
  confirm_from_deposit_paid-Kept id actor db h = ground arith

  emit_if_confirmed-Kept :
      (target : BookingStatus) (id property_id : ℕ) (db : Store S)
      → Kept db
      → Kept (emit_if_confirmed target id property_id db)
  unfolding emit_if_confirmed emit_booking
  emit_if_confirmed-Kept target id property_id db h = ground arith

  module _ (sv : Services S) (keeps : Keeps P sv) where
    redeem-keeps : (code : Option ℕ) (s : S) → P s → Ensures P (redeem sv code s)
    unfolding redeem
    redeem-keeps none s h = h
    redeem-keeps (some code) s h = service-keeps _ (keeps.redeem_keeps code s h)

    deposit-keeps :
        (status : BookingStatus) (b : Booking) (s : S)
        → P s
        → Ensures P (deposit_if_pending sv status b s)
    unfolding deposit_if_pending
    deposit-keeps pending b s h = service-keeps _ (keeps.deposit_keeps b s h)
    deposit-keeps BookingStatus.hold b s h = h
    deposit-keeps BookingStatus.confirmed b s h = h
    deposit-keeps BookingStatus.checked_in b s h = h
    deposit-keeps BookingStatus.checked_out b s h = h
    deposit-keeps BookingStatus.cancelled b s h = h
    deposit-keeps BookingStatus.no_show b s h = h

    create_tx-Kept :
        (dto : CreateBookingRequest) (c : Caller) (id : ℕ) (resource : Resource) (db : Store S)
        → Kept db
        → Ensures Kept (create_tx sv dto c id resource db)
    unfolding create_tx emit_booking created_history add_history
    create_tx-Kept dto c id resource db h = Ensures-service Kept _ _ (λ q.
        let ms = db.member_rooms resource.id in
        let b = new_booking dto c id resource q (db.counter + 1) in
        Ensures-bind Kept P (redeem sv q.discount_code_id db.others) _
          (redeem-keeps q.discount_code_id db.others h)
          (λ redeemed r. Ensures-then Kept (throw_if (is_empty ms) resource_no_rooms) _ (
            Ensures-then Kept (check_overlaps ms dto.check_in dto.check_out db) _ (
              Ensures-bind Kept Kept _ _ (insert_booking-Kept b ms db h) (λ d k.
                Ensures-bind Kept P _ _ (service-keeps _ (keeps.quote_keeps q.id id redeemed r))
                  (λ used u.
                    Ensures-bind Kept P _ _ (deposit-keeps b.status b used u) (λ others o. o)))))))

    confirm_tx-Kept :
        (id : ℕ) (target : BookingStatus) (c : Caller) (loaded : Booking) (db : Store S)
        → Kept db
        → Ensures Kept (confirm_tx sv id target c loaded db)
    unfolding confirm_tx note_change add_history
    confirm_tx-Kept id target c loaded db h =
        Ensures-bind Kept Kept _ _ (update_if-Kept _ _ id _ db h) (λ d k.
          Ensures-bind Kept P _ _ (deposit-keeps target loaded d.others k)
            (λ others o. emit_if_confirmed-Kept target id _ _ o))

    check_out_tx-Kept :
        (id : ℕ) (c : Caller) (loaded : Booking) (db : Store S)
        → Kept db
        → Ensures Kept (check_out_tx sv id c loaded db)
    unfolding check_out_tx emit_booking note_change add_history free_rooms
    check_out_tx-Kept id c loaded db h =
        Ensures-bind Kept Kept _ _ (update_if-Kept _ _ id _ db h) (λ d k.
          Ensures-bind Kept P _ _ (service-keeps _ (keeps.stay_keeps loaded _ d.others k)) (λ s₁ k₁.
            Ensures-bind Kept P _ _ (service-keeps _ (keeps.commission_keeps loaded s₁ k₁))
              (λ s₂ k₂.
                Ensures-bind Kept P _ _
                  (service-keeps _ (keeps.cleaning_keeps loaded.property_id id _ s₂ k₂))
                  (λ s₃ k₃. k₃))))

    switch_resource_tx-Kept :
        (id : ℕ) (reason : String) (c : Caller) (loaded : Booking) (r : Resource) (db : Store S)
        → Kept db
        → Ensures Kept (switch_resource_tx sv id reason c loaded r db)
    unfolding switch_resource_tx emit_booking note_change add_history
    switch_resource_tx-Kept id reason c loaded r db h = Ensures-then Kept _ _ (
        Ensures-bind Kept Kept _ _ (replace_rows-Kept id _ _ _ db h) (λ d k.
          Ensures-bind Kept Kept _ _ (update_booking-Kept id _ d k) (λ d' k'.
            Ensures-bind Kept P _ _
              (service-keeps _ (keeps.cleaning_keeps loaded.property_id id _ d'.others k'))
              (λ s o. o))))

    reschedule_tx-Kept :
        (id ci co : ℕ) (reason : String) (c : Caller) (loaded : Booking) (db : Store S)
        → Kept db
        → Ensures Kept (reschedule_tx sv id ci co reason c loaded db)
    unfolding reschedule_tx emit_booking note_change add_history
    reschedule_tx-Kept id ci co reason c loaded db h =
        Ensures-bind Kept Kept _ _ (replace_rows-Kept id _ ci co db h) (λ d k.
          Ensures-next Kept (new_total sv loaded.rate_plan_id loaded ci co d.others) _
            (λ x e. Ensures-bind Kept Kept _ _ (update_booking-Kept id _ d k) (λ d' k'. k')))

    -- The transactions keep `P` of the tables of the other services.
    pub run-keeps :
        (t : Transaction) (db : Store S) → P db.others → Ensures (λ d. P d.others) (run sv t db)
    unfolding run update_tx cancel_tx cancel_from_ical_tx check_in_tx create_from_ical_tx
        emit_booking created_history note_change add_history free_rooms expire_holds_for_tenant
    run-keeps (creating dto c id resource) db h = create_tx-Kept dto c id resource db h
    run-keeps (creating_from_ical input id) db h =
        Ensures-then Kept _ _ (Ensures-bind Kept Kept _ _ (insert_booking-Kept _ _ db h) (λ d k. k))
    run-keeps (updating id version dto) db h = update_if-Kept _ _ id _ db h
    run-keeps (cancelling id reason c loaded) db h =
        Ensures-bind Kept Kept _ _ (update_booking-Kept id _ db h) (λ d k. k)
    run-keeps (cancelling_from_ical id property_id reason now) db h =
        Ensures-bind Kept Kept _ _ (update_booking-Kept id _ db h) (λ d k. k)
    run-keeps (paying_deposit id actor) db h = confirm_from_deposit_paid-Kept id actor db h
    run-keeps (confirming id target c loaded) db h = confirm_tx-Kept id target c loaded db h
    run-keeps (checking_in id c loaded) db h =
        Ensures-bind Kept Kept _ _ (update_if-Kept _ _ id _ db h) (λ d k. k)
    run-keeps (checking_out id c loaded) db h = check_out_tx-Kept id c loaded db h
    run-keeps (switching id reason c loaded resource) db h =
        switch_resource_tx-Kept id reason c loaded resource db h
    run-keeps (rescheduling id ci co reason c loaded) db h =
        reschedule_tx-Kept id ci co reason c loaded db h
    run-keeps (expiring now) db h =
        Ensures-bind Kept (λ (r : Store S × ℕ). Kept r.0) _ _
          (Ensures-bind (λ (r : Store S × ℕ). Kept r.0) Kept _ _ (expire_loop-Kept now _ db db h)
            (λ d k. k))
          (λ r k. k)
    run-keeps (blocking block_id room_id start end) db h =
        Ensures-next Kept (from_database _) _ (λ rows e. h)
    run-keeps (unblocking block_id) db h = h
