-- ===== src/Payments/Once.antt =====
-- A key records one payment.
use pms_homestay.Prelude.{
  ℕ, suc, ◌<◌, ◌≡◌, refl, sym, ap, ◌∙◌, Bool, true, false, not, Option, none, some, List, [], ◌∷◌,
  ◌++◌, ok, err, Ensures, Ensures-ok, Ensures-intro, Ensures-guard, Ensures-bind, Ensures-next,
  Ensures-then, Bool-cases, inl, inr, ◌==◌, ltb, lt→ltb, if◌then◌else◌, throw_if, arith,
}
use pms_homestay.Bookings.Types.{Store}
use pms_homestay.Invoices.Types.{Payment, is_payable, Books}
use pms_homestay.Invoices.Triggers.{set_payments}
use pms_homestay.Invoices.Service.{
  BillingError, BillingCaller, BillingCall, find_id, or_error, set_books, add_event,
  check_violation, unique_key_violation, invoice_not_found, load_invoice, authorize_on,
  property_of_booking, payment_record, invoice_not_payable,
}
use pms_homestay.Payments.{
  PaymentInput, CreatePaymentRequest, largest_id, has_key, find_by_key, key_used, new_payment,
  insert_payment, apply_payment_in_tx, requested_payment, record_payment, record_tx, record_new,
  caught, replayed, is_unique_violation, found_or,
}
use pms_homestay.Payments.Writes.{confirm_if_paid-others}

key_refl : (i : ℕ) → (i == i) ≡ true
key_refl i = ground arith

-- The payment is the new row, under its key.
abbrev Written : List Payment → Option ℕ → Store Books × Payment → Type 0
Written before key r = (r.0.others.payments ≡ before ++ (r.1 ∷ [])) × (r.1.idempotency_key ≡ key)

insert_payment-shape :
    (p : Payment) (now : ℕ) (b : Books)
    → Ensures
        (λ d.
          (d.payments ≡ b.payments ++ (p ∷ [])) × (key_used p.idempotency_key b.payments ≡ false))
        (insert_payment p now b)
unfolding insert_payment set_payments
insert_payment-shape p now b =
    let Q : Books → Type 0 = λ d.
      (d.payments ≡ b.payments ++ (p ∷ [])) × (key_used p.idempotency_key b.payments ≡ false) in
    Ensures-then Q (throw_if (not (ltb 0 p.amount_vnd)) check_violation) _ (
      Ensures-guard Q (key_used p.idempotency_key b.payments) unique_key_violation _
        (λ k. (refl, k)))

apply_payment_in_tx-Written :
    (p : PaymentInput) (now : ℕ) (db : Store Books)
    → Ensures
        (λ r.
          Written db.others.payments p.idempotency_key r
          × (key_used p.idempotency_key db.others.payments ≡ false))
        (apply_payment_in_tx p now db)
unfolding apply_payment_in_tx new_payment add_event
apply_payment_in_tx-Written p now db =
    let payment = new_payment p (suc (largest_id db.others.payments)) now in
    Ensures-bind _ _ (insert_payment payment now db.others) _
      (insert_payment-shape payment now db.others)
      (λ books k.
        Ensures-next _ (or_error (find_id p.invoice_id books.invoices) invoice_not_found) _ (λ v e.
          ((rw (confirm_if_paid-others v p.received_by (set_books db books)) k.0, refl), k.1)))

find_by_key-append :
    (key : ℕ) (ps : List Payment) (p : Payment)
    → find_by_key (some key) ps ≡ none
    → p.idempotency_key ≡ some key
    → find_by_key (some key) (ps ++ (p ∷ [])) ≡ some p
unfolding find_by_key has_key
find_by_key-append key [] p e k = rw (k, key_refl key) refl
find_by_key-append key (q ∷ qs) p e k = elim (Bool-cases (has_key key q.idempotency_key)) [
  | inl t ↦ ground arith
  | inr t ↦
      let rest : find_by_key (some key) qs ≡ none = ground arith in
      rw t (find_by_key-append key qs p rest k)
]

unused : (key : Option ℕ) (ps : List Payment) → key_used key ps ≡ false → find_by_key key ps ≡ none
unfolding key_used
unused key ps h = go (find_by_key key ps) h
  where
    go : (o : Option Payment) → (elim o [ none ↦ false | some _ ↦ true ]) ≡ false → o ≡ none
    go none h = refl
    go (some p) h = cc

abbrev Found : ℕ → Store Books × Payment → Type 0
Found key r = find_by_key (some key) r.0.others.payments ≡ some r.1

apply_payment_in_tx-Found :
    (p : PaymentInput) (key now : ℕ) (db : Store Books)
    → p.idempotency_key ≡ some key
    → Ensures (Found key) (apply_payment_in_tx p now db)
apply_payment_in_tx-Found p key now db h =
    Ensures-intro (Found key) (apply_payment_in_tx p now db) (λ r e.
      let (written, free) =
        Ensures-ok _ (apply_payment_in_tx p now db) r (apply_payment_in_tx-Written p now db) e in
      let none_yet =
        unused (some key) db.others.payments
          (ap (λ k. key_used k db.others.payments) (sym h) ∙ free) in
      rw written.0 (find_by_key-append key db.others.payments r.1 none_yet (written.1 ∙ h)))

replayed-Found :
    (t : Bool) (e : BillingError) (key : ℕ) (db : Store Books)
    → Ensures
        (Found key)
        (if t then found_or e (find_by_key (some key) db.others.payments) db else err e)
unfolding found_or
replayed-Found t e key db = go t (find_by_key (some key) db.others.payments) refl
  where
    go :
        (t : Bool) (o : Option Payment)
        → find_by_key (some key) db.others.payments ≡ o
        → Ensures (Found key) (if t then found_or e o db else err e)
    go true none h = tt
    go true (some p) h = h
    go false o h = tt

caught-Found :
    (key : ℕ) (db : Store Books) (r : BillingCall (Store Books × Payment))
    → Ensures (Found key) r
    → Ensures (Found key) (caught (some key) db r)
unfolding caught replayed
caught-Found key db (ok r) h = h
caught-Found key db (err e) h = replayed-Found (is_unique_violation e) e key db

record_tx-Found :
    (dto : CreatePaymentRequest) (key : ℕ) (c : BillingCaller) (db : Store Books)
    → Ensures (Found key) (record_tx dto (some key) c db)
unfolding record_tx requested_payment
record_tx-Found dto key c db =
    let input = requested_payment dto (some key) c.sub in
    caught-Found key db (apply_payment_in_tx input c.now db)
      (apply_payment_in_tx-Found input key c.now db refl)

record_new-Found :
    (dto : CreatePaymentRequest) (key : ℕ) (c : BillingCaller) (db : Store Books)
    → Ensures (Found key) (record_new dto (some key) c db)
unfolding record_new
record_new-Found dto key c db = Ensures-next (Found key) (load_invoice dto.invoice_id db) _ (λ v e.
    Ensures-then (Found key) (authorize_on c (property_of_booking db v.booking_id) payment_record) _
      (Ensures-then (Found key) (throw_if (not (is_payable v.status)) invoice_not_payable) _
        (record_tx-Found dto key c db)))

record_payment-Found :
    (dto : CreatePaymentRequest) (key : ℕ) (c : BillingCaller) (db : Store Books)
    → Ensures (Found key) (record_payment dto (some key) c db)
unfolding record_payment
record_payment-Found dto key c db = go (find_by_key (some key) db.others.payments) refl
  where
    new : Ensures (Found key) (record_new dto (some key) c db)
    new = record_new-Found dto key c db

    go :
        (o : Option Payment)
        → find_by_key (some key) db.others.payments ≡ o
        → Ensures
            (Found key)
            (elim o [ some p ↦ ok (db, p) | none ↦ record_new dto (some key) c db ])
    go none h = new
    go (some p) h = h

replay-eq :
    (dto : CreatePaymentRequest) (key : ℕ) (c : BillingCaller) (db : Store Books) (p : Payment)
    → Found key (db, p)
    → record_payment dto (some key) c db ≡ ok (db, p)
unfolding record_payment
replay-eq dto key c db p h = rw (h, record_payment) refl

race-eq :
    (dto : CreatePaymentRequest) (key : ℕ) (c : BillingCaller) (db : Store Books) (p : Payment)
    → 0 < dto.amount_vnd
    → Found key (db, p)
    → record_tx dto (some key) c db ≡ ok (db, p)
unfolding record_tx requested_payment apply_payment_in_tx new_payment insert_payment key_used caught
    replayed is_unique_violation found_or
race-eq dto key c db p positive h =
    rw (lt→ltb 0 dto.amount_vnd positive, h, key_used, record_tx) (rw (h, found_or) refl)

-- If record() returns a payment for a key, then any call of record() with that key, whatever its
-- body and whoever calls, returns the same payment and changes no table, and so does a call that
-- has passed the checks before, whose positive amount it would write.
pub record_payment-once :
    (dto dto' : CreatePaymentRequest) (key : ℕ) (c c' : BillingCaller) (db d : Store Books)
    (p : Payment)
    → record_payment dto (some key) c db ≡ ok (d, p)
    → 0 < dto'.amount_vnd
    → (record_payment dto' (some key) c' d ≡ ok (d, p))
      × (record_tx dto' (some key) c' d ≡ ok (d, p))
record_payment-once dto dto' key c c' db d p e positive =
    let found =
      Ensures-ok (Found key) (record_payment dto (some key) c db) (d, p)
        (record_payment-Found dto key c db) e in
    (replay-eq dto' key c' d p found, race-eq dto' key c' d p positive found)
