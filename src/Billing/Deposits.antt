-- ===== src/Billing/Deposits.antt =====
-- A deposit that is paid in full confirms its booking.
use pms_homestay.Prelude.{
  ℕ, suc, ◌+◌, ◌<◌, ◌≡◌, refl, ap, ◌∙◌, Bool, true, false, Option, none, some, List, [], ◌∷◌, ◌++◌,
  ok, lt→ltb, Bool-cases, inl, inr, ◌==◌, arith,
}
use pms_homestay.Prelude.Int.{ℤ, pos, ◌+ℤ◌, ltb_ℤ, ◌≤ℤ◌}
use pms_homestay.Bookings.Status.{pending, confirmed, status_eq}
use pms_homestay.Bookings.Types.{Booking, Store, emit_booking, add_history}
use pms_homestay.Bookings.Lifecycle.{confirm_from_deposit_paid, with_status, note_change}
use pms_homestay.Invoices.Types.{
  Invoice, InvoiceStatus, deposit, kind_eq, is_paid, is_payable, issued, partially_paid, overdue,
  Payment, payment_received, succeeded, Books,
}
use pms_homestay.Invoices.Triggers.{set_payments, with_paid, paid_of, paid_status, is_settled}
use pms_homestay.Invoices.Service.{
  BillingCaller, find_id, set_books, load_invoice, property_of_booking, authorize_on, add_event,
  payment_record,
}
use pms_homestay.Invoices.Ledger.{Ledger, received, paid_of-received, append-Ledger}
use pms_homestay.Invoices.Writes.{Balanced, Balanced-Ledger}
use pms_homestay.Payments.{
  PaymentInput, CreatePaymentRequest, largest_id, find_by_key, key_used, new_payment,
  insert_payment, add_attempt, confirm_if_paid, apply_payment_in_tx, requested_payment,
  record_payment, record_new, record_tx, caught,
}
use pms_homestay.Payments.Writes.{fresh_id}
use pms_homestay.Invoices.Rows.{Balanced-amounts, find_id-update, find_id-same}

flip_key : (i j : ℕ) → (i == j) ≡ true → (j == i) ≡ true
flip_key i j h = ground arith

key_refl : (i : ℕ) → (i == i) ≡ true
key_refl i = ground arith

received-append :
    (i : ℕ) (ps : List Payment) (p : Payment)
    → (p.invoice_id == i) ≡ true
    → p.refunded_amount_vnd ≡ 0
    → received i (ps ++ (p ∷ [])) ≡ received i ps + p.amount_vnd
unfolding received
received-append i [] p t r = rw (t, r) (omega arith)
received-append i (q ∷ qs) p t r =
    let rest = received-append i qs p t r in
    elim (Bool-cases (q.invoice_id == i)) [ inl c ↦ rw (c, rest) (omega arith) | inr c ↦ rw c rest ]

paid_status-settled :
    (s : InvoiceStatus) (v_paid v_total : ℤ) (returned : Bool)
    → is_payable s ≡ true
    → is_settled v_paid v_total ≡ true
    → paid_status s v_paid v_total returned ≡ InvoiceStatus.paid
unfolding is_payable paid_status
paid_status-settled issued v_paid v_total returned h t = rw t refl
paid_status-settled partially_paid v_paid v_total returned h t = rw t refl
paid_status-settled overdue v_paid v_total returned h t = rw t refl
paid_status-settled InvoiceStatus.draft v_paid v_total returned h t = cc
paid_status-settled InvoiceStatus.paid v_paid v_total returned h t = cc
paid_status-settled InvoiceStatus.void v_paid v_total returned h t = cc
paid_status-settled InvoiceStatus.refunded v_paid v_total returned h t = cc

is_settled-enough :
    (n amount : ℕ) (paid total : ℤ)
    → paid ≡ pos n
    → total ≤ℤ paid +ℤ pos amount
    → ltb_ℤ (pos 0) total ≡ true
    → is_settled (pos (n + amount)) total ≡ true
unfolding is_settled ◌+ℤ◌
is_settled-enough n amount paid total e le lt =
    let bound : total ≤ℤ pos n +ℤ pos amount = rw e at le in ground arith

-- The row of an invoice after a payment of it that pays its balance
invoice_after :
    (p : Payment) (now : ℕ) (b : Books) (v : Invoice)
    → find_id p.invoice_id b.invoices ≡ some v
    → Balanced b
    → Ledger (b.payments ++ (p ∷ []))
    → p.refunded_amount_vnd ≡ 0
    → is_payable v.status ≡ true
    → v.total_vnd ≤ℤ v.paid_vnd +ℤ pos p.amount_vnd
    → ltb_ℤ (pos 0) v.total_vnd ≡ true
    → (w : Invoice) × (find_id p.invoice_id
          (set_payments now p.invoice_id (b.payments ++ (p ∷ [])) b).invoices
        ≡ some w)
      × (w.status ≡ InvoiceStatus.paid)
      × (w.kind ≡ v.kind)
      × (w.booking_id ≡ v.booking_id)
unfolding set_payments with_paid
invoice_after p now b v e h ledger r payable enough positive =
    let ps = b.payments ++ (p ∷ []) in
    let same = find_id-same p.invoice_id b.invoices v e in
    let before = (Balanced-amounts p.invoice_id b v h e).1 in
    let after : paid_of v.id ps ≡ pos (received v.id b.payments + p.amount_vnd) =
      paid_of-received v.id ps ledger
      ∙ ap pos (received-append v.id b.payments p (flip_key v.id p.invoice_id same) r) in
    let settled =
      is_settled-enough (received v.id b.payments) p.amount_vnd v.paid_vnd v.total_vnd before enough
        positive in
    (
      with_paid now ps v,
      find_id-update p.invoice_id (with_paid now ps) b.invoices v (λ w t. t) e,
      rw after (paid_status-settled v.status _ v.total_vnd _ payable settled),
      refl,
      refl,
    )

unused_key :
    (key : Option ℕ) (ps : List Payment) → find_by_key key ps ≡ none → key_used key ps ≡ false
unfolding key_used
unused_key key ps h = rw (h, key_used) refl

insert_payment-eq :
    (p : Payment) (now : ℕ) (b : Books)
    → 0 < p.amount_vnd
    → find_by_key p.idempotency_key b.payments ≡ none
    → insert_payment p now b
      ≡ ok (add_attempt p.id 1 succeeded (set_payments now p.invoice_id (b.payments ++ (p ∷ [])) b))
unfolding insert_payment
insert_payment-eq p now b h k =
    rw (lt→ltb 0 p.amount_vnd h, unused_key p.idempotency_key b.payments k) refl

confirms :
    (id : ℕ) (by : Option ℕ) (db : Store Books) (b : Booking)
    → db.bookings id ≡ some b
    → b.status ≡ pending
    → (confirm_from_deposit_paid id by db).bookings id ≡ some (with_status confirmed none b)
unfolding confirm_from_deposit_paid emit_booking note_change add_history status_eq
confirms id by db b e t = ground arith

confirm_if_paid-eq :
    (w : Invoice) (by : Option ℕ) (db : Store Books) (id : ℕ) (b : Booking)
    → w.status ≡ InvoiceStatus.paid
    → w.kind ≡ deposit
    → w.booking_id ≡ some id
    → db.bookings id ≡ some b
    → b.status ≡ pending
    → (confirm_if_paid w by db).bookings id ≡ some (with_status confirmed none b)
unfolding confirm_if_paid is_paid kind_eq
confirm_if_paid-eq w by db id b s k o e t = rw (o, s, k) (confirms id by db b e t)

-- apply_payment_in_tx for a payment that pays the balance of a deposit
pays_deposit :
    (p : PaymentInput) (now : ℕ) (db : Store Books) (id : ℕ) (b : Booking) (v : Invoice)
    → Balanced db.others
    → find_by_key p.idempotency_key db.others.payments ≡ none
    → find_id p.invoice_id db.others.invoices ≡ some v
    → v.kind ≡ deposit
    → v.booking_id ≡ some id
    → is_payable v.status ≡ true
    → db.bookings id ≡ some b
    → b.status ≡ pending
    → 0 < p.amount_vnd
    → ltb_ℤ (pos 0) v.total_vnd ≡ true
    → v.total_vnd ≤ℤ v.paid_vnd +ℤ pos p.amount_vnd
    → (r : Store Books × Payment) × (apply_payment_in_tx p now db ≡ ok r)
      × (r.0.bookings id ≡ some (with_status confirmed none b))
unfolding apply_payment_in_tx new_payment add_event
pays_deposit p now db id b v h key found kind of_booking payable row status amount positive enough =
    let payment = new_payment p (suc (largest_id db.others.payments)) now in
    let ledger =
      append-Ledger db.others.payments payment (Balanced-Ledger db.others h) (refl, amount)
        (fresh_id payment.id db.others.payments (omega arith)) in
    let (w, e, paid, k, o) =
      invoice_after payment now db.others v found h ledger refl payable enough positive in
    let books =
      add_attempt payment.id 1 succeeded
        (set_payments now p.invoice_id (db.others.payments ++ (payment ∷ [])) db.others) in
    let written = insert_payment-eq payment now db.others amount key in
    let done = confirm_if_paid w p.received_by (set_books db books) in
    let event =
      payment_received payment.id p.invoice_id w.booking_id (property_of_booking db w.booking_id) in
    (
      (set_books done (add_event event done.others), payment),
      rw (written, e) refl,
      confirm_if_paid-eq w p.received_by (set_books db books) id b paid (k ∙ kind) (o ∙ of_booking)
          row status,
    )

record_payment-new :
    (dto : CreatePaymentRequest) (key : Option ℕ) (c : BillingCaller) (db : Store Books)
    → find_by_key key db.others.payments ≡ none
    → record_payment dto key c db ≡ record_new dto key c db
unfolding record_payment record_new
record_payment-new dto key c db h = rw (h, record_payment) refl

property_of_booking-eq :
    (db : Store Books) (booking : Option ℕ) (id : ℕ) (b : Booking)
    → booking ≡ some id
    → db.bookings id ≡ some b
    → property_of_booking db booking ≡ some b.property_id
unfolding property_of_booking
property_of_booking-eq db booking id b h row = rw (h, row, property_of_booking) refl

record_new-eq :
    (dto : CreatePaymentRequest) (key : Option ℕ) (c : BillingCaller) (db : Store Books) (id : ℕ)
    (b : Booking) (v : Invoice)
    → find_id dto.invoice_id db.others.invoices ≡ some v
    → v.booking_id ≡ some id
    → db.bookings id ≡ some b
    → c.authorized b.property_id payment_record ≡ true
    → is_payable v.status ≡ true
    → record_new dto key c db ≡ record_tx dto key c db
unfolding record_new load_invoice authorize_on
record_new-eq dto key c db id b v found of_booking row may payable =
    let property = property_of_booking-eq db v.booking_id id b of_booking row in
    rw (found, record_new, load_invoice, property, may, payable) refl

-- If the amounts of the store are right, a DEPOSIT invoice can be paid and names a booking that is
-- PENDING, the caller may record payments, no payment has the key, and the amount is positive and
-- reaches the balance of the invoice, whose total is positive, then record() returns, and the booking
-- is CONFIRMED.
pub record_payment-confirms :
    (dto : CreatePaymentRequest) (key : Option ℕ) (c : BillingCaller) (db : Store Books) (id : ℕ)
    (b : Booking) (v : Invoice)
    → Balanced db.others
    → find_by_key key db.others.payments ≡ none
    → find_id dto.invoice_id db.others.invoices ≡ some v
    → v.kind ≡ deposit
    → v.booking_id ≡ some id
    → is_payable v.status ≡ true
    → db.bookings id ≡ some b
    → b.status ≡ pending
    → c.authorized b.property_id payment_record ≡ true
    → 0 < dto.amount_vnd
    → ltb_ℤ (pos 0) v.total_vnd ≡ true
    → v.total_vnd ≤ℤ v.paid_vnd +ℤ pos dto.amount_vnd
    → (r : Store Books × Payment) × (record_payment dto key c db ≡ ok r)
      × (r.0.bookings id ≡ some (with_status confirmed none b))
unfolding requested_payment
record_payment-confirms dto key c db id b v h fresh found kind of_booking payable row status may
      amount positive enough =
    let (r, e, done) =
      pays_deposit (requested_payment dto key c.sub) c.now db id b v h fresh found kind of_booking
        payable row status amount positive enough in
    (
      r,
      record_payment-new dto key c db fresh
          ∙ record_new-eq dto key c db id b v found of_booking row may payable
          ∙ (unfold record_tx in rw e (unfold caught in refl)),
      done,
    )
