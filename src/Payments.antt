-- ===== src/Payments.antt =====
-- record, refund and applyPaymentInTx of apps/api/src/modules/payments/payments.service.ts. A
-- payment that is found by its key, or is written, comes back with the tables.
pub mod Writes
pub mod Once
use Prim.Native.String.{String}
use pms_homestay.Prelude.{
  ℕ, suc, ◌+◌, ◌-◌, max, Bool, true, false, not, ◌&&◌, ◌||◌, Option, none, some, List, [], ◌∷◌,
  ◌++◌, ◌==◌, ltb, leb, if◌then◌else◌, Result, ok, err, ◌>>=◌, ◌>>◌, throw_if,
}
use pms_homestay.Bookings.Types.{Store}
use pms_homestay.Bookings.Lifecycle.{confirm_from_deposit_paid}
use pms_homestay.Invoices.Types.{
  Invoice, deposit, kind_eq, is_paid, is_payable, Payment, PaymentAttempt, PaymentMethod,
  PaymentStatus, succeeded, partially_refunded, Books, payment_received, payment_refunded,
}
use pms_homestay.Invoices.Triggers.{is_counted, set_payments}
use pms_homestay.Invoices.Service.{
  BillingError, BillingCaller, BillingCall, find_id, load_invoice, or_error, set_books,
  property_of_booking, authorize_on, add_event, payment_record, payment_refund, invoice_not_found,
  invoice_not_payable, payment_not_found, payment_not_refundable, refund_amount_invalid,
  check_violation, unique_key_violation,
}

unfoldable pub largest_id : List Payment → ℕ
largest_id [] = 0
largest_id (p ∷ ps) = max p.id (largest_id ps)

unfoldable pub find_payment : ℕ → List Payment → Option Payment
find_payment i [] = none
find_payment i (p ∷ ps) = if p.id == i then some p else find_payment i ps

unfoldable pub has_key : ℕ → Option ℕ → Bool
has_key key none = false
has_key key (some k) = k == key

-- findByIdempotencyKey(tenantId, key), where the request has a key
unfoldable pub find_by_key : Option ℕ → List Payment → Option Payment
unfolding has_key
find_by_key none ps = none
find_by_key (some key) [] = none
find_by_key (some key) (p ∷ ps) =
    if has_key key p.idempotency_key then some p else find_by_key (some key) ps

pub record PaymentInput : Type 0 where
  pub invoice_id : ℕ
  pub amount_vnd : ℕ
  pub method : PaymentMethod
  pub provider : Option ℕ
  pub reference_code : Option ℕ
  pub received_by : Option ℕ
  pub idempotency_key : Option ℕ

unfoldable pub new_payment : PaymentInput → ℕ → ℕ → Payment
new_payment p id now = record {
  id = id;
  invoice_id = p.invoice_id;
  amount_vnd = p.amount_vnd;
  method = p.method;
  status = succeeded;
  provider = p.provider;
  reference_code = p.reference_code;
  received_by = p.received_by;
  received_at = some now;
  refunded_amount_vnd = 0;
  refund_reason = none;
  idempotency_key = p.idempotency_key;
}

unfoldable pub key_used : Option ℕ → List Payment → Bool
unfolding find_by_key
key_used key ps = elim (find_by_key key ps) [ none ↦ false | some _ ↦ true ]

abbrev pub add_attempt : ℕ → ℕ → PaymentStatus → Books → Books
add_attempt payment number status b = record b {
  attempts = record { payment_id = payment; attempt_number = number; status = status } ∷ b.attempts;
}

-- A new row of payments, with what the constraints and the trigger of the table do, and its row
-- of payment_attempts
unfoldable pub insert_payment : Payment → ℕ → Books → BillingCall Books
unfolding largest_id key_used
insert_payment p now b = do
  throw_if (not (ltb 0 p.amount_vnd)) check_violation
  throw_if (key_used p.idempotency_key b.payments) unique_key_violation
  ok (add_attempt p.id 1 succeeded (set_payments now p.invoice_id (b.payments ++ (p ∷ [])) b))

-- A deposit that is paid in full confirms its booking.
unfoldable pub confirm_if_paid : Invoice → Option ℕ → Store Books → Store Books
confirm_if_paid v by db = elim v.booking_id [
  | none ↦ db
  | some booking ↦
      if is_paid v.status && kind_eq v.kind deposit
      then confirm_from_deposit_paid booking by db
      else db
]

-- applyPaymentInTx(tx, p)
unfoldable pub apply_payment_in_tx :
    PaymentInput → ℕ → Store Books → BillingCall (Store Books × Payment)
unfolding confirm_if_paid
apply_payment_in_tx p now db = do
  let payment = new_payment p (suc (largest_id db.others.payments)) now
  books ← insert_payment payment now db.others
  v ← or_error (find_id p.invoice_id books.invoices) invoice_not_found
  let db₁ = confirm_if_paid v p.received_by (set_books db books)
  let event =
      payment_received payment.id p.invoice_id v.booking_id (property_of_booking db v.booking_id)
  ok (set_books db₁ (add_event event db₁.others), payment)

pub record CreatePaymentRequest : Type 0 where
  pub invoice_id : ℕ
  pub amount_vnd : ℕ
  pub method : PaymentMethod
  pub reference_code : Option ℕ

unfoldable pub requested_payment : CreatePaymentRequest → Option ℕ → ℕ → PaymentInput
requested_payment dto key sub = record {
  invoice_id = dto.invoice_id;
  amount_vnd = dto.amount_vnd;
  method = dto.method;
  provider = none;
  reference_code = dto.reference_code;
  received_by = some sub;
  idempotency_key = key;
}

unfoldable pub is_unique_violation : BillingError → Bool
is_unique_violation unique_key_violation = true
is_unique_violation _ = false

unfoldable pub found_or :
    BillingError → Option Payment → Store Books → BillingCall (Store Books × Payment)
found_or e none db = err e
found_or e (some p) db = ok (db, p)

-- The payment of a key that another call has written first
unfoldable pub replayed :
    Option ℕ → BillingError → Store Books → BillingCall (Store Books × Payment)
unfolding is_unique_violation found_or
replayed key e db =
    let found = found_or e (find_by_key key db.others.payments) db in
    if is_unique_violation e then found else err e

unfoldable pub caught :
    Option ℕ
    → Store Books
    → BillingCall (Store Books × Payment)
    → BillingCall (Store Books × Payment)
caught key db (ok r) = ok r
caught key db (err e) = replayed key e db

-- The transaction of record(), with its `catch`, and record(dto, idempotencyKey, user).
unfoldable pub record_tx :
    CreatePaymentRequest
    → Option ℕ
    → BillingCaller
    → Store Books
    → BillingCall (Store Books × Payment)
record_tx dto key c db =
    caught key db (apply_payment_in_tx (requested_payment dto key c.sub) c.now db)

-- The rest of record() where no payment has the key
unfoldable pub record_new :
    CreatePaymentRequest
    → Option ℕ
    → BillingCaller
    → Store Books
    → BillingCall (Store Books × Payment)
record_new dto key c db = do
  v ← load_invoice dto.invoice_id db
  authorize_on c (property_of_booking db v.booking_id) payment_record
  throw_if (not (is_payable v.status)) invoice_not_payable
  record_tx dto key c db

unfoldable pub record_payment :
    CreatePaymentRequest
    → Option ℕ
    → BillingCaller
    → Store Books
    → BillingCall (Store Books × Payment)
record_payment dto key c db = elim (find_by_key key db.others.payments) [
  | some p ↦ ok (db, p)
  | none ↦ record_new dto key c db
]

-- An update of the rows with an id
unfoldable pub update_payment : ℕ → (Payment → Payment) → List Payment → List Payment
update_payment i f [] = []
update_payment i f (p ∷ ps) = (if p.id == i then f p else p) ∷ update_payment i f ps

unfoldable pub refund_status : ℕ → ℕ → PaymentStatus
refund_status refunded amount =
    if leb amount refunded then PaymentStatus.refunded else partially_refunded

unfoldable pub with_refund : ℕ → String → Payment → Payment
unfolding refund_status
with_refund refunded reason p = record p {
  refunded_amount_vnd = refunded;
  status = refund_status refunded p.amount_vnd;
  refund_reason = some reason;
}

pub record RefundPaymentRequest : Type 0 where
  pub amount_vnd : Option ℕ
  pub reason : String

unfoldable pub refund_amount : Option ℕ → ℕ → ℕ
refund_amount none remaining = remaining
refund_amount (some amount) remaining = amount

-- The update of the payment, and the row of payment_attempts
unfoldable pub write_refund : ℕ → Payment → ℕ → String → ℕ → Books → Books
write_refund i p refunded reason now b =
    let ps = update_payment i (with_refund refunded reason) b.payments in
    add_attempt i 0 (refund_status refunded p.amount_vnd) (set_payments now p.invoice_id ps b)

-- The transaction of refund(), and refund(paymentId, dto, user). The property of the event is
-- the one that loadPaymentProperty has read.
unfoldable pub refund_tx :
    ℕ → RefundPaymentRequest → Option ℕ → BillingCaller → Store Books → BillingCall (Store Books)
unfolding refund_amount
refund_tx i dto property c db = do
  p ← or_error (find_payment i db.others.payments) payment_not_found
  throw_if (not (is_counted p.status)) payment_not_refundable
  let remaining = p.amount_vnd - p.refunded_amount_vnd
  let amount = refund_amount dto.amount_vnd remaining
  throw_if (not (ltb 0 amount) || ltb remaining amount) refund_amount_invalid
  let written = write_refund i p (p.refunded_amount_vnd + amount) dto.reason c.now db.others
  ok (set_books db (add_event (payment_refunded i p.invoice_id property) written))

unfoldable pub property_of_invoice : Store Books → ℕ → Option ℕ
property_of_invoice db i = elim (find_id i db.others.invoices) [
  | none ↦ none
  | some v ↦ property_of_booking db v.booking_id
]

unfoldable pub refund :
    ℕ → RefundPaymentRequest → BillingCaller → Store Books → BillingCall (Store Books)
refund i dto c db = do
  p ← or_error (find_payment i db.others.payments) payment_not_found
  let property = property_of_invoice db p.invoice_id
  authorize_on c property payment_refund
  refund_tx i dto property c db
