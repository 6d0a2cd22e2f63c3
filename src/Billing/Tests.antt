-- ===== src/Billing/Tests.antt =====
-- A booking whose deposit of 300,000 is paid, given back in part, and billed at its check-out.
use pms_homestay.Prelude.{
  ◌≤◌, ◌<◌, ◌≡◌, refl, true, none, some, List, [], ◌∷◌, ok, err, ◌==◌, if◌then◌else◌, ◌↔◌, arith,
}
use pms_homestay.Prelude.Int.{pos, ◌+ℤ◌, ◌-ℤ◌}
use pms_homestay.Engine.Types.{daily, room_charge, whole_months, LineItemType, QuoteLineItem}
use pms_homestay.Bookings.Status.{pending, confirmed, status_eq}
use pms_homestay.Bookings.Types.{
  Booking, direct, Store, Services, Surcharge, SurchargeType, add_history, emit_booking,
}
use pms_homestay.Bookings.Lifecycle.{with_status, confirm_from_deposit_paid, note_change}
use pms_homestay.Bookings.Moves.{with_dates}
use pms_homestay.Bookings.Others.{Keeps}
use pms_homestay.Invoices.Types.{
  Invoice, InvoiceStatus, deposit, issued, kind_eq, is_paid, is_payable, line, whole, deposit_of,
  cash, Payment, PaymentStatus, partially_refunded, Books,
}
use pms_homestay.Invoices.Triggers.{
  sum_items, any_type, update_invoice, sum_payments, paid_of, paid_status, has_refund, is_settled,
  when_paid, first_paid, with_paid, set_payments, is_counted, is_refund,
}
use pms_homestay.Invoices.Issue.{item, lines_of, issue_stay}
use pms_homestay.Invoices.Service.{
  BillingCaller, find_id, load_invoice, authorize_on, property_of_booking, add_event,
}
use pms_homestay.Invoices.Ledger.{received}
use pms_homestay.Invoices.Writes.{Balanced}
use pms_homestay.Invoices.Stay.{billed_price, sum_amounts}
use pms_homestay.Payments.{
  CreatePaymentRequest, RefundPaymentRequest, largest_id, find_payment, has_key, find_by_key,
  key_used, new_payment, insert_payment, confirm_if_paid, apply_payment_in_tx, requested_payment,
  record_payment, record_new, record_tx, caught, update_payment, refund_status, with_refund,
  refund_amount, write_refund, refund_tx,
}
use pms_homestay.Payments.Once.{record_payment-once}
use pms_homestay.Billing.{
  BillingTransaction, recording, refunding, commit_tx, commit_with, transact, transact_all,
}
use pms_homestay.Billing.Balance.{transact_all-amounts, transact_all-refunds}
use pms_homestay.Billing.Deposits.{record_payment-confirms}

-- Services that change nothing.
abbrev quiet : Services Books
quiet = record {
  verify_quote = λ s q r ci co m. err 7;
  redeem_discount = λ d s. ok s;
  mark_quote_used = λ q b s. ok s;
  issue_deposit = λ b s. ok s;
  issue_stay = λ b extras s. ok s;
  create_ota_commission = λ b s. ok s;
  create_checkout_tasks = λ p b ms s. ok s;
  recompute_total = λ s p q b ci co. err 7;
}

quiet-Keeps : Keeps Balanced quiet
quiet-Keeps = record {
  redeem_keeps = λ c s h. h;
  quote_keeps = λ q b s h. h;
  deposit_keeps = λ b s h. h;
  stay_keeps = λ b e s h. h;
  commission_keeps = λ b s h. h;
  cleaning_keeps = λ p b r s h. h;
}

abbrev clerk : BillingCaller
clerk = record { sub = 9; authorized = λ p q. true; now = 1_000 }

abbrev guest_booking : Booking
guest_booking = record {
  id = 1;
  property_id = 3;
  resource_id = 1;
  guest_id = none;
  booking_code = 21;
  source = direct;
  external_uid = none;
  channel_mapping_id = none;
  status = pending;
  mode = daily;
  rate_plan_id = none;
  quote_id = none;
  check_in = 10;
  check_out = 30;
  actual_check_in = none;
  actual_check_out = none;
  adults = 2;
  children = 0;
  total_amount_vnd = pos 900_000;
  notes = none;
  cancellation_reason = none;
  cancelled_at = none;
  cancelled_by = none;
  expires_at = none;
  created_by = none;
  version = 1;
}

abbrev deposit_row : Invoice
deposit_row = record {
  id = 1;
  booking_id = some 1;
  kind = deposit;
  invoice_number = 1;
  status = issued;
  subtotal_vnd = pos 300_000;
  discount_vnd = pos 0;
  tax_vnd = pos 0;
  total_vnd = pos 300_000;
  paid_vnd = pos 0;
  due_date = none;
  issued_at = some 5;
  paid_at = none;
  void_reason = none;
  voided_at = none;
  voided_by = none;
  version = 1;
}

abbrev books : Books
books = record {
  invoices = deposit_row ∷ [];
  items =
      item 1 (line room_charge) (deposit_of 21) (whole (pos 1)) (pos 300_000) (pos 300_000) none 0
      ∷ [];
  payments = [];
  attempts = [];
  unmatched = [];
  events = [];
  counter = 1;
  rate_plans = λ p. none;
  quotes = λ q. none;
}

abbrev inn : Store Books
inn = record {
  bookings = λ i. if i == 1 then some guest_booking else none;
  ids = 1 ∷ [];
  occupancy = [];
  history = [];
  outbox = [];
  surcharges = [];
  resources = λ i. none;
  member_rooms = λ r. [];
  counter = 1;
  others = books;
}

books-Balanced : Balanced books
unfolding Balanced sum_items paid_of sum_payments ◌+ℤ◌ ◌-ℤ◌
books-Balanced = (((refl, refl), tt), (tt, tt))

abbrev cash_payment : CreatePaymentRequest
cash_payment = record { invoice_id = 1; amount_vnd = 300_000; method = cash; reference_code = none }

abbrev part_back : RefundPaymentRequest
part_back = record { amount_vnd = some 100_000; reason = "late" }

abbrev story : List BillingTransaction
story = recording cash_payment (some 77) clerk ∷ refunding 1 part_back (some 3) clerk ∷ []

abbrev deposit_after : Invoice
deposit_after = record deposit_row { status = InvoiceStatus.partially_paid; paid_vnd = pos 200_000 }

abbrev payment_after : Payment
payment_after = record {
  id = 1;
  invoice_id = 1;
  amount_vnd = 300_000;
  method = cash;
  status = partially_refunded;
  provider = none;
  reference_code = none;
  received_by = some 9;
  received_at = some 1_000;
  refunded_amount_vnd = 100_000;
  refund_reason = some "late";
  idempotency_key = some 77;
}

deposit_found : find_id 1 (transact_all quiet story inn).others.invoices ≡ some deposit_after
unfolding transact transact_all commit_tx commit_with record_tx refund_tx requested_payment
    apply_payment_in_tx new_payment largest_id insert_payment key_used find_by_key has_key
    set_payments update_invoice with_paid paid_of sum_payments is_counted paid_status is_settled
    when_paid has_refund is_refund first_paid find_id confirm_if_paid is_paid kind_eq
    confirm_from_deposit_paid status_eq with_status note_change add_history emit_booking add_event
    property_of_booking caught find_payment refund_amount write_refund update_payment with_refund
    refund_status ◌+ℤ◌ ◌-ℤ◌
deposit_found = refl

payment_found : find_payment 1 (transact_all quiet story inn).others.payments ≡ some payment_after
unfolding transact transact_all commit_tx commit_with record_tx refund_tx requested_payment
    apply_payment_in_tx new_payment largest_id insert_payment key_used find_by_key has_key
    set_payments update_invoice with_paid paid_of sum_payments is_counted paid_status is_settled
    when_paid has_refund is_refund first_paid find_id confirm_if_paid is_paid kind_eq
    confirm_from_deposit_paid status_eq with_status note_change add_history emit_booking add_event
    property_of_booking caught find_payment refund_amount write_refund update_payment with_refund
    refund_status ◌+ℤ◌ ◌-ℤ◌
payment_found = refl

transact_all-amounts_example :
    (deposit_after.total_vnd ≡ sum_items any_type 1 (transact_all quiet story inn).others.items)
    × (deposit_after.paid_vnd ≡ pos (received 1 (transact_all quiet story inn).others.payments))
transact_all-amounts_example =
    transact_all-amounts quiet story inn 1 deposit_after quiet-Keeps books-Balanced deposit_found

transact_all-refunds_example :
    (100_000 ≤ 300_000)
    × (0 < 300_000)
    × ((partially_refunded ≡ PaymentStatus.refunded)
        ↔ (payment_after.refunded_amount_vnd ≡ payment_after.amount_vnd))
transact_all-refunds_example =
    transact_all-refunds quiet story inn 1 payment_after quiet-Keeps books-Balanced payment_found

recorded : (r : Store Books × Payment) × (record_payment cash_payment (some 77) clerk inn ≡ ok r)
unfolding record_payment record_new load_invoice authorize_on is_payable transact transact_all
    commit_tx commit_with record_tx refund_tx requested_payment apply_payment_in_tx new_payment
    largest_id insert_payment key_used find_by_key has_key set_payments update_invoice with_paid
    paid_of sum_payments is_counted paid_status is_settled when_paid has_refund is_refund first_paid
    find_id confirm_if_paid is_paid kind_eq confirm_from_deposit_paid status_eq with_status
    note_change add_history emit_booking add_event property_of_booking caught find_payment
    refund_amount write_refund update_payment with_refund refund_status ◌+ℤ◌ ◌-ℤ◌
recorded = (_, refl)

record_payment-confirms_example :
    (r : Store Books × Payment) × (record_payment cash_payment (some 77) clerk inn ≡ ok r)
    × (r.0.bookings 1 ≡ some (with_status confirmed none guest_booking))
unfolding find_by_key find_id is_payable ◌+ℤ◌
record_payment-confirms_example =
    record_payment-confirms cash_payment (some 77) clerk inn 1 guest_booking deposit_row
      books-Balanced refl refl refl refl refl refl refl refl (omega arith) refl (omega arith)

abbrev replay : CreatePaymentRequest
replay = record { invoice_id = 2; amount_vnd = 5; method = cash; reference_code = none }

record_payment-once_example :
    (record_payment replay (some 77) clerk recorded.0.0 ≡ ok recorded.0)
    × (record_tx replay (some 77) clerk recorded.0.0 ≡ ok recorded.0)
record_payment-once_example =
    record_payment-once cash_payment replay 77 clerk clerk inn recorded.0.0 recorded.0.1 recorded.1
      (omega arith)

abbrev minibar : Surcharge
minibar = record {
  id = 1;
  booking_id = 1;
  item_type = SurchargeType.amenity;
  description = "minibar";
  quantity = 1;
  unit_price_vnd = pos 50_000;
  amount_vnd = pos 50_000;
  created_by = 9;
}

-- The room for two nights at 500,000, as it was quoted
abbrev two_nights : QuoteLineItem
two_nights = record {
  type = LineItemType.room_charge;
  description = whole_months 1;
  quantity = pos 2;
  unit_price_vnd = pos 500_000;
  amount_vnd = pos 1_000_000;
  local_date = none;
}

abbrev quoted_books : Books
quoted_books = record books { quotes = λ q. if q == 5 then some (two_nights ∷ []) else none }

-- The booking, quoted at 1,000,000, and moved to three nights at 1,500,000
abbrev moved_booking : Booking
moved_booking =
    with_dates 10 40 (pos 1_500_000)
      (record guest_booking { quote_id = some 5; total_amount_vnd = pos 1_000_000 })

moved_total : moved_booking.total_amount_vnd ≡ pos 1_500_000
unfolding with_dates
moved_total = refl

-- The move leaves the quote: the stay is billed at the price of two nights.
billed_after_move :
    billed_price moved_booking (lines_of moved_booking.quote_id quoted_books) ≡ pos 1_000_000
unfolding with_dates lines_of billed_price sum_amounts ◌+ℤ◌
billed_after_move = refl
