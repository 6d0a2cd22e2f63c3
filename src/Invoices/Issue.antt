-- ===== src/Invoices/Issue.antt =====
-- The methods of invoices.service.ts that run in a transaction of a booking:
-- issueDepositForBooking, issueStayForBooking and forfeitDepositForBooking. A query without an order
-- reads the rows in the order of the table.
use pms_homestay.Prelude.{
  ℕ, suc, ◌+◌, max, Bool, true, false, not, ◌&&◌, ◌||◌, Option, none, some, List, [], ◌∷◌, ◌++◌,
  ◌==◌, if◌then◌else◌,
}
use pms_homestay.Prelude.Int.{ℤ, pos, ◌-ℤ◌, ltb_ℤ}
use pms_homestay.Engine.Types.{LineItemType, room_charge, QuoteLineItem}
use pms_homestay.Engine.Builder.{compute_deposit}
use pms_homestay.Bookings.Types.{Booking, Surcharge, SurchargeType}
use pms_homestay.Invoices.Types.{
  Invoice, InvoiceKind, deposit, stay, adjustment, kind_eq, InvoiceStatus, draft, is_void,
  InvoiceItem, ItemType, line, deposit_applied, Quantity, whole, double, ItemText, quoted, written,
  deposit_of, room_of, no_show_of, applied, kept, Books, DepositRule, Payment,
}
use pms_homestay.Invoices.Triggers.{add_item, update_invoice}

unfoldable pub largest_invoice : List Invoice → ℕ
largest_invoice [] = 0
largest_invoice (v ∷ vs) = max v.id (largest_invoice vs)

unfoldable pub largest_item : List InvoiceItem → ℕ
largest_item [] = 0
largest_item (x ∷ xs) = max x.invoice_id (largest_item xs)

unfoldable pub largest_payment : List Payment → ℕ
largest_payment [] = 0
largest_payment (p ∷ ps) = max p.invoice_id (largest_payment ps)

-- gen_random_uuid() gives an id that no row has or names.
unfoldable pub new_invoice_id : Books → ℕ
unfolding largest_invoice largest_item largest_payment
new_invoice_id b =
    suc (max (largest_invoice b.invoices) (max (largest_item b.items) (largest_payment b.payments)))

unfoldable pub new_invoice : ℕ → Option ℕ → InvoiceKind → Option ℕ → ℕ → Invoice
new_invoice id booking_id kind due_date number = record {
  id = id;
  booking_id = booking_id;
  kind = kind;
  invoice_number = number;
  status = draft;
  subtotal_vnd = pos 0;
  discount_vnd = pos 0;
  tax_vnd = pos 0;
  total_vnd = pos 0;
  paid_vnd = pos 0;
  due_date = due_date;
  issued_at = none;
  paid_at = none;
  void_reason = none;
  voided_at = none;
  voided_by = none;
  version = 0;
}

-- The number and the row of a new invoice.
unfoldable pub open_invoice : Option ℕ → InvoiceKind → Option ℕ → Books → Books
unfolding new_invoice
open_invoice booking_id kind due_date b = record b {
  invoices =
      b.invoices ++ (new_invoice (new_invoice_id b) booking_id kind due_date (b.counter + 1) ∷ []);
  counter = b.counter + 1;
}

unfoldable pub as_issued : ℕ → Invoice → Invoice
as_issued now v = record v {
  status = InvoiceStatus.issued;
  issued_at = some now;
  version = v.version + 1;
}

-- `tx.invoices.update({ where: { id }, data: { status: 'ISSUED', … } })`
unfoldable pub set_issued : ℕ → ℕ → Books → Books
unfolding as_issued
set_issued now i b = record b { invoices = update_invoice i (as_issued now) b.invoices }

unfoldable pub is_for : Option ℕ → ℕ → Bool
is_for none id = false
is_for (some i) id = i == id

-- findFirst({ booking_id, kind, status: { not: 'VOID' } })
unfoldable pub find_invoice : ℕ → InvoiceKind → List Invoice → Option Invoice
unfolding is_for
find_invoice booking_id kind [] = none
find_invoice booking_id kind (v ∷ vs) =
    if is_for v.booking_id booking_id && kind_eq v.kind kind && not (is_void v.status)
    then some v
    else find_invoice booking_id kind vs

abbrev pub item : ℕ → ItemType → ItemText → Quantity → ℤ → ℤ → Option ℕ → ℕ → InvoiceItem
item inv t text q unit amount ref order = record {
  invoice_id = inv;
  item_type = t;
  description = text;
  quantity = q;
  unit_price_vnd = unit;
  amount_vnd = amount;
  ref_invoice_id = ref;
  display_order = order;
}

abbrev pub is_found : {A : Type 0} → Option A → Bool
is_found none = false
is_found (some _) = true

unfoldable pub deposit_due : Option DepositRule → ℤ → ℤ
deposit_due none total = pos 0
deposit_due (some plan) total = compute_deposit total plan.deposit_type (some plan.deposit_value)

unfoldable pub rule_of : Option ℕ → Books → Option DepositRule
rule_of none b = none
rule_of (some plan) b = b.rate_plans plan

-- issueDepositForBooking(tx, booking)
unfoldable pub issue_deposit : ℕ → Booking → Books → Books
unfolding deposit_due rule_of
issue_deposit now booking b =
    let due = deposit_due (rule_of booking.rate_plan_id b) booking.total_amount_vnd in
    let i = new_invoice_id b in
    let opened = open_invoice (some booking.id) deposit none b in
    if not (ltb_ℤ (pos 0) due)
    then b
    else if is_found (find_invoice booking.id deposit b.invoices)
    then b
    else set_issued now i (
        add_item
          (item i (line room_charge) (deposit_of booking.booking_code) (whole (pos 1)) due due none
            0)
          opened)

unfoldable pub line_item : ℕ → ℕ → QuoteLineItem → InvoiceItem
line_item inv order li =
    item inv (line li.type) (quoted li.description) (whole li.quantity) li.unit_price_vnd
      li.amount_vnd none order

unfoldable pub surcharge_type : SurchargeType → ItemType
surcharge_type SurchargeType.surcharge = line LineItemType.surcharge
surcharge_type SurchargeType.amenity = line LineItemType.amenity
surcharge_type SurchargeType.utility = line LineItemType.utility

unfoldable pub surcharge_item : ℕ → ℕ → Surcharge → InvoiceItem
unfolding surcharge_type
surcharge_item inv order s =
    item inv (surcharge_type s.item_type) (written s.description) (double s.quantity)
      s.unit_price_vnd s.amount_vnd none order

-- A loop that inserts an item for each row, numbered from `order`.
unfoldable pub add_items : {A : Type 0} → (ℕ → A → InvoiceItem) → ℕ → List A → Books → Books
add_items row order [] b = b
add_items row order (x ∷ xs) b = add_items row (order + 1) xs (add_item (row order x) b)

abbrev pub count : {A : Type 0} → List A → ℕ
count [] = 0
count (x ∷ xs) = suc (count xs)

unfoldable pub lines_of : Option ℕ → Books → List QuoteLineItem
lines_of none b = []
lines_of (some q) b = elim (b.quotes q) [ none ↦ [] | some lines ↦ lines ]

-- The total of the booking stands for a quote that is missing.
unfoldable pub add_lines : ℕ → Booking → List QuoteLineItem → Books → Books
unfolding line_item
add_lines i booking [] = add_item (
    item i (line room_charge) (room_of booking.booking_code) (whole (pos 1))
      booking.total_amount_vnd booking.total_amount_vnd none 0)
add_lines i booking (li ∷ lis) = add_items (line_item i) 0 (li ∷ lis)

unfoldable pub lines_count : List QuoteLineItem → ℕ
lines_count [] = 1
lines_count (li ∷ lis) = count (li ∷ lis)

unfoldable pub collected : Option Invoice → ℤ
collected none = pos 0
collected (some v) = v.paid_vnd

unfoldable pub invoice_ref : Option Invoice → Option ℕ
invoice_ref none = none
invoice_ref (some v) = some v.id

-- DEPOSIT_APPLIED, for the part of the deposit that was paid
unfoldable pub apply_deposit : ℕ → ItemText → ℕ → Option Invoice → Books → Books
unfolding collected invoice_ref
apply_deposit i text order found b =
    if ltb_ℤ (pos 0) (collected found)
    then add_item
        (item i deposit_applied text (whole (pos 1)) (pos 0 -ℤ collected found)
          (pos 0 -ℤ collected found) (invoice_ref found) order)
        b
    else b

-- issueStayForBooking(tx, booking), `surcharges` being those of the booking
unfoldable pub issue_stay : ℕ → Booking → List Surcharge → Books → Books
unfolding surcharge_item lines_of lines_count
issue_stay now booking surcharges b =
    let i = new_invoice_id b in
    let lines = lines_of booking.quote_id b in
    let opened = open_invoice (some booking.id) stay none b in
    let charged = add_lines i booking lines opened in
    let extras = add_items (surcharge_item i) (lines_count lines) surcharges charged in
    let order = lines_count lines + count surcharges in
    let found = find_invoice booking.id deposit extras.invoices in
    if is_found (find_invoice booking.id stay b.invoices)
    then b
    else set_issued now i (apply_deposit i applied order found extras)

unfoldable pub is_application : ℕ → ItemType → Option ℕ → Bool
is_application i deposit_applied (some j) = j == i
is_application i _ _ = false

-- findFirst({ ref_invoice_id, item_type: 'DEPOSIT_APPLIED' })
unfoldable pub is_applied_to : Option ℕ → List InvoiceItem → Bool
unfolding is_application
is_applied_to none xs = false
is_applied_to (some i) [] = false
is_applied_to (some i) (x ∷ xs) =
    is_application i x.item_type x.ref_invoice_id || is_applied_to (some i) xs

-- forfeitDepositForBooking(tx, booking): the books, and the amount that is kept
unfoldable pub forfeit_deposit : ℕ → Booking → Books → Books × ℤ
unfolding is_applied_to
forfeit_deposit now booking b =
    let found = find_invoice booking.id deposit b.invoices in
    let forfeited = collected found in
    let i = new_invoice_id b in
    let opened = open_invoice (some booking.id) adjustment none b in
    let charged =
      add_item
        (item i (line LineItemType.surcharge) (no_show_of booking.booking_code) (whole (pos 1))
          forfeited forfeited none 0)
        opened in
    if not (ltb_ℤ (pos 0) forfeited)
    then (b, pos 0)
    else if is_applied_to (invoice_ref found) b.items
    then (b, pos 0)
    else (set_issued now i (apply_deposit i kept 1 found charged), forfeited)
