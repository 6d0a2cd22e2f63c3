-- ===== src/Invoices/Triggers.antt =====
-- The triggers recompute_invoice_totals of 0010_invoices.sql and recompute_invoice_paid of
-- 0011_payments.sql, and the writes that set them off.
use pms_homestay.Prelude.{
  ℕ, ◌+◌, Bool, true, false, not, ◌&&◌, ◌||◌, Option, none, some, List, [], ◌∷◌, ◌++◌, ◌==◌,
  if◌then◌else◌,
}
use pms_homestay.Prelude.Int.{ℤ, pos, ◌+ℤ◌, ◌-ℤ◌, ltb_ℤ}
use pms_homestay.Engine.Types.{discount, tax}
use pms_homestay.Invoices.Types.{
  Invoice, InvoiceStatus, InvoiceItem, ItemType, line, Payment, PaymentStatus, succeeded,
  partially_refunded, Books, draft, void,
}

-- SUM(amount_vnd) of the items of an invoice that pass a test
unfoldable pub sum_items : (ItemType → Bool) → ℕ → List InvoiceItem → ℤ
sum_items test inv [] = pos 0
sum_items test inv (x ∷ xs) =
    let rest = sum_items test inv xs in
    if x.invoice_id == inv && test x.item_type then x.amount_vnd +ℤ rest else rest

unfoldable pub is_tax : ItemType → Bool
is_tax (line tax) = true
is_tax _ = false

unfoldable pub is_discount : ItemType → Bool
is_discount (line discount) = true
is_discount _ = false

abbrev pub any_type : ItemType → Bool
any_type t = true

-- An update of the rows with an id
unfoldable pub update_invoice : ℕ → (Invoice → Invoice) → List Invoice → List Invoice
update_invoice i f [] = []
update_invoice i f (v ∷ vs) = (if v.id == i then f v else v) ∷ update_invoice i f vs

unfoldable pub with_totals : List InvoiceItem → Invoice → Invoice
unfolding is_tax is_discount
with_totals items v = record v {
  subtotal_vnd = sum_items (λ t. not (is_tax t || is_discount t)) v.id items;
  tax_vnd = sum_items is_tax v.id items;
  discount_vnd = pos 0 -ℤ sum_items is_discount v.id items;
  total_vnd = sum_items any_type v.id items;
}

-- INSERT INTO invoice_items
unfoldable pub add_item : InvoiceItem → Books → Books
add_item x b =
    let items = b.items ++ (x ∷ []) in
    record b {
      items = items;
      invoices = update_invoice x.invoice_id (with_totals items) b.invoices;
    }

unfoldable pub is_counted : PaymentStatus → Bool
is_counted succeeded = true
is_counted partially_refunded = true
is_counted _ = false

unfoldable pub is_refund : PaymentStatus → Bool
is_refund PaymentStatus.refunded = true
is_refund partially_refunded = true
is_refund _ = false

-- SUM of a column over the payments of an invoice that count
unfoldable pub sum_payments : (Payment → ℕ) → ℕ → List Payment → ℕ
unfolding is_counted
sum_payments column inv [] = 0
sum_payments column inv (p ∷ ps) =
    let rest = sum_payments column inv ps in
    if p.invoice_id == inv && is_counted p.status then column p + rest else rest

unfoldable pub has_refund : ℕ → List Payment → Bool
unfolding is_refund
has_refund inv [] = false
has_refund inv (p ∷ ps) = p.invoice_id == inv && is_refund p.status || has_refund inv ps

unfoldable pub paid_of : ℕ → List Payment → ℤ
paid_of inv ps =
    pos (sum_payments (λ p. p.amount_vnd) inv ps)
    -ℤ pos (sum_payments (λ p. p.refunded_amount_vnd) inv ps)

unfoldable pub is_settled : ℤ → ℤ → Bool
is_settled v_paid v_total = not (ltb_ℤ v_paid v_total) && ltb_ℤ (pos 0) v_total

unfoldable pub when_paid : Bool → InvoiceStatus → InvoiceStatus
when_paid returned InvoiceStatus.paid =
    if returned then InvoiceStatus.refunded else InvoiceStatus.issued
when_paid returned InvoiceStatus.partially_paid =
    if returned then InvoiceStatus.refunded else InvoiceStatus.issued
when_paid returned status = if returned then InvoiceStatus.refunded else status

-- The CASE of the trigger
unfoldable pub paid_status : InvoiceStatus → ℤ → ℤ → Bool → InvoiceStatus
unfolding when_paid is_settled
paid_status void v_paid v_total returned = void
paid_status draft v_paid v_total returned = draft
paid_status status v_paid v_total returned =
    if is_settled v_paid v_total
    then InvoiceStatus.paid
    else if ltb_ℤ (pos 0) v_paid
    then InvoiceStatus.partially_paid
    else when_paid returned status

unfoldable pub first_paid : Option ℕ → ℕ → Option ℕ
first_paid none now = some now
first_paid (some t) now = some t

unfoldable pub with_paid : ℕ → List Payment → Invoice → Invoice
unfolding paid_of paid_status has_refund is_settled first_paid
with_paid now ps v =
    let v_paid = paid_of v.id ps in
    record v {
      paid_vnd = v_paid;
      status = paid_status v.status v_paid v.total_vnd (has_refund v.id ps);
      paid_at = if is_settled v_paid v.total_vnd then first_paid v.paid_at now else none;
    }

-- INSERT INTO payments, of a payment of the invoice `inv`; and UPDATE payments
unfoldable pub set_payments : ℕ → ℕ → List Payment → Books → Books
set_payments now inv ps b = record b {
  payments = ps;
  invoices = update_invoice inv (with_paid now ps) b.invoices;
}
