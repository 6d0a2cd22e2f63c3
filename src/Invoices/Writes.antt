-- ===== src/Invoices/Writes.antt =====
-- The methods of invoices.service.ts keep the amounts of every invoice right.
use Prim.Native.String.{String}
use pms_homestay.Prelude.{
  ℕ, ◌+◌, Bool, true, false, List, [], ◌∷◌, Option, none, some, if◌then◌else◌,
}
use pms_homestay.Prelude.Int.{ℤ, pos, ltb_ℤ}
use pms_homestay.Engine.Types.{QuoteLineItem}
use pms_homestay.Bookings.Types.{Booking, Surcharge, Store}
use pms_homestay.Invoices.Types.{
  Invoice, InvoiceKind, deposit, stay, adjustment, InvoiceItem, ItemText, applied, BillingEvent,
  Books,
}
use pms_homestay.Invoices.Triggers.{add_item}
use pms_homestay.Invoices.Issue.{
  new_invoice_id, open_invoice, set_issued, add_items, add_lines, apply_deposit, issue_deposit,
  issue_stay, forfeit_deposit, line_item, surcharge_item, lines_of, collected,
}
use pms_homestay.Invoices.Service.{
  BillingCaller, CreateInvoiceRequest, create_ad_hoc_tx, issue_tx, void_tx, as_void, requested_item,
  add_event,
}
use pms_homestay.Invoices.Ledger.{Ledger}
use pms_homestay.Invoices.Balance.{
  AddsUp, Totals, update_invoice-All, add_item-Totals, open_invoice-Totals, set_issued-Totals,
}

-- The amounts of all invoices, and the rows of payments
unfoldable pub Balanced : Books → Type 0
Balanced b = Totals b × Ledger b.payments

pub Balanced-Ledger : (b : Books) → Balanced b → Ledger b.payments
unfolding Balanced
Balanced-Ledger b h = h.1

if_Balanced : (t : Bool) (b d : Books) → Balanced b → Balanced d → Balanced (if t then b else d)
if_Balanced true b d h k = h
if_Balanced false b d h k = k

add_item-Balanced : (x : InvoiceItem) (b : Books) → Balanced b → Balanced (add_item x b)
unfolding Balanced
add_item-Balanced x b h = (add_item-Totals x b h.0, unfold add_item in h.1)

open_invoice-Balanced :
    (booking : Option ℕ) (kind : InvoiceKind) (due : Option ℕ) (b : Books)
    → Balanced b
    → Balanced (open_invoice booking kind due b)
unfolding Balanced
open_invoice-Balanced booking kind due b h =
    (open_invoice-Totals booking kind due b h.0, unfold open_invoice in h.1)

set_issued-Balanced : (now i : ℕ) (b : Books) → Balanced b → Balanced (set_issued now i b)
unfolding Balanced
set_issued-Balanced now i b h = (set_issued-Totals now i b h.0, unfold set_issued in h.1)

add_items-Balanced :
    {A : Type 0} (row : ℕ → A → InvoiceItem) (order : ℕ) (xs : List A) (b : Books)
    → Balanced b
    → Balanced (add_items row order xs b)
unfolding add_items
add_items-Balanced row order [] b h = h
add_items-Balanced row order (x ∷ xs) b h =
    add_items-Balanced row (order + 1) xs (add_item (row order x) b)
      (add_item-Balanced (row order x) b h)

apply_deposit-Balanced :
    (i : ℕ) (text : ItemText) (order : ℕ) (found : Option Invoice) (b : Books)
    → Balanced b
    → Balanced (apply_deposit i text order found b)
unfolding apply_deposit
apply_deposit-Balanced i text order found b h =
    if_Balanced (ltb_ℤ (pos 0) (collected found)) _ b (add_item-Balanced _ b h) h

add_lines-Balanced :
    (i : ℕ) (booking : Booking) (lines : List QuoteLineItem) (b : Books)
    → Balanced b
    → Balanced (add_lines i booking lines b)
unfolding add_lines
add_lines-Balanced i booking [] b h = add_item-Balanced _ b h
add_lines-Balanced i booking (l ∷ ls) b h = add_items-Balanced (line_item i) 0 (l ∷ ls) b h

pub issue_deposit-Balanced :
    (now : ℕ) (booking : Booking) (b : Books) → Balanced b → Balanced (issue_deposit now booking b)
unfolding issue_deposit
issue_deposit-Balanced now booking b h = if_Balanced _ b _ h (
    if_Balanced _ b _ h (
      set_issued-Balanced now _ _
        (add_item-Balanced _ _ (open_invoice-Balanced (some booking.id) deposit none b h))))

pub issue_stay-Balanced :
    (now : ℕ) (booking : Booking) (surcharges : List Surcharge) (b : Books)
    → Balanced b
    → Balanced (issue_stay now booking surcharges b)
unfolding issue_stay
issue_stay-Balanced now booking surcharges b h =
    let i = new_invoice_id b in
    if_Balanced _ b _ h (
      set_issued-Balanced now i _ (
        apply_deposit-Balanced i applied _ _ _ (
          add_items-Balanced (surcharge_item i) _ surcharges _ (
            add_lines-Balanced i booking (lines_of booking.quote_id b) _
              (open_invoice-Balanced (some booking.id) stay none b h)))))

if_pair :
    (t : Bool) (b d : Books × ℤ) → Balanced b.0 → Balanced d.0 → Balanced ((if t then b else d).0)
if_pair true b d h k = h
if_pair false b d h k = k

pub forfeit_deposit-Balanced :
    (now : ℕ) (booking : Booking) (b : Books)
    → Balanced b
    → Balanced ((forfeit_deposit now booking b).0)
unfolding forfeit_deposit
forfeit_deposit-Balanced now booking b h =
    if_pair _ (b, pos 0) _ h
      (if_pair _ (b, pos 0) _ h
        (set_issued-Balanced now _ _ (
          apply_deposit-Balanced _ _ 1 _ _
            (add_item-Balanced _ _ (open_invoice-Balanced (some booking.id) adjustment none b h)))))

pub add_event-Balanced : (e : BillingEvent) (b : Books) → Balanced b → Balanced (add_event e b)
unfolding Balanced add_event
add_event-Balanced e b h = h

pub issue_tx-Balanced :
    (i : ℕ) (c : BillingCaller) (loaded : Invoice) (db : Store Books)
    → Balanced db.others
    → Balanced ((issue_tx i c loaded db).others)
unfolding issue_tx
issue_tx-Balanced i c loaded db h = add_event-Balanced _ _ (set_issued-Balanced c.now i db.others h)

pub void_tx-Balanced :
    (i : ℕ) (reason : String) (c : BillingCaller) (db : Store Books)
    → Balanced db.others
    → Balanced ((void_tx i reason c db).others)
unfolding Balanced void_tx as_void
void_tx-Balanced i reason c db h =
    let b = db.others in
    let P = AddsUp b.items b.payments in
    (
      update_invoice-All P P i (as_void reason c.now c.sub) b.invoices (λ v t a. a) (λ v t a. a)
          h.0,
      h.1,
    )

pub create_ad_hoc_tx-Balanced :
    (dto : CreateInvoiceRequest) (property : Option ℕ) (now : ℕ) (db : Store Books)
    → Balanced db.others
    → Balanced ((create_ad_hoc_tx dto property now db).others)
unfolding create_ad_hoc_tx
create_ad_hoc_tx-Balanced dto property now db h =
    let i = new_invoice_id db.others in
    let filled =
      add_items-Balanced (requested_item i) 0 dto.items _
        (open_invoice-Balanced dto.booking_id dto.kind dto.due_date db.others h) in
    if_Balanced dto.issue _ _ (add_event-Balanced _ _ (set_issued-Balanced now i _ filled)) filled
