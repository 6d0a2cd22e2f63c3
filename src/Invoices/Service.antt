-- ===== src/Invoices/Service.antt =====
-- createAdHoc, issue, void and getQrTarget of invoices.service.ts. Like a booking, an invoice is
-- loaded in one transaction and written in another.
use Prim.Native.String.{String}
use pms_homestay.Prelude.{
  ℕ, ◌+◌, Bool, true, false, not, Option, none, some, List, [], ◌∷◌, ◌==◌, if◌then◌else◌, Result,
  ok, err, ◌>>=◌, ◌>>◌, throw_if,
}
use pms_homestay.Prelude.Int.{ℤ, pos, ◌-ℤ◌, ltb_ℤ}
use pms_homestay.Bookings.Types.{Store}
use pms_homestay.Bookings.Surcharges.{surcharge_amount}
use pms_homestay.Invoices.Types.{
  Invoice, InvoiceKind, InvoiceStatus, can_transition, InvoiceItem, ItemType, double, written,
  Books, BillingEvent, invoice_issued,
}
use pms_homestay.Invoices.Triggers.{update_invoice}
use pms_homestay.Invoices.Issue.{new_invoice_id, open_invoice, set_issued, item, add_items}

pub data BillingError : Type 0 where
  invoice_not_found invoice_invalid_status invoice_forbidden invoice_booking_not_found
        invoice_no_balance bank_account_not_configured invoice_not_payable payment_not_found
        payment_not_refundable refund_amount_invalid unmatched_not_found unmatched_not_pending
        check_violation unique_key_violation :
      BillingError

pub data BillingPermission : Type 0 where
  invoice_create_adhoc invoice_void invoice_read payment_record payment_refund : BillingPermission

-- Who calls, and when: `authorized` is authorizeOnProperty for that user.
pub record BillingCaller : Type 0 where
  pub sub : ℕ
  pub authorized : ℕ → BillingPermission → Bool
  pub now : ℕ

abbrev pub BillingCall : Type 0 → Type 0
BillingCall A = Result BillingError A

-- The row with an id
unfoldable pub find_id : ℕ → List Invoice → Option Invoice
find_id i [] = none
find_id i (v ∷ vs) = if v.id == i then some v else find_id i vs

abbrev pub or_error : {A : Type 0} → Option A → BillingError → BillingCall A
or_error none e = err e
or_error (some a) e = ok a

abbrev pub set_books : Store Books → Books → Store Books
set_books db b = record db { others = b }

-- The property of the booking of an invoice, and authorizeOnProperty if there is one
unfoldable pub property_of_booking : Store Books → Option ℕ → Option ℕ
property_of_booking db none = none
property_of_booking db (some id) = elim (db.bookings id) [
  | none ↦ none
  | some b ↦ some b.property_id
]

unfoldable pub authorize_on : BillingCaller → Option ℕ → BillingPermission → BillingCall (Unit {0})
authorize_on c none p = ok tt
authorize_on c (some property) p =
    throw_if (if c.authorized property p then false else true) invoice_forbidden

unfoldable pub add_event : BillingEvent → Books → Books
add_event e b = record b { events = e ∷ b.events }

pub record InvoiceItemRequest : Type 0 where
  pub item_type : ItemType
  pub description : String
  pub quantity : ℕ
  pub unit_price_vnd : ℤ

pub record CreateInvoiceRequest : Type 0 where
  pub booking_id : Option ℕ
  pub kind : InvoiceKind
  pub due_date : Option ℕ
  pub items : List InvoiceItemRequest
  pub issue : Bool

unfoldable pub requested_item : ℕ → ℕ → InvoiceItemRequest → InvoiceItem
requested_item inv order r =
    item inv r.item_type (written r.description) (double r.quantity) r.unit_price_vnd
      (surcharge_amount r.quantity r.unit_price_vnd) none order

-- loadBooking(bookingId, user), where the request names a booking
unfoldable pub load_booking : Option ℕ → Store Books → BillingCall (Option ℕ)
load_booking none db = ok none
load_booking (some id) db = elim (db.bookings id) [
  | none ↦ err invoice_booking_not_found
  | some b ↦ ok (some b.property_id)
]

-- The transaction of createAdHoc(), and createAdHoc(dto, user).
unfoldable pub create_ad_hoc_tx : CreateInvoiceRequest → Option ℕ → ℕ → Store Books → Store Books
unfolding requested_item
create_ad_hoc_tx dto property now db =
    let i = new_invoice_id db.others in
    let opened = open_invoice dto.booking_id dto.kind dto.due_date db.others in
    let filled = add_items (requested_item i) 0 dto.items opened in
    let event = invoice_issued i dto.booking_id property in
    set_books db (if dto.issue then add_event event (set_issued now i filled) else filled)

unfoldable pub create_ad_hoc :
    CreateInvoiceRequest → BillingCaller → Store Books → BillingCall (Store Books)
create_ad_hoc dto c db = do
  property ← load_booking dto.booking_id db
  authorize_on c property invoice_create_adhoc
  ok (create_ad_hoc_tx dto property c.now db)

unfoldable pub as_void : String → ℕ → ℕ → Invoice → Invoice
as_void reason now by v = record v {
  status = InvoiceStatus.void;
  void_reason = some reason;
  voided_at = some now;
  voided_by = some by;
  version = v.version + 1;
}

-- assertInvoiceTransition(from, to)
unfoldable pub assert_invoice_transition : InvoiceStatus → InvoiceStatus → BillingCall (Unit {0})
assert_invoice_transition from to =
    throw_if (if can_transition from to then false else true) invoice_invalid_status

-- loadWithProperty(id, user)
unfoldable pub load_invoice : ℕ → Store Books → BillingCall Invoice
load_invoice i db = or_error (find_id i db.others.invoices) invoice_not_found

-- The transaction of issue(), for the invoice that was loaded before it, and issue(id, user).
unfoldable pub issue_tx : ℕ → BillingCaller → Invoice → Store Books → Store Books
issue_tx i c loaded db = set_books db (
    add_event (invoice_issued i loaded.booking_id (property_of_booking db loaded.booking_id))
      (set_issued c.now i db.others))

unfoldable pub issue : ℕ → BillingCaller → Store Books → BillingCall (Store Books)
issue i c db = do
  v ← load_invoice i db
  authorize_on c (property_of_booking db v.booking_id) invoice_create_adhoc
  assert_invoice_transition v.status InvoiceStatus.issued
  ok (issue_tx i c v db)

-- The transaction of void(), and void(id, dto, user).
unfoldable pub void_tx : ℕ → String → BillingCaller → Store Books → Store Books
unfolding as_void
void_tx i reason c db =
    let b = db.others in
    set_books db (record b { invoices = update_invoice i (as_void reason c.now c.sub) b.invoices })

unfoldable pub void_invoice : ℕ → String → BillingCaller → Store Books → BillingCall (Store Books)
void_invoice i reason c db = do
  v ← load_invoice i db
  authorize_on c (property_of_booking db v.booking_id) invoice_void
  assert_invoice_transition v.status InvoiceStatus.void
  ok (void_tx i reason c db)

-- getQrTarget(invoiceId, user), without the names of the account: `has_account` says whether the
-- property has one.
unfoldable pub qr_amount : ℕ → (ℕ → Bool) → BillingCaller → Store Books → BillingCall ℤ
qr_amount i has_account c db = do
  v ← load_invoice i db
  let property = property_of_booking db v.booking_id
  authorize_on c property invoice_read
  let balance = v.total_vnd -ℤ v.paid_vnd
  throw_if (not (ltb_ℤ (pos 0) balance)) invoice_no_balance
  throw_if (elim property [ none ↦ true | some p ↦ not (has_account p) ])
      bank_account_not_configured
  ok balance
