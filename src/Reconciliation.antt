-- ===== src/Reconciliation.antt =====
-- apps/api/src/modules/payments/reconciliation.service.ts: the transfers that a bank reports, matched
-- to the invoices. CODE_RE has read the content of a payload: `code` is the number that it found.
use pms_homestay.Prelude.{
  ℕ, suc, max, Bool, true, false, not, ◌&&◌, Option, none, some, List, [], ◌∷◌, ◌++◌, ◌==◌,
  if◌then◌else◌, ok, ◌>>=◌, ◌>>◌, throw_if, keep,
}
use pms_homestay.Prelude.Int.{pos, ◌-ℤ◌, ltb_ℤ}
use pms_homestay.Bookings.Types.{Store}
use pms_homestay.Invoices.Types.{
  Invoice, is_payable, vietqr, bank_transfer, UnmatchedStatus, waiting, resolved, ignored,
  UnmatchedPayment, Books,
}
use pms_homestay.Invoices.Issue.{is_for}
use pms_homestay.Invoices.Service.{
  BillingCaller, BillingCall, load_invoice, or_error, set_books, invoice_not_payable,
  unmatched_not_found, unmatched_not_pending,
}
use pms_homestay.Payments.{PaymentInput, apply_payment_in_tx}

-- The first match of CODE_RE in a content
pub data Code : Type 0 where
  no_code : Code
  invoice_code booking_code : ℕ → Code

pub record PaymentWebhook : Type 0 where
  pub event_id : ℕ
  pub amount_vnd : ℕ
  pub code : Code
  pub bank_account : ℕ

-- What the table of webhook_events_received and the queue hold: the events of a provider that were
-- accepted, and the jobs.
pub record Webhooks : Type 0 where
  pub received : List (ℕ × ℕ)
  pub queue : List (ℕ × PaymentWebhook)

unfoldable pub is_received : ℕ → ℕ → List (ℕ × ℕ) → Bool
is_received source event [] = false
is_received source event (r ∷ rs) =
    if r.0 == source && r.1 == event then true else is_received source event rs

-- acceptWebhook(provider, payload), with isNew
unfoldable pub accept_webhook : ℕ → PaymentWebhook → Webhooks → Webhooks × Bool
unfolding is_received
accept_webhook source payload w =
    if is_received source payload.event_id w.received then (w, false) else (
      record {
        received = (source, payload.event_id) ∷ w.received;
        queue = w.queue ++ ((source, payload) ∷ []);
      },
      true,
    )

unfoldable pub has_number : ℕ → Invoice → Bool
has_number number v = v.invoice_number == number && is_payable v.status

unfoldable pub is_due_of : ℕ → Invoice → Bool
is_due_of booking v = is_for v.booking_id booking && is_payable v.status

abbrev pub first_of : {A : Type 0} → List A → List A
first_of [] = []
first_of (x ∷ xs) = x ∷ []

-- findFirst({ where: { booking_code } })
unfoldable pub find_booking : ℕ → List ℕ → Store Books → Option ℕ
find_booking code [] db = none
find_booking code (i ∷ is) db =
    let rest = find_booking code is db in
    elim (db.bookings i) [ none ↦ rest | some b ↦ if b.booking_code == code then some i else rest ]

unfoldable pub candidates : Code → Store Books → List Invoice
unfolding has_number is_due_of find_booking
candidates no_code db = []
candidates (invoice_code number) db = first_of (keep (has_number number) db.others.invoices)
candidates (booking_code code) db = elim (find_booking code db.ids db) [
  | none ↦ []
  | some booking ↦ keep (is_due_of booking) db.others.invoices
]

unfoldable pub owes : ℕ → Invoice → Bool
owes amount v =
    let balance = v.total_vnd -ℤ v.paid_vnd in
    not (ltb_ℤ balance (pos amount)) && not (ltb_ℤ (pos amount) balance)

unfoldable pub only : List Invoice → Option ℕ
only (v ∷ []) = some v.id
only _ = none

-- matchInvoice(tx, payload)
unfoldable pub match_invoice : PaymentWebhook → Store Books → Option ℕ
unfolding candidates owes only
match_invoice payload db = only (keep (owes payload.amount_vnd) (candidates payload.code db))

unfoldable pub has_ref : ℕ → ℕ → List UnmatchedPayment → Bool
has_ref provider ref [] = false
has_ref provider ref (u ∷ us) =
    if u.provider == provider && u.transaction_ref == ref then true else has_ref provider ref us

unfoldable pub largest_unmatched : List UnmatchedPayment → ℕ
largest_unmatched [] = 0
largest_unmatched (u ∷ us) = max u.id (largest_unmatched us)

unfoldable pub note_unmatched : ℕ → PaymentWebhook → Books → Books
unfolding has_ref largest_unmatched
note_unmatched provider payload b =
    let u : UnmatchedPayment = record {
      id = suc (largest_unmatched b.unmatched);
      provider = provider;
      transaction_ref = payload.event_id;
      amount_vnd = payload.amount_vnd;
      status = waiting;
      resolved_payment_id = none;
      resolved_by = none;
    } in
    if has_ref provider payload.event_id b.unmatched
    then b
    else record b { unmatched = b.unmatched ++ (u ∷ []) }

unfoldable pub transfer : ℕ → PaymentWebhook → ℕ → PaymentInput
transfer provider payload i = record {
  invoice_id = i;
  amount_vnd = payload.amount_vnd;
  method = vietqr;
  provider = some provider;
  reference_code = some payload.event_id;
  received_by = none;
  idempotency_key = none;
}

unfoldable pub reconcile_to :
    Option ℕ → ℕ → PaymentWebhook → ℕ → Store Books → BillingCall (Store Books × Bool)
unfolding note_unmatched
reconcile_to none provider payload now db =
    ok (set_books db (note_unmatched provider payload db.others), false)
reconcile_to (some i) provider payload now db =
    apply_payment_in_tx (transfer provider payload i) now db >>= λ r. ok (r.0, true)

-- The transaction of reconcile(provider, payload) for the tenant of the account, with `matched`
unfoldable pub reconcile_tx :
    ℕ → PaymentWebhook → ℕ → Store Books → BillingCall (Store Books × Bool)
reconcile_tx provider payload now db =
    reconcile_to (match_invoice payload db) provider payload now db

-- An update of the rows with an id
unfoldable pub update_unmatched :
    ℕ → (UnmatchedPayment → UnmatchedPayment) → List UnmatchedPayment → List UnmatchedPayment
update_unmatched i f [] = []
update_unmatched i f (u ∷ us) = (if u.id == i then f u else u) ∷ update_unmatched i f us

unfoldable pub find_unmatched : ℕ → List UnmatchedPayment → Option UnmatchedPayment
find_unmatched i [] = none
find_unmatched i (u ∷ us) = if u.id == i then some u else find_unmatched i us

unfoldable pub is_waiting : UnmatchedStatus → Bool
is_waiting waiting = true
is_waiting _ = false

unfoldable pub assigned : UnmatchedPayment → ℕ → ℕ → PaymentInput
assigned u i by = record {
  invoice_id = i;
  amount_vnd = u.amount_vnd;
  method = bank_transfer;
  provider = some u.provider;
  reference_code = some u.transaction_ref;
  received_by = some by;
  idempotency_key = none;
}

unfoldable pub as_resolved : ℕ → ℕ → UnmatchedPayment → UnmatchedPayment
as_resolved payment by u = record u {
  status = resolved;
  resolved_payment_id = some payment;
  resolved_by = some by;
}

unfoldable pub set_unmatched : ℕ → (UnmatchedPayment → UnmatchedPayment) → Store Books → Store Books
unfolding update_unmatched
set_unmatched i f db =
    let b = db.others in set_books db (record b { unmatched = update_unmatched i f b.unmatched })

-- resolve(id, invoiceId, user)
unfoldable pub resolve : ℕ → ℕ → BillingCaller → Store Books → BillingCall (Store Books)
unfolding is_waiting assigned as_resolved
resolve i invoice c db = do
  u ← or_error (find_unmatched i db.others.unmatched) unmatched_not_found
  throw_if (not (is_waiting u.status)) unmatched_not_pending
  v ← load_invoice invoice db
  throw_if (not (is_payable v.status)) invoice_not_payable
  r ← apply_payment_in_tx (assigned u invoice c.sub) c.now db
  ok (set_unmatched i (as_resolved r.1.id c.sub) r.0)

unfoldable pub as_ignored : ℕ → UnmatchedPayment → UnmatchedPayment
as_ignored by u =
    if is_waiting u.status then record u { status = ignored; resolved_by = some by } else u

-- ignore(id, user): the update is of the rows of this id that are PENDING.
unfoldable pub ignore : ℕ → BillingCaller → Store Books → BillingCall (Store Books)
unfolding is_waiting as_ignored
ignore i c db = do
  u ← or_error (find_unmatched i db.others.unmatched) unmatched_not_pending
  throw_if (not (is_waiting u.status)) unmatched_not_pending
  ok (set_unmatched i (as_ignored c.sub) db)
