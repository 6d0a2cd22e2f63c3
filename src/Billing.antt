-- ===== src/Billing.antt =====
-- The money of a booking: the services of invoices that bookings.service.ts calls, and the
-- transactions of bookings, invoices, payments and reconciliation on one store, in any order.
pub mod Balance
pub mod Deposits
mod Tests
use Prim.Native.String.{String}
use pms_homestay.Prelude.{ℕ, Bool, Option, List, [], ◌∷◌, Result, ok, err}
use pms_homestay.Bookings.Types.{Booking, Store, Services}
use pms_homestay.Bookings.Transactions.{Transaction, run, commit}
use pms_homestay.Invoices.Types.{Invoice, Payment, Books}
use pms_homestay.Invoices.Issue.{issue_deposit, issue_stay, forfeit_deposit}
use pms_homestay.Invoices.Service.{
  BillingCaller, BillingCall, CreateInvoiceRequest, create_ad_hoc_tx, issue_tx, void_tx, set_books,
}
use pms_homestay.Payments.{CreatePaymentRequest, RefundPaymentRequest, record_tx, refund_tx}
use pms_homestay.Reconciliation.{PaymentWebhook, reconcile_tx, resolve, ignore}

-- InvoicesService as bookings.service.ts is given it, beside the other services
unfoldable pub with_invoices : Services Books → ℕ → Services Books
with_invoices rest now = record rest {
  issue_deposit = λ b s. ok (issue_deposit now b s);
  issue_stay = λ b extras s. ok (issue_stay now b extras s);
}

pub data BillingTransaction : Type 0 where
  of_booking : (now : ℕ) → Transaction → BillingTransaction
  forfeiting : (now : ℕ) → Booking → BillingTransaction
  creating_ad_hoc : CreateInvoiceRequest → Option ℕ → (now : ℕ) → BillingTransaction
  issuing : ℕ → BillingCaller → Invoice → BillingTransaction
  voiding : ℕ → String → BillingCaller → BillingTransaction
  recording : CreatePaymentRequest → Option ℕ → BillingCaller → BillingTransaction
  refunding : ℕ → RefundPaymentRequest → Option ℕ → BillingCaller → BillingTransaction
  reconciling : (provider : ℕ) → PaymentWebhook → (now : ℕ) → BillingTransaction
  resolving : ℕ → ℕ → BillingCaller → BillingTransaction
  ignoring : ℕ → BillingCaller → BillingTransaction

-- A transaction that throws leaves the tables as they were.
unfoldable pub commit_tx : Store Books → BillingCall (Store Books) → Store Books
commit_tx db (ok d) = d
commit_tx db (err e) = db

unfoldable pub commit_with :
    {A : Type 0} → Store Books → BillingCall (Store Books × A) → Store Books
commit_with db (ok r) = r.0
commit_with db (err e) = db

module _ (rest : Services Books) where
  unfoldable pub transact : BillingTransaction → Store Books → Store Books
  transact (of_booking now t) db = commit db (run (with_invoices rest now) t db)
  transact (forfeiting now b) db = set_books db ((forfeit_deposit now b db.others).0)
  transact (creating_ad_hoc dto property now) db = create_ad_hoc_tx dto property now db
  transact (issuing i c loaded) db = issue_tx i c loaded db
  transact (voiding i reason c) db = void_tx i reason c db
  transact (recording dto key c) db = commit_with db (record_tx dto key c db)
  transact (refunding i dto property c) db = commit_tx db (refund_tx i dto property c db)
  transact (reconciling provider payload now) db =
      commit_with db (reconcile_tx provider payload now db)
  transact (resolving i invoice c) db = commit_tx db (resolve i invoice c db)
  transact (ignoring i c) db = commit_tx db (ignore i c db)

  unfoldable pub transact_all : List BillingTransaction → Store Books → Store Books
  unfolding transact
  transact_all [] db = db
  transact_all (t ∷ ts) db = transact_all ts (transact t db)
