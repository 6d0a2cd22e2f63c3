-- ===== src/Billing/Balance.antt =====
-- The amounts of the invoices are those of their items and payments, whatever has happened.
use pms_homestay.Prelude.{
  ℕ, ◌<◌, ◌≤◌, ◌≡◌, Bool, true, false, not, Option, none, some, List, [], ◌∷◌, ok, err, Ensures,
  Ensures-bind, Ensures-next, Ensures-then, All, Bool-cases, inl, inr, ◌==◌, if◌then◌else◌,
  throw_if, arith, ◌↔◌,
}
use pms_homestay.Prelude.Int.{pos}
use pms_homestay.Bookings.Types.{Store, Services, Call}
use pms_homestay.Bookings.Transactions.{commit}
use pms_homestay.Bookings.Others.{Keeps, run-keeps}
use pms_homestay.Invoices.Types.{
  Invoice, Payment, PaymentStatus, pending, succeeded, failed, partially_refunded, Books,
  UnmatchedPayment, is_payable,
}
use pms_homestay.Invoices.Triggers.{sum_items, any_type}
use pms_homestay.Invoices.Service.{
  BillingError, BillingCaller, BillingCall, find_id, load_invoice, or_error, unmatched_not_found,
  unmatched_not_pending, invoice_not_payable,
}
use pms_homestay.Invoices.Ledger.{ValidPayment, Returned, received}
use pms_homestay.Invoices.Writes.{
  Balanced, Balanced-Ledger, issue_deposit-Balanced, issue_stay-Balanced, forfeit_deposit-Balanced,
  issue_tx-Balanced, void_tx-Balanced, create_ad_hoc_tx-Balanced,
}
use pms_homestay.Payments.{
  CreatePaymentRequest, find_payment, find_by_key, record_tx, replayed, found_or, caught,
  is_unique_violation, requested_payment, apply_payment_in_tx,
}
use pms_homestay.Invoices.Rows.{Balanced-amounts}
use pms_homestay.Payments.Writes.{apply_payment_in_tx-Balanced, refund_tx-Balanced}
use pms_homestay.Reconciliation.{
  PaymentWebhook, reconcile_tx, reconcile_to, resolve, ignore, note_unmatched, match_invoice,
  transfer, set_unmatched, find_unmatched, is_waiting, assigned, has_ref,
}
use pms_homestay.Billing.{
  BillingTransaction, of_booking, forfeiting, creating_ad_hoc, issuing, voiding, recording,
  refunding, reconciling, resolving, ignoring, with_invoices, commit_tx, commit_with, transact,
  transact_all,
}

abbrev KeptBy : {A : Type 0} → Store Books × A → Type 0
KeptBy r = Balanced (r.0.others)

found_or-Balanced :
    (t : Bool) (e : BillingError) (o : Option Payment) (db : Store Books)
    → Balanced db.others
    → Ensures KeptBy (if t then found_or e o db else err e)
unfolding found_or
found_or-Balanced true e none db h = tt
found_or-Balanced true e (some p) db h = h
found_or-Balanced false e o db h = tt

caught-Balanced :
    (key : Option ℕ) (db : Store Books) (r : BillingCall (Store Books × Payment))
    → Balanced db.others
    → Ensures KeptBy r
    → Ensures KeptBy (caught key db r)
unfolding caught replayed
caught-Balanced key db (ok s) h k = k
caught-Balanced key db (err e) h k =
    found_or-Balanced (is_unique_violation e) e (find_by_key key db.others.payments) db h

record_tx-Balanced :
    (dto : CreatePaymentRequest) (key : Option ℕ) (c : BillingCaller) (db : Store Books)
    → Balanced db.others
    → Ensures KeptBy (record_tx dto key c db)
unfolding record_tx
record_tx-Balanced dto key c db h =
    let input = requested_payment dto key c.sub in
    caught-Balanced key db (apply_payment_in_tx input c.now db) h
      (apply_payment_in_tx-Balanced input c.now db h)

note_unmatched-Balanced :
    (provider : ℕ) (payload : PaymentWebhook) (b : Books)
    → Balanced b
    → Balanced (note_unmatched provider payload b)
unfolding Balanced note_unmatched
note_unmatched-Balanced provider payload b h =
    elim (Bool-cases (has_ref provider payload.event_id b.unmatched)) [
      | inl t ↦ rw t h
      | inr t ↦ rw t h
    ]

reconcile_to-Balanced :
    (found : Option ℕ) (provider : ℕ) (payload : PaymentWebhook) (now : ℕ) (db : Store Books)
    → Balanced db.others
    → Ensures KeptBy (reconcile_to found provider payload now db)
unfolding reconcile_to
reconcile_to-Balanced none provider payload now db h =
    note_unmatched-Balanced provider payload db.others h
reconcile_to-Balanced (some i) provider payload now db h =
    Ensures-bind KeptBy KeptBy (apply_payment_in_tx (transfer provider payload i) now db) _
      (apply_payment_in_tx-Balanced (transfer provider payload i) now db h) (λ r k. k)

set_unmatched-Balanced :
    (i : ℕ) (f : UnmatchedPayment → UnmatchedPayment) (db : Store Books)
    → Balanced db.others
    → Balanced ((set_unmatched i f db).others)
unfolding Balanced set_unmatched
set_unmatched-Balanced i f db h = h

abbrev Sound : Store Books → Type 0
Sound d = Balanced d.others

resolve-Balanced :
    (i invoice : ℕ) (c : BillingCaller) (db : Store Books)
    → Balanced db.others
    → Ensures Sound (resolve i invoice c db)
unfolding resolve
resolve-Balanced i invoice c db h =
    Ensures-next Sound (or_error (find_unmatched i db.others.unmatched) unmatched_not_found) _
      (λ u e. Ensures-then Sound (throw_if (not (is_waiting u.status)) unmatched_not_pending) _ (
        Ensures-next Sound (load_invoice invoice db) _ (λ v e'.
          Ensures-then Sound (throw_if (not (is_payable v.status)) invoice_not_payable) _ (
            Ensures-bind Sound KeptBy (apply_payment_in_tx (assigned u invoice c.sub) c.now db) _
              (apply_payment_in_tx-Balanced (assigned u invoice c.sub) c.now db h)
              (λ r k. set_unmatched-Balanced i _ r.0 k)))))

ignore-Balanced :
    (i : ℕ) (c : BillingCaller) (db : Store Books)
    → Balanced db.others
    → Ensures Sound (ignore i c db)
unfolding ignore
ignore-Balanced i c db h =
    Ensures-next Sound (or_error (find_unmatched i db.others.unmatched) unmatched_not_pending) _
      (λ u e.
        Ensures-then Sound (throw_if (not (is_waiting u.status)) unmatched_not_pending) _
          (set_unmatched-Balanced i _ db h))

commit_tx-Balanced :
    (db : Store Books) (r : BillingCall (Store Books))
    → Sound db
    → Ensures Sound r
    → Sound (commit_tx db r)
unfolding commit_tx
commit_tx-Balanced db (ok d) h k = k
commit_tx-Balanced db (err e) h k = h

commit_with-Balanced :
    {A : Type 0} (db : Store Books) (r : BillingCall (Store Books × A))
    → Sound db
    → Ensures KeptBy r
    → Sound (commit_with db r)
unfolding commit_with
commit_with-Balanced db (ok d) h k = k
commit_with-Balanced db (err e) h k = h

commit-Balanced :
    (db : Store Books) (r : Call (Store Books)) → Sound db → Ensures Sound r → Sound (commit db r)
commit-Balanced db (ok d) h k = k
commit-Balanced db (err e) h k = h

module _ (rest : Services Books) (keeps : Keeps Balanced rest) where
  with_invoices-Keeps : (now : ℕ) → Keeps Balanced (with_invoices rest now)
  unfolding with_invoices
  with_invoices-Keeps now = record {
    redeem_keeps = keeps.redeem_keeps;
    quote_keeps = keeps.quote_keeps;
    deposit_keeps = λ b s h. issue_deposit-Balanced now b s h;
    stay_keeps = λ b extras s h. issue_stay-Balanced now b extras s h;
    commission_keeps = keeps.commission_keeps;
    cleaning_keeps = keeps.cleaning_keeps;
  }

  transact-Balanced :
      (t : BillingTransaction) (db : Store Books) → Sound db → Sound (transact rest t db)
  unfolding transact
  transact-Balanced (of_booking now t) db h =
      commit-Balanced db _ h
        (run-keeps Balanced (with_invoices rest now) (with_invoices-Keeps now) t db h)
  transact-Balanced (forfeiting now b) db h = forfeit_deposit-Balanced now b db.others h
  transact-Balanced (creating_ad_hoc dto property now) db h =
      create_ad_hoc_tx-Balanced dto property now db h
  transact-Balanced (issuing i c loaded) db h = issue_tx-Balanced i c loaded db h
  transact-Balanced (voiding i reason c) db h = void_tx-Balanced i reason c db h
  transact-Balanced (recording dto key c) db h =
      commit_with-Balanced db _ h (record_tx-Balanced dto key c db h)
  transact-Balanced (refunding i dto property c) db h =
      commit_tx-Balanced db _ h (refund_tx-Balanced i dto property c db h)
  transact-Balanced (reconciling provider payload now) db h = commit_with-Balanced db _ h (
      unfold reconcile_tx in
      reconcile_to-Balanced (match_invoice payload db) provider payload now db h)
  transact-Balanced (resolving i invoice c) db h =
      commit_tx-Balanced db _ h (resolve-Balanced i invoice c db h)
  transact-Balanced (ignoring i c) db h = commit_tx-Balanced db _ h (ignore-Balanced i c db h)

  transact_all-Balanced :
      (ts : List BillingTransaction) (db : Store Books) → Sound db → Sound (transact_all rest ts db)
  unfolding transact_all
  transact_all-Balanced [] db h = h
  transact_all-Balanced (t ∷ ts) db h =
      transact_all-Balanced ts (transact rest t db) (transact-Balanced t db h)

find_payment-Valid :
    (i : ℕ) (ps : List Payment) (p : Payment)
    → All ValidPayment ps
    → find_payment i ps ≡ some p
    → ValidPayment p
unfolding find_payment
find_payment-Valid i [] p h e = cc
find_payment-Valid i (q ∷ qs) p h e = elim (Bool-cases (q.id == i)) [
  | inl t ↦ let same : q ≡ p = ground arith in rw (← same) h.0
  | inr t ↦
      let found : find_payment i qs ≡ some p = ground arith in find_payment-Valid i qs p h.1 found
]

Returned-bounds :
    (s : PaymentStatus) (back amount : ℕ)
    → Returned s back amount
    → (back ≤ amount) × (0 < amount) × ((s ≡ PaymentStatus.refunded) ↔ (back ≡ amount))
Returned-bounds succeeded back amount h = ground arith
Returned-bounds partially_refunded back amount h = ground arith
Returned-bounds PaymentStatus.refunded back amount h = ground arith
Returned-bounds pending back amount h = ground arith
Returned-bounds failed back amount h = ground arith

-- If the other services keep the amounts of the invoices right and those of the store are right, then
-- after any transactions of bookings, invoices, payments and reconciliation, in any order and on any
-- snapshots, those that throw being rolled back, the total of every invoice is the sum of its items,
-- and its paid amount is the sum over all its payments of what was received and not given back.
pub transact_all-amounts :
    (rest : Services Books) (ts : List BillingTransaction) (db : Store Books) (i : ℕ) (v : Invoice)
    → Keeps Balanced rest
    → Balanced db.others
    → find_id i (transact_all rest ts db).others.invoices ≡ some v
    → (v.total_vnd ≡ sum_items any_type v.id (transact_all rest ts db).others.items)
      × (v.paid_vnd ≡ pos (received v.id (transact_all rest ts db).others.payments))
transact_all-amounts rest ts db i v keeps h e =
    Balanced-amounts i (transact_all rest ts db).others v (transact_all-Balanced rest keeps ts db h)
      e

-- Under the same conditions no payment is given back by more than its amount, which is positive, and
-- a payment is REFUNDED exactly when all of it was given back.
pub transact_all-refunds :
    (rest : Services Books) (ts : List BillingTransaction) (db : Store Books) (i : ℕ) (p : Payment)
    → Keeps Balanced rest
    → Balanced db.others
    → find_payment i (transact_all rest ts db).others.payments ≡ some p
    → (p.refunded_amount_vnd ≤ p.amount_vnd)
      × (0 < p.amount_vnd)
      × ((p.status ≡ PaymentStatus.refunded) ↔ (p.refunded_amount_vnd ≡ p.amount_vnd))
transact_all-refunds rest ts db i p keeps h e =
    let d = (transact_all rest ts db).others in
    let ledger = Balanced-Ledger d (transact_all-Balanced rest keeps ts db h) in
    Returned-bounds p.status p.refunded_amount_vnd p.amount_vnd
      (find_payment-Valid i d.payments p ledger.0 e)
