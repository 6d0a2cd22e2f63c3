-- ===== src/Payments/Writes.antt =====
-- The calls of payments.service.ts keep the amounts of every invoice right.
use Prim.Native.String.{String}
use pms_homestay.Prelude.{
  ok-injective, leb→le, ℕ, ◌+◌, ◌-◌, ◌<◌, ◌≤◌, ◌≡◌, refl, sym, ap, ◌∙◌, true, false, not, ◌||◌,
  List, [], ◌∷◌, ◌++◌, Option, none, some, Bool-cases, inl, inr, ◌==◌, ltb, leb, arith, All, ok,
  Ensures, Ensures-guard, Ensures-bind, Ensures-next, Ensures-then, throw_if,
}
use pms_homestay.Bookings.Types.{Store}
use pms_homestay.Invoices.Types.{Invoice, Payment, PaymentStatus, succeeded, Books}
use pms_homestay.Invoices.Triggers.{sum_payments, paid_of, is_counted, with_paid, set_payments}
use pms_homestay.Invoices.Service.{
  BillingCaller, BillingError, unique_key_violation, invoice_not_found, payment_not_found,
  payment_not_refundable, refund_amount_invalid, find_id, or_error, set_books,
}
use pms_homestay.Bookings.Types.{emit_booking, add_history}
use pms_homestay.Bookings.Lifecycle.{confirm_from_deposit_paid, note_change}
use pms_homestay.Payments.{
  PaymentInput, largest_id, insert_payment, confirm_if_paid, new_payment, apply_payment_in_tx,
  update_payment, find_payment, key_used, add_attempt, with_refund, refund_status, write_refund,
  refund_tx, refund_amount, RefundPaymentRequest,
}
use pms_homestay.Invoices.Ledger.{Ledger, ValidPayment, DistinctIds, append-Ledger}
use pms_homestay.Invoices.Balance.{AddsUp, update_invoice-All}
use pms_homestay.Invoices.Writes.{Balanced, Balanced-Ledger, add_event-Balanced}

flip_id : (i j : ℕ) → (i == j) ≡ false → (j == i) ≡ false
flip_id i j h = ground arith

-- A write of payments that changes only those of the invoice `inv`
pub set_payments-Balanced :
    (now inv : ℕ) (ps : List Payment) (b : Books)
    → ((j : ℕ) → (j == inv) ≡ false → paid_of j ps ≡ paid_of j b.payments)
    → Ledger ps
    → Balanced b
    → Balanced (set_payments now inv ps b)
unfolding Balanced set_payments with_paid
set_payments-Balanced now inv ps b same ledger h = (
  update_invoice-All (AddsUp b.items b.payments) (AddsUp b.items ps) inv (with_paid now ps)
      b.invoices (λ v t a. (a.0, refl)) (λ v t a. (a.0, a.1 ∙ sym (same v.id t))) h.0,
  ledger,
)

sum_payments-append_other :
    (column : Payment → ℕ) (j : ℕ) (q : Payment) (ps : List Payment)
    → (q.invoice_id == j) ≡ false
    → sum_payments column j (ps ++ (q ∷ [])) ≡ sum_payments column j ps
unfolding sum_payments
sum_payments-append_other column j q [] h = rw h refl
sum_payments-append_other column j q (p ∷ ps) h =
    rw (sum_payments-append_other column j q ps h) refl

pub paid_of-append_other :
    (j : ℕ) (q : Payment) (ps : List Payment)
    → (j == q.invoice_id) ≡ false
    → paid_of j (ps ++ (q ∷ [])) ≡ paid_of j ps
unfolding paid_of
paid_of-append_other j q ps h =
    rw
      (
        sum_payments-append_other (λ p. p.amount_vnd) j q ps (flip_id _ _ h),
        sum_payments-append_other (λ p. p.refunded_amount_vnd) j q ps (flip_id _ _ h),
      )
      refl

pub fresh_id : (i : ℕ) (ps : List Payment) → largest_id ps < i → All (λ p. (i == p.id) ≡ false) ps
unfolding largest_id
fresh_id i [] h = tt
fresh_id i (p ∷ ps) h = (ground arith, fresh_id i ps (omega arith))

add_attempt-Balanced :
    (payment number : ℕ) (status : PaymentStatus) (b : Books)
    → Balanced b
    → Balanced (add_attempt payment number status b)
unfolding Balanced
add_attempt-Balanced payment number status b h = h

pub insert_payment-Balanced :
    (p : Payment) (now : ℕ) (b : Books)
    → p.status ≡ succeeded
    → p.refunded_amount_vnd ≡ 0
    → largest_id b.payments < p.id
    → Balanced b
    → Ensures Balanced (insert_payment p now b)
unfolding insert_payment
insert_payment-Balanced p now b s r fresh h =
    Ensures-guard Balanced (not (ltb 0 p.amount_vnd)) _ _ (λ e.
      Ensures-then Balanced (throw_if (key_used p.idempotency_key b.payments) unique_key_violation)
        _
        (let positive : 0 < p.amount_vnd = ground arith in
          let valid : ValidPayment p = rw s (r, positive) in
          let ledger =
            append-Ledger b.payments p (Balanced-Ledger b h) valid
              (fresh_id p.id b.payments fresh) in
          add_attempt-Balanced p.id 1 succeeded _ (
            set_payments-Balanced now p.invoice_id (b.payments ++ (p ∷ [])) b
              (λ j t. paid_of-append_other j p b.payments t) ledger h)))

-- A deposit that is paid writes the booking, its history and the outbox.
pub confirm_if_paid-others :
    (v : Invoice) (by : Option ℕ) (db : Store Books) → (confirm_if_paid v by db).others ≡ db.others
unfolding confirm_if_paid confirm_from_deposit_paid emit_booking note_change add_history
confirm_if_paid-others v by db = ground arith

confirm_if_paid-Balanced :
    (v : Invoice) (by : Option ℕ) (db : Store Books)
    → Balanced db.others
    → Balanced ((confirm_if_paid v by db).others)
confirm_if_paid-Balanced v by db h = rw (confirm_if_paid-others v by db) h

pub apply_payment_in_tx-Balanced :
    (p : PaymentInput) (now : ℕ) (db : Store Books)
    → Balanced db.others
    → Ensures (λ r. Balanced (r.0.others)) (apply_payment_in_tx p now db)
unfolding apply_payment_in_tx new_payment
apply_payment_in_tx-Balanced p now db h =
    let Q : Store Books × Payment → Type 0 = λ r. Balanced (r.0.others) in
    Ensures-bind Q Balanced _ _ (insert_payment-Balanced _ now db.others refl refl (omega arith) h)
      (λ books k.
        Ensures-next Q (or_error (find_id p.invoice_id books.invoices) invoice_not_found) _ (λ v e.
          add_event-Balanced _ _ (confirm_if_paid-Balanced v p.received_by (set_books db books) k)))

update_absent :
    (i : ℕ) (f : Payment → Payment) (ps : List Payment)
    → All (λ q. (q.id == i) ≡ false) ps
    → update_payment i f ps ≡ ps
unfolding update_payment
update_absent i f [] h = refl
update_absent i f (p ∷ ps) h = rw (h.0, update_absent i f ps h.1) refl

All-same :
    {A : Type 0} (P Q : A → Type 0) (xs : List A) → ((x : A) → P x → Q x) → All P xs → All Q xs
All-same P Q [] h a = tt
All-same P Q (x ∷ xs) h a = (h x a.0, All-same P Q xs h a.1)

same_ids : (i j k : ℕ) → (i == k) ≡ true → (j == i) ≡ false → (j == k) ≡ false
same_ids i j k h t = ground arith

module _ (i : ℕ) (f : Payment → Payment) (ids : (q : Payment) → (f q).id ≡ q.id) where
  update_ids :
      (k : ℕ) (ps : List Payment)
      → All (λ q. (q.id == k) ≡ false) ps
      → All (λ q. (q.id == k) ≡ false) (update_payment i f ps)
  unfolding update_payment
  update_ids k [] h = tt
  update_ids k (p ∷ ps) h = elim (Bool-cases (p.id == i)) [
    | inl t ↦ rw t (rw (ids p) h.0, update_ids k ps h.1)
    | inr t ↦ rw t (h.0, update_ids k ps h.1)
  ]

  -- The only row of an id is the one that is found.
  update_payment-Ledger :
      (ps : List Payment) (p : Payment)
      → find_payment i ps ≡ some p
      → Ledger ps
      → ((q : Payment) → q ≡ p → ValidPayment q → ValidPayment (f q))
      → Ledger (update_payment i f ps)
  unfolding update_payment find_payment
  update_payment-Ledger [] p e h k = (tt, tt)
  update_payment-Ledger (q ∷ qs) p e h k = elim (Bool-cases (q.id == i)) [
    | inl t ↦
        let same : q ≡ p = ground arith in
        let gone : All (λ r. (r.id == i) ≡ false) qs =
          All-same (λ r. (r.id == q.id) ≡ false) (λ r. (r.id == i) ≡ false) qs
            (λ r. same_ids q.id r.id i t) h.1.0 in
        rw (t, update_absent i f qs gone) ((k q same h.0.0, h.0.1), (rw (ids q) h.1.0, h.1.1))
    | inr t ↦
        let found : find_payment i qs ≡ some p = ground arith in
        let rest = update_payment-Ledger qs p found (h.0.1, h.1.1) k in
        rw t ((h.0.0, rest.0), (update_ids q.id qs h.1.0, rest.1))
  ]

  update_payment-sums :
      (column : Payment → ℕ) (invoice : (q : Payment) → (f q).invoice_id ≡ q.invoice_id) (j : ℕ)
      (ps : List Payment) (p : Payment)
      → find_payment i ps ≡ some p
      → DistinctIds ps
      → (j == p.invoice_id) ≡ false
      → sum_payments column j (update_payment i f ps) ≡ sum_payments column j ps
  unfolding update_payment find_payment sum_payments
  update_payment-sums column invoice j [] p e h d = refl
  update_payment-sums column invoice j (q ∷ qs) p e h d = elim (Bool-cases (q.id == i)) [
    | inl t ↦
        let same : q ≡ p = ground arith in
        let gone : All (λ r. (r.id == i) ≡ false) qs =
          All-same (λ r. (r.id == q.id) ≡ false) (λ r. (r.id == i) ≡ false) qs
            (λ r. same_ids q.id r.id i t) h.0 in
        let other : (q.invoice_id == j) ≡ false = rw same (flip_id _ _ d) in
        rw (t, update_absent i f qs gone, invoice q, other) refl
    | inr t ↦
        let found : find_payment i qs ≡ some p = ground arith in
        rw (t, update_payment-sums column invoice j qs p found h.1 d) refl
  ]

or_error-found :
    {A : Type 0} (o : Option A) (e : BillingError) (a : A) → or_error o e ≡ ok a → o ≡ some a
or_error-found none e a h = cc
or_error-found (some b) e a h = ap some (ok-injective b a h)

refund_bounds :
    (amount remaining : ℕ)
    → (not (ltb 0 amount) || ltb remaining amount) ≡ false
    → (0 < amount) × (amount ≤ remaining)
refund_bounds amount remaining h = ground arith

with_refund-Valid :
    (refunded : ℕ) (reason : String) (p : Payment)
    → 0 < refunded
    → refunded ≤ p.amount_vnd
    → ValidPayment (with_refund refunded reason p)
unfolding with_refund refund_status
with_refund-Valid refunded reason p h k = elim (Bool-cases (leb p.amount_vnd refunded)) [
  | inl t ↦ let le = leb→le p.amount_vnd refunded t in rw t (omega arith, omega arith)
  | inr t ↦ let lt : refunded < p.amount_vnd = ground arith in rw t (h, lt)
]

write_refund-Balanced :
    (i : ℕ) (p : Payment) (refunded : ℕ) (reason : String) (now : ℕ) (b : Books)
    → find_payment i b.payments ≡ some p
    → 0 < refunded
    → refunded ≤ p.amount_vnd
    → Balanced b
    → Balanced (write_refund i p refunded reason now b)
unfolding write_refund
write_refund-Balanced i p refunded reason now b e positive le h =
    let f = with_refund refunded reason in
    let ledger = Balanced-Ledger b h in
    let ids : (q : Payment) → (f q).id ≡ q.id = unfold with_refund in λ q. refl in
    let invoice : (q : Payment) → (f q).invoice_id ≡ q.invoice_id =
      unfold with_refund in λ q. refl in
    add_attempt-Balanced i 0 _ _ (
      set_payments-Balanced now p.invoice_id (update_payment i f b.payments) b
        (λ j t.
          let amounts =
            update_payment-sums i f ids (λ q. q.amount_vnd) invoice j b.payments p e ledger.1 t in
          let backs =
            update_payment-sums i f ids (λ q. q.refunded_amount_vnd) invoice j b.payments p e
              ledger.1 t in
          unfold paid_of in rw (amounts, backs) refl)
        (update_payment-Ledger i f ids b.payments p e ledger
          (λ q same v. with_refund-Valid refunded reason q positive (rw same le)))
        h)

pub refund_tx-Balanced :
    (i : ℕ) (dto : RefundPaymentRequest) (property : Option ℕ) (c : BillingCaller)
    (db : Store Books)
    → Balanced db.others
    → Ensures (λ d. Balanced d.others) (refund_tx i dto property c db)
unfolding refund_tx
refund_tx-Balanced i dto property c db h =
    let Q : Store Books → Type 0 = λ d. Balanced d.others in
    Ensures-next Q (or_error (find_payment i db.others.payments) payment_not_found) _ (λ p e.
      let remaining = p.amount_vnd - p.refunded_amount_vnd in
      let amount = refund_amount dto.amount_vnd remaining in
      Ensures-then Q (throw_if (not (is_counted p.status)) payment_not_refundable) _ (
        Ensures-guard Q (not (ltb 0 amount) || ltb remaining amount) refund_amount_invalid _ (λ t.
          let bounds = refund_bounds amount remaining t in
          add_event-Balanced _ _ (
            write_refund-Balanced i p (p.refunded_amount_vnd + amount) dto.reason c.now db.others
              (or_error-found (find_payment i db.others.payments) payment_not_found p e)
              (omega arith) (omega arith) h))))
