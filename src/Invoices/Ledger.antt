-- ===== src/Invoices/Ledger.antt =====
-- What the rows of payments say, with the constraints of the table.
use pms_homestay.Prelude.{
  ℕ, ◌+◌, ◌-◌, ◌<◌, ◌≡◌, refl, true, false, List, [], ◌∷◌, ◌++◌, All, All-append, ◌⊎◌, Bool-cases,
  inl, inr, ◌==◌, if◌then◌else◌, arith, ◌≤◌,
}
use pms_homestay.Prelude.Int.{pos, ◌-ℤ◌}
use pms_homestay.Invoices.Types.{
  Payment, PaymentStatus, pending, succeeded, failed, partially_refunded,
}
use pms_homestay.Invoices.Triggers.{sum_payments, paid_of, is_counted}

-- The status of a payment tells how much of it was given back.
abbrev pub Returned : PaymentStatus → ℕ → ℕ → Type 0
Returned succeeded back amount = (back ≡ 0) × (0 < amount)
Returned partially_refunded back amount = (0 < back) × (back < amount)
Returned PaymentStatus.refunded back amount = (back ≡ amount) × (0 < amount)
Returned pending back amount = back < 0
Returned failed back amount = back < 0

abbrev pub ValidPayment : Payment → Type 0
ValidPayment p = Returned p.status p.refunded_amount_vnd p.amount_vnd

abbrev pub DistinctIds : List Payment → Type 0
DistinctIds [] = Unit
DistinctIds (p ∷ ps) = All (λ q. (q.id == p.id) ≡ false) ps × DistinctIds ps

abbrev pub Ledger : List Payment → Type 0
Ledger ps = All ValidPayment ps × DistinctIds ps

-- What an invoice has received and not given back, whatever the status of its payments
unfoldable pub received : ℕ → List Payment → ℕ
received inv [] = 0
received inv (p ∷ ps) =
    let rest = received inv ps in
    if p.invoice_id == inv then p.amount_vnd - p.refunded_amount_vnd + rest else rest

counts :
    (s : PaymentStatus) (back amount : ℕ)
    → Returned s back amount
    → ((is_counted s ≡ true) × (back ≤ amount)) ⊎ ((is_counted s ≡ false) × (amount - back ≡ 0))
unfolding is_counted
counts succeeded back amount h = inl (refl, omega arith)
counts partially_refunded back amount h = inl (refl, omega arith)
counts PaymentStatus.refunded back amount h = inr (refl, omega arith)
counts pending back amount h = inr (refl, omega arith)
counts failed back amount h = inr (refl, omega arith)

received_sums :
    (inv : ℕ) (ps : List Payment)
    → All ValidPayment ps
    → received inv ps + sum_payments (λ p. p.refunded_amount_vnd) inv ps
      ≡ sum_payments (λ p. p.amount_vnd) inv ps
unfolding received sum_payments
received_sums inv [] h = refl
received_sums inv (p ∷ ps) h =
    let rest = received_sums inv ps h.1 in
    elim (Bool-cases (p.invoice_id == inv)) [
      | inl t ↦ elim (counts p.status p.refunded_amount_vnd p.amount_vnd h.0) [
        | inl c ↦ rw (t, c.0) (omega arith)
        | inr c ↦ rw (t, c.0) (omega arith)
      ]
      | inr t ↦ rw t rest
    ]

pub paid_of-received :
    (inv : ℕ) (ps : List Payment) → Ledger ps → paid_of inv ps ≡ pos (received inv ps)
unfolding paid_of ◌-ℤ◌
paid_of-received inv ps h = let e = received_sums inv ps h.0 in ground arith

append_DistinctIds :
    (ps : List Payment) (q : Payment)
    → All (λ p. (q.id == p.id) ≡ false) ps
    → DistinctIds ps
    → DistinctIds (ps ++ (q ∷ []))
append_DistinctIds [] q h d = (tt, tt)
append_DistinctIds (p ∷ ps) q h d =
    (All-append (λ r. (r.id == p.id) ≡ false) ps q d.0 h.0, append_DistinctIds ps q h.1 d.1)

pub append-Ledger :
    (ps : List Payment) (q : Payment)
    → Ledger ps
    → ValidPayment q
    → All (λ p. (q.id == p.id) ≡ false) ps
    → Ledger (ps ++ (q ∷ []))
append-Ledger ps q h v fresh =
    (All-append ValidPayment ps q h.0 v, append_DistinctIds ps q fresh h.1)
