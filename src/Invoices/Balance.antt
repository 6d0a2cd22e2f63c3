-- ===== src/Invoices/Balance.antt =====
-- What the amounts of an invoice say of its items and payments, and that the writes of
-- invoices.service.ts keep it.
use pms_homestay.Prelude.{
  ℕ, ◌+◌, ◌<◌, ◌≡◌, refl, Bool, true, false, List, [], ◌∷◌, ◌++◌, Bool-cases, inl, inr, ◌==◌, All,
  All-append, Option, arith,
}
use pms_homestay.Prelude.Int.{pos, ◌-ℤ◌}
use pms_homestay.Invoices.Types.{Invoice, InvoiceKind, InvoiceItem, ItemType, Payment, Books}
use pms_homestay.Invoices.Triggers.{
  sum_items, any_type, update_invoice, with_totals, add_item, sum_payments, paid_of,
}
use pms_homestay.Invoices.Issue.{
  largest_item, largest_payment, new_invoice_id, new_invoice, open_invoice, as_issued, set_issued,
  add_items,
}

-- The total of an invoice is the sum of its items, and what is paid that of its payments.
abbrev pub AddsUp : List InvoiceItem → List Payment → Invoice → Type 0
AddsUp items payments v =
    (v.total_vnd ≡ sum_items any_type v.id items) × (v.paid_vnd ≡ paid_of v.id payments)

abbrev pub Totals : Books → Type 0
Totals b = All (AddsUp b.items b.payments) b.invoices

module _ (P Q : Invoice → Type 0) where
  pub update_invoice-All :
      (i : ℕ) (f : Invoice → Invoice) (vs : List Invoice)
      → ((v : Invoice) → (v.id == i) ≡ true → P v → Q (f v))
      → ((v : Invoice) → (v.id == i) ≡ false → P v → Q v)
      → All P vs
      → All Q (update_invoice i f vs)
  unfolding update_invoice
  update_invoice-All i f [] h k a = tt
  update_invoice-All i f (v ∷ vs) h k a = elim (Bool-cases (v.id == i)) [
    | inl t ↦ rw t (h v t a.0, update_invoice-All i f vs h k a.1)
    | inr t ↦ rw t (k v t a.0, update_invoice-All i f vs h k a.1)
  ]

  pub All-map : (vs : List Invoice) → ((v : Invoice) → P v → Q v) → All P vs → All Q vs
  All-map [] h a = tt
  All-map (v ∷ vs) h a = (h v a.0, All-map vs h a.1)

other_id : (i j k : ℕ) → (i == k) ≡ false → (j == k) ≡ true → (j == i) ≡ false
other_id i j k h t = ground arith

flip_id : (i j : ℕ) → (i == j) ≡ false → (j == i) ≡ false
flip_id i j h = ground arith

sum_items-append_other :
    (test : ItemType → Bool) (i : ℕ) (x : InvoiceItem) (xs : List InvoiceItem)
    → (x.invoice_id == i) ≡ false
    → sum_items test i (xs ++ (x ∷ [])) ≡ sum_items test i xs
unfolding sum_items
sum_items-append_other test i x [] h = rw h refl
sum_items-append_other test i x (y ∷ ys) h = rw (sum_items-append_other test i x ys h) refl

pub sum_items-fresh :
    (test : ItemType → Bool) (i : ℕ) (xs : List InvoiceItem)
    → largest_item xs < i
    → sum_items test i xs ≡ pos 0
unfolding sum_items largest_item
sum_items-fresh test i [] h = refl
sum_items-fresh test i (x ∷ xs) h =
    let e : (x.invoice_id == i) ≡ false = ground arith in
    rw (e, sum_items-fresh test i xs (omega arith)) refl

sum_payments-fresh :
    (column : Payment → ℕ) (i : ℕ) (ps : List Payment)
    → largest_payment ps < i
    → sum_payments column i ps ≡ 0
unfolding sum_payments largest_payment
sum_payments-fresh column i [] h = refl
sum_payments-fresh column i (p ∷ ps) h =
    let e : (p.invoice_id == i) ≡ false = ground arith in
    rw (e, sum_payments-fresh column i ps (omega arith)) refl

pub add_item-Totals : (x : InvoiceItem) (b : Books) → Totals b → Totals (add_item x b)
unfolding add_item with_totals
add_item-Totals x b h =
    let items = b.items ++ (x ∷ []) in
    update_invoice-All (AddsUp b.items b.payments) (AddsUp items b.payments) x.invoice_id
      (with_totals items) b.invoices (λ v t a. (refl, a.1))
      (λ v t a. (rw (sum_items-append_other any_type v.id x b.items (flip_id _ _ t)) a.0, a.1)) h

pub open_invoice-Totals :
    (booking : Option ℕ) (kind : InvoiceKind) (due : Option ℕ) (b : Books)
    → Totals b
    → Totals (open_invoice booking kind due b)
unfolding open_invoice new_invoice new_invoice_id paid_of
open_invoice-Totals booking kind due b h =
    let i = new_invoice_id b in
    All-append (AddsUp b.items b.payments) b.invoices _ h (
      rw (sum_items-fresh any_type i b.items (omega arith)) refl,
      rw
          (
            sum_payments-fresh (λ p. p.amount_vnd) i b.payments (omega arith),
            sum_payments-fresh (λ p. p.refunded_amount_vnd) i b.payments (omega arith),
          )
          (unfold ◌-ℤ◌ in refl),
    )

pub set_issued-Totals : (now i : ℕ) (b : Books) → Totals b → Totals (set_issued now i b)
unfolding set_issued as_issued
set_issued-Totals now i b h =
    let P = AddsUp b.items b.payments in
    update_invoice-All P P i (as_issued now) b.invoices (λ v t a. a) (λ v t a. a) h

pub add_items-Totals :
    {A : Type 0} (row : ℕ → A → InvoiceItem) (order : ℕ) (xs : List A) (b : Books)
    → Totals b
    → Totals (add_items row order xs b)
unfolding add_items
add_items-Totals row order [] b h = h
add_items-Totals row order (x ∷ xs) b h =
    add_items-Totals row (order + 1) xs (add_item (row order x) b)
      (add_item-Totals (row order x) b h)
