-- ===== src/Invoices/Rows.antt =====
-- The rows of invoices, by their ids.
use pms_homestay.Prelude.{
  ℕ, ◌+◌, ◌<◌, ◌≡◌, refl, ap, ◌∙◌, Bool, true, false, none, some, List, [], ◌∷◌, ◌++◌, All,
  Bool-cases, inl, inr, ◌==◌, arith,
}
use pms_homestay.Prelude.Int.{pos}
use pms_homestay.Invoices.Types.{Invoice, InvoiceItem, Books}
use pms_homestay.Invoices.Triggers.{sum_items, any_type, update_invoice, add_item, with_totals}
use pms_homestay.Invoices.Issue.{largest_invoice, add_items}
use pms_homestay.Invoices.Service.{find_id}
use pms_homestay.Invoices.Ledger.{received, paid_of-received}
use pms_homestay.Invoices.Balance.{AddsUp}
use pms_homestay.Invoices.Writes.{Balanced}

pub find_id-update :
    (i : ℕ) (f : Invoice → Invoice) (vs : List Invoice) (v : Invoice)
    → ((w : Invoice) → (w.id == i) ≡ true → ((f w).id == i) ≡ true)
    → find_id i vs ≡ some v
    → find_id i (update_invoice i f vs) ≡ some (f v)
unfolding find_id update_invoice
find_id-update i f [] v ids e = cc
find_id-update i f (w ∷ ws) v ids e = elim (Bool-cases (w.id == i)) [
  | inl t ↦ let same : w ≡ v = ground arith in rw (t, ids w t) (ap (λ x. some (f x)) same)
  | inr t ↦
      let found : find_id i ws ≡ some v = ground arith in
      rw (t, t) (find_id-update i f ws v ids found)
]

pub find_id-same :
    (i : ℕ) (vs : List Invoice) (v : Invoice) → find_id i vs ≡ some v → (v.id == i) ≡ true
unfolding find_id
find_id-same i [] v e = cc
find_id-same i (w ∷ ws) v e = elim (Bool-cases (w.id == i)) [
  | inl t ↦ let same : w ≡ v = ground arith in rw (← same) t
  | inr t ↦ let found : find_id i ws ≡ some v = ground arith in find_id-same i ws v found
]

find_id-All :
    (P : Invoice → Type 0) (i : ℕ) (vs : List Invoice) (v : Invoice)
    → All P vs
    → find_id i vs ≡ some v
    → P v
unfolding find_id
find_id-All P i [] v h e = cc
find_id-All P i (w ∷ ws) v h e = elim (Bool-cases (w.id == i)) [
  | inl t ↦ let same : w ≡ v = ground arith in rw (← same) h.0
  | inr t ↦ let found : find_id i ws ≡ some v = ground arith in find_id-All P i ws v h.1 found
]

pub Balanced-amounts :
    (i : ℕ) (b : Books) (v : Invoice)
    → Balanced b
    → find_id i b.invoices ≡ some v
    → (v.total_vnd ≡ sum_items any_type v.id b.items)
      × (v.paid_vnd ≡ pos (received v.id b.payments))
unfolding Balanced
Balanced-amounts i b v h e =
    let sums = find_id-All (AddsUp b.items b.payments) i b.invoices v h.0 e in
    (sums.0, sums.1 ∙ paid_of-received v.id b.payments h.1)

fresh_row : (i : ℕ) (vs : List Invoice) → largest_invoice vs < i → find_id i vs ≡ none
unfolding find_id largest_invoice
fresh_row i [] h = refl
fresh_row i (v ∷ vs) h =
    let other : (v.id == i) ≡ false = ground arith in rw other (fresh_row i vs (omega arith))

pub find_id-append :
    (i : ℕ) (vs : List Invoice) (v : Invoice)
    → largest_invoice vs < i
    → (v.id == i) ≡ true
    → find_id i (vs ++ (v ∷ [])) ≡ some v
unfolding find_id largest_invoice
find_id-append i [] v h t = rw t refl
find_id-append i (w ∷ ws) v h t =
    let other : (w.id == i) ≡ false = ground arith in
    rw other (find_id-append i ws v (omega arith) t)

abbrev pub Has : ℕ → List Invoice → Type 0
Has i vs = (v : Invoice) × (find_id i vs ≡ some v)

Has-update :
    (i j : ℕ) (f : Invoice → Invoice) (vs : List Invoice)
    → ((w : Invoice) (t : Bool) → (w.id == i) ≡ t → ((f w).id == i) ≡ t)
    → Has i vs
    → Has i (update_invoice j f vs)
unfolding find_id update_invoice
Has-update i j f [] ids (v, e) = cc
Has-update i j f (w ∷ ws) ids (v, e) = elim (Bool-cases (w.id == i)) [
  | inl t ↦ elim (Bool-cases (w.id == j)) [
    | inl c ↦ (f w, rw (c, ids w true t) refl)
    | inr c ↦ (w, rw (c, t) refl)
  ]
  | inr t ↦
      let found : find_id i ws ≡ some v = ground arith in
      let (x, row) = Has-update i j f ws ids (v, found) in
      elim (Bool-cases (w.id == j)) [
        | inl c ↦ (x, rw (c, ids w false t) row)
        | inr c ↦ (x, rw (c, t) row)
      ]
]

pub add_item-Has :
    (i : ℕ) (x : InvoiceItem) (b : Books) → Has i b.invoices → Has i (add_item x b).invoices
unfolding add_item with_totals
add_item-Has i x b h =
    Has-update i x.invoice_id (with_totals (b.items ++ (x ∷ []))) b.invoices (λ w t e. e) h

pub add_items-Has :
    {A : Type 0} (row : ℕ → A → InvoiceItem) (i order : ℕ) (xs : List A) (b : Books)
    → Has i b.invoices
    → Has i (add_items row order xs b).invoices
unfolding add_items
add_items-Has row i order [] b h = h
add_items-Has row i order (x ∷ xs) b h =
    add_items-Has row i (order + 1) xs (add_item (row order x) b) (add_item-Has i (row order x) b h)
