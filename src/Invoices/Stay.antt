-- ===== src/Invoices/Stay.antt =====
-- What an invoice of a stay comes to.
use pms_homestay.Prelude.{ℕ, ◌+◌, none, some, List, [], ◌∷◌}
use pms_homestay.Prelude.Int.{ℤ, pos, ◌+ℤ◌}
use pms_homestay.Engine.Types.{QuoteLineItem}
use pms_homestay.Bookings.Types.{Booking, Surcharge}
use pms_homestay.Invoices.Types.{deposit, stay, Books, applied}
use pms_homestay.Invoices.Issue.{
  new_invoice_id, open_invoice, find_invoice, surcharge_item, add_items, add_lines, lines_of,
  lines_count, count, apply_deposit,
}

unfoldable pub sum_amounts : {A : Type 0} → (A → ℤ) → List A → ℤ
sum_amounts amount [] = pos 0
sum_amounts amount (x ∷ xs) = amount x +ℤ sum_amounts amount xs

-- What a stay is billed for: the lines of the quote that the booking names, whatever the booking's
-- total is by then, or that total where there are no lines
unfoldable pub billed_price : Booking → List QuoteLineItem → ℤ
unfolding sum_amounts
billed_price booking [] = booking.total_amount_vnd
billed_price booking (l ∷ ls) = sum_amounts (λ x. x.amount_vnd) (l ∷ ls)

module _ (booking : Booking) (extras : List Surcharge) (b : Books) where
  abbrev new : ℕ
  new = new_invoice_id b

  abbrev lines : List QuoteLineItem
  lines = lines_of booking.quote_id b

  abbrev charged : Books
  charged =
      add_items (surcharge_item new) (lines_count lines) extras
        (add_lines new booking lines (open_invoice (some booking.id) stay none b))

  abbrev deducted : Books
  deducted =
      apply_deposit new applied (lines_count lines + count extras)
        (find_invoice booking.id deposit charged.invoices) charged
