-- ===== src/Engine/Builder/Totals.antt =====
-- The totals of a quote against the plain sum of its lines.
use pms_homestay.Calendar.{Date}
use pms_homestay.Prelude.{Option, sym, ◌≡◌, ap, ◌∙◌, List, [], ◌∷◌, ◌++◌, arith}
use pms_homestay.Prelude.Int.{ℤ, pos, ◌+ℤ◌, ◌-ℤ◌, ◌*ℤ◌, +ℤ_assoc, int_laws}
use pms_homestay.Money.{round_vnd}
use pms_homestay.Engine.Types.{LineItemType, discount, tax, Description, QuoteLineItem}
use pms_homestay.Engine.Builder.{line, Sums, add_line, sum_lines, BuildArgs, build_quote}

pub round_vnd-one : (a : ℤ) → round_vnd a 1 ≡ a
unfolding round_vnd
round_vnd-one a = ground arith

-- The sum of the amounts of the lines, whatever their types.
unfoldable pub amounts : List QuoteLineItem → ℤ
amounts [] = pos 0
amounts (li ∷ lis) = li.amount_vnd +ℤ amounts lis

zero-+ℤ : (a : ℤ) → pos 0 -ℤ pos 0 +ℤ pos 0 +ℤ a ≡ a
zero-+ℤ a = omega int_laws

abbrev net : Sums → ℤ
net s = s.subtotal -ℤ s.discount +ℤ s.tax

net-add_line : (t : LineItemType) (a : ℤ) (s : Sums) → net (add_line t a s) ≡ net s +ℤ a
unfolding add_line
net-add_line discount a s = omega int_laws
net-add_line tax a s = omega int_laws
net-add_line _ a s = omega int_laws

net-sum_lines : (s : Sums) (lis : List QuoteLineItem) → net (sum_lines s lis) ≡ net s +ℤ amounts lis
unfolding sum_lines amounts
net-sum_lines s [] = omega int_laws
net-sum_lines s (li ∷ lis) =
    net-sum_lines (add_line li.type li.amount_vnd s) lis
    ∙ ap (λ (x : ℤ). x +ℤ amounts lis) (net-add_line li.type li.amount_vnd s)
    ∙ +ℤ_assoc (net s) li.amount_vnd (amounts lis)

-- The total of a built quote is the sum of the amounts of its lines, discounts counting as the
-- negative amounts that they are stored with.
pub total-build_quote :
    (args : BuildArgs) → (build_quote args).total_vnd ≡ amounts (build_quote args).line_items
unfolding build_quote
total-build_quote args =
    net-sum_lines (record { subtotal = pos 0; discount = pos 0; tax = pos 0 }) args.line_items
    ∙ zero-+ℤ (amounts args.line_items)

pub amounts-append : (xs ys : List QuoteLineItem) → amounts (xs ++ ys) ≡ amounts xs +ℤ amounts ys
unfolding amounts
amounts-append [] ys = omega int_laws
amounts-append (x ∷ xs) ys =
    ap (λ (a : ℤ). x.amount_vnd +ℤ a) (amounts-append xs ys)
    ∙ sym (+ℤ_assoc x.amount_vnd (amounts xs) (amounts ys))

pub amount-line :
    (t : LineItemType) (d : Description) (q u : ℤ) (on : Option Date)
    → (line t d q u on).amount_vnd ≡ q *ℤ u
unfolding line
amount-line t d q u on = round_vnd-one (q *ℤ u)

pub one-*ℤ : (a : ℤ) → pos 1 *ℤ a ≡ a
unfolding ◌*ℤ◌
one-*ℤ a = ground arith
