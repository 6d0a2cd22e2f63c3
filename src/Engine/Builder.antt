-- ===== src/Engine/Builder.antt =====
-- builder.ts: price lines, and the totals of a quote.
pub mod Totals
use pms_homestay.Prelude.{ℕ, ◌+◌, ◌≡◌, refl, Option, none, some, List, [], ◌∷◌, ◌++◌}
use pms_homestay.Prelude.Int.{ℤ, pos, ◌+ℤ◌, ◌-ℤ◌, ◌*ℤ◌}
use pms_homestay.Calendar.{Date}
use pms_homestay.Money.{round_vnd}
use pms_homestay.Engine.Types.{
  LineItemType, room_charge, surcharge, discount, tax, utility, amenity, Description, QuoteLineItem,
  DepositType, no_deposit, fixed, percent, PricingMode, Quote, VietnamHoliday, Notes, or_else,
}

-- line(type, description, quantity, unitPriceVnd, localDate)
unfoldable pub line : LineItemType → Description → ℤ → ℤ → Option Date → QuoteLineItem
line type description quantity unit_price_vnd local_date = record {
  type = type;
  description = description;
  quantity = quantity;
  unit_price_vnd = unit_price_vnd;
  amount_vnd = round_vnd (quantity *ℤ unit_price_vnd) 1;
  local_date = local_date;
}

-- computeDeposit(totalVnd, depositType, depositValue)
unfoldable pub compute_deposit : ℤ → Option DepositType → Option ℤ → ℤ
compute_deposit total_vnd (some fixed) v = or_else v (pos 0)
compute_deposit total_vnd (some percent) v = round_vnd (total_vnd *ℤ or_else v (pos 0)) 10_000
compute_deposit total_vnd _ v = pos 0

pub record Sums : Type 0 where
  pub subtotal : ℤ
  pub discount : ℤ
  pub tax : ℤ

-- One round of the loop of buildQuote: a discount is stored with its amount negative.
unfoldable pub add_line : LineItemType → ℤ → Sums → Sums
add_line discount amount s = record s { discount = s.discount +ℤ (pos 0 -ℤ amount) }
add_line tax amount s = record s { tax = s.tax +ℤ amount }
add_line _ amount s = record s { subtotal = s.subtotal +ℤ amount }

unfoldable pub sum_lines : Sums → List QuoteLineItem → Sums
sum_lines s [] = s
sum_lines s (li ∷ lis) = sum_lines (add_line li.type li.amount_vnd s) lis

pub record BuildArgs : Type 0 where
  pub mode : PricingMode
  pub line_items : List QuoteLineItem
  pub deposit_type : Option DepositType
  pub deposit_value : Option ℤ
  pub holidays : List VietnamHoliday
  pub notes : Option Notes

-- buildQuote(args)
unfoldable pub build_quote : BuildArgs → Quote
build_quote args =
    let s =
      sum_lines (record { subtotal = pos 0; discount = pos 0; tax = pos 0 }) args.line_items in
    let total_vnd = s.subtotal -ℤ s.discount +ℤ s.tax in
    record {
      mode = args.mode;
      line_items = args.line_items;
      subtotal_vnd = s.subtotal;
      discount_vnd = s.discount;
      tax_vnd = s.tax;
      total_vnd = total_vnd;
      deposit_vnd = compute_deposit total_vnd args.deposit_type args.deposit_value;
      holidays = args.holidays;
      notes = args.notes;
    }
