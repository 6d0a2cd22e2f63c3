-- ===== src/Discounts.antt =====
-- apps/api/src/modules/discounts/discounts.service.ts: what a voucher takes off a quote, and its
-- redemption in the transaction of a booking. Amounts are not negative, and a row that is deleted
-- softly is still in the table.
pub mod Redemption
mod Tests
use Prim.Native.String.{String}
use pms_homestay.Prelude.{
  ℕ, ◌+◌, ◌*◌, Bool, true, false, not, ◌&&◌, ◌||◌, Option, none, some, List, [], ◌∷◌, ltb, ◌==◌,
  if◌then◌else◌, includes, Result, ok, err,
}
use pms_homestay.Money.{round_half_up}
use pms_homestay.Engine.Double.{round_double, one}

pub data DiscountType : Type 0 where
  fixed percent : DiscountType

pub record DiscountRow : Type 0 where
  pub id : ℕ
  pub discount_type : DiscountType
  pub discount_value : ℕ
  pub min_order_vnd : ℕ
  pub max_uses : Option ℕ
  pub used_count : ℕ
  pub valid_from : Option ℕ
  pub valid_to : Option ℕ
  -- `none` is every property, the empty list is none of them
  pub applicable_property_ids : Option (List ℕ)
  pub is_active : Bool
  pub is_deleted : Bool

pub record ApplyDiscountContext : Type 0 where
  pub subtotal_vnd : ℕ
  pub property_id : ℕ
  pub now : ℕ

pub data ReasonCode : Type 0 where
  reason_ok code_not_found inactive not_started expired below_min_order property_not_eligible
        usage_limit_reached :
      ReasonCode

pub record ApplyDiscountResult : Type 0 where
  pub valid : Bool
  pub discount_vnd : ℕ
  pub reason_code : ReasonCode

unfoldable pub fail : ReasonCode → ApplyDiscountResult
fail reason = record { valid = false; discount_vnd = 0; reason_code = reason }

unfoldable pub is_not_started : Option ℕ → ℕ → Bool
is_not_started none now = false
is_not_started (some from) now = ltb now from

unfoldable pub is_over : Option ℕ → ℕ → Bool
is_over none now = false
is_over (some to) now = ltb to now

unfoldable pub is_eligible : Option (List ℕ) → ℕ → Bool
is_eligible none property = true
is_eligible (some ids) property = includes ids property

unfoldable pub is_used_up : Option ℕ → ℕ → Bool
is_used_up none used = false
is_used_up (some limit) used = not (ltb used limit)

-- FIXED is capped by the subtotal; PERCENT is roundVnd(subtotal * value / 10_000), both operations
-- on doubles.
unfoldable pub discount_of : DiscountType → ℕ → ℕ → ℕ
unfolding round_double round_half_up
discount_of fixed value subtotal = if ltb value subtotal then value else subtotal
discount_of percent value subtotal =
    round_half_up (round_double (round_double (subtotal * value * one) 1) 10_000) one

-- DiscountsService.evaluate(row, ctx)
unfoldable pub evaluate : Option DiscountRow → ApplyDiscountContext → ApplyDiscountResult
unfolding fail is_not_started is_over is_eligible is_used_up
evaluate none ctx = fail code_not_found
evaluate (some row) ctx =
    if not row.is_active
    then fail inactive
    else if is_not_started row.valid_from ctx.now
    then fail not_started
    else if is_over row.valid_to ctx.now
    then fail expired
    else if ltb ctx.subtotal_vnd row.min_order_vnd
    then fail below_min_order
    else if not (is_eligible row.applicable_property_ids ctx.property_id)
    then fail property_not_eligible
    else if is_used_up row.max_uses row.used_count
    then fail usage_limit_reached
    else record {
      valid = true;
      discount_vnd = discount_of row.discount_type row.discount_value ctx.subtotal_vnd;
      reason_code = reason_ok;
    }

pub data DiscountError : Type 0 where
  discount_exhausted : DiscountError

abbrev pub Codes : Type 0
Codes = ℕ → Option DiscountRow

-- The row that a query of live rows finds.
unfoldable pub live : Option DiscountRow → Option DiscountRow
live none = none
live (some row) = if row.is_deleted then none else some row

abbrev pub put_row : ℕ → DiscountRow → Codes → Codes
put_row k row codes j = if j == k then some row else codes j

unfoldable pub is_redeemable : DiscountRow → Bool
unfolding is_used_up
is_redeemable row =
    not (is_used_up row.max_uses row.used_count) && row.is_active && not row.is_deleted

abbrev pub used_once_more : DiscountRow → DiscountRow
used_once_more row = record row { used_count = row.used_count + 1 }

unfoldable pub redeem_row : ℕ → Option DiscountRow → Codes → Result DiscountError Codes
unfolding is_redeemable
redeem_row id none codes = err discount_exhausted
redeem_row id (some row) codes =
    if is_redeemable row then ok (put_row id (used_once_more row) codes) else err discount_exhausted

-- redeemInTx(tx, tenantId, discountCodeId): one UPDATE, so nothing comes between its test and its write.
unfoldable pub redeem_in_tx : ℕ → Codes → Result DiscountError Codes
unfolding redeem_row
redeem_in_tx id codes = redeem_row id (codes id) codes

abbrev pub or_before : Codes → Result DiscountError Codes → Codes
or_before codes (ok after) = after
or_before codes (err e) = codes

-- Redemptions in the order in which the database runs them.
unfoldable pub redeem_all : List ℕ → Codes → Codes
unfolding redeem_in_tx
redeem_all [] codes = codes
redeem_all (id ∷ ids) codes = redeem_all ids (or_before codes (redeem_in_tx id codes))

abbrev pub win : Bool → Result DiscountError Codes → ℕ
win mine (ok after) = if mine then 1 else 0
win mine (err e) = 0

-- How many of them were accepted for a code.
unfoldable pub wins : ℕ → List ℕ → Codes → ℕ
unfolding redeem_in_tx
wins i [] codes = 0
wins i (id ∷ ids) codes =
    win (id == i) (redeem_in_tx id codes) + wins i ids (or_before codes (redeem_in_tx id codes))
