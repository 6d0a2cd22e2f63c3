-- ===== src/Discounts/Redemption.antt =====
-- No use of a voucher is lost, and none is granted beyond its limit.
use pms_homestay.Prelude.{
  ℕ, ◌+◌, ◌≤◌, ◌≡◌, refl, sym, ◌∙◌, ap, true, false, Option, none, some, List, [], ◌∷◌, ◌==◌, arith,
  Bool-cases, inl, inr, ok,
}
use pms_homestay.Discounts.{
  DiscountRow, ApplyDiscountContext, Codes, evaluate, fail, is_used_up, is_redeemable, redeem_row,
  redeem_in_tx, redeem_all, wins, win, or_before, put_row, used_once_more, live,
}

-- The limit that the row has, if any, is not passed.
abbrev pub WithinLimit : Option ℕ → ℕ → Type 0
WithinLimit none used = Unit
WithinLimit (some limit) used = used ≤ limit

same_key : (i j : ℕ) → (i == j) ≡ true → i ≡ j
same_key i j h = ground arith

key_refl : (i : ℕ) → (i == i) ≡ true
key_refl i = ground arith

accepted :
    (row : DiscountRow) (ctx : ApplyDiscountContext)
    → (evaluate (some row) ctx).valid ≡ true
    → (row.is_active ≡ true) × (is_used_up row.max_uses row.used_count ≡ false)
unfolding evaluate fail
accepted row ctx v = ground arith

live_row : (row : DiscountRow) → row.is_deleted ≡ false → live (some row) ≡ some row
unfolding live
live_row row d = rw d refl

redeemed :
    (codes : Codes) (id : ℕ) (row : DiscountRow)
    → is_redeemable row ≡ true
    → redeem_row id (some row) codes ≡ ok (put_row id (used_once_more row) codes)
unfolding redeem_row
redeemed codes id row t = rw t refl

other_key : (i j : ℕ) → (i == j) ≡ false → (j == i) ≡ false
other_key i j h = ground arith

same_row : {o : Option DiscountRow} (a b : DiscountRow) → o ≡ some a → o ≡ some b → a ≡ b
same_row a b e e' = cc

-- A voucher that is not deleted and that evaluate accepts, in whatever context, is redeemed if nothing
-- comes between: its count of uses grows by one, and no other row changes.
pub evaluate-redeem_in_tx :
    (codes : Codes) (id : ℕ) (row : DiscountRow) (ctx : ApplyDiscountContext)
    → codes id ≡ some row
    → row.is_deleted ≡ false
    → (evaluate (live (codes id)) ctx).valid ≡ true
    → redeem_in_tx id codes ≡ ok (put_row id (used_once_more row) codes)
unfolding redeem_in_tx is_redeemable
evaluate-redeem_in_tx codes id row ctx e d v =
    let found : live (codes id) ≡ some row = ap live e ∙ live_row row d in
    let (active, left) = accepted row ctx (rw found at v) in
    ap (λ o. redeem_row id o codes) e ∙ redeemed codes id row (rw (active, left, d) refl)

-- What a row is after n more uses.
abbrev pub UsedMore : Option DiscountRow → DiscountRow → ℕ → Type 0
UsedMore o row n =
    (after : DiscountRow) × (o ≡ some after)
    × (after.used_count ≡ row.used_count + n)
    × (after.max_uses ≡ row.max_uses)
    × WithinLimit after.max_uses after.used_count

within :
    (limit : Option ℕ) (used : ℕ) → is_used_up limit used ≡ false → WithinLimit limit (used + 1)
unfolding is_used_up
within none used h = tt
within (some limit) used h = ground arith

room_left :
    (row : DiscountRow) → is_redeemable row ≡ true → is_used_up row.max_uses row.used_count ≡ false
unfolding is_redeemable
room_left row t = ground arith

step :
    (id i : ℕ) (codes : Codes) (row : DiscountRow) (o : Option DiscountRow)
    → codes i ≡ some row
    → WithinLimit row.max_uses row.used_count
    → codes id ≡ o
    → UsedMore
        (or_before codes (redeem_row id o codes) i)
        row
        (win (id == i) (redeem_row id o codes))
unfolding redeem_row
step id i codes row none e w h = (row, e, omega arith, refl, w)
step id i codes row (some r) e w h = elim (Bool-cases (is_redeemable r)) [
  | inr f ↦ rw f (row, e, omega arith, refl, w)
  | inl t ↦ elim (Bool-cases (id == i)) [
    | inr n ↦ rw (t, n, other_key id i n) (row, e, omega arith, refl, w)
    | inl y ↦
        let same : row ≡ r = same_row row r e (ap codes (sym (same_key id i y)) ∙ h) in
        rw (t, same_key id i y, key_refl i, same)
          (used_once_more r, refl, refl, refl, within r.max_uses r.used_count (room_left r t))
  ]
]

-- Of a voucher whose limit is not passed, any redemptions in any order, of this and of other vouchers,
-- leave a row with that limit, whose count of uses has grown by the number of those accepted for it and
-- is not above the limit.
pub redeem_all-UsedMore :
    (ids : List ℕ) (codes : Codes) (i : ℕ) (row : DiscountRow)
    → codes i ≡ some row
    → WithinLimit row.max_uses row.used_count
    → UsedMore (redeem_all ids codes i) row (wins i ids codes)
unfolding redeem_all wins redeem_in_tx
redeem_all-UsedMore [] codes i row e w = (row, e, omega arith, refl, w)
redeem_all-UsedMore (id ∷ ids) codes i row e w =
    let (r, er, count, limit, within_r) = step id i codes row (codes id) e w refl in
    let (r', er', count', limit', within_r') =
      redeem_all-UsedMore ids (or_before codes (redeem_row id (codes id) codes)) i r er within_r in
    (r', er', omega (arith, count, count'), limit' ∙ limit, within_r')
