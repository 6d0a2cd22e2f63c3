-- ===== src/Pricing/Verified.antt =====
-- A quote that was just made is accepted.
use Prim.Native.String.{String}
use pms_homestay.Prelude.{
  ℕ, ◌+◌, ◌≤◌, ◌≡◌, refl, ap, ◌∙◌, Bool, true, false, not, Option, none, some, List, [], ◌∷◌,
  Result, ok, err, Ensures, Ensures-ok, Ensures-then, Ensures-next, Bool-cases, inl, inr, ◌==◌, ltb,
  if◌then◌else◌, throw_if, arith,
}
use pms_homestay.Prelude.Int.{ℤ, pos, ◌+ℤ◌, ◌-ℤ◌, int_laws}
use pms_homestay.Engine.Types.{
  Intl, PricingMode, hourly, daily, monthly, PricingInput, RatePlanConfig, VietnamHoliday, Quote,
  PricingError,
}
use pms_homestay.Engine.Builder.{BuildArgs, build_quote}
use pms_homestay.Engine.Daily.{quote_daily, daily_args, daily_items}
use pms_homestay.Engine.Hourly.{quote_hourly, hourly_args, hourly_items}
use pms_homestay.Engine.Monthly.{quote_monthly, monthly_args, monthly_items}
use pms_homestay.Engine.Quote.{quote}
use pms_homestay.Pricing.Tables.{
  RatePlanRow, QuoteRow, PricingTables, PricingFailure, forbidden, price_changed, PricingCall,
  mode_eq, QuoteRequest, ExpectedStay, Voucher, PricingCaller,
}
use pms_homestay.Pricing.{
  compute_for_plan, caught_pricing, timezone_of, resolve_plan, chosen_plan, assigned_plan,
  default_plan, first_plan, or_plan, plan_or, Priced, with_voucher, take_off, quote_input,
  quote_row, put_quote, quote_tx, quote_ttl_ms, verify_quote_for_booking, make_quote,
  property_of_resource, load_quote, plan_row, is_expected, same_amount, is_applicable,
}

-- A quote of the engine adds up.
abbrev AddsUp : Quote → Type 0
AddsUp q = q.total_vnd ≡ q.subtotal_vnd -ℤ q.discount_vnd +ℤ q.tax_vnd

built-AddsUp :
    (late : Bool) (e : PricingError) (args : BuildArgs)
    → Ensures AddsUp (if late then err e else ok (build_quote args))
unfolding build_quote
built-AddsUp true e args = tt
built-AddsUp false e args = refl

quote-AddsUp :
    (intl : Intl) (input : PricingInput) (plan : RatePlanConfig) (hs : List VietnamHoliday)
    → Ensures AddsUp (quote intl input plan hs)
unfolding quote quote_daily quote_hourly quote_monthly
quote-AddsUp intl input plan hs = go input.mode
  where
    go :
        (m : PricingMode)
        → Ensures AddsUp (elim m [
          | hourly ↦ quote_hourly intl input plan hs
          | daily ↦ quote_daily intl input plan hs
          | monthly ↦ quote_monthly intl input plan hs
        ])
    go hourly = built-AddsUp _ _ (hourly_args intl input plan hs)
    go daily = built-AddsUp _ _ (daily_args intl input plan hs)
    go monthly = built-AddsUp _ _ (monthly_args intl input plan hs)

-- The engine does not read the guests.
quote-guests :
    (intl : Intl) (mode : PricingMode) (ci co : ℕ) (a a' c c' : Option ℕ) (plan : RatePlanConfig)
    (hs : List VietnamHoliday)
    → quote intl (quote_input mode ci co a c) plan hs
      ≡ quote intl (quote_input mode ci co a' c') plan hs
unfolding quote quote_daily quote_hourly quote_monthly daily_args hourly_args monthly_args
    daily_items hourly_items monthly_items quote_input
quote-guests intl hourly ci co a a' c c' plan hs = refl
quote-guests intl daily ci co a a' c c' plan hs = refl
quote-guests intl monthly ci co a a' c c' plan hs = refl

compute-guests :
    (intl : Intl) (db : PricingTables) (id : ℕ) (plan : RatePlanRow) (tz : String)
    (mode : PricingMode) (ci co : ℕ) (a a' c c' : Option ℕ)
    → compute_for_plan intl db id plan tz (quote_input mode ci co a c)
      ≡ compute_for_plan intl db id plan tz (quote_input mode ci co a' c')
unfolding compute_for_plan quote_input
compute-guests intl db id plan tz mode ci co a a' c c' =
    ap caught_pricing (quote-guests intl mode ci co a a' c c' _ _)

caught-AddsUp :
    (r : Result PricingError Quote) → Ensures AddsUp r → Ensures AddsUp (caught_pricing r)
unfolding caught_pricing
caught-AddsUp (ok q) h = h
caught-AddsUp (err e) h = tt

compute-AddsUp :
    (intl : Intl) (db : PricingTables) (id : ℕ) (plan : RatePlanRow) (tz : String)
    (input : PricingInput)
    → Ensures AddsUp (compute_for_plan intl db id plan tz input)
unfolding compute_for_plan
compute-AddsUp intl db id plan tz input =
    caught-AddsUp (quote intl input _ _) (quote-AddsUp intl input _ _)

-- The voucher part of a discount, taken back, gives the total of the engine.
abbrev Restores : Quote → Priced → Type 0
Restores q p = p.total_vnd +ℤ (p.discount_vnd -ℤ q.discount_vnd) ≡ q.total_vnd

net_of_voucher :
    (total subtotal discount tax off : ℤ)
    → total ≡ subtotal -ℤ discount +ℤ tax
    → subtotal -ℤ (discount +ℤ off) +ℤ tax +ℤ (discount +ℤ off -ℤ discount) ≡ total
net_of_voucher total subtotal discount tax off h = rw h (omega int_laws)

take_off-Restores :
    (code : String) (o : Option (ℕ × ℕ)) (q : Quote)
    → AddsUp q
    → Ensures (Restores q) (take_off code o q)
unfolding take_off
take_off-Restores code none q h = tt
take_off-Restores code (some applied) q h =
    net_of_voucher q.total_vnd q.subtotal_vnd q.discount_vnd q.tax_vnd (pos applied.1) h

with_voucher-Restores :
    (code : Option String) (vouchers : Voucher) (property : ℕ) (q : Quote)
    → AddsUp q
    → Ensures (Restores q) (with_voucher code vouchers property q)
unfolding with_voucher
with_voucher-Restores none vouchers property q h = omega int_laws
with_voucher-Restores (some code) vouchers property q h =
    take_off-Restores code (vouchers code q.subtotal_vnd property) q h

-- The plan that is resolved is a row of the table, under its id.
abbrev Stored : PricingTables → Option (ℕ × RatePlanRow) → Type 0
Stored db none = Unit
Stored db (some p) = db.rate_plans p.0 ≡ some p.1

first_plan-Stored :
    (test : ℕ → RatePlanRow → Bool) (is : List ℕ) (db : PricingTables)
    → Stored db (first_plan test is db)
unfolding first_plan
first_plan-Stored test [] db = tt
first_plan-Stored test (i ∷ is) db = go (first_plan-Stored test is db) (db.rate_plans i) refl
  where
    go :
        Stored db (first_plan test is db)
        → (o : Option RatePlanRow) → db.rate_plans i ≡ o
        → Stored db (elim o [
          | none ↦ first_plan test is db
          | some plan ↦ if test i plan then some (i, plan) else first_plan test is db
        ])
    go rest none e = rest
    go rest (some plan) e = elim (Bool-cases (test i plan)) [ inl t ↦ rw t e | inr t ↦ rw t rest ]

or_plan-Stored :
    (db : PricingTables) (a b : Option (ℕ × RatePlanRow))
    → Stored db a
    → Stored db b
    → Stored db (or_plan a b)
unfolding or_plan
or_plan-Stored db none b h k = k
or_plan-Stored db (some p) b h k = h

chosen_plan-Stored :
    (property : ℕ) (mode : PricingMode) (id : ℕ) (db : PricingTables)
    → Stored db (chosen_plan property mode id db)
unfolding chosen_plan
chosen_plan-Stored property mode id db = go (db.rate_plans id) refl
  where
    go :
        (o : Option RatePlanRow)
        → db.rate_plans id ≡ o
        → Stored db (elim o [
          | none ↦ none
          | some plan ↦ if is_applicable property mode plan then some (id, plan) else none
        ])
    go none e = tt
    go (some plan) e = elim (Bool-cases (is_applicable property mode plan)) [
      | inl t ↦ rw t e
      | inr t ↦ rw t tt
    ]

abbrev Resolved : PricingTables → ℕ × RatePlanRow → Type 0
Resolved db p = db.rate_plans p.0 ≡ some p.1

plan_or-Resolved :
    (db : PricingTables) (e : PricingFailure) (o : Option (ℕ × RatePlanRow))
    → Stored db o
    → Ensures (Resolved db) (plan_or e o)
unfolding plan_or
plan_or-Resolved db e none h = tt
plan_or-Resolved db e (some p) h = h

resolve_plan-Resolved :
    (resource property : ℕ) (mode : PricingMode) (id : Option ℕ) (db : PricingTables)
    → Ensures (Resolved db) (resolve_plan resource property mode id db)
unfolding resolve_plan assigned_plan default_plan
resolve_plan-Resolved resource property mode (some id) db =
    plan_or-Resolved db _ _ (chosen_plan-Stored property mode id db)
resolve_plan-Resolved resource property mode none db = plan_or-Resolved db _ _ (
    or_plan-Stored db _ _
      (or_plan-Stored db _ _ (first_plan-Stored _ db.plan_ids db)
        (first_plan-Stored _ db.plan_ids db))
      (first_plan-Stored _ db.plan_ids db))

abbrev pub stay_of : QuoteRequest → ExpectedStay
stay_of dto = record {
  resource_id = dto.resource_id;
  check_in = dto.check_in;
  check_out = dto.check_out;
  mode = dto.mode;
}

-- The quote is accepted until it expires.
abbrev Accepted : Intl → QuoteRequest → ℕ → PricingTables × QuoteRow → Type 0
Accepted intl dto now r =
    (later : ℕ)
    → later ≤ now + quote_ttl_ms
    → verify_quote_for_booking intl r.1.id (stay_of dto) later r.0 ≡ ok r.1

key_refl : (i : ℕ) → (i == i) ≡ true
key_refl i = ground arith

mode_refl : (m : PricingMode) → mode_eq m m ≡ true
unfolding mode_eq
mode_refl hourly = refl
mode_refl daily = refl
mode_refl monthly = refl

same_amount_refl : (a b : ℤ) → a ≡ b → same_amount b a ≡ true
unfolding same_amount
same_amount_refl a b h = rw h (ground arith)

not_late : (later limit : ℕ) → later ≤ limit → ltb limit later ≡ false
not_late later limit h = ground arith

compute-same :
    (intl : Intl) (db d : PricingTables) (id : ℕ) (plan : RatePlanRow) (tz : String)
    (input : PricingInput) {r : PricingCall Quote}
    → d.rate_plan_rules ≡ db.rate_plan_rules
    → d.holidays ≡ db.holidays
    → compute_for_plan intl db id plan tz input ≡ r
    → compute_for_plan intl d id plan tz input ≡ r
unfolding compute_for_plan
compute-same intl db d id plan tz input h k e = rw (h, k) e

accepted :
    (intl : Intl) (dto : QuoteRequest) (property now : ℕ) (db : PricingTables) (p : ℕ × RatePlanRow)
    (q : Quote) (priced : Priced) (later : ℕ)
    → later ≤ now + quote_ttl_ms
    → db.rate_plans p.0 ≡ some p.1
    → compute_for_plan intl db p.0 p.1
        (timezone_of (db.timezones property))
        (quote_input dto.mode dto.check_in dto.check_out dto.adults dto.children)
      ≡ ok q
    → Restores q priced
    → let row = quote_row dto (db.last_quote + 1) property p.0 p.1 q priced now in
      verify_quote_for_booking intl row.id
        (stay_of dto)
        later
        (record db { quotes = put_quote row.id row db.quotes; last_quote = row.id })
      ≡ ok row
unfolding verify_quote_for_booking quote_row is_expected load_quote plan_row
accepted intl dto property now db p q priced later le plan e back =
    let row = quote_row dto (db.last_quote + 1) property p.0 p.1 q priced now in
    let d : PricingTables = record db {
      quotes = put_quote row.id row db.quotes;
      last_quote = row.id;
    } in
    let tz = timezone_of (db.timezones property) in
    let params =
      quote_input dto.mode dto.check_in dto.check_out (some row.adults) (some row.children) in
    let loaded : load_quote row.id d ≡ ok row = rw (key_refl row.id, load_quote) refl in
    let found : plan_row p.0 price_changed d ≡ ok p.1 = rw (plan, plan_row) refl in
    let again : compute_for_plan intl d p.0 p.1 tz params ≡ ok q =
      compute-guests intl d p.0 p.1 tz dto.mode dto.check_in dto.check_out _ _ _ _
      ∙ compute-same intl db d p.0 p.1 tz _ refl refl e in
    rw
      (
        loaded,
        key_refl dto.resource_id,
        mode_refl dto.mode,
        key_refl dto.check_in,
        key_refl dto.check_out,
        not_late later (now + quote_ttl_ms) le,
        found,
        again,
        same_amount_refl (priced.total_vnd +ℤ (priced.discount_vnd -ℤ q.discount_vnd)) q.total_vnd
            back,
      )
      refl

quote_tx-Accepted :
    (intl : Intl) (vouchers : Voucher) (dto : QuoteRequest) (property now : ℕ) (db : PricingTables)
    → Ensures (Accepted intl dto now) (quote_tx intl vouchers dto property now db)
unfolding quote_tx
quote_tx-Accepted intl vouchers dto property now db =
    let A = Accepted intl dto now in
    let tz = timezone_of (db.timezones property) in
    let params = quote_input dto.mode dto.check_in dto.check_out dto.adults dto.children in
    Ensures-next A (resolve_plan dto.resource_id property dto.mode dto.rate_plan_id db) _ (λ p e.
      Ensures-next A (compute_for_plan intl db p.0 p.1 tz params) _ (λ q e'.
        Ensures-next A (with_voucher dto.discount_code vouchers property q) _
          (λ priced e'' later le.
            let plan =
              Ensures-ok (Resolved db) _ p
                (resolve_plan-Resolved dto.resource_id property dto.mode dto.rate_plan_id db) e in
            let sums = Ensures-ok AddsUp _ q (compute-AddsUp intl db p.0 p.1 tz params) e' in
            let back =
              Ensures-ok (Restores q) _ priced
                (with_voucher-Restores dto.discount_code vouchers property q sums) e'' in
            accepted intl dto property now db p q priced later le plan e' back)))

-- If quote() returns a quote, then its verification for the same resource, times and mode returns that
-- quote at every instant up to fifteen minutes after, with a voucher and without one, the tables being
-- as quote() has left them.
pub make_quote-accepted :
    (intl : Intl) (vouchers : Voucher) (dto : QuoteRequest) (c : PricingCaller)
    (db d : PricingTables) (row : QuoteRow) (later : ℕ)
    → make_quote intl vouchers dto c db ≡ ok (d, row)
    → later ≤ c.now + quote_ttl_ms
    → verify_quote_for_booking intl row.id (stay_of dto) later d ≡ ok row
unfolding make_quote
make_quote-accepted intl vouchers dto c db d row later e le =
    let A = Accepted intl dto c.now in
    let all : Ensures A (make_quote intl vouchers dto c db) =
      Ensures-next A (property_of_resource dto.resource_id db) _ (λ property e'.
        Ensures-then A (throw_if (not (c.authorized property)) forbidden) _
          (quote_tx-Accepted intl vouchers dto property c.now db)) in
    Ensures-ok A (make_quote intl vouchers dto c db) (d, row) all e later le
