-- ===== src/Engine/Rules/Price.antt =====
-- The price of a date: independent of the order of the rows, and settled by an override that
-- ranks before all other applicable rules.
use mathlib.Core.List.{Mem, Memᴰ, Perm, Permᴰ}
use mathlib.Core.Logic.{∥∥₁_elim}
use mathlib.Core.List
use pms_homestay.Prelude.{
  ◌≡◌, refl, ap, ◌⊎◌, inl, inr, Bool, true, false, List, [], ◌∷◌, keep, Bool-cases, arith, All, ℕ,
}
use pms_homestay.Prelude.Int.{ℤ}
use pms_homestay.Calendar.{Date}
use pms_homestay.Engine.Types.{RatePlanRule, override}
use pms_homestay.Engine.Rules.{
  matches_date, rule_leb, insert_rule, sort_rules, apply_rate_plan_rules, price_loop,
  compute_date_price,
}
use pms_homestay.Engine.Rules.Order.{
  rule_leb_total, rule_leb_refl, RanksDiffer, apply_rate_plan_rules-perm, All-insert_rule,
}

ℤ_set : IsSet ℤ
ℤ_set = hlevel

-- If no two different matching rules share priority and creation time, the price of a date does
-- not depend on the order in which the rules are listed.
pub compute_date_price-perm :
    (base : ℤ) (rules others : List RatePlanRule) (d : Date) (dow : ℕ) (holidays : List Date)
    → Perm rules others
    → RanksDiffer (λ r. matches_date r d dow holidays) rules
    → compute_date_price base rules d dow holidays ≡ compute_date_price base others d dow holidays
unfolding compute_date_price
compute_date_price-perm base rules others d dow holidays perm h =
    ∥∥₁_elim perm (ℤ_set _ _)
      (λ p. ap (price_loop base) (apply_rate_plan_rules-perm rules others d dow holidays p h))

-- No other matching rule of the list ranks before or with `r`.
abbrev pub RanksFirst : (RatePlanRule → Bool) → RatePlanRule → List RatePlanRule → Type 0
RanksFirst p r rules = (s : RatePlanRule) → Mem s rules → p s ≡ true → rule_leb s r ≡ true → s ≡ r

first_cases :
    (r s : RatePlanRule) → (rule_leb s r ≡ true → s ≡ r) → (s ≡ r) ⊎ (rule_leb s r ≡ false)
first_cases r s h = elim (Bool-cases (rule_leb s r)) [ inl e ↦ inl (h e) | inr e ↦ inr e ]

leb_of_first : (r s : RatePlanRule) → (s ≡ r) ⊎ (rule_leb s r ≡ false) → rule_leb r s ≡ true
leb_of_first r s (inl e) = rw e (rule_leb_refl r)
leb_of_first r s (inr e) = ground (arith, rule_leb_total r s)

All-sort_keep :
    (p : RatePlanRule → Bool) (r : RatePlanRule) (l : List RatePlanRule)
    → RanksFirst p r l
    → All (λ s. rule_leb r s ≡ true) (sort_rules (keep p l))
unfolding sort_rules
All-sort_keep p r [] h = tt
All-sort_keep p r (x ∷ l) h =
    let rest = All-sort_keep p r l (λ s m. h s (List.mem-cons_of_mem x m)) in
    elim (Bool-cases (p x)) [
      | inl px ↦ rw px (
          All-insert_rule (λ s. rule_leb r s ≡ true) x (sort_rules (keep p l))
            (leb_of_first r x (first_cases r x (h x List.mem-cons_self px))) rest)
      | inr px ↦ rw px rest
    ]

insert_rule_first :
    (r : RatePlanRule) (l : List RatePlanRule)
    → All (λ s. rule_leb r s ≡ true) l
    → insert_rule r l ≡ r ∷ l
unfolding insert_rule
insert_rule_first r [] a = refl
insert_rule_first r (y ∷ l) a = rw a.0 refl

insert_rule_after :
    (x r : RatePlanRule) (l : List RatePlanRule)
    → (x ≡ r) ⊎ (rule_leb x r ≡ false)
    → (m : List RatePlanRule) × (insert_rule x (r ∷ l) ≡ r ∷ m)
unfolding insert_rule
insert_rule_after x r l (inl e) = (r ∷ l, rw e (rw (rule_leb_refl r) refl))
insert_rule_after x r l (inr e) = (insert_rule x l, rw e refl)

sort_keep-head :
    (p : RatePlanRule → Bool) (r : RatePlanRule) (l : List RatePlanRule)
    → p r ≡ true
    → Memᴰ r l
    → RanksFirst p r l
    → (m : List RatePlanRule) × (sort_rules (keep p l) ≡ r ∷ m)
unfolding sort_rules
sort_keep-head p r [] pr m h = elim m [ ]
sort_keep-head p r (x ∷ l) pr (Memᴰ.head e) h =
    let rest = All-sort_keep p r l (λ s m. h s (List.mem-cons_of_mem x m)) in
    (sort_rules (keep p l), rw (← e, pr) (insert_rule_first r (sort_rules (keep p l)) rest))
sort_keep-head p r (x ∷ l) pr (Memᴰ.tail m) h =
    let (k, e) = sort_keep-head p r l pr m (λ s i. h s (List.mem-cons_of_mem x i)) in
    elim (Bool-cases (p x)) [
      | inl px ↦
          let (k', e') = insert_rule_after x r k (first_cases r x (h x List.mem-cons_self px)) in
          (k', rw (px, e) e')
      | inr px ↦ (k, rw px e)
    ]

-- If an override matches the date and every other matching rule ranks after it, the price of the
-- date is the override's value, whatever the base price and the other rules are.
pub compute_date_price-override :
    (base : ℤ) (rules : List RatePlanRule) (d : Date) (dow : ℕ) (holidays : List Date)
    (r : RatePlanRule)
    → Mem r rules
    → matches_date r d dow holidays ≡ true
    → r.price_modifier_type ≡ override
    → RanksFirst (λ s. matches_date s d dow holidays) r rules
    → compute_date_price base rules d dow holidays ≡ r.price_modifier_value
unfolding compute_date_price apply_rate_plan_rules price_loop
compute_date_price-override base rules d dow holidays r mem fits type first =
    ∥∥₁_elim mem (ℤ_set _ _) (λ m.
      let (k, e) = sort_keep-head (λ s. matches_date s d dow holidays) r rules fits m first in
      rw (e, type) refl)
