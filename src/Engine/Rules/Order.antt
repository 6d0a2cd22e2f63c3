-- ===== src/Engine/Rules/Order.antt =====
-- The order of the applicable rules: sorted by rank, and the same for every order in which the
-- rules come from the database.
use mathlib.Core.List.{Mem, Perm, Permᴰ, mem-cons_self, mem-cons_of_mem}
use mathlib.Core.List.Perm
use pms_homestay.Prelude.{
  ℕ, ◌≡◌, refl, ap, ◌∙◌, ◌⊎◌, inl, inr, Bool, true, List, [], ◌∷◌, keep, Bool-cases, arith, All,
}
use pms_homestay.Calendar.{Date}
use pms_homestay.Engine.Types.{RatePlanRule}
use pms_homestay.Engine.Rules.{
  matches_date, rule_leb, insert_rule, sort_rules, apply_rate_plan_rules,
}

pub rule_leb_total : (a b : RatePlanRule) → (rule_leb a b ≡ true) ⊎ (rule_leb b a ≡ true)
unfolding rule_leb
rule_leb_total a b = ground arith

pub rule_leb_trans :
    (a b c : RatePlanRule) → rule_leb a b ≡ true → rule_leb b c ≡ true → rule_leb a c ≡ true
unfolding rule_leb
rule_leb_trans a b c h k = ground arith

pub rule_leb_refl : (a : RatePlanRule) → rule_leb a a ≡ true
unfolding rule_leb
rule_leb_refl a = ground arith

-- Each rule ranks before or with all that follow it.
abbrev pub IsRanked : List RatePlanRule → Type 0
IsRanked [] = Unit
IsRanked (x ∷ xs) = All (λ y. rule_leb x y ≡ true) xs × IsRanked xs

All-trans :
    (x y : RatePlanRule) (l : List RatePlanRule)
    → rule_leb x y ≡ true
    → All (λ z. rule_leb y z ≡ true) l
    → All (λ z. rule_leb x z ≡ true) l
All-trans x y [] h a = tt
All-trans x y (z ∷ l) h a = (rule_leb_trans x y z h a.0, All-trans x y l h a.1)

pub All-insert_rule :
    (P : RatePlanRule → Type 0) (x : RatePlanRule) (l : List RatePlanRule)
    → P x
    → All P l
    → All P (insert_rule x l)
unfolding insert_rule
All-insert_rule P x [] p a = (p, tt)
All-insert_rule P x (y ∷ l) p a = elim (Bool-cases (rule_leb x y)) [
  | inl e ↦ rw e (p, a)
  | inr e ↦ rw e (a.0, All-insert_rule P x l p a.1)
]

insert_rule-IsRanked :
    (x : RatePlanRule) (l : List RatePlanRule) → IsRanked l → IsRanked (insert_rule x l)
unfolding insert_rule
insert_rule-IsRanked x [] r = (tt, tt)
insert_rule-IsRanked x (y ∷ l) r = elim (Bool-cases (rule_leb x y)) [
  | inl e ↦ rw e ((e, All-trans x y l e r.0), r)
  | inr e ↦ rw e (
    All-insert_rule (λ z. rule_leb y z ≡ true) x l (ground (arith, rule_leb_total x y)) r.0,
    insert_rule-IsRanked x l r.1,
  )
]

sort_rules-IsRanked : (l : List RatePlanRule) → IsRanked (sort_rules l)
unfolding sort_rules
sort_rules-IsRanked [] = tt
sort_rules-IsRanked (x ∷ l) = insert_rule-IsRanked x (sort_rules l) (sort_rules-IsRanked l)

insert_rule-perm : (x : RatePlanRule) (l : List RatePlanRule) → Perm (insert_rule x l) (x ∷ l)
unfolding insert_rule
insert_rule-perm x [] = Perm.refl (x ∷ [])
insert_rule-perm x (y ∷ l) = elim (Bool-cases (rule_leb x y)) [
  | inl e ↦ rw e (Perm.refl (x ∷ y ∷ l))
  | inr e ↦ rw e (Perm.trans (Perm.cons y (insert_rule-perm x l)) (Perm.swap x y l))
]

sort_rules-perm : (l : List RatePlanRule) → Perm (sort_rules l) l
unfolding sort_rules
sort_rules-perm [] = Perm.refl []
sort_rules-perm (x ∷ l) =
    Perm.trans (insert_rule-perm x (sort_rules l)) (Perm.cons x (sort_rules-perm l))

-- The applicable rules are the rules that match the date, each as often as it is listed, and
-- every one stands before or with all that follow it: a higher priority first, then the older.
pub apply_rate_plan_rules-IsRanked :
    (rules : List RatePlanRule) (d : Date) (dow : ℕ) (holidays : List Date)
    → IsRanked (apply_rate_plan_rules rules d dow holidays)
      × Perm
          (apply_rate_plan_rules rules d dow holidays)
          (keep (λ r. matches_date r d dow holidays) rules)
unfolding apply_rate_plan_rules
apply_rate_plan_rules-IsRanked rules d dow holidays =
    let kept = keep (λ r. matches_date r d dow holidays) rules in
    (sort_rules-IsRanked kept, sort_rules-perm kept)

abbrev pub SameRank : RatePlanRule → RatePlanRule → Type 0
SameRank x y = (rule_leb x y ≡ true) × (rule_leb y x ≡ true)

insert_rule_comm :
    (x y : RatePlanRule) (l : List RatePlanRule)
    → (SameRank x y → x ≡ y)
    → insert_rule x (insert_rule y l) ≡ insert_rule y (insert_rule x l)
unfolding insert_rule
insert_rule_comm x y [] h = ground (arith, rule_leb_total x y)
insert_rule_comm x y (z ∷ l) h = ground (
  arith,
  rule_leb_total x y,
  rule_leb_trans x y z,
  rule_leb_trans y x z,
  insert_rule_comm x y l h,
)

-- No two different rules of the list that match the date have the same rank.
abbrev pub RanksDiffer : (RatePlanRule → Bool) → List RatePlanRule → Type 0
RanksDiffer p rules =
    (x y : RatePlanRule)
    → Mem x rules
    → Mem y rules
    → p x ≡ true
    → p y ≡ true
    → SameRank x y
    → x ≡ y

sort_keep_comm :
    (p : RatePlanRule → Bool) (x y : RatePlanRule) (l : List RatePlanRule)
    → RanksDiffer p (x ∷ y ∷ l)
    → sort_rules (keep p (x ∷ y ∷ l)) ≡ sort_rules (keep p (y ∷ x ∷ l))
unfolding sort_rules
sort_keep_comm p x y l h = elim (Bool-cases (p x)) [
  | inl px ↦ elim (Bool-cases (p y)) [
    | inl py ↦
        rw (px, py)
          (insert_rule_comm x y (sort_rules (keep p l))
            (h x y mem-cons_self (mem-cons_of_mem x mem-cons_self) px py))
    | inr py ↦ rw (px, py) refl
  ]
  | inr px ↦ elim (Bool-cases (p y)) [ inl py ↦ rw (px, py) refl | inr py ↦ rw (px, py) refl ]
]

sort_keep_cons :
    (p : RatePlanRule → Bool) (x : RatePlanRule) (l m : List RatePlanRule)
    → sort_rules (keep p l) ≡ sort_rules (keep p m)
    → sort_rules (keep p (x ∷ l)) ≡ sort_rules (keep p (x ∷ m))
unfolding sort_rules
sort_keep_cons p x l m e = elim (Bool-cases (p x)) [ inl px ↦ rw (px, e) refl | inr px ↦ rw px e ]

sort_keep-perm :
    (p : RatePlanRule → Bool) {l m : List RatePlanRule}
    → Permᴰ l m
    → RanksDiffer p l
    → sort_rules (keep p l) ≡ sort_rules (keep p m)
sort_keep-perm p Permᴰ.nil h = refl
sort_keep-perm p (Permᴰ.cons {a = x} {l₁ = l} {l₂ = m} e d) h =
    sort_keep_cons p x l m
      (sort_keep-perm p d (λ a b i j. h a b (mem-cons_of_mem x i) (mem-cons_of_mem x j)))
    ∙ ap (λ y. sort_rules (keep p (y ∷ m))) e
sort_keep-perm p (Permᴰ.swap {a = x} {b = y} {l = l} e f) h =
    sort_keep_comm p x y l h ∙ rw (e, f) refl
sort_keep-perm p (Permᴰ.trans {l₁ = l} {l₂ = k} d d') h =
    sort_keep-perm p d h
    ∙ sort_keep-perm p d' (λ a b i j.
      h a b ((Perm.mem_iff {l₁ = l} {l₂ = k} ∣ d ∣₁).1 i)
        ((Perm.mem_iff {l₁ = l} {l₂ = k} ∣ d ∣₁).1 j))

-- If no two different matching rules share priority and creation time, the applicable rules do
-- not depend on the order in which the rules are listed.
pub apply_rate_plan_rules-perm :
    (rules others : List RatePlanRule) (d : Date) (dow : ℕ) (holidays : List Date)
    → Permᴰ rules others
    → RanksDiffer (λ r. matches_date r d dow holidays) rules
    → apply_rate_plan_rules rules d dow holidays ≡ apply_rate_plan_rules others d dow holidays
unfolding apply_rate_plan_rules
apply_rate_plan_rules-perm rules others d dow holidays perm h =
    sort_keep-perm (λ r. matches_date r d dow holidays) perm h
