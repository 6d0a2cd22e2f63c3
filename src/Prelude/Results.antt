-- ===== src/Prelude/Results.antt =====
-- What a service method gives back: a value, or the exception that it throws, named by its code. A
-- transaction that throws is rolled back, so no state comes with an error.
use mathlib.Core.Path.{◌≡◌, refl}
use mathlib.Core.Logic.{◌⊎◌, inl, inr}
use mathlib.Core.Bool.{Bool, true, false}
use mathlib.Core.List.{List, [], ◌∷◌, ◌++◌}

pub data Result {ℓ κ} (E : Type κ) (A : Type ℓ) : Type (ℓ ⊔ κ) where
  ok : A → Result E A
  err : E → Result E A

infixl 5 ◌>>=◌ ◌>>◌
abbrev pub ◌>>=◌ : {E A B : Type 0} → Result E A → (A → Result E B) → Result E B
◌>>=◌ r next = elim r [ err e ↦ err e | ok a ↦ next a ]

-- `if (bad) throw e`
abbrev pub throw_if : {E : Type 0} → Bool → E → Result E (Unit {0})
throw_if bad e = elim bad [ false ↦ ok tt | true ↦ err e ]

abbrev pub ◌>>◌ : {E B : Type 0} → Result E (Unit {0}) → Result E B → Result E B
◌>>◌ r next = elim r [ err e ↦ err e | ok _ ↦ next ]

-- A property of every element.
module _ {ℓ κ} {A : Type ℓ} (P : A → Type κ) where
  abbrev pub All : List A → Type κ
  All [] = Unit
  All (x ∷ xs) = P x × All xs

module _ {A : Type 0} (P : A → Type 0) where
  pub All-append : (xs : List A) (x : A) → All P xs → P x → All P (xs ++ (x ∷ []))
  All-append [] x h k = (k, tt)
  All-append (y ∷ ys) x h k = (h.0, All-append ys x h.1 k)

pub ok-injective {ℓ κ} :
    {E : Type κ} {A : Type ℓ} (a b : A) → ◌≡◌ {A = Result E A} (ok a) (ok b) → a ≡ b
ok-injective a b e = cc

-- Either way that a call can end, with its equation.
pub Result-cases {ℓ κ} :
    {E : Type κ} {A : Type ℓ} (r : Result E A) → ((a : A) × (r ≡ ok a)) ⊎ ((e : E) × (r ≡ err e))
Result-cases (ok a) = inl (a, refl)
Result-cases (err e) = inr (e, refl)

-- What holds of the value, if there is one.
module _ {E A : Type 0} (P : A → Type 0) where
  abbrev pub Ensures : Result E A → Type 0
  Ensures (ok a) = P a
  Ensures (err e) = Unit

  pub Ensures-ok : (r : Result E A) (a : A) → Ensures r → r ≡ ok a → P a
  Ensures-ok (ok b) a h e = rw (← ok-injective b a e) h
  Ensures-ok (err x) a h e = cc

  pub Ensures-intro : (r : Result E A) → ((a : A) → r ≡ ok a → P a) → Ensures r
  Ensures-intro (ok a) f = f a refl
  Ensures-intro (err x) f = tt

pub Ensures-weaken :
    {E A : Type 0} (P Q : A → Type 0) (r : Result E A)
    → Ensures P r
    → ((a : A) → P a → Q a)
    → Ensures Q r
Ensures-weaken P Q (ok a) h k = k a h
Ensures-weaken P Q (err e) h k = tt

module _ {E A B : Type 0} (P : B → Type 0) where
  pub Ensures-bind :
      (Q : A → Type 0) (r : Result E A) (next : A → Result E B)
      → Ensures Q r
      → ((a : A) → Q a → Ensures P (next a))
      → Ensures P (r >>= next)
  Ensures-bind Q (ok a) next h k = k a h
  Ensures-bind Q (err e) next h k = tt

  pub Ensures-next :
      (r : Result E A) (next : A → Result E B)
      → ((a : A) → r ≡ ok a → Ensures P (next a))
      → Ensures P (r >>= next)
  Ensures-next (ok a) next k = k a refl
  Ensures-next (err e) next k = tt

module _ {E B : Type 0} (P : B → Type 0) where
  pub Ensures-guard :
      (bad : Bool) (e : E) (next : Result E B)
      → (bad ≡ false → Ensures P next)
      → Ensures P (throw_if bad e >> next)
  Ensures-guard false e next k = k refl
  Ensures-guard true e next k = tt

  pub Ensures-then :
      (r : Result E (Unit {0})) (next : Result E B) → Ensures P next → Ensures P (r >> next)
  Ensures-then (ok a) next h = h
  Ensures-then (err e) next h = tt
