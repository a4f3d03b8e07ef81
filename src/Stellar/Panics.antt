-- ===== src/Stellar/Panics.antt =====
-- A Go call that may panic, and what a call with an error result returns. Of an error the code here
-- reads nothing but its text.
use flowctl_sdk.Base.{String, ◌≡◌, refl, ◌⊎◌, inl, inr, arith}

pub data Run (A : Type 0) : Type 0 where
  ran : A → Run A
  crashed : Run A

infixl 5 ◌>>=◌
abbrev pub ◌>>=◌ : {A B : Type 0} → Run A → (A → Run B) → Run B
ran a >>= f = f a
crashed >>= f = crashed

pub data Checked (A : Type 0) : Type 0 where
  good : A → Checked A
  bad : String → Checked A

pub Run-cases : {A : Type 0} (r : Run A) → ((a : A) × (r ≡ ran a)) ⊎ (r ≡ crashed)
Run-cases (ran a) = inl (a, refl)
Run-cases crashed = inr refl

pub >>=-eq-ran :
    {A B : Type 0} (m : Run A) (f : A → Run B) {b : B}
    → (m >>= f) ≡ ran b
    → (a : A) × (m ≡ ran a) × (f a ≡ ran b)
>>=-eq-ran (ran a) f h = (a, refl, h)
>>=-eq-ran crashed f h = absurd (ground arith)

pub Checked-cases :
    {A : Type 0} (c : Checked A) → ((a : A) × (c ≡ good a)) ⊎ ((e : String) × (c ≡ bad e))
Checked-cases (good a) = inl (a, refl)
Checked-cases (bad e) = inr (e, refl)

pub ran-eq : {A : Type 0} {a b : A} → ran a ≡ ran b → a ≡ b
ran-eq h = cc

pub crashed_not_ran : {A : Type 0} {a : A} → crashed ≡ ran a → ⊥
crashed_not_ran h = ground arith
