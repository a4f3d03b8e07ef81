-- ===== src/Stellar/Invocations/Digits.antt =====
-- The hexadecimal texts of contract_invocation/helpers.go are read back.
use Prim.Native.Char.{code}
use Prim.Native.String.{String}
use native.Mathlib.Nat.{pow-succ'}
use flowctl_sdk.Base.{
  ℕ, zero, suc, ◌+◌, ◌-◌, ◌*◌, ◌/◌, ◌%◌, ◌^◌, ◌<◌, ◌≤◌, ◌≡◌, refl, sym, ap, ◌∙◌, Bool, true, false,
  not, ◌&&◌, negative64, if◌then◌else◌, ltb, arith, ◌==◌,
}
use flowctl_sdk.Base.Int.{ℤ, pos, sub_ℕ}
use flowctl_sdk.Stellar.Invocations.Numbers.{
  hex_digit, hex_onto, hex16, hex16_signed, uint256_to_hex, int256_to_hex,
}
use flowctl_sdk.Stellar.Xdr.{Parts256}

-- The value of a digit's code point.
abbrev digit_value : ℕ → ℕ
digit_value c = if ltb c 58 then c - 48 else c - 87

-- The number that hexadecimal digits write, after a number that was read before.
unfoldable pub read_hex : ℕ → String → ℕ
read_hex a String.[] = a
read_hex a (String.◌∷◌ c s) = read_hex (a * 16 + digit_value (code c)) s

-- The test `t` passes at `d` and at the next numbers, `n` of them in all.
passes_from : (ℕ → Bool) → ℕ → ℕ → Bool
passes_from t d zero = true
passes_from t d (suc n) = if t d then passes_from t (d + 1) n else false

passes_at :
    (t : ℕ → Bool) (n d k : ℕ) → passes_from t d n ≡ true → (d ≤ k) × (k < d + n) → t k ≡ true
unfolding passes_from
passes_at t zero d k h between = absurd (omega arith)
passes_at t (suc n) d k h between = ground (arith, passes_at t n (d + 1) k)

-- A digit is read as its value, and is no minus sign.
abbrev is_digit : ℕ → Bool
is_digit d = (digit_value (code (hex_digit d)) == d) && not (code (hex_digit d) == 45)

sixteen_digits : passes_from is_digit 0 16 ≡ true
unfolding passes_from hex_digit
sixteen_digits = refl

eq_of_test : (a b : ℕ) (c : Bool) → ((a == b) && not c) ≡ true → (a ≡ b) × (c ≡ false)
eq_of_test a b c h = ground arith

digit_facts :
    (n : ℕ)
    → (digit_value (code (hex_digit (n % 16))) ≡ n % 16)
      × ((code (hex_digit (n % 16)) == 45) ≡ false)
digit_facts n = eq_of_test _ _ _ (passes_at is_digit 16 0 (n % 16) sixteen_digits (omega arith))

-- One more digit in front of what is read.
read_step : (a P n : ℕ) → (a * P + n / 16) * 16 + n % 16 ≡ a * (16 * P) + n
read_step a P n = grind arith

pub read-hex_onto :
    (w a n : ℕ) (s : String)
    → n < 16 ^ w
    → read_hex a (hex_onto w n s) ≡ read_hex (a * 16 ^ w + n) s
unfolding hex_onto read_hex
read-hex_onto zero a n s h = ap (λ x. read_hex x s) (omega arith)
read-hex_onto (suc w) a n s h =
    read-hex_onto w a (n / 16) (String.◌∷◌ (hex_digit (n % 16)) s) (omega (arith, pow-succ' 16 w))
    ∙ ap (λ x. read_hex ((a * 16 ^ w + n / 16) * 16 + x) s) (digit_facts n).0
    ∙ ap (λ x. read_hex x s) (read_step a (16 ^ w) n ∙ ap (λ p. a * p + n) (sym (pow-succ' 16 w)))

read-hex16 :
    (a n : ℕ) (s : String) → n < 2 ^ 64 → read_hex a (hex16 n s) ≡ read_hex (a * 2 ^ 64 + n) s
unfolding hex16
read-hex16 a n s h = read-hex_onto 16 a n s h

-- Each word of a wide integer is a uint64.
abbrev pub IsWords : Parts256 → Type 0
IsWords v = (v.hi_hi < 2 ^ 64) × (v.hi_lo < 2 ^ 64) × (v.lo_hi < 2 ^ 64) × (v.lo_lo < 2 ^ 64)

-- The 192 bits of the three lower words.
abbrev pub low_words : Parts256 → ℕ
low_words v = (v.hi_lo * 2 ^ 64 + v.lo_hi) * 2 ^ 64 + v.lo_lo

-- The 256 bits of the words.
abbrev pub pattern256 : Parts256 → ℕ
pattern256 v = ((v.hi_hi * 2 ^ 64 + v.hi_lo) * 2 ^ 64 + v.lo_hi) * 2 ^ 64 + v.lo_lo

-- The three lower words, after a number that was read before.
read_words :
    (a : ℕ) (v : Parts256)
    → IsWords v
    → read_hex a (hex16 v.hi_lo (hex16 v.lo_hi (hex16 v.lo_lo ""))) ≡ a * 2 ^ 192 + low_words v
unfolding read_hex
read_words a v h =
    let low = hex16 v.lo_lo "" in
    let b = a * 2 ^ 64 + v.hi_lo in
    let c = b * 2 ^ 64 + v.lo_hi in
    read-hex16 a v.hi_lo (hex16 v.lo_hi low) h.1
    ∙ read-hex16 b v.lo_hi low h.2
    ∙ read-hex16 c v.lo_lo "" h.3
    ∙ omega arith

pub read-uint256_to_hex : (v : Parts256) → IsWords v → read_hex 0 (uint256_to_hex v) ≡ pattern256 v
unfolding uint256_to_hex
read-uint256_to_hex v h =
    read-hex16 0 v.hi_hi (hex16 v.hi_lo (hex16 v.lo_hi (hex16 v.lo_lo ""))) h.0
    ∙ read_words (0 * 2 ^ 64 + v.hi_hi) v h
    ∙ omega arith

-- The integer that a text writes, with a minus sign before the digits or without.
pub read_signed : String → ℤ
read_signed String.[] = pos 0
read_signed (String.◌∷◌ c s) =
    if code c == 45 then sub_ℕ 0 (read_hex 0 s) else pos (read_hex 0 (String.◌∷◌ c s))

read_signed-hex_onto :
    (w n : ℕ) (s : String)
    → read_signed (hex_onto (suc w) n s) ≡ pos (read_hex 0 (hex_onto (suc w) n s))
unfolding hex_onto read_signed
read_signed-hex_onto zero n s = ground (arith, (digit_facts n).1)
read_signed-hex_onto (suc w) n s =
    read_signed-hex_onto w (n / 16) (String.◌∷◌ (hex_digit (n % 16)) s)

-- A magnitude of at most 2 ^ 63, in 15 or 16 digits.
read_magnitude :
    (b : Bool) (m : ℕ) (s : String)
    → ltb m (2 ^ 60) ≡ b
    → m < 2 ^ 64
    → read_hex 0 (hex_onto (if b then 15 else 16) m s) ≡ read_hex m s
read_magnitude true m s t h =
    read-hex_onto 15 0 m s (ground arith) ∙ ap (λ x. read_hex x s) (omega arith)
read_magnitude false m s t h =
    read-hex_onto 16 0 m s (omega arith) ∙ ap (λ x. read_hex x s) (omega arith)

read_negative :
    (v : Parts256)
    → IsWords v
    → let m = 2 ^ 64 - v.hi_hi in
      negative64 v.hi_hi ≡ true
      → read_hex 0 (
          hex_onto
            (if ltb m (2 ^ 60) then 15 else 16)
            m
            (hex16 v.hi_lo (hex16 v.lo_hi (hex16 v.lo_lo ""))))
        ≡ m * 2 ^ 192 + low_words v
read_negative v h n =
    read_magnitude _ (2 ^ 64 - v.hi_hi) (hex16 v.hi_lo (hex16 v.lo_hi (hex16 v.lo_lo ""))) refl
      (ground arith)
    ∙ read_words (2 ^ 64 - v.hi_hi) v h

if_map :
    {A : Type 0} {x x' y y' : A} (b : Bool)
    → (b ≡ true → x ≡ x')
    → y ≡ y'
    → (if b then x else y) ≡ (if b then x' else y')
if_map true p q = p refl
if_map false p q = q

read_signed-hex16_signed :
    (n : ℕ) (s : String)
    → read_signed (hex16_signed n s) ≡ (
        if negative64 n
        then sub_ℕ 0
            (read_hex 0 (hex_onto (if ltb (2 ^ 64 - n) (2 ^ 60) then 15 else 16) (2 ^ 64 - n) s))
        else pos (read_hex 0 (hex16 n s)))
unfolding hex16_signed hex16 read_signed
read_signed-hex16_signed n s = ground (arith, read_signed-hex_onto 15 n s)

-- The sign stands before the whole, and only the highest word is negated.
pub read-int256_to_hex :
    (v : Parts256)
    → IsWords v
    → read_signed (int256_to_hex v) ≡ (
        if negative64 v.hi_hi
        then sub_ℕ 0 ((2 ^ 64 - v.hi_hi) * 2 ^ 192 + low_words v)
        else pos (pattern256 v))
unfolding int256_to_hex uint256_to_hex
read-int256_to_hex v h =
    read_signed-hex16_signed v.hi_hi (hex16 v.hi_lo (hex16 v.lo_hi (hex16 v.lo_lo "")))
    ∙ if_map (negative64 v.hi_hi) (λ n. ap (sub_ℕ 0) (read_negative v h n))
        (ap pos (read-uint256_to_hex v h))
