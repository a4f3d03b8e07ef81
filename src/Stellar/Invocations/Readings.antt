-- ===== src/Stellar/Invocations/Readings.antt =====
-- What the numbers and the texts of the wide integers stand for.
use flowctl_sdk.Base.{
  ◌⊎◌, ◌↔◌, inl, inr, false, refl, ap, ◌∙◌, ltb, ◌+◌, ◌-◌, ◌*◌, ◌^◌, ◌<◌, ◌≡◌, if◌then◌else◌,
  negative64, arith,
}
use flowctl_sdk.Base.Int.{ℤ, pos, negsuc, eq_of_parts, pos_part, neg_part, ◌+ℤ◌, ◌-ℤ◌, lsh}
use flowctl_sdk.Stellar.Xdr.{Parts128, Parts256}
use flowctl_sdk.Stellar.Invocations.Numbers.{
  uint128, int128, uint256, int256, signed_word, uint256_to_hex, int256_to_hex,
}
use flowctl_sdk.Stellar.Invocations.Digits.{
  read_hex, IsWords, pattern256, read-uint256_to_hex, read-int256_to_hex, read_signed, low_words,
}

sign : (a : ℤ) → (neg_part a ≡ 0) ⊎ (pos_part a ≡ 0)
sign (pos n) = inl refl
sign (negsuc n) = inr refl

uint256_lem : (v : Parts256) → (pos_part (uint256 v) ≡ pattern256 v) × (neg_part (uint256 v) ≡ 0)
unfolding uint256 ◌+ℤ◌ lsh
uint256_lem v = ground arith

int256_lem :
    (v : Parts256)
    → IsWords v
    → pos_part (int256 v) + (if negative64 v.hi_hi then 2 ^ 256 else 0)
      ≡ pattern256 v + neg_part (int256 v)
unfolding int256 signed_word ◌+ℤ◌ ◌-ℤ◌ lsh
int256_lem v h = ground arith

uint128_lem : (w : Parts128) → uint128 w ≡ pos (w.hi * 2 ^ 64 + w.lo)
unfolding uint128 ◌+ℤ◌ lsh
uint128_lem w = ground arith

int128_lem :
    (w : Parts128)
    → (w.hi < 2 ^ 64) × (w.lo < 2 ^ 64)
    → let m = w.hi * 2 ^ 64 + w.lo in
      int128 w ≡ (if ltb m (2 ^ 127) then pos m else negsuc (2 ^ 128 - m - 1))
unfolding int128 ◌+ℤ◌ ◌-ℤ◌ lsh
int128_lem w h = ground arith

-- A number and its text agree. The hexadecimal text of an unsigned 256-bit value is read back as the pattern
-- of its four words; the unsigned value is that pattern; and the signed value is its reading in two's
-- complement: at least -2 ^ 255, below 2 ^ 255, and the same up to 2 ^ 256. So it is with the values
-- of the two words of 128 bits.
pub wide_texts :
    (v : Parts256) (w : Parts128)
    → IsWords v
    → (w.hi < 2 ^ 64) × (w.lo < 2 ^ 64)
    → let n = pattern256 v in
      let m = w.hi * 2 ^ 64 + w.lo in
      (read_hex 0 (uint256_to_hex v) ≡ n)
      × (uint256 v ≡ pos n)
      × (int256 v ≡ (if ltb n (2 ^ 255) then pos n else negsuc (2 ^ 256 - n - 1)))
      × (uint128 w ≡ pos m)
      × (int128 w ≡ (if ltb m (2 ^ 127) then pos m else negsuc (2 ^ 128 - m - 1)))
wide_texts v w h k =
    let u = uint256_lem v in
    let s = int256_lem v h in
    let r = sign (int256 v) in
    (
      read-uint256_to_hex v h,
      eq_of_parts _ _ (omega (arith, u)),
      eq_of_parts _ _ (ground (arith, s, r)),
      uint128_lem w,
      int128_lem w k,
    )

read_parts :
    (v : Parts256)
    → IsWords v
    → let z = read_signed (int256_to_hex v) in
      let m = (2 ^ 64 - v.hi_hi) * 2 ^ 192 + low_words v in
      (pos_part z ≡ (if negative64 v.hi_hi then 0 else pattern256 v))
      × (neg_part z ≡ (if negative64 v.hi_hi then m else 0))
read_parts v h =
    let r = read-int256_to_hex v h in (ap pos_part r ∙ ground arith, ap neg_part r ∙ ground arith)

-- The hexadecimal text of a signed 256-bit value, read as a number with a sign, is the value where it
-- is not negative, and otherwise exactly where its three lower words are zero: the minus sign of the
-- highest word stands before all the digits.
pub signed_hex :
    (v : Parts256)
    → IsWords v
    → (read_signed (int256_to_hex v) ≡ int256 v)
      ↔ ((negative64 v.hi_hi ≡ false) ⊎ (low_words v ≡ 0))
signed_hex v h =
    let r = read_parts v h in
    let s = int256_lem v h in
    let g = sign (int256 v) in
    (
      λ q. let a = ap pos_part q in let b = ap neg_part q in ground (arith, r, s, g, a, b),
      λ q. eq_of_parts _ _ (ground (arith, r, s, g, q)),
    )
