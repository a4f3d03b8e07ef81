-- ===== src/Stellar/Invocations/Numbers.antt =====
-- The wide integers of contract_invocation/helpers.go. What a function ends in, `big.Int.String`, is
-- left to the caller: the functions return the integer.
use Prim.Native.Char.{Char}
use Prim.Native.String.{String}
use flowctl_sdk.Base.{ℕ, zero, suc, ◌-◌, ◌/◌, ◌%◌, ◌^◌, ltb, if◌then◌else◌, negative64, ◌==◌}
use flowctl_sdk.Base.Int.{ℤ, pos, ◌+ℤ◌, ◌-ℤ◌, lsh}
use flowctl_sdk.Stellar.Xdr.{Parts128, Parts256}

unfoldable pub uint128 : Parts128 → ℤ
uint128 v = lsh 64 (pos v.hi) +ℤ pos v.lo

-- `if uint64(hi)&(1<<63) != 0 { hi.Sub(hi, 1<<64) }`.
unfoldable pub signed_word : ℕ → ℤ
signed_word hi = if negative64 hi then pos hi -ℤ lsh 64 (pos 1) else pos hi

unfoldable pub int128 : Parts128 → ℤ
unfolding signed_word
int128 v = lsh 64 (signed_word v.hi) +ℤ pos v.lo

unfoldable pub uint256 : Parts256 → ℤ
uint256 v =
    pos 0 +ℤ lsh 192 (pos v.hi_hi) +ℤ lsh 128 (pos v.hi_lo) +ℤ lsh 64 (pos v.lo_hi) +ℤ pos v.lo_lo

unfoldable pub int256 : Parts256 → ℤ
unfolding signed_word
int256 v =
    pos 0
    +ℤ lsh 192 (signed_word v.hi_hi)
    +ℤ lsh 128 (pos v.hi_lo)
    +ℤ lsh 64 (pos v.lo_hi)
    +ℤ pos v.lo_lo

-- The digits of the verb %x.
unfoldable pub hex_digit : ℕ → Char
hex_digit d =
    if d == 0
    then "0"
    else if d == 1
    then "1"
    else if d == 2
    then "2"
    else if d == 3
    then "3"
    else if d == 4
    then "4"
    else if d == 5
    then "5"
    else if d == 6
    then "6"
    else if d == 7
    then "7"
    else if d == 8
    then "8"
    else if d == 9
    then "9"
    else if d == 10
    then "a"
    else if d == 11
    then "b"
    else if d == 12
    then "c"
    else if d == 13
    then "d"
    else if d == 14
    then "e"
    else "f"

-- The last `w` hexadecimal digits of `n`, in front of `s`.
unfoldable pub hex_onto : ℕ → ℕ → String → String
unfolding hex_digit
hex_onto zero n s = s
hex_onto (suc w) n s = hex_onto w (n / 16) (String.◌∷◌ (hex_digit (n % 16)) s)

-- The verb %016x, for a uint64.
unfoldable pub hex16 : ℕ → String → String
unfolding hex_onto
hex16 n s = hex_onto 16 n s

unfoldable pub uint256_to_hex : Parts256 → String
uint256_to_hex v = hex16 v.hi_hi (hex16 v.hi_lo (hex16 v.lo_hi (hex16 v.lo_lo "")))

-- The verb %016x, for an int64: a sign and the magnitude, which make up the 16 places together.
unfoldable pub hex16_signed : ℕ → String → String
unfolding hex16
hex16_signed n s =
    let m = 2 ^ 64 - n in
    if negative64 n
    then String.◌∷◌ "-" (hex_onto (if ltb m (2 ^ 60) then 15 else 16) m s)
    else hex16 n s

unfoldable pub int256_to_hex : Parts256 → String
int256_to_hex v = hex16_signed v.hi_hi (hex16 v.hi_lo (hex16 v.lo_hi (hex16 v.lo_lo "")))
