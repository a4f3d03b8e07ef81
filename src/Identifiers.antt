-- ===== src/Identifiers.antt =====
-- generateID of pkg/source/utils.go, pkg/consumer/utils.go and pkg/processor/utils.go. What rand.Read
-- fills in, and the clock, are arguments.
use flowctl_sdk.Base.{
  ℕ, ◌+◌, ◌*◌, ◌<◌, ◌≡◌, refl, sym, ap, ◌∙◌, List, [], ◌∷◌, All, String, length, arith,
}
use flowctl_sdk.Stellar.Invocations.Values.{hex_bytes}
use flowctl_sdk.Stellar.Invocations.Digits.{read_hex, read-hex_onto}

-- Of the source and of the consumer: hex.EncodeToString of eight random bytes.
unfoldable pub generate_id : List ℕ → String
generate_id bytes = hex_bytes bytes

-- Of the processor: the nanoseconds of the clock, by the verb %d.
unfoldable pub processor_id : (ℕ → String) → ℕ → String
processor_id decimal nanoseconds = decimal nanoseconds

-- The number that bytes write, after a number that was read before.
number : ℕ → List ℕ → ℕ
number a [] = a
number a (b ∷ bs) = number (a * 256 + b) bs

read-hex_bytes :
    (a : ℕ) (bs : List ℕ) → All (λ b. b < 256) bs → read_hex a (hex_bytes bs) ≡ number a bs
unfolding hex_bytes number read_hex
read-hex_bytes a [] h = refl
read-hex_bytes a (b ∷ bs) h =
    read-hex_onto 2 a b (hex_bytes bs) h.0 ∙ read-hex_bytes (a * 256 + b) bs h.1

number_injective :
    (a c : ℕ) (xs ys : List ℕ)
    → All (λ b. b < 256) xs
    → All (λ b. b < 256) ys
    → length xs ≡ length ys
    → number a xs ≡ number c ys
    → (a ≡ c) × (xs ≡ ys)
unfolding number
number_injective a c [] [] h k l e = (e, refl)
number_injective a c [] (y ∷ ys) h k l e = absurd (omega (arith, l))
number_injective a c (x ∷ xs) [] h k l e = absurd (omega (arith, l))
number_injective a c (x ∷ xs) (y ∷ ys) h k l e =
    let (n, t) = number_injective (a * 256 + x) (c * 256 + y) xs ys h.1 k.1 (omega (arith, l)) e in
    let p = h.0 in
    let q = k.0 in let d : x ≡ y = omega (arith, n, p, q) in (omega (arith, n), λ i. d i ∷ t i)

-- Two readings of eight bytes give the same identifier only if they are the same.
pub generate_id_injective :
    (xs ys : List ℕ)
    → All (λ b. b < 256) xs
    → All (λ b. b < 256) ys
    → length xs ≡ length ys
    → generate_id xs ≡ generate_id ys
    → xs ≡ ys
unfolding generate_id
generate_id_injective xs ys h k l e =
    (number_injective 0 0 xs ys h k l
      (sym (read-hex_bytes 0 xs h) ∙ ap (read_hex 0) e ∙ read-hex_bytes 0 ys k)).1
