-- ===== src/Consumer/Config/Kebab.antt =====
-- toKebabCase of pkg/consumer/config.go, on the code points of a text. `s[i-1]` is a blank exactly
-- where the code point before is one.
use flowctl_sdk.Base.{
  ℕ, ◌+◌, ◌≡◌, ◌≢◌, ◌<◌, refl, Bool, false, not, ◌&&◌, List, [], ◌∷◌, Option, none, some, ◌⊎◌,
  if◌then◌else◌, leb, ◌==◌, arith, All,
}

-- `r >= 'A' && r <= 'Z'`.
abbrev pub is_upper : ℕ → Bool
is_upper r = leb 65 r && leb r 90

-- `i > 0 && s[i-1] != ' '`.
abbrev pub in_word : Option ℕ → Bool
in_word none = false
in_word (some q) = not (q == 32)

-- What the loop adds for one code point.
abbrev pub kebab_one : Option ℕ → ℕ → List ℕ → List ℕ
kebab_one p r rest =
    if r == 32
    then 45 ∷ rest
    else if is_upper r
    then if in_word p then 45 ∷ (r + 32) ∷ rest else (r + 32) ∷ rest
    else r ∷ rest

unfoldable pub kebab_from : Option ℕ → List ℕ → List ℕ
kebab_from p [] = []
kebab_from p (r ∷ rs) = kebab_one p r (kebab_from (some r) rs)

unfoldable pub to_kebab_case : List ℕ → List ℕ
unfolding kebab_from
to_kebab_case rs = kebab_from none rs

-- Neither a blank nor an upper-case letter.
abbrev pub IsPlain : ℕ → Type 0
IsPlain r = (r ≢ 32) × ((r < 65) ⊎ (90 < r))

kebab_one-IsPlain :
    (p : Option ℕ) (r : ℕ) (rest : List ℕ) → All IsPlain rest → All IsPlain (kebab_one p r rest)
kebab_one-IsPlain p r rest h = ground arith

kebab_from-IsPlain : (p : Option ℕ) (rs : List ℕ) → All IsPlain (kebab_from p rs)
unfolding kebab_from
kebab_from-IsPlain p [] = tt
kebab_from-IsPlain p (r ∷ rs) = kebab_one-IsPlain p r _ (kebab_from-IsPlain (some r) rs)

kebab_from_same : (p : Option ℕ) (rs : List ℕ) → All IsPlain rs → kebab_from p rs ≡ rs
unfolding kebab_from
kebab_from_same p [] h = refl
kebab_from_same p (r ∷ rs) h = let e = kebab_from_same (some r) rs h.1 in ground arith

-- The result of toKebabCase has neither blanks nor upper-case letters.
pub kebab-IsPlain : (rs : List ℕ) → All IsPlain (to_kebab_case rs)
unfolding to_kebab_case
kebab-IsPlain rs = kebab_from-IsPlain none rs

-- A second toKebabCase changes nothing.
pub kebab_idem : (rs : List ℕ) → to_kebab_case (to_kebab_case rs) ≡ to_kebab_case rs
unfolding to_kebab_case
kebab_idem rs = kebab_from_same none (kebab_from none rs) (kebab_from-IsPlain none rs)
