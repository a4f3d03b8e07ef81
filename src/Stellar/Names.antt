-- ===== src/Stellar/Names.antt =====
-- toKebabCase of pkg/stellar/stellar.go, on texts. pkg/consumer/config.go has the same function.
use Prim.Native.Char.{Char, code}
use Prim.Native.String.{String, char_at}
use flowctl_sdk.Base.{◌-◌, ◌&&◌, Option, none, some, if◌then◌else◌, leb, ◌==◌}

-- `r + 32` for an upper-case letter.
unfoldable pub lower : Char → Char
lower c = char_at "abcdefghijklmnopqrstuvwxyz" (code c - 65)

-- What the loop adds for one rune; `p` is the rune before.
unfoldable pub kebab_rune : Option Char → Char → String → String
unfolding lower
kebab_rune p c rest =
    if code c == 32
    then String.◌∷◌ "-" rest
    else if leb 65 (code c) && leb (code c) 90
    then elim p [
      | none ↦ String.◌∷◌ (lower c) rest
      | some q ↦
          if code q == 32
          then String.◌∷◌ (lower c) rest
          else String.◌∷◌ "-" (String.◌∷◌ (lower c) rest)
    ]
    else String.◌∷◌ c rest

unfoldable pub kebab_text : Option Char → String → String
unfolding kebab_rune
kebab_text p String.[] = ""
kebab_text p (String.◌∷◌ c s) = kebab_rune p c (kebab_text (some c) s)

unfoldable pub to_kebab_case : String → String
unfolding kebab_text
to_kebab_case s = kebab_text none s
