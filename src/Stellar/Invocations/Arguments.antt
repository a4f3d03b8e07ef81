-- ===== src/Stellar/Invocations/Arguments.antt =====
-- extractFunctionName and extractArguments of contract_invocation/helpers.go.
use Prim.Native.String.{String}
use flowctl_sdk.Base.{ℕ, ◌+◌, List, [], ◌∷◌, ◌++◌, Option, none, some, ◌<>◌, str_eq, if◌then◌else◌}
use flowctl_sdk.Base.Int.{pos}
use flowctl_sdk.Stellar.Panics.{Run, ran, ◌>>=◌, Checked, good, bad}
use flowctl_sdk.Stellar.Xdr.{ScVal, InvokeContractArgs}
use flowctl_sdk.Stellar.Invocations.Values.{Json, Fields, no_field, put_field, Library, convert}

-- `string(b)` of bytes is `lib_text`.
module _ (lib_text : List ℕ → String) where
  unfoldable pub get_function_name : ScVal → String
  get_function_name (ScVal.symbol (some s)) = s
  get_function_name (ScVal.text (some s)) = s
  get_function_name (ScVal.bytes (some b)) = lib_text b
  get_function_name _ = ""

  unfoldable pub first_name : List ScVal → String
  unfolding get_function_name
  first_name [] = "unknown"
  first_name (v ∷ vs) = if str_eq (get_function_name v) "" then "unknown" else get_function_name v

  unfoldable pub extract_function_name : InvokeContractArgs → String
  unfolding first_name
  extract_function_name c = if str_eq c.function_name "" then first_name c.args else c.function_name

-- The results of extractArguments.
pub record Arguments : Type 0 where
  pub raw : List ScVal
  pub json : List String
  pub decoded : Fields
  pub error : Option String

-- `marshal` is json.Marshal.
module _ (lib : Library) (marshal : Json → Checked String) where
  -- What follows the conversion of argument `i`: the error to stop with, or the two new entries.
  unfoldable pub argument : ℕ → Checked Json → Checked (String × Json)
  argument i (bad e) = bad ("error decoding argument " <> lib.decimal (pos i) <> ": " <> e)
  argument i (good j) = elim (marshal j) [
    | bad e ↦ bad ("error marshaling argument " <> lib.decimal (pos i) <> ": " <> e)
    | good s ↦ good (s, j)
  ]

  -- The loop, from argument `i`, with what it has built.
  unfoldable pub arguments_loop : ℕ → List ScVal → Arguments → Run Arguments
  unfolding argument
  arguments_loop i [] a = ran a
  arguments_loop i (v ∷ vs) a = do
    c ← convert lib v
    elim (argument i c) [
      | bad e ↦ ran (record a { error = some e })
      | good (s, j) ↦ arguments_loop (i + 1) vs (record a {
        json = a.json ++ s ∷ [];
        decoded = put_field ("arg_" <> lib.decimal (pos i)) j a.decoded;
      })
    ]

  unfoldable pub extract_arguments : List ScVal → Run Arguments
  unfolding arguments_loop
  extract_arguments vs =
      arguments_loop 0 vs (record { raw = vs; json = []; decoded = no_field; error = none })
