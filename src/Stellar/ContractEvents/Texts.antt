-- ===== src/Stellar/ContractEvents/Texts.antt =====
-- scValToJSON and detectEventType of pkg/stellar/processors/contract_events/contract_events.go. A
-- `Must…` of a nil pointer panics.
use Prim.Native.String.{String}
use flowctl_sdk.Base.{
  ℕ, suc, ◌-◌, ◌^◌, Bool, true, false, List, Option, none, some, ◌<>◌, str_eq, if◌then◌else◌, ltb,
}
use flowctl_sdk.Base.Int.{ℤ, pos, negsuc}
use flowctl_sdk.Stellar.Panics.{Run, ran, crashed, Checked, good, bad}
use flowctl_sdk.Stellar.Xdr.{
  Hash, ScAddress, ScVal, nil_vec, absent_vec, vec_of, Items, nil_map, absent_map, map_of, Pairs,
  entry,
}
use flowctl_sdk.Stellar.Invocations.Numbers.{signed_word}
use flowctl_sdk.Stellar.Invocations.Values.{hex_bytes}

-- What the code calls: the hexadecimal text of a hash, an address's text, the verb %d, a value's XDR
-- bytes with whether MarshalBinary reports no error, base64, and json.Unmarshal into a map: the text
-- under a key, if the object has one.
pub record Library : Type 0 where
  pub hex_string : Hash → String
  pub address_text : ScAddress → Checked String
  pub decimal : ℤ → String
  pub marshal_binary : ScVal → List ℕ × Bool
  pub base64 : List ℕ → String
  pub unmarshal : String → Option (String → Option String)

-- An int32 of a pattern.
unfoldable pub signed32 : ℕ → ℤ
signed32 n = if ltb n (2 ^ 31) then pos n else negsuc (2 ^ 32 - n - 1)

-- `fmt.Sprintf(format, *p)`.
abbrev pub must_text : {A : Type 0} → Option A → (A → String) → Run String
must_text none f = crashed
must_text (some a) f = ran (f a)

unfoldable pub quoted : String → String → String
quoted kind v = "{\"type\":\"" <> kind <> "\",\"value\":\"" <> v <> "\"}"

unfoldable pub number : String → String → String
number kind v = "{\"type\":\"" <> kind <> "\",\"value\":" <> v <> "}"

unfoldable pub sized : String → String → String
sized kind v = "{\"type\":\"" <> kind <> "\",\"length\":" <> v <> "}"

unfoldable pub items_length : Items → ℕ
items_length Items.nil = 0
items_length (Items.cons v is) = suc (items_length is)

unfoldable pub pairs_length : Pairs → ℕ
pairs_length Pairs.end = 0
pairs_length (entry k v ps) = suc (pairs_length ps)

module _ (lib : Library) where
  unfoldable pub address_json : Checked String → String
  address_json (bad e) = "{\"type\":\"address\",\"error\":\"conversion_failed\"}"
  address_json (good s) = quoted "address" s

  -- The default case.
  unfoldable pub unknown_json : List ℕ × Bool → String
  unknown_json (bs, false) = "{\"type\":\"unknown\",\"error\":\"marshal_failed\"}"
  unknown_json (bs, true) = "{\"type\":\"unknown\",\"xdr\":\"" <> lib.base64 bs <> "\"}"

  unfoldable pub sc_val_to_json : ScVal → Run String
  unfolding address_json unknown_json
  sc_val_to_json (ScVal.symbol p) = must_text p (quoted "symbol")
  sc_val_to_json (ScVal.u64 p) = must_text p λ n. number "u64" (lib.decimal (pos n))
  sc_val_to_json (ScVal.i64 p) = must_text p λ n. number "i64" (lib.decimal (signed_word n))
  sc_val_to_json (ScVal.u32 p) = must_text p λ n. number "u32" (lib.decimal (pos n))
  sc_val_to_json (ScVal.i32 p) = must_text p λ n. number "i32" (lib.decimal (signed32 n))
  sc_val_to_json (ScVal.bytes p) = must_text p λ bs. quoted "bytes" (hex_bytes bs)
  sc_val_to_json (ScVal.text p) = must_text p (quoted "string")
  sc_val_to_json (ScVal.address p) = must_text p λ a. address_json (lib.address_text a)
  sc_val_to_json (ScVal.vec nil_vec) = crashed
  sc_val_to_json (ScVal.vec absent_vec) = ran "{\"type\":\"vec\",\"value\":[]}"
  sc_val_to_json (ScVal.vec (vec_of is)) = ran (sized "vec" (lib.decimal (pos (items_length is))))
  sc_val_to_json (ScVal.map nil_map) = crashed
  sc_val_to_json (ScVal.map absent_map) = ran "{\"type\":\"map\",\"value\":{}}"
  sc_val_to_json (ScVal.map (map_of ps)) = ran (sized "map" (lib.decimal (pos (pairs_length ps))))
  sc_val_to_json v = ran (unknown_json (lib.marshal_binary v))

-- The switch over the symbol.
unfoldable pub event_name : String → String
event_name v =
    if str_eq v "transfer"
    then "transfer"
    else if str_eq v "mint"
    then "mint"
    else if str_eq v "burn"
    then "burn"
    else if str_eq v "swap"
    then "swap"
    else if str_eq v "approve"
    then "approve"
    else if str_eq v "clawback"
    then "clawback"
    else v

unfoldable pub symbol_name : Option String → Option String → String
unfolding event_name
symbol_name none value = "unknown"
symbol_name (some t) none = "unknown"
symbol_name (some t) (some v) = if str_eq t "symbol" then event_name v else "unknown"

-- detectEventType, of the JSON text of the first topic, if there is one.
unfoldable pub detect_event_type :
    (String → Option (String → Option String)) → Option String → String
unfolding symbol_name
detect_event_type unmarshal none = "unknown"
detect_event_type unmarshal (some j) = elim (unmarshal j) [
  | none ↦ "unknown"
  | some field ↦ symbol_name (field "type") (field "value")
]
