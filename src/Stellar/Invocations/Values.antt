-- ===== src/Stellar/Invocations/Values.antt =====
-- ConvertScValToJSON of contract_invocation/helpers.go. `Json` is the `interface{}` that it builds,
-- with Go's number types; the fields of an object are a map with one entry for a key.
use Prim.Native.String.{String}
use flowctl_sdk.Base.{
  ℕ, ◌+◌, Bool, true, false, List, [], ◌∷◌, Option, none, some, ◌<>◌, str_eq, if◌then◌else◌, length,
}
use flowctl_sdk.Base.Int.{ℤ}
use flowctl_sdk.Stellar.Panics.{Run, ran, crashed, ◌>>=◌, Checked, good, bad}
use flowctl_sdk.Stellar.Xdr.{
  Hash, ScAddress, account, contract, unlisted_address, ScVal, nil_vec, absent_vec, vec_of, Items,
  nil_map, absent_map, map_of, Pairs, entry,
}
use flowctl_sdk.Stellar.Invocations.Numbers.{
  uint128, int128, uint256, int256, uint256_to_hex, int256_to_hex, hex_onto,
}

mutual
  pub data Json : Type 0 where
    null : Json
    boolean : Bool → Json
    uint32 int32 uint64 int64 int : ℕ → Json
    text : String → Json
    object : Fields → Json
    array : Values → Json

  pub data Fields : Type 0 where
    no_field : Fields
    field : String → Json → Fields → Fields

  pub data Values : Type 0 where
    no_value : Values
    value : Json → Values → Values

-- `m[k] = v`.
unfoldable pub put_field : String → Json → Fields → Fields
put_field k v no_field = field k v no_field
put_field k v (field j w fs) = if str_eq j k then field k v fs else field j w (put_field k v fs)

-- `map[string]interface{}{"type": name, …}`.
abbrev pub typed : String → Fields → Json
typed name fs = object (field "type" (text name) fs)

-- hex.EncodeToString.
unfoldable pub hex_bytes : List ℕ → String
unfolding hex_onto
hex_bytes [] = ""
hex_bytes (b ∷ bs) = hex_onto 2 b (hex_bytes bs)

-- What the code calls: strkey.Encode for accounts and contracts, big.Int.String, the verb %v,
-- base64.StdEncoding.EncodeToString, and the name of a value's tag.
pub record Library : Type 0 where
  pub encode_account : Hash → Checked String
  pub encode_contract : Hash → Checked String
  pub decimal : ℤ → String
  pub render : Json → String
  pub base64 : List ℕ → String
  pub type_name : ScVal → String

-- `if p == nil { return nil, fmt.Errorf(text) }`, and else what is made of `*p`.
abbrev pub present : {A : Type 0} → String → Option A → (A → Json) → Run (Checked Json)
present what none f = ran (bad what)
present what (some a) f = ran (good (f a))

-- The first result of a call: nil beside an error.
unfoldable pub json_of : Checked Json → Json
json_of (good j) = j
json_of (bad e) = null

unfoldable pub encoded : String → String → Checked String → Checked Json
encoded name what (bad e) = bad (what <> ": " <> e)
encoded name what (good s) = good (typed name (field "address" (text s) no_field))

module _ (lib : Library) where
  unfoldable pub convert_sc_address : ScAddress → Checked Json
  unfolding encoded
  convert_sc_address (account none) = bad "ScAddressTypeAccount has nil AccountId"
  convert_sc_address (account (some a)) =
      encoded "account" "error encoding account address" (lib.encode_account a)
  convert_sc_address (contract none) = bad "ScAddressTypeContract has nil ContractId"
  convert_sc_address (contract (some c)) =
      encoded "contract" "error encoding contract address" (lib.encode_contract c)
  convert_sc_address (unlisted_address n) = bad ("unsupported ScAddress type: " <> n)

  -- What stands in an array for an item.
  unfoldable pub item_value : ℕ → ScVal → Checked Json → Json
  item_value i v (good j) = j
  item_value i v (bad e) = object (
      field "index" (int i)
        (field "error" (text e) (field "type" (text (lib.type_name v)) no_field)))

  -- What stands in a map for a value.
  unfoldable pub entry_value : ScVal → Checked Json → Json
  entry_value v (good j) = j
  entry_value v (bad e) =
      object (field "error" (text e) (field "type" (text (lib.type_name v)) no_field))

  unfoldable pub key_text : Checked Json → String
  key_text (good j) = lib.render j
  key_text (bad e) = "error:" <> e

  unfoldable mutual
    unfolding convert_sc_address item_value entry_value key_text json_of hex_bytes

    pub convert : ScVal → Run (Checked Json)
    convert (ScVal.bool p) = present "ScvBool has nil value" p boolean
    convert ScVal.void = ran (good null)
    convert (ScVal.u32 p) = present "ScvU32 has nil value" p uint32
    convert (ScVal.i32 p) = present "ScvI32 has nil value" p int32
    convert (ScVal.u64 p) = present "ScvU64 has nil value" p uint64
    convert (ScVal.i64 p) = present "ScvI64 has nil value" p int64
    convert (ScVal.timepoint p) =
        present "ScvTimepoint has nil value" p
          λ n. typed "timepoint" (field "value" (uint64 n) no_field)
    convert (ScVal.duration p) =
        present "ScvDuration has nil value" p
          λ n. typed "duration" (field "value" (uint64 n) no_field)
    convert (ScVal.u128 p) = present "ScvU128 has nil value" p λ v. typed "u128" (
        field "hi" (uint64 v.hi)
          (field "lo" (uint64 v.lo) (field "value" (text (lib.decimal (uint128 v))) no_field)))
    convert (ScVal.i128 p) = present "ScvI128 has nil value" p λ v. typed "i128" (
        field "hi" (int64 v.hi)
          (field "lo" (uint64 v.lo) (field "value" (text (lib.decimal (int128 v))) no_field)))
    convert (ScVal.u256 p) = present "ScvU256 has nil value" p λ v. typed "u256" (
        field "hi_hi" (uint64 v.hi_hi) (
          field "hi_lo" (uint64 v.hi_lo) (
            field "lo_hi" (uint64 v.lo_hi) (
              field "lo_lo" (uint64 v.lo_lo) (
                field "value" (text (lib.decimal (uint256 v)))
                  (field "hex" (text (uint256_to_hex v)) no_field))))))
    convert (ScVal.i256 p) = present "ScvI256 has nil value" p λ v. typed "i256" (
        field "hi_hi" (int64 v.hi_hi) (
          field "hi_lo" (uint64 v.hi_lo) (
            field "lo_hi" (uint64 v.lo_hi) (
              field "lo_lo" (uint64 v.lo_lo) (
                field "value" (text (lib.decimal (int256 v)))
                  (field "hex" (text (int256_to_hex v)) no_field))))))
    convert (ScVal.symbol p) = present "ScvSymbol has nil value" p text
    convert (ScVal.text p) = present "ScvString has nil value" p text
    convert (ScVal.bytes p) = present "ScvBytes has nil value" p λ bs. typed "bytes" (
        field "hex" (text (hex_bytes bs))
          (field "base64" (text (lib.base64 bs)) (field "length" (int (length bs)) no_field)))
    convert (ScVal.address none) = ran (bad "ScvAddress has nil value")
    convert (ScVal.address (some a)) = ran (convert_sc_address a)
    convert (ScVal.vec nil_vec) = ran (bad "ScvVec has nil value")
    convert (ScVal.vec absent_vec) = crashed
    convert (ScVal.vec (vec_of is)) = do vs ← convert_items 0 is; ran (good (array vs))
    convert (ScVal.map nil_map) = ran (bad "ScvMap has nil value")
    convert (ScVal.map absent_map) = crashed
    convert (ScVal.map (map_of ps)) = do
      r ← convert_pairs ps no_field
      ran (good (typed "map" (field "entries" (object r.0) (field "keys" (array r.1) no_field))))
    convert (ScVal.contract_instance false) = ran (bad "ScvContractInstance has nil value")
    convert (ScVal.contract_instance true) = ran (
        good
          (typed "contract_instance" (field "value" (text "complex_contract_instance") no_field)))
    convert ScVal.ledger_key_contract_instance =
        ran (good (typed "ledger_key_contract_instance" no_field))
    convert (ScVal.ledger_key_nonce p) =
        present "ScvLedgerKeyNonce has nil value" p
          λ n. typed "ledger_key_nonce" (field "nonce" (int64 n) no_field)
    convert (ScVal.unlisted n) =
        ran (bad ("unsupported ScVal type: " <> lib.type_name (ScVal.unlisted n)))

    -- The loop over a vector's items, from the index of the first.
    pub convert_items : ℕ → Items → Run Values
    convert_items i Items.nil = ran no_value
    convert_items i (Items.cons v is) = do
      c ← convert v
      vs ← convert_items (i + 1) is
      ran (value (item_value i v c) vs)

    -- The loop over a map's entries: the map that it fills, and the keys in order.
    pub convert_pairs : Pairs → Fields → Run (Fields × Values)
    convert_pairs Pairs.end fs = ran (fs, no_value)
    convert_pairs (entry k v ps) fs = do
      key ← convert k
      c ← convert v
      r ← convert_pairs ps (put_field (key_text key) (entry_value v c) fs)
      ran (r.0, value (json_of key) r.1)
