-- ===== src/Examples/Invocations.antt =====
-- The theorems on pkg/stellar/processors/contract_invocation at concrete inputs.
use flowctl_sdk.Base.{
  ℕ, ◌*◌, ◌+◌, ◌-◌, ◌^◌, ◌≤◌, ◌≡◌, ◌↔◌, ◌⊎◌, negative64, refl, true, false, List, [], ◌∷◌, none,
  some, String, if◌then◌else◌, ltb, ◌==◌, arith, All, select,
}
use flowctl_sdk.Base.Int.{pos, negsuc}
use flowctl_sdk.Stellar.Panics.{ran, crashed, ◌>>=◌, Checked, good, bad}
use flowctl_sdk.Stellar.Xdr.{
  Hash, ScVal, absent_vec, vec_of, Items, map_of, Pairs, entry, ScAddress, Parts128, Parts256,
  InvokeContractArgs, contract_fn, invocation, leaf, sub, AuthorizationEntry,
}
use flowctl_sdk.Stellar.Invocations.Numbers.{
  uint128, int128, uint256, int256, uint256_to_hex, int256_to_hex,
}
use flowctl_sdk.Stellar.Invocations.Digits.{read_hex, pattern256, read_signed, low_words}
use flowctl_sdk.Stellar.Invocations.Readings.{wide_texts, signed_hex}
use flowctl_sdk.Stellar.Invocations.Values.{
  Json, uint32, Fields, no_field, field, object, array, typed, Values, Library, convert,
}
use flowctl_sdk.Stellar.Invocations.Conversions.{absent, readable, convert_outcomes}
use flowctl_sdk.Stellar.Invocations.Containers.{
  field_of, last_of, Stand, Written, convert_containers,
}
use flowctl_sdk.Stellar.Invocations.Calls.{ContractCall, crosses, extract_calls}
use flowctl_sdk.Stellar.Invocations.CallOrder.{all_visits, is_cross, number, extract_calls_lem}
use flowctl_sdk.Stellar.Invocations.CallShape.{
  IsNumbered, IsCross, HasDepth, tallest, extract_calls-IsNumbered,
}
use flowctl_sdk.Stellar.Invocations.Events.{ContractInvocationEvent, get_max_call_depth}

abbrev pub encode : Hash → Checked String
encode h = good (if h == 1 then "CA" else "CB")

abbrev pub encodes : (h : Hash) → (s : String) × (encode h ≡ good s)
encodes h = (if h == 1 then "CA" else "CB", refl)

abbrev pub lib : Library
lib = record {
  encode_account = λ h. good "G";
  encode_contract = encode;
  decimal = λ z. "0";
  render = λ j. "key";
  base64 = λ bs. "";
  type_name = λ v. "type";
}

abbrev minus_two : Parts256
minus_two = record {
  hi_hi = 2 ^ 64 - 1;
  hi_lo = 2 ^ 64 - 1;
  lo_hi = 2 ^ 64 - 1;
  lo_lo = 2 ^ 64 - 2;
}

abbrev wide : Parts128
wide = record { hi = 2 ^ 63; lo = 5 }

wide_texts_example :
    (read_hex 0 (uint256_to_hex minus_two) ≡ pattern256 minus_two)
    × (uint256 minus_two ≡ pos (pattern256 minus_two))
    × (int256 minus_two ≡ (
        if ltb (pattern256 minus_two) (2 ^ 255)
        then pos (pattern256 minus_two)
        else negsuc (2 ^ 256 - pattern256 minus_two - 1)))
    × (uint128 wide ≡ pos (wide.hi * 2 ^ 64 + wide.lo))
    × (int128 wide ≡ (
        if ltb (wide.hi * 2 ^ 64 + wide.lo) (2 ^ 127)
        then pos (wide.hi * 2 ^ 64 + wide.lo)
        else negsuc (2 ^ 128 - (wide.hi * 2 ^ 64 + wide.lo) - 1)))
wide_texts_example = wide_texts minus_two wide (omega arith) (omega arith)

signed_hex_example :
    (read_signed (int256_to_hex minus_two) ≡ int256 minus_two)
    ↔ ((negative64 minus_two.hi_hi ≡ false) ⊎ (low_words minus_two ≡ 0))
signed_hex_example = signed_hex minus_two (omega arith)

-- A vector in which a vector without content stands.
abbrev hollow : ScVal
hollow =
    ScVal.vec
      (vec_of (Items.cons (ScVal.u32 (some 7)) (Items.cons (ScVal.vec absent_vec) Items.nil)))

convert_outcomes_example :
    ((convert lib hollow ≡ crashed) ↔ (absent hollow ≡ true))
    × (((j : Json) × (convert lib hollow ≡ ran (good j)))
        ↔ ((absent hollow ≡ false) × (readable lib hollow ≡ true)))
    × (((e : String) × (convert lib hollow ≡ ran (bad e)))
        ↔ ((absent hollow ≡ false) × (readable lib hollow ≡ false)))
convert_outcomes_example = convert_outcomes lib hollow

-- Two items, the second of which cannot be read, and one entry.
abbrev two_items : Items
two_items = Items.cons (ScVal.u32 (some 7)) (Items.cons (ScVal.unlisted "ScvError") Items.nil)

abbrev one_entry : Pairs
one_entry = entry (ScVal.symbol (some "a")) (ScVal.u32 (some 7)) Pairs.end

converted_items :
    (vs : Values) × (convert lib (ScVal.vec (vec_of two_items)) ≡ ran (good (array vs)))
unfolding convert
converted_items = (_, refl)

converted_entry : (j : Json) × (convert lib (ScVal.map (map_of one_entry)) ≡ ran (good j))
unfolding convert
converted_entry = (_, refl)

convert_containers_example :
    ((vs : Values) × (good (array converted_items.0) ≡ good (array vs)) × Stand lib 0 two_items vs)
    × ((fs : Fields) × (ks : Values) × (ws : List (String × Json)) × (good converted_entry.0
          ≡ good (typed "map" (field "entries" (object fs) (field "keys" (array ks) no_field))))
        × Written lib one_entry ks ws
        × ((k : String) → field_of k fs ≡ last_of k none ws))
convert_containers_example =
    convert_containers lib two_items one_entry (good (array converted_items.0))
      (good converted_entry.0) converted_items.1 converted_entry.1

-- A contract that calls another one.
abbrev pub args_of : ℕ → InvokeContractArgs
args_of h = record {
  contract_address = ScAddress.contract (some h);
  function_name = "swap";
  args = ScVal.u32 (some 7) ∷ [];
}

abbrev pub entries : List AuthorizationEntry
entries =
    record {
      by_address = true;
      root =
          invocation (contract_fn (args_of 1))
            (sub (invocation (contract_fn (args_of 2)) leaf) leaf);
    }
    ∷ []

extract_calls_lem_example :
    extract_calls lib entries "CA"
    ≡ (all_visits lib entries "CA" >>= λ vs. ran (number 0 (select is_cross vs)))
extract_calls_lem_example = extract_calls_lem lib entries "CA"

abbrev one_call : List ContractCall
one_call =
    record {
      from_contract = "CA";
      to_contract = "CB";
      function = "swap";
      arguments = uint32 7 ∷ [];
      call_depth = 1;
      auth_type = "contract";
      successful = true;
      execution_order = 0;
    }
    ∷ []

one_call_extracted : extract_calls lib entries "CA" ≡ ran one_call
unfolding extract_calls convert crosses
one_call_extracted = refl

-- An event with this call.
abbrev pub event : ContractInvocationEvent
event = record {
  timestamp = 100;
  ledger_sequence = 7;
  transaction_index = 3;
  operation_index = 1;
  transaction_hash = "abc";
  contract_id = "CA";
  invoking_account = "GA";
  function_name = "swap";
  arguments_raw = [];
  arguments = [];
  arguments_decoded = no_field;
  successful = true;
  diagnostic_events = [];
  contract_calls = one_call;
  state_changes = [];
}

extract_calls-IsNumbered_example :
    IsNumbered 0 event.contract_calls
    × All IsCross event.contract_calls
    × All (λ c. c.call_depth ≤ get_max_call_depth event) event.contract_calls
    × ((get_max_call_depth event ≡ 0) ⊎ HasDepth (get_max_call_depth event) event.contract_calls)
    × (get_max_call_depth event ≤ tallest entries)
extract_calls-IsNumbered_example =
    extract_calls-IsNumbered lib entries "CA" event one_call_extracted
