-- ===== src/Examples/Stellar.antt =====
-- The theorems on pkg/stellar/stellar.go and pkg/stellar/transform.go at concrete inputs.
use flowctl_sdk.Base.{ℕ, ◌≡◌, ◌≢◌, ◌↔◌, refl, true, [], ◌∷◌, none, some, String}
use flowctl_sdk.Base.Dict.{get, IsDict}
use text.Mathlib.TextLemmas.{cons-ne-nil}
use flowctl_sdk.Errors.{good}
use flowctl_sdk.Consumer.Config.{Environment}
use flowctl_sdk.Stellar.Config.{Config, default_config, validate}
use flowctl_sdk.Stellar.Run.{
  ProcessorConfig, TransformConfig, Prepared, prepared, name_processor, name_output, run,
  run_transform, component_id_of,
}
use flowctl_sdk.Stellar.Running.{Registers, Loads, run-Registers, run_transform-Registers}
use flowctl_sdk.Stellar.Handlers.{FlowEvent, Calls, handle_ledger, handle_decoded}
use flowctl_sdk.Stellar.Outputs.{Comes, handle_ledger-Comes}

-- A ledger is its text, and what the user's function makes of it too.
abbrev calls : Calls String String
calls = record {
  unmarshal = λ b. good (record { sequence = 7; close_meta_xdr = "xdr" });
  decode = λ x. good x;
  process_ledger = λ l. good (some "events");
  marshal = λ m. good "payload";
}

abbrev ledger_event : FlowEvent
ledger_event = record {
  id = "ledger-7";
  event_type = "stellar.ledger.v1";
  body = "raw";
  metadata = ("network", "testnet") ∷ [];
  source_component_id = "source";
  content_type = "application/protobuf";
  cursor = none;
}

abbrev decimal : ℕ → String
decimal n = "7"

handled :
    (o : FlowEvent) × (handle_ledger decimal calls "swaps" "swap.v1" "1.0.0" ledger_event
      ≡ good (some o))
unfolding handle_ledger handle_decoded
handled = (_, refl)

known : IsDict ledger_event.metadata
unfolding get
known = (refl, tt)

handle_ledger-Comes_example : Comes decimal calls "swaps" "swap.v1" "1.0.0" ledger_event handled.0
handle_ledger-Comes_example =
    handle_ledger-Comes decimal calls "swaps" "swap.v1" "1.0.0" ledger_event handled.0 handled.1
      known

abbrev environment : Environment
environment = record { getenv = λ k. ""; atoi = λ t. none; parse_duration = λ t. none }

-- A configuration with a passphrase and flowctl.
abbrev enabled_config : Config
enabled_config = record default_config {
  passphrase = "Test";
  flowctl = record { enabled = true; endpoint = "flowctl:8080"; heartbeat_interval = 5 };
}

abbrev processor_config : ProcessorConfig
processor_config = record {
  processor_name = "Swaps";
  output_type = "swap.v1";
  config_path = "";
  component_id = "swaps";
}

abbrev transform_config : TransformConfig
transform_config = record {
  processor_name = "Filter";
  input_type = "swap.v1";
  output_type = "big_swap.v1";
  has_transform = true;
  config_path = "";
  component_id = "filter";
}

ran_processor :
    (p : Prepared) × (run environment (λ t. 0) decimal (λ f. good enabled_config) processor_config
      ≡ good p)
    × (p.component_id ≢ "")
    × (p.config.flowctl.enabled ≡ true)
unfolding run validate default_config prepared name_processor name_output component_id_of
ran_processor = (_, refl, λ q. cons-ne-nil _ _ q, refl)

run-Registers_example :
    (ran_processor.0.config.passphrase ≢ "")
    × Registers "1" "stellar.ledger.v1" "swap.v1" ran_processor.0
run-Registers_example =
    run-Registers environment (λ t. 0) decimal (λ f. good enabled_config) processor_config
      ran_processor.0 "1" ran_processor.1 (ran_processor.2, ran_processor.3)

-- A configuration with flowctl and without a passphrase.
abbrev open_config : Config
open_config = record enabled_config { passphrase = "" }

run_transform-Registers_example :
    (((q : Prepared) × (run_transform environment (λ t. 0) (λ f. good open_config) transform_config
          ≡ good q))
      ↔ Loads (λ f. good open_config) transform_config)
    × ((q : Prepared)
        → run_transform environment (λ t. 0) (λ f. good open_config) transform_config ≡ good q
        → (q.component_id ≢ "") × (q.config.flowctl.enabled ≡ true)
        → Registers "1" "swap.v1" "big_swap.v1" q)
run_transform-Registers_example =
    run_transform-Registers environment (λ t. 0) (λ f. good open_config) transform_config "1"
