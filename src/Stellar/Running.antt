-- ===== src/Stellar/Running.antt =====
-- What Run of pkg/stellar/stellar.go and RunTransform of pkg/stellar/transform.go make of their
-- configuration, together with Validate of pkg/processor/config.go.
use flowctl_sdk.Base.{
  ℕ, ◌≡◌, ◌≢◌, ◌↔◌, refl, sym, subst, inl, inr, true, false, [], ◌∷◌, none, some, String, str_eq,
  arith, eq_iff, Option-cases,
}
use flowctl_sdk.Errors.{Error, Result, good, bad, Result-cases}
use flowctl_sdk.Consumer.Config.{Environment, FlowctlConfig}
use flowctl_sdk.Flowctl.Types as T
use flowctl_sdk.Flowctl.Types.{processor, is_unset}
use flowctl_sdk.Processor.Config as P
use flowctl_sdk.Stellar.Config.{Config, validate}
use flowctl_sdk.Stellar.Run.{
  ProcessorConfig, TransformConfig, Prepared, prepared, component_id_of, processor_config,
  with_flowctl, unless_empty, name_output, name_processor, run, load_transform, run_transform,
}

-- The registration that the processor's configuration is completed to.
pub record Registers (generated input output : String) (p : Prepared) : Type 0 where
  pub flowctl : T.Config
  pub is_set : (P.validate generated p.proc_config).flowctl_config ≡ some flowctl
  pub enabled : flowctl.enabled ≡ true
  pub endpoint : flowctl.endpoint ≡ p.config.flowctl.endpoint
  pub interval : flowctl.heartbeat_interval ≡ p.config.flowctl.heartbeat_interval
  pub service : flowctl.service_id ≡ p.component_id
  pub service_type : flowctl.service_type ≡ processor
  pub inputs : flowctl.input_event_types ≡ input ∷ []
  pub outputs : flowctl.output_event_types ≡ output ∷ []

validate_named :
    (generated : String) (c : P.Config) (f : T.Config)
    → str_eq c.id "" ≡ false
    → c.flowctl_config ≡ some f
    → f.enabled ≡ true
    → (P.validate generated c).flowctl_config ≡ some (P.complete c f)
unfolding P.validate
validate_named generated c f a q on = ground arith

with_flowctl_on :
    (f : FlowctlConfig)
    → f.enabled ≡ true
    → with_flowctl f (some P.default_flowctl)
      ≡ some (record P.default_flowctl {
        enabled = true;
        endpoint = f.endpoint;
        heartbeat_interval = f.heartbeat_interval;
      })
unfolding with_flowctl
with_flowctl_on f on = ground arith

bad_not_good : {x : Error} {p : Prepared} → bad x ≡ good p → ⊥
bad_not_good h = ground arith

good-eq : {p q : Prepared} → good p ≡ good q → p ≡ q
good-eq h = cc

valid_passphrase :
    (decimal : ℕ → String) (c : Config) → validate decimal c ≡ none → c.passphrase ≢ ""
unfolding validate
valid_passphrase decimal c h q = ground (arith, eq_iff c.passphrase "")

-- What RunTransform asks for: two types, a function, and a file that LoadConfig can load.
abbrev pub Loads : (String → Result Config) → TransformConfig → Type 0
Loads load cfg =
    (cfg.input_type ≢ "")
    × (cfg.output_type ≢ "")
    × (cfg.has_transform ≡ true)
    × (c : Config) × (load (unless_empty cfg.config_path "processor.yaml") ≡ good c)

module _ (w : Environment) (scan_int : String → ℕ) where
  prepared-Registers :
      (generated input output given : String) (c : Config)
      → component_id_of w scan_int given c ≢ ""
      → c.flowctl.enabled ≡ true
      → Registers generated input output (prepared w scan_int input output given c)
  unfolding prepared processor_config P.default_config P.complete is_unset
  prepared-Registers generated input output given c named on =
      let p = prepared w scan_int input output given c in
      let id = component_id_of w scan_int given c in
      let a : str_eq p.proc_config.id "" ≡ false = ground (arith, eq_iff id "") in
      let t = record P.default_flowctl {
        enabled = true;
        endpoint = c.flowctl.endpoint;
        heartbeat_interval = c.flowctl.heartbeat_interval;
      } in
      record {
        flowctl = P.complete p.proc_config t;
        is_set = validate_named generated p.proc_config t a (with_flowctl_on c.flowctl on) refl;
        enabled = refl;
        endpoint = refl;
        interval = refl;
        service = refl;
        service_type = refl;
        inputs = refl;
        outputs = refl;
      }

  registered :
      (generated input output given : String) (c : Config) (p : Prepared)
      → p ≡ prepared w scan_int input output given c
      → (p.component_id ≢ "") × (p.config.flowctl.enabled ≡ true)
      → Registers generated input output p
  unfolding prepared
  registered generated input output given c p e h =
      let k = subst (λ p. (p.component_id ≢ "") × (p.config.flowctl.enabled ≡ true)) e h in
      subst (λ p. Registers generated input output p) (sym e)
        (prepared-Registers generated input output given c k.0 k.1)

  run_prepared :
      (decimal : ℕ → String) (load : String → Result Config) (cfg : ProcessorConfig) (p : Prepared)
      → run w scan_int decimal load cfg ≡ good p
      → (c : Config) × (p
          ≡ prepared w scan_int "stellar.ledger.v1" cfg.output_type cfg.component_id c)
        × (c.passphrase ≢ "")
  unfolding run name_output name_processor
  run_prepared decimal load cfg p h =
      elim (Result-cases (load (unless_empty cfg.config_path "processor.yaml"))) [
        | inr (x, l) ↦ absurd (bad_not_good (rw (l, run) at h))
        | inl (c, l) ↦ elim (Option-cases (validate decimal c)) [
          | inr (x, v) ↦ absurd (bad_not_good (rw (l, v, run) at h))
          | inl v ↦
              let c' = name_output cfg.output_type (name_processor cfg.processor_name c) in
              (c', sym (good-eq (rw (l, v, run) at h)), valid_passphrase decimal c v)
        ]
      ]

  transform_loads :
      (load : String → Result Config) (cfg : TransformConfig) (q : Prepared)
      → load_transform w scan_int load cfg ≡ good q
      → (c : Config) × (load (unless_empty cfg.config_path "processor.yaml") ≡ good c)
        × (q
            ≡ prepared w scan_int cfg.input_type cfg.output_type cfg.component_id
                (name_processor cfg.processor_name c))
  unfolding load_transform
  transform_loads load cfg q h =
      elim (Result-cases (load (unless_empty cfg.config_path "processor.yaml"))) [
        | inr (x, l) ↦ absurd (bad_not_good (rw (l, load_transform) at h))
        | inl (c, l) ↦ (c, l, sym (good-eq (rw (l, load_transform) at h)))
      ]

  passes_tests :
      (load : String → Result Config) (cfg : TransformConfig) (q : Prepared)
      → run_transform w scan_int load cfg ≡ good q
      → ((cfg.input_type ≢ "") × (cfg.output_type ≢ "") × (cfg.has_transform ≡ true))
        × (load_transform w scan_int load cfg ≡ good q)
  unfolding run_transform
  passes_tests load cfg q h = ground (arith, eq_iff cfg.input_type "", eq_iff cfg.output_type "")

  Loads-runs :
      (load : String → Result Config) (cfg : TransformConfig)
      → Loads load cfg
      → (q : Prepared) × (run_transform w scan_int load cfg ≡ good q)
  unfolding run_transform load_transform
  Loads-runs load cfg (a, b, t, c, l) = (
    prepared w scan_int cfg.input_type cfg.output_type cfg.component_id
        (name_processor cfg.processor_name c),
    ground (arith, eq_iff cfg.input_type "", eq_iff cfg.output_type "", l),
  )

  -- A Run that reaches its processor has a network passphrase. With flowctl enabled and a component's
  -- ID that is not empty, the processor's configuration is completed to a registration at the
  -- configured endpoint and interval, under the component's ID, for ledgers as input and the given
  -- type as output.
  pub run-Registers :
      (decimal : ℕ → String) (load : String → Result Config) (cfg : ProcessorConfig) (p : Prepared)
      (generated : String)
      → run w scan_int decimal load cfg ≡ good p
      → (p.component_id ≢ "") × (p.config.flowctl.enabled ≡ true)
      → (p.config.passphrase ≢ "") × Registers generated "stellar.ledger.v1" cfg.output_type p
  unfolding prepared
  run-Registers decimal load cfg p generated h hp =
      let (c, e, v) = run_prepared decimal load cfg p h in
      (
        subst (λ p. p.config.passphrase ≢ "") (sym e) v,
        registered generated "stellar.ledger.v1" cfg.output_type cfg.component_id c p e hp,
      )

  -- RunTransform reaches its processor exactly where the input and the output type are given, the
  -- user's function is not nil, and the configuration can be loaded, with whatever passphrase, also
  -- with none. With flowctl enabled and a component's ID that is not empty, its processor registers as
  -- that of Run does, for the given input and output type.
  pub run_transform-Registers :
      (load : String → Result Config) (cfg : TransformConfig) (generated : String)
      → (((q : Prepared) × (run_transform w scan_int load cfg ≡ good q)) ↔ Loads load cfg)
        × ((q : Prepared)
            → run_transform w scan_int load cfg ≡ good q
            → (q.component_id ≢ "") × (q.config.flowctl.enabled ≡ true)
            → Registers generated cfg.input_type cfg.output_type q)
  run_transform-Registers load cfg generated = (
    (
      λ (q, h).
          let (a, k) = passes_tests load cfg q h in
          let (c, l, e) = transform_loads load cfg q k in (a.0, a.1, a.2, c, l),
      Loads-runs load cfg,
    ),
    λ q h on.
        let (a, k) = passes_tests load cfg q h in
        let (c, l, e) = transform_loads load cfg q k in
        registered generated cfg.input_type cfg.output_type cfg.component_id
          (name_processor cfg.processor_name c) q e on,
  )
