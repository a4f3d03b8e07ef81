-- ===== src/Consumer/Run/Choices.antt =====
-- What Run of pkg/consumer/consumer.go chooses.
use flowctl_sdk.Base.{
  ℕ, ◌≡◌, refl, sym, subst, inl, inr, String, str_eq, if◌then◌else◌, arith, Option-cases,
}
use flowctl_sdk.Errors.{Error, Result, good, bad, Result-cases}
use flowctl_sdk.Consumer.{new_consumer_service}
use flowctl_sdk.Consumer.Config.{Config, Environment, get_env, validate}
use flowctl_sdk.Stellar.Names.{to_kebab_case}
use flowctl_sdk.Consumer.Run.{
  ConsumerConfig, Prepared, choose_types, unless_empty, name_consumer, component_id_of, prepared,
  run, get_info, component_info,
}

bad_not_good : {x : Error} {p : Prepared} → bad x ≡ good p → ⊥
bad_not_good h = ground arith

good-eq : {p q : Prepared} → good p ≡ good q → p ≡ q
good-eq h = cc

module _ (w : Environment) where
  run_prepared :
      (decimal : ℕ → String) (load : String → Result Config) (cfg : ConsumerConfig) (p : Prepared)
      → run w decimal load cfg ≡ good p
      → (c : Config) × (let types = choose_types cfg.input_type cfg.input_types in
          p ≡ prepared w cfg types (name_consumer cfg types c))
  unfolding run
  run_prepared decimal load cfg p h =
      elim (Result-cases (load (unless_empty cfg.config_path "consumer.yaml"))) [
        | inr (x, l) ↦ absurd (bad_not_good (rw (l, run) at h))
        | inl (c, l) ↦ elim (Option-cases (validate decimal c)) [
          | inr (x, v) ↦ absurd (bad_not_good (rw (l, v, run) at h))
          | inl v ↦ (c, sym (good-eq (rw (l, v, run) at h)))
        ]
      ]

  abbrev Agrees : ConsumerConfig → Prepared → Type 0
  Agrees cfg p =
      let types = choose_types cfg.input_type cfg.input_types in
      (p.service.input_types ≡ types)
      × ((component_info p).input_event_types ≡ types)
      × ((get_info w p.config p.service).input_event_types ≡ types)
      × ((component_info p).id ≡ (
          if str_eq cfg.component_id ""
          then get_env w "COMPONENT_ID" (to_kebab_case p.config.consumer.name)
          else cfg.component_id))
      × ((get_info w p.config p.service).id
          ≡ get_env w "COMPONENT_ID" (to_kebab_case cfg.consumer_name))

  prepared-Agrees :
      (cfg : ConsumerConfig) (c : Config)
      → let types = choose_types cfg.input_type cfg.input_types in
        Agrees cfg (prepared w cfg types (name_consumer cfg types c))
  unfolding component_info get_info prepared new_consumer_service component_id_of name_consumer
  prepared-Agrees cfg c = (refl, refl, refl, ground arith, refl)

  -- The service, the component that is registered and what GetInfo says agree on the input types: the
  -- given list, or the one deprecated type where the list is empty. The component is registered under
  -- the given ID, or, where there is none, under what the environment says, or else its name in kebab
  -- case. GetInfo does not look at the given ID, nor at a name that only the file gives.
  pub run_agrees :
      (decimal : ℕ → String) (load : String → Result Config) (cfg : ConsumerConfig) (p : Prepared)
      → run w decimal load cfg ≡ good p
      → let types = choose_types cfg.input_type cfg.input_types in
        (p.service.input_types ≡ types)
        × ((component_info p).input_event_types ≡ types)
        × ((get_info w p.config p.service).input_event_types ≡ types)
        × ((component_info p).id ≡ (
            if str_eq cfg.component_id ""
            then get_env w "COMPONENT_ID" (to_kebab_case p.config.consumer.name)
            else cfg.component_id))
        × ((get_info w p.config p.service).id
            ≡ get_env w "COMPONENT_ID" (to_kebab_case cfg.consumer_name))
  run_agrees decimal load cfg p h =
      let (c, e) = run_prepared decimal load cfg p h in
      subst (λ p. Agrees cfg p) (sym e) (prepared-Agrees cfg c)
