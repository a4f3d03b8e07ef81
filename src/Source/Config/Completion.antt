-- ===== src/Source/Config/Completion.antt =====
-- What pkg/source/config.go's Validate makes of a configuration, up to the message with which
-- pkg/flowctl/controller.go registers the source.
use flowctl_sdk.Base.{
  ◌≡◌, refl, Bool-cases, true, false, Option-cases, some, String, ◌<>◌, str_eq, if◌then◌else◌,
  arith, prefixed_not_empty, inl, inr,
}
use flowctl_sdk.Base.Dict.{Dict, get, get-put, put-same}
use flowctl_sdk.Flowctl.Types.{ServiceType, source, unset, is_unset}
use flowctl_sdk.Flowctl.Types as T
use flowctl_sdk.Flowctl.Controller.{new_controller, source_info, get_text}
use flowctl_sdk.Source.Config.{Config, complete, validate}

source_named : (g : String) → str_eq ("source-" <> g) "" ≡ false
source_named g = prefixed_not_empty _ _ g

get_text_entry : (k v : String) (m : Dict String) → get k m ≡ some v → get_text k m ≡ v
unfolding get_text
get_text_entry k v m h = ground arith

service_type_idem :
    (t : ServiceType)
    → let u = if is_unset t then source else t in (if is_unset u then source else u) ≡ u
unfolding is_unset
service_type_idem T.unset = refl
service_type_idem T.source = refl
service_type_idem T.processor = refl
service_type_idem T.consumer = refl
service_type_idem (T.other t) = refl

service_id_idem :
    (a b : String)
    → str_eq a "" ≡ false
    → let u = if str_eq b "" then a else b in (if str_eq u "" then a else u) ≡ u
service_id_idem a b h = ground arith

-- The five entries that `complete` writes.
module _ (c : Config) (f : T.Config) where
  metadata_entries :
      let m = (complete c f).metadata in
      (get "source_id" m ≡ some c.id)
      × (get "source_name" m ≡ some c.name)
      × (get "source_version" m ≡ some c.version)
      × (get "source_description" m ≡ some c.description)
      × (get "endpoint" m ≡ some c.endpoint)
  unfolding complete
  metadata_entries = (simp get-put, simp get-put, simp get-put, simp get-put, simp get-put)

  complete_info :
      (F : Type 0) (stamp : String)
      → let i = source_info (new_controller {F = F} stamp (complete c f)) in
        (i.name ≡ c.name)
        × (i.description ≡ c.description)
        × (i.version ≡ c.version)
        × (i.endpoint ≡ c.endpoint)
  unfolding source_info new_controller
  complete_info F stamp =
      let (_, n, v, d, e) = metadata_entries in
      let m = (complete c f).metadata in
      (
        get_text_entry _ _ m n,
        get_text_entry _ _ m d,
        get_text_entry _ _ m v,
        get_text_entry _ _ m e,
      )

  complete_id :
      (F : Type 0) (stamp : String)
      → str_eq c.id "" ≡ false
      → let i = source_info (new_controller {F = F} stamp (complete c f)) in
        (i.id ≡ (if str_eq f.service_id "" then c.id else f.service_id))
        × (i.output_event_types ≡ c.output_event_types)
  unfolding source_info new_controller complete
  complete_id F stamp h = ground arith

  metadata_same : (complete c (complete c f)).metadata ≡ (complete c f).metadata
  unfolding complete
  metadata_same =
      let (i, n, v, d, e) = metadata_entries in
      let m = (complete c f).metadata in
      rw
        (
          put-same "source_id" c.id m i,
          put-same "source_name" c.name m n,
          put-same "source_version" c.version m v,
          put-same "source_description" c.description m d,
          put-same "endpoint" c.endpoint m e,
        )
        refl

  complete_idem : str_eq c.id "" ≡ false → complete c (complete c f) ≡ complete c f
  unfolding complete
  complete_idem h =
      rw (metadata_same, service_type_idem f.service_type, service_id_idem c.id f.service_id h) refl

validated_id : (g : String) (c : Config) → str_eq (validate g c).id "" ≡ false
unfolding validate
validated_id g c = ground (arith, source_named g)

validated_flowctl :
    (g : String) (c : Config) (f : T.Config)
    → c.flowctl_config ≡ some f
    → f.enabled ≡ true
    → (validate g c).flowctl_config ≡ some (complete (validate g c) f)
unfolding validate complete
validated_flowctl g c f h e = ground arith

-- A validated configuration with flowctl enabled registers the source under its own ID unless the
-- flowctl configuration names one, with its name, description, version, endpoint and output types.
pub validate_registers :
    (F : Type 0) (stamp g : String) (c : Config) (f : T.Config)
    → c.flowctl_config ≡ some f
    → f.enabled ≡ true
    → let v = validate g c in
      (f' : T.Config) × (v.flowctl_config ≡ some f')
      × (let i = source_info (new_controller {F = F} stamp f') in
          (i.id ≡ (if str_eq f.service_id "" then v.id else f.service_id))
          × (i.name ≡ v.name)
          × (i.description ≡ v.description)
          × (i.version ≡ v.version)
          × (i.endpoint ≡ v.endpoint)
          × (i.output_event_types ≡ v.output_event_types))
validate_registers F stamp g c f h e =
    let v = validate g c in
    let (n, d, r, p) = complete_info v f F stamp in
    let (i, o) = complete_id v f F stamp (validated_id g c) in
    (complete v f, validated_flowctl g c f h e, (i, n, d, r, p, o))

-- Validate leaves a configuration as it is that has an ID and a completed flowctl configuration.
validate_fixed :
    (g : String) (c : Config)
    → str_eq c.id "" ≡ false
    → ((f : T.Config) → c.flowctl_config ≡ some f → f.enabled ≡ true → complete c f ≡ f)
    → validate g c ≡ c
unfolding validate
validate_fixed g c h k = elim (Option-cases c.flowctl_config) [
  | inl q ↦ ground arith
  | inr (f, q) ↦ elim (Bool-cases f.enabled) [
    | inl e ↦ let r = k f q e in ground arith
    | inr e ↦ ground arith
  ]
]

validated_from :
    (g : String) (c : Config) (f : T.Config)
    → (validate g c).flowctl_config ≡ some f
    → f.enabled ≡ true
    → (f₀ : T.Config) × (f ≡ complete (validate g c) f₀)
unfolding validate complete
validated_from g c f h e = elim (Option-cases c.flowctl_config) [
  | inl q ↦ absurd (ground arith)
  | inr (f₀, q) ↦ elim (Bool-cases f₀.enabled) [
    | inl on ↦ (f₀, ground arith)
    | inr off ↦ absurd (ground arith)
  ]
]

validated_completed :
    (g : String) (c : Config) (f : T.Config)
    → (validate g c).flowctl_config ≡ some f
    → f.enabled ≡ true
    → complete (validate g c) f ≡ f
validated_completed g c f h e =
    let (f₀, q) = validated_from g c f h e in
    rw q (complete_idem (validate g c) f₀ (validated_id g c))

-- A second Validate changes nothing, whatever ID it would generate.
pub validate_idem : (g g' : String) (c : Config) → validate g' (validate g c) ≡ validate g c
validate_idem g g' c = validate_fixed g' (validate g c) (validated_id g c) (validated_completed g c)
