-- ===== src/Stellar/Invocations/Conversions.antt =====
-- Which values ConvertScValToJSON of contract_invocation/helpers.go converts.
use flowctl_sdk.Base.{
  ℕ, ◌+◌, ◌≡◌, ◌↔◌, refl, Bool, true, false, ◌||◌, Option, none, some, arith, String, inl, inr,
  is_some, ap, sym, ◌∙◌,
}
use flowctl_sdk.Stellar.Panics.{Run, ran, crashed, ◌>>=◌, Checked, good, bad, Run-cases, >>=-eq-ran}
use flowctl_sdk.Stellar.Xdr.{
  account, contract, unlisted_address, ScVal, nil_vec, absent_vec, vec_of, Items, nil_map,
  absent_map, map_of, Pairs, entry,
}
use flowctl_sdk.Stellar.Invocations.Values.{
  Json, no_field, field, object, typed, value, Fields, Library, convert, convert_items,
  convert_pairs, convert_sc_address, encoded, present, array, item_value, entry_value, key_text,
  json_of, put_field,
}

-- A vector or a map whose inner pointer is nil stands in the value, at any depth.
mutual
  pub absent : ScVal → Bool
  absent (ScVal.vec absent_vec) = true
  absent (ScVal.vec (vec_of is)) = absent_items is
  absent (ScVal.map absent_map) = true
  absent (ScVal.map (map_of ps)) = absent_pairs ps
  absent _ = false

  pub absent_items : Items → Bool
  absent_items Items.nil = false
  absent_items (Items.cons v is) = absent v || absent_items is

  pub absent_pairs : Pairs → Bool
  absent_pairs Pairs.end = false
  absent_pairs (entry k v ps) = absent k || (absent v || absent_pairs ps)

abbrev pub panics : {A : Type 0} → Run A → Bool
panics (ran a) = false
panics crashed = true

abbrev is_good : {A : Type 0} → Checked A → Bool
is_good (good a) = true
is_good (bad e) = false

good_of : {A : Type 0} (c : Checked A) → is_good c ≡ true → (a : A) × (c ≡ good a)
good_of (good a) h = (a, refl)
good_of (bad e) h = absurd (ground arith)

bad_of : {A : Type 0} (c : Checked A) → is_good c ≡ false → (e : String) × (c ≡ bad e)
bad_of (good a) h = absurd (ground arith)
bad_of (bad e) h = (e, refl)

pub panics-one : {A B : Type 0} (m : Run A) (f : A → B) → panics (m >>= λ a. ran (f a)) ≡ panics m
panics-one (ran a) f = refl
panics-one crashed f = refl

-- Two calls in a row panic where one of them does.
pub panics-two :
    {A B C : Type 0} (m : Run A) (n : Run B) (f : A → B → C)
    → panics (m >>= λ a. n >>= λ b. ran (f a b)) ≡ (panics m || panics n)
panics-two (ran a) (ran b) f = refl
panics-two (ran a) crashed f = refl
panics-two crashed n f = refl

panics-three :
    {A B C D : Type 0} (m : Run A) (n : Run B) (r : A → B → Run C) (f : A → C → D) (b : Bool)
    → ((x : A) (y : B) → panics (r x y) ≡ b)
    → panics (m >>= λ x. n >>= λ y. r x y >>= λ z. ran (f x z)) ≡ (panics m || (panics n || b))
panics-three (ran x) (ran y) r f b h = elim (Run-cases (r x y)) [
  | inl (z, e) ↦ ground (arith, h x y)
  | inr e ↦ ground (arith, h x y)
]
panics-three (ran x) crashed r f b h = refl
panics-three crashed n r f b h = refl

panics-present :
    {A : Type 0} (t : String) (p : Option A) (f : A → Json) → panics (present t p f) ≡ false
panics-present t none f = refl
panics-present t (some a) f = refl

ran_of : {A : Type 0} (r : Run A) → panics r ≡ false → (a : A) × (r ≡ ran a)
ran_of (ran a) h = (a, refl)
ran_of crashed h = absurd (ground arith)

pub crashed_of : {A : Type 0} (r : Run A) → panics r ≡ true → r ≡ crashed
crashed_of (ran a) h = absurd (ground arith)
crashed_of crashed h = refl

module _ (lib : Library) where
  mutual
    unfolding convert absent

    pub panics-convert : (v : ScVal) → panics (convert lib v) ≡ absent v
    panics-convert (ScVal.vec (vec_of is)) =
        panics-one (convert_items lib 0 is) (λ vs. good (array vs)) ∙ panics-convert_items 0 is
    panics-convert (ScVal.map (map_of ps)) =
        panics-one (convert_pairs lib ps no_field) (λ r.
          good (typed "map" (field "entries" (object r.0) (field "keys" (array r.1) no_field))))
        ∙ panics-convert_pairs ps no_field
    panics-convert v = ground arith

    panics-convert_items : (i : ℕ) (is : Items) → panics (convert_items lib i is) ≡ absent_items is
    panics-convert_items i Items.nil = refl
    panics-convert_items i (Items.cons v is) =
        panics-two (convert lib v) (convert_items lib (i + 1) is)
          (λ c vs. value (item_value lib i v c) vs)
        ∙ ground (arith, panics-convert v, panics-convert_items (i + 1) is)

    panics-convert_pairs :
        (ps : Pairs) (fs : Fields) → panics (convert_pairs lib ps fs) ≡ absent_pairs ps
    panics-convert_pairs Pairs.end fs = refl
    panics-convert_pairs (entry k v ps) fs =
        panics-three (convert lib k) (convert lib v)
          (λ c d. convert_pairs lib ps (put_field (key_text lib c) (entry_value lib v d) fs))
          (λ c r. (r.0, value (json_of c) r.1)) (absent_pairs ps)
          (λ c d. panics-convert_pairs ps (put_field (key_text lib c) (entry_value lib v d) fs))
        ∙ ground (arith, panics-convert k, panics-convert v)

  -- The outermost value alone: a set pointer under a tag that is handled, and for an address one that
  -- can be encoded.
  pub readable : ScVal → Bool
  readable (ScVal.bool p) = is_some p
  readable ScVal.void = true
  readable (ScVal.u32 p) = is_some p
  readable (ScVal.i32 p) = is_some p
  readable (ScVal.u64 p) = is_some p
  readable (ScVal.i64 p) = is_some p
  readable (ScVal.timepoint p) = is_some p
  readable (ScVal.duration p) = is_some p
  readable (ScVal.u128 p) = is_some p
  readable (ScVal.i128 p) = is_some p
  readable (ScVal.u256 p) = is_some p
  readable (ScVal.i256 p) = is_some p
  readable (ScVal.symbol p) = is_some p
  readable (ScVal.text p) = is_some p
  readable (ScVal.bytes p) = is_some p
  readable (ScVal.address none) = false
  readable (ScVal.address (some (account none))) = false
  readable (ScVal.address (some (account (some a)))) = is_good (lib.encode_account a)
  readable (ScVal.address (some (contract none))) = false
  readable (ScVal.address (some (contract (some c)))) = is_good (lib.encode_contract c)
  readable (ScVal.address (some (unlisted_address n))) = false
  readable (ScVal.vec nil_vec) = false
  readable (ScVal.vec absent_vec) = false
  readable (ScVal.vec (vec_of is)) = true
  readable (ScVal.map nil_map) = false
  readable (ScVal.map absent_map) = false
  readable (ScVal.map (map_of ps)) = true
  readable (ScVal.contract_instance b) = b
  readable ScVal.ledger_key_contract_instance = true
  readable (ScVal.ledger_key_nonce p) = is_some p
  readable (ScVal.unlisted n) = false

  convert_good : (v : ScVal) (c : Checked Json) → convert lib v ≡ ran c → is_good c ≡ readable v
  unfolding convert convert_sc_address encoded readable
  convert_good (ScVal.vec (vec_of is)) c h =
      let (vs, e, f) = >>=-eq-ran (convert_items lib 0 is) (λ vs. ran (good (array vs))) h in
      ground arith
  convert_good (ScVal.map (map_of ps)) c h =
      let (r, e, f) =
        >>=-eq-ran (convert_pairs lib ps no_field)
          (λ r.
            ran (
              good
                (typed "map" (field "entries" (object r.0) (field "keys" (array r.1) no_field)))))
          h in
      ground arith
  convert_good v c h = ground arith

  of_ran : (v : ScVal) (c : Checked Json) → convert lib v ≡ ran c → absent v ≡ false
  of_ran v c e = sym (panics-convert v) ∙ ap panics e

  -- Converting a value panics exactly when a vector or a map without content stands in it, at any
  -- depth. Else it gives a value exactly when the outermost value can be read, whatever stands further
  -- in, and an error exactly when it cannot.
  pub convert_outcomes :
      (v : ScVal)
      → ((convert lib v ≡ crashed) ↔ (absent v ≡ true))
        × (((j : Json) × (convert lib v ≡ ran (good j)))
            ↔ ((absent v ≡ false) × (readable v ≡ true)))
        × (((e : String) × (convert lib v ≡ ran (bad e)))
            ↔ ((absent v ≡ false) × (readable v ≡ false)))
  convert_outcomes v = (
    (
      λ h. sym (panics-convert v) ∙ ap panics h,
      λ h. crashed_of (convert lib v) (panics-convert v ∙ h),
    ),
    (
      λ (j, e). (of_ran v (good j) e, sym (convert_good v (good j) e)),
      λ (h, r).
          let (c, e) = ran_of (convert lib v) (panics-convert v ∙ h) in
          let (j, q) = good_of c (convert_good v c e ∙ r) in (j, e ∙ ap ran q),
    ),
    (
      λ (x, e). (of_ran v (bad x) e, sym (convert_good v (bad x) e)),
      λ (h, r).
          let (c, e) = ran_of (convert lib v) (panics-convert v ∙ h) in
          let (t, q) = bad_of c (convert_good v c e ∙ r) in (t, e ∙ ap ran q),
    ),
  )
