-- ===== src/Stellar/Invocations/Containers.antt =====
-- What ConvertScValToJSON of contract_invocation/helpers.go makes of the items of a vector and the
-- entries of a map.
use flowctl_sdk.Base.{
  ℕ, ◌+◌, ◌≡◌, refl, sym, ap, ◌∙◌, List, [], ◌∷◌, Option, none, some, String, ◌<>◌, str_eq, eq_iff,
  if◌then◌else◌, arith, subst,
}
use flowctl_sdk.Stellar.Panics.{ran, ◌>>=◌, Checked, good, bad, >>=-eq-ran, ran-eq}
use flowctl_sdk.Stellar.Xdr.{ScVal, vec_of, Items, map_of, Pairs, entry}
use flowctl_sdk.Stellar.Invocations.Values.{
  Json, null, text, int, no_field, field, object, array, typed, Values, no_value, value, Fields,
  Library, convert, convert_items, convert_pairs, item_value, entry_value, key_text, json_of,
  put_field,
}

-- The value under a key of an object.
pub field_of : String → Fields → Option Json
field_of k no_field = none
field_of k (field j v fs) = let rest = field_of k fs in if str_eq j k then some v else rest

field_of-put_field :
    (k j : String) (v : Json) (fs : Fields)
    → field_of k (put_field j v fs) ≡ (if str_eq j k then some v else field_of k fs)
unfolding field_of put_field
field_of-put_field k j v no_field = refl
field_of-put_field k j v (field i w fs) =
    ground (arith, eq_iff j k, eq_iff i j, eq_iff i k, field_of-put_field k j v fs)

-- The last value that was written under a key, if there is one, and else `old`.
pub last_of : String → Option Json → List (String × Json) → Option Json
last_of k old [] = old
last_of k old ((j, v) ∷ ws) = last_of k (if str_eq j k then some v else old) ws

module _ (lib : Library) where
  -- An item of an array: the item's own value, or a note of its index, its error and its type.
  pub data StandsFor (i : ℕ) (v : ScVal) (j : Json) : Type 0 where
    is_value : convert lib v ≡ ran (good j) → StandsFor i v j
    is_note :
        (e : String)
        → convert lib v ≡ ran (bad e)
        → j
          ≡ object (
              field "index"
                (int i)
                (field "error" (text e) (field "type" (text (lib.type_name v)) no_field)))
        → StandsFor i v j

  -- One value for each item, from index `i`.
  abbrev pub Stand : ℕ → Items → Values → Type 0
  Stand i Items.nil no_value = Unit
  Stand i (Items.cons v is) (value j vs) = StandsFor i v j × Stand (i + 1) is vs
  Stand i Items.nil (value j vs) = ⊥
  Stand i (Items.cons v is) no_value = ⊥

  -- The key of an entry, as it is listed, and the text that it is written under.
  pub data KeyIs (k : ScVal) (j : Json) (t : String) : Type 0 where
    is_key : convert lib k ≡ ran (good j) → t ≡ lib.render j → KeyIs k j t
    no_key : (e : String) → convert lib k ≡ ran (bad e) → j ≡ null → t ≡ "error:" <> e → KeyIs k j t

  -- The value of an entry: its own, or a note of its error and its type.
  pub data EntryIs (v : ScVal) (j : Json) : Type 0 where
    is_entry : convert lib v ≡ ran (good j) → EntryIs v j
    no_entry :
        (e : String)
        → convert lib v ≡ ran (bad e)
        → j ≡ object (field "error" (text e) (field "type" (text (lib.type_name v)) no_field))
        → EntryIs v j

  -- One listed key and one written pair for each entry, in order.
  abbrev pub Written : Pairs → Values → List (String × Json) → Type 0
  Written Pairs.end no_value [] = Unit
  Written (entry k v ps) (value j js) ((t, w) ∷ ws) = KeyIs k j t × EntryIs v w × Written ps js ws
  Written Pairs.end no_value (w ∷ ws) = ⊥
  Written Pairs.end (value j js) ws = ⊥
  Written (entry k v ps) no_value ws = ⊥
  Written (entry k v ps) (value j js) [] = ⊥

  item_stands :
      (i : ℕ) (v : ScVal) (c : Checked Json)
      → convert lib v ≡ ran c
      → StandsFor i v (item_value lib i v c)
  unfolding item_value
  item_stands i v (good j) h = is_value h
  item_stands i v (bad e) h = is_note e h refl

  key_is :
      (k : ScVal) (c : Checked Json) → convert lib k ≡ ran c → KeyIs k (json_of c) (key_text lib c)
  unfolding json_of key_text
  key_is k (good j) h = is_key h refl
  key_is k (bad e) h = no_key e h refl refl

  entry_is :
      (v : ScVal) (c : Checked Json) → convert lib v ≡ ran c → EntryIs v (entry_value lib v c)
  unfolding entry_value
  entry_is v (good j) h = is_entry h
  entry_is v (bad e) h = no_entry e h refl

  items-Stand : (i : ℕ) (is : Items) (vs : Values) → convert_items lib i is ≡ ran vs → Stand i is vs
  unfolding convert
  items-Stand i Items.nil vs h = subst (Stand i Items.nil) (ran-eq h) tt
  items-Stand i (Items.cons v is) vs h =
      let (c, e, f) =
        >>=-eq-ran (convert lib v)
          (λ c. convert_items lib (i + 1) is >>= λ ws. ran (value (item_value lib i v c) ws)) h in
      let (ws, e', f') =
        >>=-eq-ran (convert_items lib (i + 1) is) (λ ws. ran (value (item_value lib i v c) ws)) f in
      subst (Stand i (Items.cons v is)) (ran-eq f')
        (item_stands i v c e, items-Stand (i + 1) is ws e')

  pairs-Written :
      (ps : Pairs) (fs : Fields) (r : Fields × Values)
      → convert_pairs lib ps fs ≡ ran r
      → (ws : List (String × Json)) × Written ps r.1 ws
        × ((k : String) → field_of k r.0 ≡ last_of k (field_of k fs) ws)
  unfolding convert last_of
  pairs-Written Pairs.end fs r h = (
    [],
    subst (λ r. Written Pairs.end r.1 []) (ran-eq h) tt,
    λ k. ap (λ r. field_of k r.0) (sym (ran-eq h)),
  )
  pairs-Written (entry k v ps) fs r h =
      let (c, e, f) =
        >>=-eq-ran (convert lib k)
          (λ c. convert lib v >>= λ d.
            convert_pairs lib ps (put_field (key_text lib c) (entry_value lib v d) fs) >>= λ q.
            ran (q.0, value (json_of c) q.1))
          h in
      let (d, e', f') =
        >>=-eq-ran (convert lib v)
          (λ d. convert_pairs lib ps (put_field (key_text lib c) (entry_value lib v d) fs) >>= λ q.
            ran (q.0, value (json_of c) q.1))
          f in
      let t = key_text lib c in
      let w = entry_value lib v d in
      let (q, e'', f'') =
        >>=-eq-ran (convert_pairs lib ps (put_field t w fs)) (λ q. ran (q.0, value (json_of c) q.1))
          f' in
      let (ws, g, l) = pairs-Written ps (put_field t w fs) q e'' in
      (
        (t, w) ∷ ws,
        subst (λ r. Written (entry k v ps) r.1 ((t, w) ∷ ws)) (ran-eq f'')
            (key_is k c e, entry_is v d e', g),
        λ n.
            ap (λ r. field_of n r.0) (sym (ran-eq f''))
            ∙ l n
            ∙ ap (λ o. last_of n o ws) (field_of-put_field n t w fs),
      )

  -- A vector that is converted becomes an array with one value for each item, in order: the item's
  -- own, or, where it cannot be read, a note of its index, its error and its type. A map becomes an
  -- object that lists one key for each entry, in order, null for one that cannot be read; under the
  -- text of a key stands the value of the last entry with that text, or a note of its error and its
  -- type, and nothing stands under any other text.
  pub convert_containers :
      (is : Items) (ps : Pairs) (c d : Checked Json)
      → convert lib (ScVal.vec (vec_of is)) ≡ ran c
      → convert lib (ScVal.map (map_of ps)) ≡ ran d
      → ((vs : Values) × (c ≡ good (array vs)) × Stand 0 is vs)
        × ((fs : Fields) × (ks : Values) × (ws : List (String × Json)) × (d
              ≡ good (typed "map" (field "entries" (object fs) (field "keys" (array ks) no_field))))
            × Written ps ks ws
            × ((k : String) → field_of k fs ≡ last_of k none ws))
  unfolding convert field_of
  convert_containers is ps c d h k =
      let (vs, e, f) = >>=-eq-ran (convert_items lib 0 is) (λ vs. ran (good (array vs))) h in
      let (r, e', f') =
        >>=-eq-ran (convert_pairs lib ps no_field)
          (λ r.
            ran (
              good
                (typed "map" (field "entries" (object r.0) (field "keys" (array r.1) no_field)))))
          k in
      let (ws, g, l) = pairs-Written ps no_field r e' in
      ((vs, sym (ran-eq f), items-Stand 0 is vs e), (r.0, r.1, ws, sym (ran-eq f'), g, l))
