-- ===== src/Stellar/Invocations/CallShape.antt =====
-- The calls that contract_invocation/contract_invocation_processor.go takes from the authorisation
-- entries, one by one.
use Prim.Native.Nat.{max}
use flowctl_sdk.Base.{
  ℕ, suc, ◌+◌, ◌≤◌, ◌≡◌, ◌≢◌, refl, sym, ◌∙◌, true, List, [], ◌∷◌, ◌++◌, String, if◌then◌else◌, ltb,
  select, All, All-append, eq_iff, Bool-cases, ◌⊎◌, inl, inr, ap, arith, subst,
}
use flowctl_sdk.Stellar.Panics.{
  ran, ◌>>=◌, good, bad, >>=-eq-ran, Run-cases, ran-eq, crashed_not_ran,
}
use flowctl_sdk.Stellar.Xdr.{Invocation, invocation, SubInvocations, leaf, sub, AuthorizationEntry}
use flowctl_sdk.Stellar.Invocations.Values.{Library}
use flowctl_sdk.Stellar.Invocations.Calls.{
  ContractCall, crosses, callee, auth_type_of, extract_calls,
}
use flowctl_sdk.Stellar.Invocations.CallOrder.{
  Visit, is_cross, number, visits, visits_below, all_visits, extract_calls_lem,
}
use flowctl_sdk.Stellar.Invocations.Events.{
  ContractInvocationEvent, max_depth_from, get_max_call_depth,
}

-- The calls are numbered from `n` on.
abbrev pub IsNumbered : ℕ → List ContractCall → Type 0
IsNumbered n [] = Unit
IsNumbered n (c ∷ cs) = (c.execution_order ≡ n) × IsNumbered (n + 1) cs

-- A call from one contract to another.
abbrev pub IsCross : ContractCall → Type 0
IsCross c = (c.from_contract ≢ "") × (c.to_contract ≢ "") × (c.from_contract ≢ c.to_contract)

mutual
  pub height : Invocation → ℕ
  height (invocation f subs) = height_below subs

  pub height_below : SubInvocations → ℕ
  height_below leaf = 0
  height_below (sub i is) = max (suc (height i)) (height_below is)

-- The height of the tallest tree.
pub tallest : List AuthorizationEntry → ℕ
tallest [] = 0
tallest (e ∷ es) = max (height e.root) (tallest es)

number-IsNumbered : (n : ℕ) (vs : List Visit) → IsNumbered n (number n vs)
unfolding number
number-IsNumbered n [] = tt
number-IsNumbered n (v ∷ vs) = (refl, number-IsNumbered (n + 1) vs)

crosses_lem : (from to : String) → crosses from to ≡ true → (from ≢ "") × (to ≢ "") × (from ≢ to)
unfolding crosses
crosses_lem from to h = ground (arith, eq_iff from "", eq_iff to "", eq_iff from to)

number-IsCross : (n : ℕ) (vs : List Visit) → All IsCross (number n (select is_cross vs))
unfolding number
number-IsCross n [] = tt
number-IsCross n (v ∷ vs) = elim (Bool-cases (is_cross v)) [
  | inl e ↦ rw e (crosses_lem v.from v.target.contract_id e, number-IsCross (n + 1) vs)
  | inr e ↦ rw e (number-IsCross n vs)
]

number-depth :
    (d n : ℕ) (vs : List Visit)
    → All (λ v. v.depth ≤ d) vs
    → All (λ c. c.call_depth ≤ d) (number n (select is_cross vs))
unfolding number
number-depth d n [] h = tt
number-depth d n (v ∷ vs) h = elim (Bool-cases (is_cross v)) [
  | inl e ↦ rw e (h.0, number-depth d (n + 1) vs h.1)
  | inr e ↦ rw e (number-depth d n vs h.1)
]

-- A call of the list has this depth.
abbrev pub HasDepth : ℕ → List ContractCall → Type 0
HasDepth d cs =
    (us vs : List ContractCall) × (c : ContractCall) × (cs ≡ us ++ c ∷ vs) × (c.call_depth ≡ d)

All-HasDepth :
    (d n : ℕ) (cs : List ContractCall) → All (λ c. c.call_depth ≤ n) cs → HasDepth d cs → d ≤ n
All-HasDepth d n cs h (us, vs, c, e, q) = go us (subst (λ cs. All (λ c. c.call_depth ≤ n) cs) e h)
  where
    go : (us : List ContractCall) → All (λ c. c.call_depth ≤ n) (us ++ c ∷ vs) → d ≤ n
    go [] k = omega (arith, k.0, q)
    go (u ∷ us) k = go us k.1

later-HasDepth :
    (d : ℕ) (c : ContractCall) (cs : List ContractCall) → HasDepth d cs → HasDepth d (c ∷ cs)
later-HasDepth d c cs (us, vs, x, e, q) = (c ∷ us, vs, x, ap (λ xs. c ∷ xs) e, q)

-- The loop ends at a depth that no call exceeds, which is the one it began with or a call's.
max_depth_from_lem :
    (m : ℕ) (cs : List ContractCall)
    → let d = max_depth_from m cs in
      (m ≤ d) × All (λ c. c.call_depth ≤ d) cs × ((d ≡ m) ⊎ HasDepth d cs)
unfolding max_depth_from
max_depth_from_lem m [] = (omega arith, tt, inl refl)
max_depth_from_lem m (c ∷ cs) =
    let n = if ltb m c.call_depth then c.call_depth else m in
    let (a, b, o) = max_depth_from_lem n cs in
    (
      ground arith,
      (ground arith, b),
      elim o [
        | inr h ↦ inr (later-HasDepth _ c cs h)
        | inl e ↦ elim (Bool-cases (ltb m c.call_depth)) [
          | inl q ↦ inr ([], cs, c, refl, ground arith)
          | inr q ↦ inl (ground arith)
        ]
      ],
    )

All-weaken :
    (d e : ℕ) (vs : List Visit) → d ≤ e → All (λ v. v.depth ≤ d) vs → All (λ v. v.depth ≤ e) vs
All-weaken d e [] h k = tt
All-weaken d e (v ∷ vs) h k = (omega arith, All-weaken d e vs h k.1)

module _ (lib : Library) where
  mutual
    unfolding visits height

    visits_depth :
        (auth : String) (i : Invocation) (from : String) (d : ℕ) (vs : List Visit)
        → visits lib auth i from d ≡ ran vs
        → All (λ v. v.depth ≤ d + height i) vs
    visits_depth auth (invocation f subs) from d vs h = elim (Run-cases (callee lib f)) [
      | inr e ↦ absurd (crashed_not_ran (rw e at h))
      | inl (bad x, e) ↦
          subst (λ us. All (λ v. v.depth ≤ d + height_below subs) us) (ran-eq (rw e at h)) tt
      | inl (good c, e) ↦
          let (ws, e', q) =
            >>=-eq-ran (visits_below lib auth subs c.contract_id (d + 1))
              (λ ws. ran (record { auth = auth; from = from; target = c; depth = d } ∷ ws))
              (rw e at h) in
          subst (λ us. All (λ v. v.depth ≤ d + height_below subs) us) (ran-eq q)
            (omega arith, visits_below_depth auth subs c.contract_id d ws e')
    ]

    visits_below_depth :
        (auth : String) (is : SubInvocations) (from : String) (d : ℕ) (vs : List Visit)
        → visits_below lib auth is from (d + 1) ≡ ran vs
        → All (λ v. v.depth ≤ d + height_below is) vs
    visits_below_depth auth leaf from d vs h =
        subst (λ us. All (λ v. v.depth ≤ d + 0) us) (ran-eq h) tt
    visits_below_depth auth (sub i is) from d vs h =
        let (us, e, q) =
          >>=-eq-ran (visits lib auth i from (d + 1))
            (λ us. visits_below lib auth is from (d + 1) >>= λ ws. ran (us ++ ws)) h in
        let (ws, e', q') =
          >>=-eq-ran (visits_below lib auth is from (d + 1)) (λ ws. ran (us ++ ws)) q in
        let hu =
          All-weaken (d + 1 + height i) (d + height_below (sub i is)) us (omega arith)
            (visits_depth auth i from (d + 1) us e) in
        let hw =
          All-weaken (d + height_below is) (d + height_below (sub i is)) ws (omega arith)
            (visits_below_depth auth is from d ws e') in
        subst (λ xs. All (λ v. v.depth ≤ d + height_below (sub i is)) xs) (ran-eq q')
          (All-append (λ v. v.depth ≤ d + height_below (sub i is)) us ws (hu, hw))

  all_visits_depth :
      (es : List AuthorizationEntry) (main : String) (vs : List Visit)
      → all_visits lib es main ≡ ran vs
      → All (λ v. v.depth ≤ tallest es) vs
  unfolding all_visits tallest
  all_visits_depth [] main vs h = subst (λ us. All (λ v. v.depth ≤ 0) us) (ran-eq h) tt
  all_visits_depth (x ∷ es) main vs h =
      let (us, e, q) =
        >>=-eq-ran (visits lib (auth_type_of x) x.root main 0)
          (λ us. all_visits lib es main >>= λ ws. ran (us ++ ws)) h in
      let (ws, e', q') = >>=-eq-ran (all_visits lib es main) (λ ws. ran (us ++ ws)) q in
      let hu =
        All-weaken (0 + height x.root) (tallest (x ∷ es)) us (omega arith)
          (visits_depth (auth_type_of x) x.root main 0 us e) in
      let hw =
        All-weaken (tallest es) (tallest (x ∷ es)) ws (omega arith)
          (all_visits_depth es main ws e') in
      subst (λ xs. All (λ v. v.depth ≤ tallest (x ∷ es)) xs) (ran-eq q')
        (All-append (λ v. v.depth ≤ tallest (x ∷ es)) us ws (hu, hw))

  -- An event with the calls that are taken from the authorisation entries: they are numbered 0, 1, 2
  -- and so on in their order, and each goes from one contract to another, neither of them without a
  -- name. What GetMaxCallDepth says is the greatest depth among them: no call stands deeper, and one
  -- stands as deep, or it is 0. It is at most the height of the tallest of the entries' trees.
  pub extract_calls-IsNumbered :
      (es : List AuthorizationEntry) (main : String) (x : ContractInvocationEvent)
      → extract_calls lib es main ≡ ran x.contract_calls
      → IsNumbered 0 x.contract_calls
        × All IsCross x.contract_calls
        × All (λ c. c.call_depth ≤ get_max_call_depth x) x.contract_calls
        × ((get_max_call_depth x ≡ 0) ⊎ HasDepth (get_max_call_depth x) x.contract_calls)
        × (get_max_call_depth x ≤ tallest es)
  unfolding get_max_call_depth
  extract_calls-IsNumbered es main x h =
      let (vs, e, q) =
        >>=-eq-ran (all_visits lib es main) (λ vs. ran (number 0 (select is_cross vs)))
          (sym (extract_calls_lem lib es main) ∙ h) in
      let cs = x.contract_calls in
      let depths =
        subst (λ cs. All (λ c. c.call_depth ≤ tallest es) cs) (ran-eq q)
          (number-depth (tallest es) 0 vs (all_visits_depth es main vs e)) in
      let (a, b, o) = max_depth_from_lem 0 cs in
      (
        subst (IsNumbered 0) (ran-eq q) (number-IsNumbered 0 (select is_cross vs)),
        subst (All IsCross) (ran-eq q) (number-IsCross 0 vs),
        b,
        o,
        elim o [
          | inl z ↦ omega (arith, z)
          | inr k ↦ All-HasDepth (max_depth_from 0 cs) (tallest es) cs depths k
        ],
      )
