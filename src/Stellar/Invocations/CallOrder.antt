-- ===== src/Stellar/Invocations/CallOrder.antt =====
-- What the recursion of processAuthorizationTree in
-- contract_invocation/contract_invocation_processor.go records, and in which order.
use flowctl_sdk.Base.{
  ℕ, suc, ◌+◌, ◌≡◌, refl, sym, ap, ◌∙◌, Bool, true, List, [], ◌∷◌, ◌++◌, String, select, length,
  length-append, append_assoc, append-nil, Bool-cases, inl, inr, arith,
}
use flowctl_sdk.Stellar.Panics.{Run, ran, crashed, ◌>>=◌, good, bad, Run-cases}
use flowctl_sdk.Stellar.Xdr.{Invocation, invocation, SubInvocations, leaf, sub, AuthorizationEntry}
use flowctl_sdk.Stellar.Invocations.Values.{Library}
use flowctl_sdk.Stellar.Invocations.Calls.{
  ContractCall, Trace, Callee, crosses, record_call, callee, process_tree, process_subs,
  process_entries, auth_type_of, extract_calls,
}

-- One invocation of a tree: what it invokes, on behalf of which contract, and how deep it stands.
pub record Visit : Type 0 where
  pub auth : String
  pub from : String
  pub target : Callee
  pub depth : ℕ

abbrev pub is_cross : Visit → Bool
is_cross v = crosses v.from v.target.contract_id

-- The calls that visits stand for, numbered from `n`.
unfoldable pub number : ℕ → List Visit → List ContractCall
number n [] = []
number n (v ∷ vs) =
    record {
      from_contract = v.from;
      to_contract = v.target.contract_id;
      function = v.target.function_name;
      arguments = v.target.args;
      call_depth = v.depth;
      auth_type = v.auth;
      successful = true;
      execution_order = n;
    }
    ∷ number (n + 1) vs

number-append :
    (n : ℕ) (vs ws : List Visit) → number n (vs ++ ws) ≡ number n vs ++ number (n + length vs) ws
unfolding number
number-append n [] ws = ap (λ k. number k ws) (omega arith)
number-append n (v ∷ vs) ws =
    let e : n + 1 + length vs ≡ n + suc (length vs) = omega arith in
    rw (number-append (n + 1) vs ws, e)

select-append {ℓ} :
    {A : Type ℓ} (p : A → Bool) (xs ys : List A) → select p (xs ++ ys) ≡ select p xs ++ select p ys
select-append p [] ys = refl
select-append p (x ∷ xs) ys = ground (arith, select-append p xs ys)

-- A trace with the calls of more visits.
extend : Trace → List Visit → Trace
extend t vs = record {
  calls = t.calls ++ number t.execution_order (select is_cross vs);
  execution_order = t.execution_order + length (select is_cross vs);
}

extend-nil : (t : Trace) → extend t [] ≡ t
unfolding extend number
extend-nil t = ground (arith, append-nil t.calls)

extend-append : (t : Trace) (vs ws : List Visit) → extend (extend t vs) ws ≡ extend t (vs ++ ws)
unfolding extend
extend-append t vs ws = ground (
  arith,
  select-append is_cross vs ws,
  number-append t.execution_order (select is_cross vs) (select is_cross ws),
  length-append (select is_cross vs) (select is_cross ws),
  append_assoc t.calls (number t.execution_order (select is_cross vs))
      (number (t.execution_order + length (select is_cross vs)) (select is_cross ws)),
)

extend-record_call :
    (auth from : String) (c : Callee) (depth : ℕ) (t : Trace) (vs : List Visit)
    → extend (record_call auth from c depth t) vs
      ≡ extend t (record { auth = auth; from = from; target = c; depth = depth } ∷ vs)
unfolding extend record_call number
extend-record_call auth from c depth t vs =
    let k = length (select is_cross vs) in
    let a : t.execution_order + 1 + k ≡ t.execution_order + suc k = omega arith in
    elim (Bool-cases (crosses from c.contract_id)) [
      | inl e ↦ rw e (simp (append_assoc, a))
      | inr e ↦ rw e refl
    ]

recorded :
    (auth from : String) (c : Callee) (depth : ℕ) (t : Trace) (m : Run (List Visit))
    → (m >>= λ vs. ran (extend (record_call auth from c depth t) vs)) ≡ (
        m
        >>= (λ vs. ran (record { auth = auth; from = from; target = c; depth = depth } ∷ vs))
        >>= λ vs. ran (extend t vs))
recorded auth from c depth t (ran vs) = ap ran (extend-record_call auth from c depth t vs)
recorded auth from c depth t crashed = refl

-- Two parts of a walk in a row.
both :
    (t : Trace) (m n : Run (List Visit)) (walk : Trace → Run Trace)
    → ((t' : Trace) → walk t' ≡ (n >>= λ ws. ran (extend t' ws)))
    → (m >>= (λ vs. ran (extend t vs)) >>= walk)
      ≡ (m >>= (λ vs. n >>= λ ws. ran (vs ++ ws)) >>= λ us. ran (extend t us))
both t (ran vs) (ran ws) walk h = h (extend t vs) ∙ ap ran (extend-append t vs ws)
both t (ran vs) crashed walk h = h (extend t vs)
both t crashed n walk h = refl

calls_of :
    (m : Run (List Visit))
    → (m >>= (λ vs. ran (extend (record { calls = []; execution_order = 0 }) vs)) >>= λ t.
        ran t.calls)
      ≡ (m >>= λ vs. ran (number 0 (select is_cross vs)))
unfolding extend
calls_of (ran vs) = refl
calls_of crashed = refl

module _ (lib : Library) where
  -- The invocations of a tree, each before those that it makes. One whose contract cannot be encoded
  -- is left out with all that it makes.
  unfoldable mutual
    pub visits : String → Invocation → String → ℕ → Run (List Visit)
    visits auth (invocation f subs) from depth = callee lib f >>= λ r. elim r [
      | bad e ↦ ran []
      | good c ↦ visits_below auth subs c.contract_id (depth + 1) >>= λ vs.
          ran (record { auth = auth; from = from; target = c; depth = depth } ∷ vs)
    ]

    pub visits_below : String → SubInvocations → String → ℕ → Run (List Visit)
    visits_below auth leaf from depth = ran []
    visits_below auth (sub i is) from depth = do
      vs ← visits auth i from depth
      ws ← visits_below auth is from depth
      ran (vs ++ ws)

  mutual
    unfolding visits process_tree

    process_tree_lem :
        (auth : String) (i : Invocation) (from : String) (depth : ℕ) (t : Trace)
        → process_tree lib auth i from depth t
          ≡ (visits auth i from depth >>= λ vs. ran (extend t vs))
    process_tree_lem auth (invocation f subs) from depth t = elim (Run-cases (callee lib f)) [
      | inr e ↦ rw e refl
      | inl (bad x, e) ↦ rw e (ap ran (sym (extend-nil t)))
      | inl (good c, e) ↦ rw e (
          process_subs_lem auth subs c.contract_id (depth + 1) (record_call auth from c depth t)
          ∙ recorded auth from c depth t (visits_below auth subs c.contract_id (depth + 1)))
    ]

    process_subs_lem :
        (auth : String) (is : SubInvocations) (from : String) (depth : ℕ) (t : Trace)
        → process_subs lib auth is from depth t
          ≡ (visits_below auth is from depth >>= λ vs. ran (extend t vs))
    process_subs_lem auth leaf from depth t = ap ran (sym (extend-nil t))
    process_subs_lem auth (sub i is) from depth t =
        let vs = visits auth i from depth in
        let ws = visits_below auth is from depth in
        ap (λ m. m >>= λ t'. process_subs lib auth is from depth t')
          (process_tree_lem auth i from depth t)
        ∙ both t vs ws (λ t'. process_subs lib auth is from depth t')
            (λ t'. process_subs_lem auth is from depth t')

  -- The visits of all entries, in order.
  unfoldable pub all_visits : List AuthorizationEntry → String → Run (List Visit)
  all_visits [] main = ran []
  all_visits (e ∷ es) main = do
    vs ← visits (auth_type_of e) e.root main 0
    ws ← all_visits es main
    ran (vs ++ ws)

  process_entries_lem :
      (es : List AuthorizationEntry) (main : String) (t : Trace)
      → process_entries lib es main t ≡ (all_visits es main >>= λ vs. ran (extend t vs))
  unfolding process_entries all_visits
  process_entries_lem [] main t = ap ran (sym (extend-nil t))
  process_entries_lem (e ∷ es) main t =
      ap (λ m. m >>= λ t'. process_entries lib es main t')
        (process_tree_lem (auth_type_of e) e.root main 0 t)
      ∙ both t (visits (auth_type_of e) e.root main 0) (all_visits es main)
          (λ t'. process_entries lib es main t') (λ t'. process_entries_lem es main t')

  -- The calls taken from the authorisation entries are those visits, callers first and the entries
  -- in order, that go from one contract to another, numbered from 0 without a gap. The walk panics
  -- exactly when an invocation that it visits, or an argument of one, makes it panic.
  pub extract_calls_lem :
      (es : List AuthorizationEntry) (main : String)
      → extract_calls lib es main
        ≡ (all_visits es main >>= λ vs. ran (number 0 (select is_cross vs)))
  unfolding extract_calls
  extract_calls_lem es main =
      ap (λ m. m >>= λ t. ran t.calls)
        (process_entries_lem es main (record { calls = []; execution_order = 0 }))
      ∙ calls_of (all_visits es main)
