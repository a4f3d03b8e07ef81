-- ===== src/Stellar/Invocations/Results.antt =====
-- Which operation of a transaction succeeded, for
-- contract_invocation/contract_invocation_processor.go.
use flowctl_sdk.Base.{
  ℕ, zero, suc, ◌≡◌, ◌↔◌, refl, ap, Bool, true, false, List, [], ◌∷◌, ◌++◌, Option, none, some,
  length, arith,
}
use flowctl_sdk.Stellar.Xdr.{OperationResult, no_result, other_result, invoke_result}
use flowctl_sdk.Stellar.Invocations.Ledger.{was_successful, is_success, result_at}

-- The result with number `i` is that of an invocation that succeeded.
succeeded_at : ℕ → List OperationResult → Bool
succeeded_at i [] = false
succeeded_at zero (invoke_result b ∷ rs) = b
succeeded_at zero (no_result ∷ rs) = false
succeeded_at zero (other_result ∷ rs) = false
succeeded_at (suc i) (r ∷ rs) = succeeded_at i rs

pub succeeds : Option (List OperationResult) → ℕ → Bool
succeeds none i = false
succeeds (some rs) i = succeeded_at i rs

pub succeeds-was_successful :
    (o : Option (List OperationResult)) (i : ℕ) → was_successful o i ≡ succeeds o i
unfolding was_successful is_success succeeds succeeded_at
succeeds-was_successful none i = refl
succeeds-was_successful (some rs) i = go rs i
  where
    go : (rs : List OperationResult) (i : ℕ) → is_success (result_at rs i) ≡ succeeded_at i rs
    go [] i = refl
    go (invoke_result b ∷ rs) zero = refl
    go (no_result ∷ rs) zero = refl
    go (other_result ∷ rs) zero = refl
    go (r ∷ rs) (suc i) = go rs i

-- Such a result stands behind as many others.
succeeded_at_iff :
    (i : ℕ) (rs : List OperationResult)
    → (succeeded_at i rs ≡ true) ↔ (
        (before after : List OperationResult) × (rs ≡ before ++ invoke_result true ∷ after)
        × (length before ≡ i))
unfolding succeeded_at
succeeded_at_iff i rs = (found i rs, λ (us, vs, e, l). rw e (at_end us vs i l))
  where
    found :
        (i : ℕ) (rs : List OperationResult)
        → succeeded_at i rs ≡ true
        → (before after : List OperationResult) × (rs ≡ before ++ invoke_result true ∷ after)
          × (length before ≡ i)
    found i [] h = absurd (ground arith)
    found zero (invoke_result b ∷ rs) h = ([], rs, ap (λ b. invoke_result b ∷ rs) h, refl)
    found zero (no_result ∷ rs) h = absurd (ground arith)
    found zero (other_result ∷ rs) h = absurd (ground arith)
    found (suc i) (r ∷ rs) h =
        let (us, vs, e, l) = found i rs h in (r ∷ us, vs, ap (λ xs. r ∷ xs) e, ap suc l)

    at_end :
        (us vs : List OperationResult) (i : ℕ)
        → length us ≡ i
        → succeeded_at i (us ++ invoke_result true ∷ vs) ≡ true
    at_end [] vs zero l = refl
    at_end [] vs (suc i) l = absurd (omega (arith, l))
    at_end (u ∷ us) vs zero l = absurd (omega (arith, l))
    at_end (u ∷ us) vs (suc i) l = at_end us vs i (omega (arith, l))
