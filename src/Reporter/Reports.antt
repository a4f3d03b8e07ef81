-- ===== src/Reporter/Reports.antt =====
-- What the chunk reports of pkg/component/reporter.go send.
use flowctl_sdk.Base.{
  ℕ, ◌≡◌, ◌≢◌, ◌↔◌, refl, ap, sym, subst, eq_iff, inl, inr, Bool-cases, Bool, true, false, none,
  some, String, str_eq, if◌then◌else◌, arith, ◌∙◌, ◌==◌, positive32,
}
use flowctl_sdk.Base.Dict.{Dict}
use flowctl_sdk.Errors.{Error, Result, Result-cases, good, bad}
use flowctl_sdk.Reporter.{Config, Reporter, new_reporter, normalize_config}
use flowctl_sdk.Reporter.Setup.{new_reporter_ready}
use flowctl_sdk.Reporter.Chunks.{
  ChunkStatus, unknown, running, verified, failed, ChunkUpdate, ChunkRun, first_non_empty,
  known_status, chunk_run, progress_update, completed_update, failed_update, report_chunk,
  report_chunk_progress, report_chunk_completed, report_chunk_failed,
}

-- What the sent record takes from the update `u`, and from the configuration `given` where the update
-- leaves it out. The component is named.
pub record IsPlaced (given : Config) (u : ChunkUpdate) (c : ChunkRun) : Type 0 where
  pub component :
      c.component_id ≡ (if str_eq u.component_id "" then given.component_id else u.component_id)
  pub named : str_eq c.component_id "" ≡ false
  pub run : c.run_id ≡ (if str_eq u.run_id "" then given.run_id else u.run_id)
  pub attempted : c.attempt ≡ (
      if u.attempt == 0 then if positive32 given.attempt then given.attempt else 1 else u.attempt)
  pub unknown_runs : u.status ≡ unknown → c.status ≡ running
  pub keeps_status : u.status ≢ unknown → c.status ≡ u.status
  pub span : (c.chunk_start ≡ u.chunk_start) × (c.chunk_end ≡ u.chunk_end)

known_status_lem :
    (s : ChunkStatus)
    → (s ≡ unknown → known_status s ≡ running) × (s ≢ unknown → known_status s ≡ s)
unfolding known_status
known_status_lem ChunkStatus.unknown = (λ q. refl, λ q. absurd (q refl))
known_status_lem ChunkStatus.running = (λ q. refl, λ q. refl)
known_status_lem ChunkStatus.completed = (λ q. ground arith, λ q. refl)
known_status_lem ChunkStatus.verified = (λ q. ground arith, λ q. refl)
known_status_lem ChunkStatus.failed = (λ q. ground arith, λ q. refl)
known_status_lem (ChunkStatus.unlisted n) = (λ q. ground arith, λ q. refl)

positive-nonzero : (n : ℕ) → positive32 n ≡ true → n ≢ 0
positive-nonzero n h q = ground arith

-- What a new reporter keeps of its configuration.
new_reporter-config :
    (dial : String → Result ℕ) (given : Config) (r : Reporter)
    → new_reporter dial given ≡ good r
    → (r.config.component_id ≡ given.component_id)
      × (r.config.run_id ≡ given.run_id)
      × (r.config.attempt ≡ (if positive32 given.attempt then given.attempt else 1))
      × (r.config.enabled ≡ given.enabled)
unfolding new_reporter normalize_config
new_reporter-config dial given r h = elim (Bool-cases given.enabled) [
  | inr off ↦ ground arith
  | inl on ↦ elim (Result-cases (dial given.endpoint)) [
    | inl (conn, q) ↦ ground arith
    | inr (e, q) ↦ absurd (ground arith)
  ]
]

chunk_run-IsPlaced :
    (dial : String → Result ℕ) (given : Config) (u : ChunkUpdate) (r : Reporter)
    → new_reporter dial given ≡ good r
    → r.config.enabled ≡ true
    → IsPlaced given u (chunk_run u r)
unfolding chunk_run first_non_empty
chunk_run-IsPlaced dial given u r h on =
    let (component, run, attempt, e) = new_reporter-config dial given r h in
    let (positive, interval, same, ready) = new_reporter_ready dial given r h in
    let (endpoint, id, conn, dialled, held) = ready on in
    let (runs, keeps) = known_status_lem u.status in
    let nonzero = positive-nonzero r.config.attempt positive in
    record {
      component = ground (arith, eq_iff given.component_id "");
      named = ground arith;
      run = ground (arith, eq_iff given.run_id "");
      attempted = ground arith;
      unknown_runs = runs;
      keeps_status = keeps;
      span = (refl, refl);
    }

verified_iff :
    (now start end : ℕ) (is_verified : Bool) (rows : Dict ℕ) (checks : Dict String) (r : Reporter)
    → let c = chunk_run (completed_update now start end is_verified rows checks) r in
      (c.status ≡ verified) ↔ (c.verified_at ≡ some now)
unfolding chunk_run completed_update known_status
verified_iff now start end true rows checks r = (λ q. refl, λ q. refl)
verified_iff now start end false rows checks r =
    (λ q. absurd (ground arith), λ q. absurd (ground arith))

module _ (answer : ChunkRun → Result ChunkRun) where
  -- The chunk report of a reporter that NewReporter made from the configuration `given`. With
  -- reporting disabled it sends nothing and returns no error. Else it sends one record: the
  -- component, which is never empty, the run, which may be, and the attempt are the update's, or the
  -- given ones where the update has none, with 1 for a given attempt that is not positive; an unknown
  -- status becomes running and another is kept; and the span is the update's. The report returns an
  -- error exactly when flowctl does, and else flowctl's answer.
  pub report_sends-IsPlaced :
      (dial : String → Result ℕ) (given : Config) (u : ChunkUpdate) (r : Reporter)
      → new_reporter dial given ≡ good r
      → let t = report_chunk answer u r in
        (given.enabled ≡ false → (t.sent ≡ none) × (t.error ≡ none) × (t.response ≡ none))
        × (given.enabled ≡ true
            → (c : ChunkRun) × (t.sent ≡ some c)
              × IsPlaced given u c
              × ((a : ChunkRun) → (answer c ≡ good a) → (t.response ≡ some a) × (t.error ≡ none))
              × ((e : Error) → (answer c ≡ bad e) → (t.response ≡ none) × (t.error ≢ none)))
  unfolding report_chunk
  report_sends-IsPlaced dial given u r h =
      let (component, run, attempt, same) = new_reporter-config dial given r h in
      (
        λ off. ground arith,
        λ on. (
          chunk_run u r,
          ground arith,
          chunk_run-IsPlaced dial given u r h (same ∙ on),
          λ a q. ground arith,
          λ e q. ground arith,
        ),
      )

  sent-chunk_run :
      (u : ChunkUpdate) (r : Reporter) (c : ChunkRun)
      → (report_chunk answer u r).sent ≡ some c
      → c ≡ chunk_run u r
  unfolding report_chunk
  sent-chunk_run u r c h = elim (Bool-cases r.config.enabled) [
    | inl on ↦ ground arith
    | inr off ↦ absurd (ground arith)
  ]

  -- When the three reports have sent their records: the one of a chunk in progress has a start and
  -- no end, the one of a failed chunk an end and the error's text and no verification, and the one
  -- of a completed chunk an end, and a time of verification exactly when its status is verified.
  pub report_times :
      (now start end : ℕ) (phase : String) (rows : Dict ℕ) (checks metadata : Dict String)
      (is_verified : Bool) (class : ℕ) (text action : String) (r : Reporter) (p f c : ChunkRun)
      → (report_chunk_progress answer now start end phase rows metadata r).sent ≡ some p
      → (report_chunk_failed answer now start end phase class text action r).sent ≡ some f
      → (report_chunk_completed answer now start end is_verified rows checks r).sent ≡ some c
      → ((p.status ≡ running)
          × (p.started_at ≡ some now)
          × (p.completed_at ≡ none)
          × (p.verified_at ≡ none))
        × ((f.status ≡ failed)
            × (f.completed_at ≡ some now)
            × (f.verified_at ≡ none)
            × (f.error ≡ text))
        × ((c.completed_at ≡ some now) × ((c.status ≡ verified) ↔ (c.verified_at ≡ some now)))
  unfolding report_chunk_progress report_chunk_failed report_chunk_completed known_status
  report_times now start end phase rows checks metadata is_verified class text action r p f c hp hf
        hc =
      let ep = sent-chunk_run (progress_update now start end phase rows metadata) r p hp in
      let ef = sent-chunk_run (failed_update now start end phase class text action) r f hf in
      let ec = sent-chunk_run (completed_update now start end is_verified rows checks) r c hc in
      (
        (
          ap (λ x. x.status) ep,
          ap (λ x. x.started_at) ep,
          ap (λ x. x.completed_at) ep,
          ap (λ x. x.verified_at) ep,
        ),
        (
          ap (λ x. x.status) ef,
          ap (λ x. x.completed_at) ef,
          ap (λ x. x.verified_at) ef,
          ap (λ x. x.error) ef,
        ),
        (
          ap (λ x. x.completed_at) ec,
          subst (λ x. (x.status ≡ verified) ↔ (x.verified_at ≡ some now)) (sym ec)
              (verified_iff now start end is_verified rows checks r),
        ),
      )
