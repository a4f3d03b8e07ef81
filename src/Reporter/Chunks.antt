-- ===== src/Reporter/Chunks.antt =====
-- The chunk reports and the heartbeat loop of pkg/component/reporter.go. A time is a number.
use flowctl_sdk.Base.{
  ℕ, Bool, not, List, [], ◌∷◌, Option, none, some, String, str_eq, if◌then◌else◌, ◌==◌,
}
use flowctl_sdk.Base.Dict.{Dict}
use flowctl_sdk.Errors.{Error, wrapped, Result, good, bad}
use flowctl_sdk.Reporter.{Reporter, ServiceHeartbeat, heartbeat, copy_map}

-- The generated ChunkStatus: the values that the reporter names, and any other.
pub data ChunkStatus : Type 0 where
  unknown running completed verified failed : ChunkStatus
  unlisted : ℕ → ChunkStatus

pub record ChunkUpdate : Type 0 where
  pub chunk_id : String
  pub component_id : String
  pub run_id : String
  pub chunk_start : ℕ
  pub chunk_end : ℕ
  pub attempt : ℕ  -- int32
  pub status : ChunkStatus
  pub failure_class : ℕ
  pub phase : String
  pub error : String
  pub recommended_action : String
  pub started_at : Option ℕ
  pub completed_at : Option ℕ
  pub verified_at : Option ℕ
  pub row_counts : Dict ℕ
  pub verification : Dict String
  pub metadata : Dict String

-- The generated ChunkRun has the same fields.
abbrev pub ChunkRun : Type 0
ChunkRun = ChunkUpdate

-- The update with no field set.
abbrev pub empty_update : ChunkUpdate
empty_update = record {
  chunk_id = "";
  component_id = "";
  run_id = "";
  chunk_start = 0;
  chunk_end = 0;
  attempt = 0;
  status = unknown;
  failure_class = 0;
  phase = "";
  error = "";
  recommended_action = "";
  started_at = none;
  completed_at = none;
  verified_at = none;
  row_counts = [];
  verification = [];
  metadata = [];
}

unfoldable pub first_non_empty : List String → String
first_non_empty [] = ""
first_non_empty (t ∷ ts) = if str_eq t "" then first_non_empty ts else t

unfoldable pub known_status : ChunkStatus → ChunkStatus
known_status unknown = running
known_status s = s

-- The record that ReportChunk sends.
unfoldable pub chunk_run : ChunkUpdate → Reporter → ChunkRun
unfolding first_non_empty known_status copy_map
chunk_run u r = record u {
  component_id = first_non_empty (u.component_id ∷ r.config.component_id ∷ []);
  run_id = first_non_empty (u.run_id ∷ r.config.run_id ∷ []);
  attempt = fallback (fallback u.attempt r.config.attempt) 1;
  status = known_status u.status;
  row_counts = copy_map [] u.row_counts;
  verification = copy_map [] u.verification;
  metadata = copy_map [] u.metadata;
}
  where
    fallback : ℕ → ℕ → ℕ
    fallback n d = if n == 0 then d else n

-- The updates that the three reports below make.
unfoldable pub progress_update : ℕ → ℕ → ℕ → String → Dict ℕ → Dict String → ChunkUpdate
progress_update now start end phase row_counts metadata = record empty_update {
  chunk_start = start;
  chunk_end = end;
  status = running;
  phase = phase;
  started_at = some now;
  row_counts = row_counts;
  metadata = metadata;
}

unfoldable pub completed_update : ℕ → ℕ → ℕ → Bool → Dict ℕ → Dict String → ChunkUpdate
completed_update now start end is_verified row_counts verification = record empty_update {
  chunk_start = start;
  chunk_end = end;
  status = if is_verified then verified else completed;
  completed_at = some now;
  verified_at = if is_verified then some now else none;
  row_counts = row_counts;
  verification = verification;
}

unfoldable pub failed_update : ℕ → ℕ → ℕ → String → ℕ → String → String → ChunkUpdate
failed_update now start end phase failure text action = record empty_update {
  chunk_start = start;
  chunk_end = end;
  status = failed;
  failure_class = failure;
  phase = phase;
  error = text;
  recommended_action = action;
  completed_at = some now;
}

-- What a report returns, and the record that it has sent.
pub record Report : Type 0 where
  pub response : Option ChunkRun
  pub error : Option Error
  pub sent : Option ChunkRun

module _ (answer : ChunkRun → Result ChunkRun) where
  unfoldable pub report_chunk : ChunkUpdate → Reporter → Report
  unfolding chunk_run
  report_chunk u r =
      if not r.config.enabled
      then record { response = none; error = none; sent = none }
      else let c = chunk_run u r in
        elim (answer c) [
          | bad e ↦ record {
            response = none;
            error = some (wrapped "report flowctl chunk run" e);
            sent = some c;
          }
          | good a ↦ record { response = some a; error = none; sent = some c }
        ]

  unfoldable pub report_chunk_progress :
      ℕ → ℕ → ℕ → String → Dict ℕ → Dict String → Reporter → Report
  unfolding report_chunk progress_update
  report_chunk_progress now start end phase row_counts metadata r =
      report_chunk (progress_update now start end phase row_counts metadata) r

  unfoldable pub report_chunk_completed :
      ℕ → ℕ → ℕ → Bool → Dict ℕ → Dict String → Reporter → Report
  unfolding report_chunk completed_update
  report_chunk_completed now start end is_verified row_counts verification r =
      report_chunk (completed_update now start end is_verified row_counts verification) r

  unfoldable pub report_chunk_failed : ℕ → ℕ → ℕ → String → ℕ → String → String → Reporter → Report
  unfolding report_chunk failed_update
  report_chunk_failed now start end phase failure text action r =
      report_chunk (failed_update now start end phase failure text action) r

-- One turn of StartHeartbeatLoop: the snapshot of a tick, and whether `errCh` is there and has room;
-- or the end of the context.
pub data Tick (M : Type 0) : Type 0 where
  ticks : M → Bool → Tick M
  done : Tick M

-- The requests that the loop has sent, and the errors that it has passed on.
pub record Beats (M : Type 0) : Type 0 where
  pub requests : List (ServiceHeartbeat M)
  pub errors : List Error

module _ {M : Type 0} (answer : ServiceHeartbeat M → Option Error) (r : Reporter) where
  unfoldable pub add_beat : Bool → Option Error × Option (ServiceHeartbeat M) → Beats M → Beats M
  add_beat room (e, none) b = b
  add_beat room (none, some q) b = record b { requests = q ∷ b.requests }
  add_beat room (some e, some q) b = record b {
    requests = q ∷ b.requests;
    errors = if room then e ∷ b.errors else b.errors;
  }

  unfoldable pub heartbeat_ticks : List (Tick M) → Beats M
  unfolding add_beat heartbeat
  heartbeat_ticks [] = record { requests = []; errors = [] }
  heartbeat_ticks (done ∷ ts) = record { requests = []; errors = [] }
  heartbeat_ticks (ticks m room ∷ ts) = add_beat room (heartbeat answer m r) (heartbeat_ticks ts)

  unfoldable pub start_heartbeat_loop : List (Tick M) → Beats M
  unfolding heartbeat_ticks
  start_heartbeat_loop ts =
      if not r.config.enabled then record { requests = []; errors = [] } else heartbeat_ticks ts
