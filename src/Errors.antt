-- ===== src/Errors.antt =====
-- Go's error values as far as the SDK looks into them: identity (`==`), the chain that `errors.Is`
-- and `errors.As` walk, and pkg/source/stream.go's StreamError.
use mathlib.Core.Logic.{ite}
use flowctl_sdk.Base.{
  Bool, true, false, ◌||◌, Option, none, some, String, or_else, ◌≡◌, refl, ◌⊎◌, inl, inr,
}

-- Errors that code compares by identity: the package variables of the SDK, and those of Go's
-- `context` and `io` packages.
pub data Sentinel : Type 0 where
  context_canceled context_deadline_exceeded io_eof : Sentinel
  source_stopped producer_not_set already_streaming producer_conflict : Sentinel
  processor_stopped handler_not_found : Sentinel
  flowctl_not_enabled not_registered : Sentinel

pub Sentinel-discrete : Discrete Sentinel
Sentinel-discrete = hlevel

-- `ErrorKind` is a string type: `unlisted` is any value that is none of the constants.
pub data ErrorKind : Type 0 where
  invalid_request canceled upstream_unavailable data_integrity : ErrorKind
  downstream_unavailable internal : ErrorKind
  unlisted : String → ErrorKind

-- gRPC status codes (`google.golang.org/grpc/codes`).
pub data Code : Type 0 where
  ok canceled unknown invalid_argument deadline_exceeded not_found : Code
  failed_precondition internal unavailable data_loss : Code

pub data Error : Type 0 where
  sentinel : Sentinel → Error
  -- `errors.New(text)`, or any other error with no cause.
  plain : String → Error
  -- `fmt.Errorf("text: %w", cause)`.
  wrapped : String → Error → Error
  -- `errors.Join`.
  joined : Error → Error → Error
  -- `&StreamError{Kind, Cause}`, with a nil cause and with one.
  bare : ErrorKind → Error
  classified : ErrorKind → Error → Error
  -- `status.Error(code, text)`.
  status : Code → String → Error

-- `errors.Is(err, s)`: some error of the tree under `err` is `s`.
unfoldable pub is_error : Error → Sentinel → Bool
is_error (sentinel t) s = ite (Sentinel-discrete t s) true false
is_error (plain m) s = false
is_error (wrapped m e) s = is_error e s
is_error (joined e f) s = is_error e s || is_error f s
is_error (bare k) s = false
is_error (classified k e) s = is_error e s
is_error (status c m) s = false

-- `errors.As(err, &classified)`: the kind of the first StreamError of the tree.
unfoldable pub as_stream_error : Error → Option ErrorKind
as_stream_error (sentinel t) = none
as_stream_error (plain m) = none
as_stream_error (wrapped m e) = as_stream_error e
as_stream_error (joined e f) = or_else (as_stream_error e) (as_stream_error f)
as_stream_error (bare k) = some k
as_stream_error (classified k e) = some k
as_stream_error (status c m) = none

-- `err == io.EOF`.
unfoldable pub is_eof : Error → Bool
is_eof (sentinel io_eof) = true
is_eof _ = false

-- What a call returns: its `error`, or a run-time panic.
pub data Outcome : Type 0 where
  returned : Option Error → Outcome
  panicked : Outcome

-- What a call that has a value to return gives: the value, or an error.
pub data Result {ℓ} (A : Type ℓ) : Type ℓ where
  good : A → Result A
  bad : Error → Result A

pub Result-cases {ℓ} :
    {A : Type ℓ} (r : Result A) → ((a : A) × (r ≡ good a)) ⊎ ((e : Error) × (r ≡ bad e))
Result-cases (good a) = inl (a, refl)
Result-cases (bad e) = inr (e, refl)
