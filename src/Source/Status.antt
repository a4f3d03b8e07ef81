-- ===== src/Source/Status.antt =====
-- pkg/source/stream.go's streamStatus: what a client gets to see of an error.
use flowctl_sdk.Base.{◌≡◌, refl, Option, none, some, if◌then◌else◌, arith}
use flowctl_sdk.Errors.{
  Error, ErrorKind, invalid_request, upstream_unavailable, data_integrity, downstream_unavailable,
  unlisted, Code, status, is_error, as_stream_error, context_canceled, context_deadline_exceeded,
}

-- The answer for an error that no known kind classifies.
unfoldable pub unclassified_status : Error → Error
unclassified_status e =
    if is_error e context_canceled
    then status Code.canceled "source stream canceled"
    else if is_error e context_deadline_exceeded
    then status Code.deadline_exceeded "source stream timed out"
    else status Code.internal "source internal failure"

unfoldable pub classified_status : Option ErrorKind → Error → Error
unfolding unclassified_status
classified_status none e = unclassified_status e
classified_status (some invalid_request) e = status Code.invalid_argument "invalid source request"
classified_status (some ErrorKind.canceled) e = status Code.canceled "source stream canceled"
classified_status (some upstream_unavailable) e =
    status Code.unavailable "source upstream unavailable"
classified_status (some data_integrity) e = status Code.data_loss "source data integrity failure"
classified_status (some downstream_unavailable) e =
    status Code.unavailable "source downstream unavailable"
classified_status (some ErrorKind.internal) e = status Code.internal "source internal failure"
classified_status (some (unlisted t)) e = unclassified_status e

unfoldable pub stream_status : Option Error → Option Error
unfolding classified_status
stream_status none = none
stream_status (some e) = some (classified_status (as_stream_error e) e)

-- The seven answers that a client can get.
pub data IsPublic : Error → Type 0 where
  invalid : IsPublic (status Code.invalid_argument "invalid source request")
  canceled : IsPublic (status Code.canceled "source stream canceled")
  upstream : IsPublic (status Code.unavailable "source upstream unavailable")
  integrity : IsPublic (status Code.data_loss "source data integrity failure")
  downstream : IsPublic (status Code.unavailable "source downstream unavailable")
  internal : IsPublic (status Code.internal "source internal failure")
  timeout : IsPublic (status Code.deadline_exceeded "source stream timed out")

unclassified-IsPublic : (e : Error) → IsPublic (unclassified_status e)
unfolding unclassified_status
unclassified-IsPublic e = ground (arith, canceled, timeout, internal)

classified-IsPublic : (k : Option ErrorKind) (e : Error) → IsPublic (classified_status k e)
unfolding classified_status
classified-IsPublic none e = unclassified-IsPublic e
classified-IsPublic (some invalid_request) e = invalid
classified-IsPublic (some ErrorKind.canceled) e = canceled
classified-IsPublic (some upstream_unavailable) e = upstream
classified-IsPublic (some data_integrity) e = integrity
classified-IsPublic (some downstream_unavailable) e = downstream
classified-IsPublic (some ErrorKind.internal) e = internal
classified-IsPublic (some (unlisted t)) e = unclassified-IsPublic e

pub stream_status-IsPublic :
    (e : Error) → (p : Error) × (stream_status (some e) ≡ some p) × IsPublic p
unfolding stream_status
stream_status-IsPublic e =
    (classified_status (as_stream_error e) e, refl, classified-IsPublic (as_stream_error e) e)

-- Whatever the error, its texts and its causes, the client gets one of seven fixed answers, and two
-- errors that are classified alike get the same one.
pub stream_status_hides_cause :
    (e : Error)
    → ((p : Error) × (stream_status (some e) ≡ some p) × IsPublic p)
      × ((f : Error)
          → as_stream_error e ≡ as_stream_error f
          → is_error e context_canceled ≡ is_error f context_canceled
          → is_error e context_deadline_exceeded ≡ is_error f context_deadline_exceeded
          → stream_status (some e) ≡ stream_status (some f))
unfolding stream_status
stream_status_hides_cause e = (stream_status-IsPublic e, λ f k c d. ground arith)
