-- ===== src/Protocol.antt =====
-- The event of the generated protocol (flow-proto), as far as the SDK looks into it.
use flowctl_sdk.Base.{ℕ, String}

-- An event: its type, and a number for the rest.
pub record Event : Type 0 where
  pub event_type : String
  pub body : ℕ
