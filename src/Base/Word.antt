-- ===== src/Base/Word.antt =====
-- Machine integers as bit patterns. An `int64` is a number below 2 ^ 64, read in two's complement.
use Prim.Native.Nat.{ℕ, ◌+◌, ◌%◌, ◌^◌}
use mathlib.Core.Bool.{Bool, ◌&&◌}
use flowctl_sdk.Base.Tests.{ltb, leb}

-- `x++` on an `int64` or `atomic.Int64`, with its wrap-around.
abbrev pub inc64 : ℕ → ℕ
inc64 n = (n + 1) % 2 ^ 64

-- `x > 0` on an `int64`.
abbrev pub positive64 : ℕ → Bool
positive64 n = ltb 0 n && ltb n (2 ^ 63)

-- `x < 0` on an `int64`.
abbrev pub negative64 : ℕ → Bool
negative64 n = leb (2 ^ 63) n

-- `x > 0` on an `int32`.
abbrev pub positive32 : ℕ → Bool
positive32 n = ltb 0 n && ltb n (2 ^ 31)
