-- ===== src/Base/Words.antt =====
-- Machine integers. A `u32` or `u64` is its value; an `i64` is its 64-bit pattern, compared through
-- `i64_key`, which is monotone in the signed value that the pattern stands for.
use Prim.Native.Nat.{ℕ, ◌+◌, ◌-◌, ◌%◌, ◌^◌}
use mathlib.Core.Bool.{Bool}
use ngx_http_crowdsec_module.Base.Tests.{leb, if◌then◌else◌}

abbrev pub u32_mod : ℕ
u32_mod = 2 ^ 32

abbrev pub u64_mod : ℕ
u64_mod = 2 ^ 64

-- `i64::MAX`
abbrev pub i64_max : ℕ
i64_max = 2 ^ 63 - 1

abbrev pub i64_key : ℕ → ℕ
i64_key a = (a + 2 ^ 63) % 2 ^ 64

-- `a >= b`
unfoldable pub i64_ge : ℕ → ℕ → Bool
i64_ge a b = leb (i64_key b) (i64_key a)

-- `a.max(b)`
abbrev pub i64_max_of : ℕ → ℕ → ℕ
i64_max_of a b = if i64_ge b a then b else a

-- `a + b` of a release build, which wraps.
abbrev pub i64_add : ℕ → ℕ → ℕ
i64_add a b = (a + b) % 2 ^ 64
