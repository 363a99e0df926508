-- ===== src/Tests/Timeouts.antt =====
-- Timeout at texts with and without a unit.
use iceberg.Common.Decimal.{atoi}
use iceberg.Common.{refl, ℕ, [], false, Bool, ◌≡◌, ◌↔◌}
use iceberg.Common.Go.{ret, fail}
use iceberg.Common.Text.{codes, trim_prefix, trim_suffix}
use iceberg.Parser.Timeout.{timeout, unsupported_unit, digit_prefix, scale}
use iceberg.Parser.Timeout.Refused.{timeout-eq-ret_iff}

abbrev no_digit : ℕ → Bool
no_digit c = false

-- Thirty seconds are refused.
timeout_thirty : timeout no_digit (codes "30s") ≡ fail (unsupported_unit (codes "30"))
unfolding timeout digit_prefix scale atoi trim_prefix trim_suffix
timeout_thirty = refl

timeout-eq-ret_iff_example :
    (timeout no_digit (codes "30s") ≡ ret 30) ↔ ((codes "30s" ≡ []) × (◌≡◌ {A = ℕ} 30 0))
timeout-eq-ret_iff_example = timeout-eq-ret_iff no_digit (codes "30s") 30
