-- ===== src/Core/Budgets.antt =====
-- The cost and token caps (internal/core/budgets/cost_cap.go, token_cap.go).
use codereviewer.Prelude.{ℕ, ◌*◌, ◌/◌, ◌≤◌, ◌≡◌, Bool, true, arith, ltb, if◌then◌else◌}
use codereviewer.Prelude.Int.{ℤ, pos, ◌≤ℤ◌, leb_ℤ, ltb_ℤ, pos_part}
use codereviewer.Ports.{Usd}

-- a spend that meets or exceeds the cap; a cap that is not positive counts as exceeded
unfoldable pub exceeds_daily_cap : Usd → Usd → Bool
exceeds_daily_cap spend_usd cap_usd =
    if leb_ℤ cap_usd (pos 0) then true else leb_ℤ cap_usd spend_usd

abbrev pub default_per_pr_token_cap : ℕ
default_per_pr_token_cap = 30000

abbrev pub default_max_output_tokens : ℕ
default_max_output_tokens = 4000

-- the quotient is taken of a positive cap only
unfoldable pub max_output_tokens : ℤ → ℕ
max_output_tokens per_pr_token_cap =
    if leb_ℤ per_pr_token_cap (pos 0)
    then default_max_output_tokens
    else if ltb_ℤ per_pr_token_cap (pos (default_max_output_tokens * 2))
    then (let out = pos_part per_pr_token_cap / 4 in if ltb out 200 then 200 else out)
    else default_max_output_tokens

-- For every cap the output budget lies between 200 and 4000 tokens, it takes at most half of an
-- input cap of 400 tokens or more, and among positive caps it grows with the cap.
pub max_output_tokens_bounds :
    (cap larger : ℤ)
    → (200 ≤ max_output_tokens cap)
      × (max_output_tokens cap ≤ 4000)
      × (pos 400 ≤ℤ cap → 2 * max_output_tokens cap ≤ pos_part cap)
      × (pos 1 ≤ℤ cap → cap ≤ℤ larger → max_output_tokens cap ≤ max_output_tokens larger)
unfolding max_output_tokens
max_output_tokens_bounds cap larger =
    (ground arith, ground arith, λ h. ground arith, λ h k. ground arith)

-- Once a spend is stopped by the cap, every larger spend is, and under every smaller cap.
pub exceeds_daily_cap_mono :
    (spend more cap less : Usd)
    → spend ≤ℤ more
    → less ≤ℤ cap
    → exceeds_daily_cap spend cap ≡ true
    → exceeds_daily_cap more less ≡ true
unfolding exceeds_daily_cap
exceeds_daily_cap_mono spend more cap less h k e = ground arith
