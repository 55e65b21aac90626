-- ===== src/Util/Ranges.antt =====
-- `clampRange` against `inRange`.
use tycho_sipwitchqt.Prelude.{◌≡◌, ◌↔◌, Bool, true, false, arith}
use tycho_sipwitchqt.Util.{clamp_range, in_range}

-- For an asymmetric order and bounds in order, a clamped value is in range, and the values that are
-- in range are exactly those that clamping does not change.
pub in_range-clamp_range {ℓ} :
    {T : Type ℓ} (lt : T → T → Bool) (value min max : T)
    → ((a b : T) → lt a b ≡ true → lt b a ≡ false)
    → lt max min ≡ false
    → (in_range lt (clamp_range lt value min max) min max ≡ true)
      × ((in_range lt value min max ≡ true) ↔ (clamp_range lt value min max ≡ value))
unfolding in_range clamp_range
in_range-clamp_range lt value min max asym h = (
  ground (arith, asym min min, asym max max),
  (
    (λ k. ground arith),
    λ k. ground (arith, asym min min, asym max max, asym value value, asym min max),
  ),
)
