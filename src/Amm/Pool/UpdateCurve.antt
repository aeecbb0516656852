-- ===== src/Amm/Pool/UpdateCurve.antt =====
-- `Pool::update_curve_invariant`.
use solana_amm.Base.{ℕ, List, map, ◌==◌, if◌then◌else◌, any, ok, ◌>>=◌}
use solana_amm.Decimal.{DecimalOps}
use solana_amm.Amm.Err.{Res}
use solana_amm.Amm.Models.{TokenAmount}
use solana_amm.Amm.Math.StableCurve.{compute}
use solana_amm.Amm.Pool.{Pool, Curve, const_prod, stable, initialized}

module _ (dec : DecimalOps) where
  open dec use {zero_dec}

  unfoldable pub new_invariant_of : ℕ → List TokenAmount → Res ℕ
  new_invariant_of amplifier amounts =
      if any (λ t. t == 0) amounts then ok zero_dec else compute dec amplifier amounts

  unfoldable pub update_curve : Curve → Pool → Res Pool
  update_curve const_prod self = ok self
  update_curve (stable amplifier _) self = do
    reserves ← initialized self
    invariant ← new_invariant_of amplifier (map (λ r. r.tokens) reserves)
    ok (record self { curve = stable amplifier invariant })

  unfoldable pub update_curve_invariant : Pool → Res Pool
  update_curve_invariant self = update_curve self.curve self
