-- ===== src/Effects/Results.antt =====
-- Chains of results.
use agent_bash_tool.Common.{◌≡◌, refl, arith}
use agent_bash_tool.Effects.{Result, ok, err, ◌>>?◌}

-- The steps before a result.
pub reached :
    {A B : Type 0} (m : Result A) (f : A → Result B) (b : B)
    → (m >>? f) ≡ ok b
    → (a : A) × (m ≡ ok a) × (f a ≡ ok b)
unfolding ◌>>?◌
reached (ok a) f b h = (a, refl, h)
reached (err e) f b h = absurd (ground arith)
