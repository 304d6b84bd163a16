-- ===== src/Prelude/Ranks.antt =====
-- Strict orders, by which the stores pick and sort tasks, and the order of texts as one of them.
use Prim.Native.String.{String}
use mathlib.Core.Path.{◌≡◌}
use mathlib.Core.Bool.{Bool, true, false}
use native.Mathlib.Omega.{arith}
use taskpulse.Prelude.Text.{text_ltb, text_ltb_irrefl, text_ltb_trans, text_ltb_total}

-- A strict order in which incomparable things compare alike.
pub record IsOrder {A : Type 0} (before : A → A → Bool) : Type 0 where
  pub irrefl : (a : A) → before a a ≡ false
  pub asym : (a b : A) → before a b ≡ true → before b a ≡ false
  pub skip : (a b c : A) → before a b ≡ false → before b c ≡ false → before a c ≡ false

pub text_ltb_asym : (s t : String) → text_ltb s t ≡ true → text_ltb t s ≡ false
text_ltb_asym s t h = ground (arith, text_ltb_trans s t s, text_ltb_irrefl s)

pub text_ltb_skip :
    (s t u : String) → text_ltb s t ≡ false → text_ltb t u ≡ false → text_ltb s u ≡ false
text_ltb_skip s t u p q =
    ground (arith, text_ltb_trans t s u, text_ltb_total s t, text_ltb_asym s t)
