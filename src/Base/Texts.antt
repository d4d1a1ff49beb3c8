-- ===== src/Base/Texts.antt =====
-- Texts as their bytes, with the comparisons of the source.
use duckdb_cog.Base.Tests.{ltb, ◌==◌}
use Prim.Native.Nat.{ℕ}
use mathlib.Core.Path.{◌≡◌, refl}
use mathlib.Core.Bool.{Bool, true, false, ◌||◌, ◌&&◌}
use mathlib.Core.List.{List, [], ◌∷◌}
use native.Mathlib.Omega.{arith}

abbrev pub Text : Type 0
Text = List ℕ

unfoldable pub text_eq : Text → Text → Bool
text_eq [] [] = true
text_eq [] (q ∷ t) = false
text_eq (c ∷ s) [] = false
text_eq (c ∷ s) (q ∷ t) = c == q && text_eq s t

-- The order of the texts by their bytes.
unfoldable pub text_ltb : Text → Text → Bool
text_ltb s [] = false
text_ltb [] (q ∷ t) = true
text_ltb (c ∷ s) (q ∷ t) = ltb c q || (c == q && text_ltb s t)

pub text_eq_sound : (s t : Text) → text_eq s t ≡ true → s ≡ t
unfolding text_eq
text_eq_sound [] [] e = refl
text_eq_sound [] (q ∷ t) e = absurd (ground arith)
text_eq_sound (c ∷ s) [] e = absurd (ground arith)
text_eq_sound (c ∷ s) (q ∷ t) e = ground (arith, text_eq_sound s t)

pub text_eq_refl : (s : Text) → text_eq s s ≡ true
unfolding text_eq
text_eq_refl [] = refl
text_eq_refl (c ∷ s) = ground (arith, text_eq_refl s)
