-- ===== src/Prelude/Text.antt =====
-- C strings as lists of character codes without the final zero.
use Prim.Native.Nat.{ℕ}
use Prim.Native.Char.{code}
use Prim.Native.String.{String, [] as empty, ◌∷◌ as ◌∷ₛ◌}
use mathlib.Core.Bool.{Bool, true, false, ◌&&◌}
use mathlib.Core.List.{List, [], ◌∷◌}
use yubikey_personalization.Prelude.Tests.{◌==◌}

unfoldable pub codes : String → List ℕ
codes empty = []
codes (c ∷ₛ s) = code c ∷ codes s

-- `strcmp(a, b) == 0`.
abbrev pub str_eq : List ℕ → List ℕ → Bool
str_eq [] [] = true
str_eq (a ∷ s) (b ∷ t) = a == b && str_eq s t
str_eq _ _ = false
