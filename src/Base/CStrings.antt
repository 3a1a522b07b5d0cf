-- ===== src/Base/CStrings.antt =====
-- C strings: the bytes before the terminating NUL, and the comparisons of the C library on them.
use Prim.Native.Char.{code}
use Prim.Native.Nat.{ℕ}
use Prim.Native.String.{String}
use mathlib.Core.Path.{◌≡◌, refl}
use mathlib.Core.Bool.{Bool, true, false, ◌&&◌}
use mathlib.Core.List.{List, [], ◌∷◌}
use native.Mathlib.Omega.{arith}
use mbed_ce_client_for_azure.Base.Tests.{◌==◌}

abbrev pub Bytes : Type 0
Bytes = List ℕ

-- A literal of the source.
abbrev pub codes : String → Bytes
codes String.[] = []
codes (String.◌∷◌ c s) = code c ∷ codes s

-- `strcmp (s, t) == 0`
abbrev pub str_eq : Bytes → Bytes → Bool
str_eq [] [] = true
str_eq [] (_ ∷ _) = false
str_eq (_ ∷ _) [] = false
str_eq (a ∷ s) (b ∷ t) = a == b && str_eq s t

pub str_eq-eq : (s t : Bytes) → str_eq s t ≡ true → s ≡ t
str_eq-eq [] [] h = refl
str_eq-eq [] (_ ∷ _) h = cc
str_eq-eq (_ ∷ _) [] h = cc
str_eq-eq (a ∷ s) (b ∷ t) h = ground (arith, str_eq-eq s t)

pub str_eq_refl : (s : Bytes) → str_eq s s ≡ true
str_eq_refl [] = refl
str_eq_refl (a ∷ s) = ground (arith, str_eq_refl s)
