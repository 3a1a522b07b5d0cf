-- ===== src/Strings/Number.antt =====
-- IsNullOrEmpty, atoul and atoui of string_c_utils.c. `unsigned int` and, on the 32-bit targets,
-- `unsigned long` have 32 bits.
pub mod Value
use mbed_ce_client_for_azure.Base.{
  ℕ, ◌+◌, ◌-◌, ◌*◌, ◌%◌, ◌^◌, Bool, true, false, ◌||◌, Option, none, some, [], ◌∷◌, Bytes, ltb,
  if◌then◌else◌,
}

abbrev pub uint_mod : ℕ
uint_mod = 2 ^ 32

unfoldable pub is_null_or_empty : Option Bytes → Bool
is_null_or_empty none = true
is_null_or_empty (some []) = true
is_null_or_empty (some (_ ∷ _)) = false

-- The loop of `atoul`, from the digits that are left and `res`.
atoul_loop : Bytes → ℕ → Option ℕ
atoul_loop [] res = some res
atoul_loop (c ∷ str) previous =
    let res = (previous * 10 + (c - b'0')) % uint_mod in
    let rest = atoul_loop str res in
    if ltb c b'0' || ltb b'9' c then none else if ltb res previous then none else rest

pub atoul : Option Bytes → Option ℕ
unfolding atoul_loop is_null_or_empty
atoul none = none
atoul (some str) = if is_null_or_empty (some str) then none else atoul_loop str 0

-- The loop of `atoui`.
atoui_loop : Bytes → ℕ → Option ℕ
atoui_loop [] res = some res
atoui_loop (c ∷ str) previous =
    let res = (previous * 10 + (c - b'0')) % uint_mod in
    let rest = atoui_loop str res in
    if ltb c b'0' || ltb b'9' c then none else if ltb res previous then none else rest

unfoldable pub atoui : Option Bytes → Option ℕ
unfolding atoui_loop is_null_or_empty
atoui none = none
atoui (some str) = if is_null_or_empty (some str) then none else atoui_loop str 0
