-- ===== src/Strings/Trim.antt =====
-- ADUC_StringUtils_Trim and ADUC_StrNLen of string_c_utils.c. Indices into the string stand for the
-- pointers into it; reading in front of the string is a fault.
pub mod Core
use mbed_ce_client_for_azure.Base.{
  ℕ, zero, suc, ◌+◌, ◌-◌, Bool, false, ◌&&◌, ◌||◌, not, Option, none, some, [], ◌∷◌, Bytes, ltb,
  leb, ◌==◌, if◌then◌else◌, length, get_elem?, drop, Run, ok, fault, ◌>>=◌,
}
use mbed_ce_client_for_azure.Strings.Number.{is_null_or_empty}

-- `isspace` in the C locale
abbrev pub is_space : ℕ → Bool
is_space c = c == b' ' || (leb 9 c && leb c 13)

-- The first loop: how far `current` moves. At the terminating NUL it stops.
leading : Bytes → ℕ
leading [] = 0
leading (c ∷ s) = if is_space c then suc (leading s) else 0

space_at : Bytes → ℕ → Bool
space_at s i = elim (get_elem? s i) [ none ↦ false | some c ↦ is_space c ]

-- The loop that moves `end` back over spaces. Behind index 0 it reads in front of the string.
back_up : Bytes → ℕ → Run ℕ
unfolding space_at
back_up s zero = if space_at s zero then fault else ok zero
back_up s (suc e) = let rest = back_up s e in if space_at s (suc e) then rest else ok (suc e)

-- The last loop, for the `n` characters before `end + 1`. It writes at or in front of where it reads.
copy : ℕ → Bytes → Bytes
copy zero s = []
copy (suc n) [] = []
copy (suc n) (c ∷ s) = c ∷ copy n s

-- On a string. `end` starts at the terminating NUL and is moved back by one first. The last loop is
-- left by `current == end + 1` only, so it would run away behind it.
unfoldable pub trim_str : Bytes → Run Bytes
unfolding leading back_up copy is_null_or_empty
trim_str s =
    if is_null_or_empty (some s)
    then ok s
    else (let current = leading s in
        back_up s (length s - 1) >>= λ end.
        if ltb (end + 1) current then fault else ok (copy (end + 1 - current) (drop current s)))

unfoldable pub trim : Option Bytes → Run (Option Bytes)
unfolding trim_str
trim none = ok none
trim (some s) = trim_str s >>= λ t. ok (some t)

-- The loop of `ADUC_StrNLen` over the memory from `str` on.
str_n_len_loop : Bytes → ℕ → ℕ → Run ℕ
str_n_len_loop [] length maxsize = if ltb length maxsize then fault else ok length
str_n_len_loop (c ∷ str) length maxsize =
    let rest = str_n_len_loop str (length + 1) maxsize in
    if ltb length maxsize && not (c == 0) then rest else ok length

unfoldable pub str_n_len : Option Bytes → ℕ → Run ℕ
unfolding str_n_len_loop
str_n_len none maxsize = ok 0
str_n_len (some str) maxsize = str_n_len_loop str 0 maxsize
