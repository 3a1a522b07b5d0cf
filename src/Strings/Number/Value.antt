-- ===== src/Strings/Number/Value.antt =====
-- What `atoui` and `atoul` of string_c_utils.c compute, against the value of a decimal numeral.
use mbed_ce_client_for_azure.Base.{
  ℕ, ◌+◌, ◌-◌, ◌*◌, ◌%◌, ◌≤◌, ◌<◌, ◌≡◌, refl, ◌≢◌, Bool, true, ◌&&◌, Option, none, some, [], ◌∷◌,
  ◌++◌, arith, Bytes, leb, All, ap, ◌∙◌, sym, if◌then◌else◌,
}
use mbed_ce_client_for_azure.Strings.Number.{
  uint_mod, is_null_or_empty, atoul_loop, atoul, atoui_loop, atoui,
}

unfoldable pub is_digit : ℕ → Bool
is_digit c = leb b'0' c && leb c b'9'

-- The number that the digits stand for, behind digits that stand for `acc`.
unfoldable pub value_from : ℕ → Bytes → ℕ
value_from acc [] = acc
value_from acc (c ∷ s) = value_from (acc * 10 + (c - b'0')) s

value_from_mono : (s : Bytes) (acc : ℕ) → acc ≤ value_from acc s
unfolding value_from
value_from_mono [] acc = omega arith
value_from_mono (c ∷ s) acc = omega (arith, value_from_mono s (acc * 10 + (c - b'0')))

value_from-append :
    (s : Bytes) (acc d : ℕ) → value_from acc (s ++ d ∷ []) ≡ value_from acc s * 10 + (d - b'0')
unfolding value_from
value_from-append [] acc d = refl
value_from-append (c ∷ s) acc d = value_from-append s (acc * 10 + (c - b'0')) d

atoui_loop-value :
    (s : Bytes) (acc : ℕ)
    → All is_digit s
    → value_from acc s < uint_mod
    → atoui_loop s acc ≡ some (value_from acc s)
unfolding atoui_loop value_from is_digit
atoui_loop-value [] acc digits small = refl
atoui_loop-value (c ∷ s) acc digits small =
    let next : ℕ = acc * 10 + (c - b'0') in
    let fits : next % uint_mod ≡ next = omega (arith, value_from_mono s next) in
    rw fits (ground (arith, atoui_loop-value s next, digits.0))

-- On a digit string that is not empty, `atoui` gives the number that it stands for if that is
-- below 2 ^ 32.
pub atoui_value :
    (c : ℕ) (s : Bytes)
    → All is_digit (c ∷ s)
    → value_from 0 (c ∷ s) < uint_mod
    → atoui (some (c ∷ s)) ≡ some (value_from 0 (c ∷ s))
unfolding atoui
atoui_value c s digits small = atoui_loop-value (c ∷ s) 0 digits small

mod_step : (x k : ℕ) → (x % uint_mod * 10 + k) % uint_mod ≡ (x * 10 + k) % uint_mod
mod_step x k = omega arith

value_from_mod :
    (s : Bytes) (acc : ℕ) → value_from (acc % uint_mod) s % uint_mod ≡ value_from acc s % uint_mod
unfolding value_from
value_from_mod [] acc = omega arith
value_from_mod (c ∷ s) acc =
    sym (value_from_mod s (acc % uint_mod * 10 + (c - b'0')))
    ∙ ap (λ n. value_from n s % uint_mod) (mod_step acc (c - b'0'))
    ∙ value_from_mod s (acc * 10 + (c - b'0'))

atoui_loop-some :
    (s : Bytes) (acc r : ℕ)
    → acc < uint_mod
    → atoui_loop s acc ≡ some r
    → All is_digit s × (r ≡ value_from acc s % uint_mod)
unfolding atoui_loop value_from is_digit
atoui_loop-some [] acc r small h = (tt, ground arith)
atoui_loop-some (c ∷ s) acc r small h =
    let next : ℕ = acc * 10 + (c - b'0') in
    let e = value_from_mod s next in ground (arith, atoui_loop-some s (next % uint_mod) r)

-- `atoui` accepts only non-empty digit strings, and what it gives is the number modulo 2 ^ 32.
pub atoui_sound :
    (s : Bytes) (r : ℕ)
    → atoui (some s) ≡ some r
    → (s ≢ []) × All is_digit s × (r ≡ value_from 0 s % uint_mod)
unfolding atoui
atoui_sound [] r h = cc
atoui_sound (c ∷ s) r h =
    let (digits, value) = atoui_loop-some (c ∷ s) 0 r (omega arith) h in ((λ e. cc), digits, value)

atoui_loop-append :
    (s : Bytes) (acc d r : ℕ)
    → atoui_loop s acc ≡ some r
    → atoui_loop (s ++ d ∷ []) acc ≡ atoui_loop (d ∷ []) r
unfolding atoui_loop
atoui_loop-append [] acc d r h = ground arith
atoui_loop-append (c ∷ s) acc d r h =
    ground (arith, atoui_loop-append s ((acc * 10 + (c - b'0')) % uint_mod) d r)

atoui_loop-last :
    (d v : ℕ)
    → is_digit d ≡ true
    → v ≤ (v * 10 + (d - b'0')) % uint_mod
    → atoui_loop (d ∷ []) v ≡ some ((v * 10 + (d - b'0')) % uint_mod)
unfolding atoui_loop is_digit
atoui_loop-last d v dig missed = ground arith

-- The overflow test compares with the value before the digit only. A digit string of a number
-- below 2 ^ 32, with one more digit so that the number does not fit, is accepted with a smaller
-- value wherever the wrapped value is not below the one before the digit.
pub atoui_overflow :
    (c : ℕ) (s : Bytes) (d : ℕ)
    → All is_digit (c ∷ s)
    → is_digit d ≡ true
    → value_from 0 (c ∷ s) < uint_mod
    → uint_mod ≤ value_from 0 (c ∷ s ++ d ∷ [])
    → value_from 0 (c ∷ s) ≤ value_from 0 (c ∷ s ++ d ∷ []) % uint_mod
    → (r : ℕ) × (atoui (some (c ∷ s ++ d ∷ [])) ≡ some r) × (r < value_from 0 (c ∷ s ++ d ∷ []))
unfolding atoui
atoui_overflow c s d digits dig small big missed =
    let v = value_from-append (c ∷ s) 0 d in
    let whole = atoui_loop-append (c ∷ s) 0 d _ (atoui_loop-value (c ∷ s) 0 digits small) in
    let last = atoui_loop-last d (value_from 0 (c ∷ s)) dig (omega arith) in
    (value_from 0 (c ∷ s ++ d ∷ []) % uint_mod, rw v (whole ∙ last), omega arith)

-- With a 32-bit `unsigned long`, `atoul` and `atoui` are one function.
pub atoul-eq-atoui : (s : Option Bytes) → atoul s ≡ atoui s
unfolding atoul atoui
atoul-eq-atoui none = refl
atoul-eq-atoui (some s) = ap (λ r. if is_null_or_empty (some s) then none else r) (loops s 0)
  where
    loops : (s : Bytes) (acc : ℕ) → atoul_loop s acc ≡ atoui_loop s acc
    loops [] acc = refl
    loops (c ∷ s) acc = ground (arith, loops s ((acc * 10 + (c - b'0')) % uint_mod))
