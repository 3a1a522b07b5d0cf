-- ===== src/Strings/Trim/Core.antt =====
-- What `trim` and `str_n_len` of string_c_utils.c compute.
use mbed_ce_client_for_azure.Base.{
  ℕ, zero, suc, ◌+◌, ◌-◌, ◌≤◌, ◌<◌, ◌≡◌, refl, true, false, not, some, [], ◌∷◌, ◌++◌, arith, Bytes,
  length, drop, take, All, length-append, drop-length_append, get_elem?-append, ap, ◌∙◌, ok, fault,
  ◌==◌, min, ltb,
}
use mathlib.Core.List.{append_assoc}
use mbed_ce_client_for_azure.Strings.Number.{is_null_or_empty}
use mbed_ce_client_for_azure.Strings.Trim.{
  is_space, leading, space_at, back_up, copy, trim_str, str_n_len_loop, str_n_len,
}

leading-append :
    (pre : Bytes) (c : ℕ) (s : Bytes)
    → All is_space pre
    → is_space c ≡ false
    → leading (pre ++ c ∷ s) ≡ length pre
unfolding leading
leading-append [] c s spaces solid = rw solid
leading-append (x ∷ pre) c s spaces solid =
    rw spaces.0 (ap suc (leading-append pre c s spaces.1 solid))

space_at-All : (s : Bytes) (i : ℕ) → All is_space s → i < length s → space_at s i ≡ true
unfolding space_at
space_at-All [] i spaces h = elim h [ ]
space_at-All (c ∷ s) zero spaces h = spaces.0
space_at-All (c ∷ s) (suc i) spaces h = space_at-All s i spaces.1 (omega arith)

space_at-append : (u s : Bytes) (i : ℕ) → space_at (u ++ s) (length u + i) ≡ space_at s i
unfolding space_at
space_at-append u s i = rw (space_at, get_elem?-append u s i)

back_up-stop : (s : Bytes) (e : ℕ) → space_at s e ≡ false → back_up s e ≡ ok e
unfolding back_up
back_up-stop s zero h = rw h
back_up-stop s (suc e) h = rw h

back_up-step : (s : Bytes) (e : ℕ) → space_at s (suc e) ≡ true → back_up s (suc e) ≡ back_up s e
unfolding back_up
back_up-step s e h = rw h

back_up-append :
    (u : Bytes) (b : ℕ) (post : Bytes) (k : ℕ)
    → is_space b ≡ false
    → All is_space post
    → k ≤ length post
    → back_up (u ++ b ∷ post) (length u + k) ≡ ok (length u)
back_up-append u b post zero solid spaces h =
    let e : length u + 0 ≡ length u = omega arith in
    back_up-stop (u ++ b ∷ post) (length u + 0)
      (space_at-append u (b ∷ post) 0 ∙ unfold space_at in solid)
    ∙ ap ok e
back_up-append u b post (suc k) solid spaces h =
    let e : length u + suc k ≡ suc (length u + k) = omega arith in
    let space : space_at (u ++ b ∷ post) (length u + suc k) ≡ true =
      space_at-append u (b ∷ post) (suc k)
      ∙ unfold space_at in space_at-All post k spaces (omega arith) in
    rw e (
      back_up-step (u ++ b ∷ post) (length u + k) (rw e at space)
      ∙ back_up-append u b post k solid spaces (omega arith))

back_up-All : (s : Bytes) (e : ℕ) → All is_space s → e < length s → back_up s e ≡ fault
unfolding back_up
back_up-All s zero spaces h = rw (space_at-All s 0 spaces h)
back_up-All s (suc e) spaces h =
    rw (space_at-All s (suc e) spaces h) (back_up-All s e spaces (omega arith))

copy-take : (n : ℕ) (s : Bytes) → copy n s ≡ take n s
unfolding copy
copy-take zero s = refl
copy-take (suc n) [] = refl
copy-take (suc n) (c ∷ s) = ap (λ t. c ∷ t) (copy-take n s)

-- The first character, if there is one, is no space.
abbrev pub StartsSolid : Bytes → Type 0
StartsSolid [] = Unit
StartsSolid (c ∷ s) = is_space c ≡ false

leading-core :
    (pre u : Bytes) (b : ℕ) (post : Bytes)
    → All is_space pre
    → StartsSolid (u ++ b ∷ [])
    → leading (pre ++ (u ++ b ∷ post)) ≡ length pre
leading-core pre [] b post spaces solid = leading-append pre b post spaces solid
leading-core pre (c ∷ u) b post spaces solid = leading-append pre c (u ++ b ∷ post) spaces solid

nonempty : (s : Bytes) → 0 < length s → is_null_or_empty (some s) ≡ false
unfolding is_null_or_empty
nonempty [] h = elim h [ ]
nonempty (c ∷ s) h = refl

trim_str-take :
    (s : Bytes) (current end : ℕ)
    → 0 < length s
    → leading s ≡ current
    → back_up s (length s - 1) ≡ ok end
    → current ≤ end + 1
    → trim_str s ≡ ok (take (end + 1 - current) (drop current s))
unfolding trim_str
trim_str-take s current end pos first last h =
    let inside : ltb (end + 1) current ≡ false = ground arith in
    rw (nonempty s pos, last, first, inside, copy-take (end + 1 - current) (drop current s))

take-snoc : (u : Bytes) (b : ℕ) (post : Bytes) → take (length u + 1) (u ++ b ∷ post) ≡ u ++ b ∷ []
take-snoc [] b post = refl
take-snoc (c ∷ u) b post =
    let e : suc (length u) + 1 ≡ suc (length u + 1) = omega arith in
    rw e (ap (λ t. c ∷ t) (take-snoc u b post))

trim_str_cut :
    (pre u : Bytes) (b : ℕ) (post : Bytes)
    → leading (pre ++ (u ++ b ∷ post)) ≡ length pre
    → back_up (pre ++ (u ++ b ∷ post)) (length (pre ++ u) + length post) ≡ ok (length (pre ++ u))
    → trim_str (pre ++ (u ++ b ∷ post)) ≡ ok (u ++ b ∷ [])
trim_str_cut pre u b post first last =
    let size = length-append pre (u ++ b ∷ post) in
    let size' = length-append u (b ∷ post) in
    let front = length-append pre u in
    let index : length (pre ++ (u ++ b ∷ post)) - 1 ≡ length (pre ++ u) + length post =
      omega arith in
    let count : length (pre ++ u) + 1 - length pre ≡ length u + 1 = omega arith in
    trim_str-take (pre ++ (u ++ b ∷ post)) (length pre) (length (pre ++ u)) (omega arith) first
      (rw index last) (omega arith)
    ∙ rw (count, drop-length_append pre (u ++ b ∷ post)) (ap ok (take-snoc u b post))

-- Trimming takes exactly the spaces at both ends away, if there is a character that is no space.
pub trim_str_lem :
    (pre u : Bytes) (b : ℕ) (post : Bytes)
    → All is_space pre
    → StartsSolid (u ++ b ∷ [])
    → is_space b ≡ false
    → All is_space post
    → trim_str (pre ++ (u ++ b ∷ post)) ≡ ok (u ++ b ∷ [])
trim_str_lem pre u b post before solid last after =
    trim_str_cut pre u b post (leading-core pre u b post before solid) (
      rw (← append_assoc pre u (b ∷ post))
        (back_up-append (pre ++ u) b post (length post) last after (omega arith)))

-- On a string of spaces alone the loop that moves `end` back reads in front of the string.
pub trim_str_spaces : (c : ℕ) (s : Bytes) → All is_space (c ∷ s) → trim_str (c ∷ s) ≡ fault
unfolding trim_str
trim_str_spaces c s spaces =
    let e : suc (length s) - 1 ≡ length s = omega arith in
    rw (e, back_up-All (c ∷ s) (length s) spaces (omega arith))

str_n_len_loop-nul :
    (s rest : Bytes) (n maxsize : ℕ)
    → All (λ c. not (c == 0)) s
    → n ≤ maxsize
    → str_n_len_loop (s ++ 0 ∷ rest) n maxsize ≡ ok (min (n + length s) maxsize)
unfolding str_n_len_loop
str_n_len_loop-nul [] rest n maxsize solid h = ground arith
str_n_len_loop-nul (c ∷ s) rest n maxsize solid h =
    ground (arith, str_n_len_loop-nul s rest (n + 1) maxsize solid.1)

-- On a string that ends with NUL the result is its length, or `maxsize` if that is smaller.
pub str_n_len-min :
    (s rest : Bytes) (maxsize : ℕ)
    → All (λ c. not (c == 0)) s
    → str_n_len (some (s ++ 0 ∷ rest)) maxsize ≡ ok (min (length s) maxsize)
unfolding str_n_len
str_n_len-min s rest maxsize solid =
    str_n_len_loop-nul s rest 0 maxsize solid (omega arith) ∙ ap ok (omega arith)
