-- ===== src/Strings/UpdateType/Split.antt =====
-- What `parse_update_type` of string_c_utils.c accepts.
use mbed_ce_client_for_azure.Base.{
  ℕ, zero, suc, ◌<◌, ◌≡◌, refl, ◌≢◌, true, not, some, [], ◌∷◌, ◌++◌, arith, Bytes, length, drop,
  take, All, take-length_append, ap, inl, inr, ◌==◌, Bool, Option-cases, ◌%◌,
}
use mbed_ce_client_for_azure.Strings.Number.{atoui, uint_mod}
use mbed_ce_client_for_azure.Strings.Number.Value.{is_digit, value_from, atoui_value, atoui_sound}
use mbed_ce_client_for_azure.Strings.UpdateType.{strchr, UpdateType, parse_update_type}

pub strchr-append :
    (s : Bytes) (c : ℕ) (rest : Bytes)
    → All (λ x. not (x == c)) s
    → strchr (s ++ c ∷ rest) c ≡ some (length s)
unfolding strchr
strchr-append [] c rest absent = ground arith
strchr-append (x ∷ s) c rest absent = ground (arith, strchr-append s c rest absent.1)

pub strchr_inv :
    (s : Bytes) (c i : ℕ)
    → strchr s c ≡ some i
    → (s ≡ take i s ++ c ∷ drop (suc i) s)
      × (length (take i s) ≡ i)
      × All (λ x. not (x == c)) (take i s)
unfolding strchr
strchr_inv [] c i h = cc
strchr_inv (x ∷ s) c zero h = ground arith
strchr_inv (x ∷ s) c (suc i) h = ground (arith, strchr_inv s c i)

pub drop-suc-length :
    (s : Bytes) (c : ℕ) (rest : Bytes) → drop (suc (length s)) (s ++ c ∷ rest) ≡ rest
drop-suc-length [] c rest = refl
drop-suc-length (x ∷ s) c rest = drop-suc-length s c rest

-- A non-empty name without ':', a ':', and a version below 2 ^ 32 are read back exactly, if there is
-- memory for the name.
pub parse_update_type_lem :
    (x : ℕ) (name : Bytes) (d : ℕ) (version : Bytes)
    → All (λ c. not (c == b':')) (x ∷ name)
    → All is_digit (d ∷ version)
    → value_from 0 (d ∷ version) < uint_mod
    → parse_update_type true (some (x ∷ name ++ b':' ∷ d ∷ version)) ≡ record {
      succeeded = true;
      update_type_name = some (x ∷ name);
      update_type_version = value_from 0 (d ∷ version);
    }
unfolding parse_update_type
parse_update_type_lem x name d version absent digits small = ground (
  arith,
  strchr-append (x ∷ name) b':' (d ∷ version) absent,
  drop-suc-length (x ∷ name) b':' (d ∷ version),
  take-length_append (x ∷ name) (b':' ∷ d ∷ version),
  atoui_value d version digits small,
)

-- Whatever is accepted has a name without ':', a ':' and a digit string, and the version is the
-- number that the digits stand for, modulo 2 ^ 32. Without memory for the name nothing is accepted.
pub parse_update_type_sound :
    (allocated : Bool) (s : Bytes) (r : UpdateType)
    → parse_update_type allocated (some s) ≡ r
    → r.succeeded ≡ true
    → (name version : Bytes) × (allocated ≡ true)
      × (s ≡ name ++ b':' ∷ version)
      × (name ≢ [])
      × All (λ c. not (c == b':')) name
      × (r.update_type_name ≡ some name)
      × All is_digit version
      × (r.update_type_version ≡ value_from 0 version % uint_mod)
unfolding parse_update_type
parse_update_type_sound allocated s r h done = elim (Option-cases (strchr s b':')) [
  | inl absent ↦ ground arith
  | inr (i, found) ↦ elim (Option-cases (atoui (some (drop (suc i) s)))) [
    | inl bad ↦ ground arith
    | inr (v, good) ↦
        let (whole, size, absent) = strchr_inv s b':' i found in
        let (some_digit, digits, value) = atoui_sound (drop (suc i) s) v good in
        (
          take i s,
          drop (suc i) s,
          ground arith,
          whole,
          (λ e. ground (arith, ap (λ (t : Bytes). length t) e)),
          absent,
          ground arith,
          digits,
          ground arith,
        )
  ]
]
