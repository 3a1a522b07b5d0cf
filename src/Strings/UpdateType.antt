-- ===== src/Strings/UpdateType.antt =====
-- ADUC_ParseUpdateType of string_c_utils.c, which splits "Provider/Name:Version".
pub mod Split
use mbed_ce_client_for_azure.Base.{
  ℕ, suc, Bool, true, false, Option, none, some, [], ◌∷◌, Bytes, ◌==◌, if◌then◌else◌, take, drop,
}
use mbed_ce_client_for_azure.Strings.Number.{atoui}

-- `strchr`, by the index of the first `c`
unfoldable pub strchr : Bytes → ℕ → Option ℕ
strchr [] c = none
strchr (x ∷ s) c =
    if x == c then some 0 else elim (strchr s c) [ none ↦ none | some i ↦ some (suc i) ]

-- The result and the two output parameters.
pub record UpdateType : Type 0 where
  pub succeeded : Bool
  pub update_type_name : Option Bytes
  pub update_type_version : ℕ

abbrev pub failed : UpdateType
failed = record { succeeded = false; update_type_name = none; update_type_version = 0 }

-- `allocated` says whether `malloc` gives the memory for the name.
unfoldable pub parse_update_type : Bool → Option Bytes → UpdateType
parse_update_type allocated none = failed
parse_update_type allocated (some update_type) = elim (strchr update_type b':') [
  | none ↦ failed
  | some name_length ↦
      if name_length == 0
      then failed
      else if allocated
      then elim (atoui (some (drop (suc name_length) update_type))) [
        | none ↦ failed
        | some version ↦ record {
          succeeded = true;
          update_type_name = some (take name_length update_type);
          update_type_version = version;
        }
      ]
      else failed
]
