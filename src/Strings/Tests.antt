-- ===== src/Strings/Tests.antt =====
-- Runs of the functions of string_c_utils.c, and inputs at which the hypotheses of the theorems hold.
use mbed_ce_client_for_azure.Base.{
  ℕ, ◌<◌, ◌≡◌, refl, true, not, some, [], ◌∷◌, arith, codes, ◌==◌, all-All, ok,
}
use mbed_ce_client_for_azure.Strings.Number.{atoui}
use mbed_ce_client_for_azure.Strings.Number.Value.{
  is_digit, value_from, atoui_value, atoui_overflow,
}
use mbed_ce_client_for_azure.Strings.Trim.{is_space, trim_str}
use mbed_ce_client_for_azure.Strings.Trim.Core.{trim_str_lem}
use mbed_ce_client_for_azure.Strings.UpdateType.{UpdateType, strchr, parse_update_type}
use mbed_ce_client_for_azure.Strings.UpdateType.Split.{parse_update_type_lem}
use mbed_ce_client_for_azure.Strings.Files.Found.{AllSkipped, nil, cons, no_delimiter}

atoui_value_example : atoui (some (codes "4096")) ≡ some 4096
unfolding value_from
atoui_value_example =
    atoui_value b'4' (codes "096") (unfold is_digit in all-All is_digit (codes "4096") refl)
      (unfold value_from in omega arith)

parsed : atoui (some (codes "17")) ≡ some 17
unfolding atoui is_digit value_from
parsed = refl

atoui_overflow_example :
    (r : ℕ) × (atoui (some (codes "9999999999")) ≡ some r) × (r < value_from 0 (codes "9999999999"))
unfolding value_from
atoui_overflow_example =
    atoui_overflow b'9' (codes "99999999") b'9'
      (unfold is_digit in all-All is_digit (codes "999999999") refl) (unfold is_digit in refl)
      (unfold value_from in omega arith) (unfold value_from in omega arith)
      (unfold value_from in omega arith)

trim_str_lem_example : trim_str (codes "  a b ") ≡ ok (codes "a b")
trim_str_lem_example =
    trim_str_lem (codes "  ") (codes "a ") b'b' (codes " ") (all-All is_space (codes "  ") refl)
      refl refl (all-All is_space (codes " ") refl)

parse_update_type_lem_example : parse_update_type true (some (codes "ms/swupdate:1")) ≡ record {
  succeeded = true;
  update_type_name = some (codes "ms/swupdate");
  update_type_version = 1;
}
unfolding value_from
parse_update_type_lem_example =
    parse_update_type_lem b'm' (codes "s/swupdate") b'1' []
      (all-All (λ c. not (c == b':')) (codes "ms/swupdate") refl)
      (unfold is_digit in all-All is_digit (codes "1") refl) (unfold value_from in omega arith)

abbrev accepted : UpdateType
accepted = record { succeeded = true; update_type_name = some (codes "a"); update_type_version = 7 }

accepts : parse_update_type true (some (codes "a:7")) ≡ accepted
unfolding parse_update_type strchr atoui
accepts = refl

skipped : AllSkipped (codes "key") (codes "# comment" ∷ [])
unfolding strchr
skipped = cons (no_delimiter refl) nil

trims : (trim_str (codes " key ") ≡ ok (codes "key")) × (trim_str (codes "v ") ≡ ok (codes "v"))
unfolding trim_str
trims = (refl, refl)
