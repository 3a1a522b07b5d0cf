-- ===== src/Strings/Files.antt =====
-- ReadDelimitedValueFromFile, LoadBufferWithFileContents, ADUC_StringFormat and MallocAndSubstr of
-- string_c_utils.c. A file that cannot be opened is `none`; what `fgets`, `fread` and `vsnprintf`
-- give is an argument.
pub mod Found
use mbed_ce_client_for_azure.Base.{
  ℕ, zero, suc, ◌-◌, Bool, true, false, ◌||◌, not, Option, none, some, List, [], ◌∷◌, Bytes, ltb,
  leb, str_eq, ◌==◌, if◌then◌else◌, length, get_elem?, take, drop, Run, ok, fault, ◌>>=◌,
}
use mbed_ce_client_for_azure.Strings.Trim.{trim_str}
use mbed_ce_client_for_azure.Strings.UpdateType.{strchr}

-- `strncpy`: `n` bytes, padded with NUL.
unfoldable pub strncpy : ℕ → Bytes → Bytes
strncpy zero s = []
strncpy (suc n) [] = 0 ∷ strncpy n []
strncpy (suc n) (c ∷ s) = c ∷ strncpy n s

-- The result and the buffer `value`.
pub record Delimited : Type 0 where
  pub found : Bool
  pub value : Bytes

-- The loop over the lines that `fgets` reads.
unfoldable pub read_lines : Bytes → ℕ → List Bytes → Bytes → Run Delimited
read_lines key value_len [] value = ok (record { found = false; value = value })
read_lines key value_len (line ∷ lines) value =
    let rest = read_lines key value_len lines value in
    elim (strchr line b'=') [
      | none ↦ rest
      | some i ↦ trim_str (take i line) >>= λ name.
          if str_eq name key
          then (trim_str (drop (suc i) line) >>= λ found_value.
              let buffer = strncpy value_len found_value in
              elim (get_elem? buffer (value_len - 1)) [
                | none ↦ fault
                | some last ↦ ok (record { found = last == 0; value = buffer })
              ])
          else rest
    ]

unfoldable pub read_delimited_value_from_file :
    Option (List Bytes) → Bytes → Bytes → ℕ → Run Delimited
unfolding read_lines
read_delimited_value_from_file file key value value_len =
    if ltb value_len 2 then ok (record { found = false; value = value }) else elim file [
      | none ↦ ok (record { found = false; value = value })
      | some lines ↦ read_lines key value_len lines value
    ]

-- What `LoadBufferWithFileContents` returns, and the string that it leaves in the buffer.
pub record Loaded : Type 0 where
  pub success : Bool
  pub contents : Bytes

-- `num_read` is what `fread` returns. `fclose` of a null stream is a fault, and so is a write at the
-- index `str_buff_size`.
unfoldable pub load_buffer_with_file_contents :
    (file_path_set str_buffer_set : Bool) → Option Bytes → ℕ → ℕ → Run (Option Loaded)
load_buffer_with_file_contents file_path_set str_buffer_set file num_read str_buff_size =
    if not file_path_set || not str_buffer_set || str_buff_size == 0 then ok none else elim file [
      | none ↦ fault
      | some contents ↦
          let file_size = length contents in
          if file_size == 0 || ltb str_buff_size file_size || not (num_read == file_size)
          then ok (some (record { success = false; contents = [] }))
          else if ltb num_read str_buff_size
          then ok (some (record { success = true; contents = contents }))
          else fault
    ]

abbrev pub string_format_max_length : ℕ
string_format_max_length = 512

-- `formatted` is the whole text that `vsnprintf` formats, or `none` where it reports an error.
unfoldable pub string_format : (fmt_set allocated : Bool) → Option Bytes → Option Bytes
string_format fmt_set allocated none = none
string_format fmt_set allocated (some formatted) =
    if not fmt_set || length formatted == 0 || leb string_format_max_length (length formatted)
    then none
    else if allocated
    then some (take (string_format_max_length - 1) formatted)
    else none

-- The result, with the string behind `*target` where it is set.
unfoldable pub malloc_and_substr : (target_set allocated : Bool) → Option Bytes → ℕ → Option Bytes
malloc_and_substr target_set allocated none len = none
malloc_and_substr target_set allocated (some source) len =
    if target_set then if allocated then some (take len source) else none else none
