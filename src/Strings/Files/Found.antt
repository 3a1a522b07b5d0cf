-- ===== src/Strings/Files/Found.antt =====
-- When the file functions of string_c_utils.c find, store and fault.
use mbed_ce_client_for_azure.Base.{
  ℕ, zero, suc, ◌-◌, ◌≤◌, ◌<◌, ◌≡◌, refl, ◌≢◌, true, false, not, none, some, List, [], ◌∷◌, ◌++◌,
  arith, Bytes, length, drop, take, All, ap, ◌∙◌, ◌==◌, ltb, str_eq, str_eq_refl, get_elem?, ok,
  fault, take-length_append, ◌⊎◌,
}
use mbed_ce_client_for_azure.Strings.Trim.{trim_str}
use mbed_ce_client_for_azure.Strings.UpdateType.{strchr}
use mbed_ce_client_for_azure.Strings.UpdateType.Split.{strchr-append, drop-suc-length}
use mbed_ce_client_for_azure.Strings.Files.{
  strncpy, read_lines, read_delimited_value_from_file, load_buffer_with_file_contents,
}

-- A line that the search for `key` passes over: no '=', or another name in front of it.
pub data IsSkipped (key : Bytes) : Bytes → Type 0 where
  no_delimiter : {line : Bytes} → strchr line b'=' ≡ none → IsSkipped key line
  other_name :
      {line name : Bytes} {i : ℕ}
      → strchr line b'=' ≡ some i
      → trim_str (take i line) ≡ ok name
      → str_eq name key ≡ false
      → IsSkipped key line

pub data AllSkipped (key : Bytes) : List Bytes → Type 0 where
  nil : AllSkipped key []
  cons :
      {line : Bytes} {lines : List Bytes}
      → IsSkipped key line
      → AllSkipped key lines
      → AllSkipped key (line ∷ lines)

read_lines-IsSkipped :
    {key line : Bytes} (n : ℕ) (lines : List Bytes) (value : Bytes)
    → IsSkipped key line
    → read_lines key n (line ∷ lines) value ≡ read_lines key n lines value
unfolding read_lines
read_lines-IsSkipped n lines value (no_delimiter e) = ground arith
read_lines-IsSkipped n lines value (other_name e t d) = ground arith

read_lines-AllSkipped :
    {key : Bytes} {before : List Bytes} (n : ℕ) (lines : List Bytes) (value : Bytes)
    → AllSkipped key before
    → read_lines key n (before ++ lines) value ≡ read_lines key n lines value
read_lines-AllSkipped n lines value nil = refl
read_lines-AllSkipped {before = line ∷ before} n lines value (cons s r) =
    read_lines-IsSkipped n (before ++ lines) value s ∙ read_lines-AllSkipped n lines value r

byte_at : Bytes → ℕ → ℕ
byte_at [] i = 0
byte_at (c ∷ s) zero = c
byte_at (c ∷ s) (suc i) = byte_at s i

strncpy-byte_at : (m : ℕ) (s : Bytes) → get_elem? (strncpy (suc m) s) m ≡ some (byte_at s m)
unfolding strncpy byte_at
strncpy-byte_at zero [] = refl
strncpy-byte_at zero (c ∷ s) = refl
strncpy-byte_at (suc m) [] = strncpy-byte_at m []
strncpy-byte_at (suc m) (c ∷ s) = strncpy-byte_at m s

byte_at_nul :
    (m : ℕ) (s : Bytes) → All (λ c. not (c == 0)) s → (byte_at s m == 0) ≡ ltb (length s) (suc m)
unfolding byte_at
byte_at_nul m [] solid = ground arith
byte_at_nul zero (c ∷ s) solid = ground arith
byte_at_nul (suc m) (c ∷ s) solid = byte_at_nul m s solid.1 ∙ ground arith

read_lines_hit :
    (key raw_name raw_value v : Bytes) (m : ℕ) (after : List Bytes) (value : Bytes)
    → All (λ c. not (c == b'=')) raw_name
    → trim_str raw_name ≡ ok key
    → trim_str raw_value ≡ ok v
    → All (λ c. not (c == 0)) v
    → read_lines key (suc m) ((raw_name ++ b'=' ∷ raw_value) ∷ after) value
      ≡ ok (record { found = ltb (length v) (suc m); value = strncpy (suc m) v })
unfolding read_lines
read_lines_hit key raw_name raw_value v m after value absent name found solid =
    let less : suc m - 1 ≡ m = omega arith in
    let same : trim_str (take (length raw_name) (raw_name ++ b'=' ∷ raw_value)) ≡ ok key =
      ap trim_str (take-length_append raw_name (b'=' ∷ raw_value)) ∙ name in
    let tail : trim_str (drop (suc (length raw_name)) (raw_name ++ b'=' ∷ raw_value)) ≡ ok v =
      ap trim_str (drop-suc-length raw_name b'=' raw_value) ∙ found in
    ground (
      arith,
      strchr-append raw_name b'=' raw_value absent,
      str_eq_refl key,
      strncpy-byte_at m v,
      byte_at_nul m v solid,
    )

-- Lines that are passed over, then a line whose part in front of the first '=' trims to the key
-- and whose rest trims to a value without NUL: a buffer of at least two bytes gets the value, cut
-- to its length, and the result says whether the value and its NUL fit.
pub read_delimited_found :
    {key : Bytes} {before : List Bytes} (raw_name raw_value v : Bytes) (n : ℕ) (after : List Bytes)
    (value : Bytes)
    → AllSkipped key before
    → All (λ c. not (c == b'=')) raw_name
    → trim_str raw_name ≡ ok key
    → trim_str raw_value ≡ ok v
    → All (λ c. not (c == 0)) v
    → 2 ≤ n
    → read_delimited_value_from_file
        (some (before ++ (raw_name ++ b'=' ∷ raw_value) ∷ after))
        key
        value
        n
      ≡ ok (record { found = ltb (length v) n; value = strncpy n v })
unfolding read_delimited_value_from_file
read_delimited_found raw_name raw_value v zero after value skipped absent name found solid h =
    absurd (omega arith)
read_delimited_found {key} raw_name raw_value v (suc m) after value skipped absent name found solid
      h =
    let enough : ltb (suc m) 2 ≡ false = ground arith in
    rw enough (
      read_lines-AllSkipped (suc m) ((raw_name ++ b'=' ∷ raw_value) ∷ after) value skipped
      ∙ read_lines_hit key raw_name raw_value v m after value absent name found solid)

read_lines-nil :
    {key : Bytes} {lines : List Bytes} (n : ℕ) (value : Bytes)
    → AllSkipped key lines
    → read_lines key n lines value ≡ read_lines key n [] value
read_lines-nil n value nil = refl
read_lines-nil {lines = line ∷ lines} n value (cons s r) =
    read_lines-IsSkipped n lines value s ∙ read_lines-nil n value r

-- If every line is passed over, or the file cannot be opened, nothing is found and the buffer stays
-- as it is.
pub read_delimited_missing :
    {key : Bytes} {lines : List Bytes} (value : Bytes) (n : ℕ)
    → AllSkipped key lines
    → (read_delimited_value_from_file (some lines) key value n
        ≡ ok (record { found = false; value = value }))
      × (read_delimited_value_from_file none key value n
          ≡ ok (record { found = false; value = value }))
unfolding read_delimited_value_from_file
read_delimited_missing {key} {lines} value n skipped =
    let same : read_lines key n lines value ≡ ok (record { found = false; value = value }) =
      unfold read_lines in read_lines-nil n value skipped in
    (ground (arith, same), ground arith)

-- With a buffer that is not empty, a file that is read whole is stored if it is shorter than the
-- buffer and not empty. If it fills the buffer, the NUL is written behind the buffer. If it is
-- empty or longer, nothing is stored.
pub load_buffer_cases :
    (contents : Bytes) (size : ℕ)
    → 0 < size
    → (contents ≢ []
        → length contents < size
        → load_buffer_with_file_contents true true (some contents) (length contents) size
          ≡ ok (some (record { success = true; contents = contents })))
      × (length contents ≡ size
          → load_buffer_with_file_contents true true (some contents) (length contents) size ≡ fault)
      × ((contents ≡ []) ⊎ (size < length contents)
          → load_buffer_with_file_contents true true (some contents) (length contents) size
            ≡ ok (some (record { success = false; contents = [] })))
unfolding load_buffer_with_file_contents
load_buffer_cases [] size pos = (ground arith, ground arith, ground arith)
load_buffer_cases (c ∷ s) size pos = (ground arith, ground arith, ground arith)

-- `fclose` is called on a null stream where the file cannot be opened.
pub load_buffer_missing :
    (num_read size : ℕ)
    → 0 < size
    → load_buffer_with_file_contents true true none num_read size ≡ fault
unfolding load_buffer_with_file_contents
load_buffer_missing num_read size pos = ground arith
