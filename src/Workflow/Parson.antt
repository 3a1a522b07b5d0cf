-- ===== src/Workflow/Parson.antt =====
-- The JSON library parson, which workflow_utils.c calls. It is not part of the repository: its
-- objects and functions are arguments of the model, and what the proofs use of them is `IsJson`.
use mbed_ce_client_for_azure.Base.{ℕ, Bool, true, false, Option, none, some, Bytes, str_eq, ◌≡◌}

-- A setter gives the changed object, or `none` for JSONFailure, which leaves the object as it was.
-- `get_boolean` gives `none` for -1.
pub record Json : Type 1 where
  pub Object : Type 0
  pub init_object : Option Object
  pub has_value : Object → Bytes → Bool
  pub get_string : Object → Bytes → Option Bytes
  pub get_boolean : Object → Bytes → Option Bool
  pub set_string : Object → Bytes → Bytes → Option Object
  pub set_null : Object → Bytes → Option Object
  pub set_boolean : Object → Bytes → Bool → Option Object
  pub dothas_value : Object → Bytes → Bool
  pub dotget_string : Object → Bytes → Option Bytes
  pub dotget_number : Object → Bytes → ℕ

-- A value that is set is read back, and the values of other names stay.
pub record IsJson (J : Json) : Type 0 where
  pub set_boolean-get :
      (o o' : J.Object) (k : Bytes) (b : Bool)
      → J.set_boolean o k b ≡ some o'
      → (J.has_value o' k ≡ true) × (J.get_boolean o' k ≡ some b)
  pub set_boolean-other :
      (o o' : J.Object) (k j : Bytes) (b : Bool)
      → J.set_boolean o k b ≡ some o'
      → str_eq j k ≡ false
      → (J.has_value o' j ≡ J.has_value o j)
        × (J.get_boolean o' j ≡ J.get_boolean o j)
        × (J.get_string o' j ≡ J.get_string o j)
  pub set_string-get :
      (o o' : J.Object) (k v : Bytes)
      → J.set_string o k v ≡ some o'
      → (J.has_value o' k ≡ true) × (J.get_string o' k ≡ some v)
  pub set_string-other :
      (o o' : J.Object) (k j v : Bytes)
      → J.set_string o k v ≡ some o'
      → str_eq j k ≡ false
      → (J.has_value o' j ≡ J.has_value o j)
        × (J.get_boolean o' j ≡ J.get_boolean o j)
        × (J.get_string o' j ≡ J.get_string o j)
  pub set_null-get :
      (o o' : J.Object) (k : Bytes) → J.set_null o k ≡ some o' → J.get_string o' k ≡ none
