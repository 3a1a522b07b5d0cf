-- ===== src/Crypto/Keys.antt =====
-- crypto_lib.c: the RSA contexts that are made and freed.
use mbed_ce_client_for_azure.Base.{
  ℕ, ◌+◌, ◌≡◌, Bytes, Option, none, some, List, [], ◌∷◌, ◌++◌, arith, Option-cases, inl, inr,
}
use mbed_ce_client_for_azure.Crypto.{
  Mbedtls, KeyEvent, made, freed, key_from_numbers, rsa_key_obj_from_b64_strings,
  rsa_key_obj_from_bytes, rsa_key_obj_from_strings, get_root_key_for_key_id,
}

unfoldable pub makes : List KeyEvent → ℕ
makes [] = 0
makes (made ∷ es) = makes es + 1
makes (freed ∷ es) = makes es

unfoldable pub frees : List KeyEvent → ℕ
frees [] = 0
frees (made ∷ es) = frees es
frees (freed ∷ es) = frees es + 1

pub makes-append : (a b : List KeyEvent) → makes (a ++ b) ≡ makes a + makes b
unfolding makes
makes-append [] b = omega arith
makes-append (made ∷ a) b = let ih = makes-append a b in omega (arith, ih)
makes-append (freed ∷ a) b = makes-append a b

pub frees-append : (a b : List KeyEvent) → frees (a ++ b) ≡ frees a + frees b
unfolding frees
frees-append [] b = omega arith
frees-append (made ∷ a) b = frees-append a b
frees-append (freed ∷ a) b = let ih = frees-append a b in omega (arith, ih)

abbrev pub count {ℓ} : {A : Type ℓ} → Option A → ℕ
count none = 0
count (some _) = 1

-- As many contexts are made as are freed and returned.
abbrev pub Owes {ℓ} : {A : Type ℓ} → Option A × List KeyEvent → Type 0
Owes r = makes r.1 ≡ frees r.1 + count r.0

module _ (M : Mbedtls) where
  from_numbers : (n e : Option M.Mpi) → Owes (key_from_numbers M n e)
  unfolding key_from_numbers makes frees
  from_numbers none e = omega arith
  from_numbers (some n) none = omega arith
  from_numbers (some n) (some e) = elim (Option-cases (M.import_key n e)) [
    | inl q ↦ rw (q, key_from_numbers) (omega arith)
    | inr (k, q) ↦ elim (Option-cases (M.complete k)) [
      | inl q' ↦ rw (q, key_from_numbers, q') (omega arith)
      | inr (k', q') ↦ rw (q, key_from_numbers, q') (omega arith)
    ]
  ]

  of_bytes : (n e : Bytes) → Owes (rsa_key_obj_from_bytes M n e)
  unfolding rsa_key_obj_from_bytes makes frees
  of_bytes n e = ground (arith, from_numbers (M.read_binary n) (M.read_binary e))

  of_strings : (n e : Bytes) → Owes (rsa_key_obj_from_strings M n e)
  unfolding rsa_key_obj_from_strings makes frees
  of_strings n e = ground (arith, from_numbers (M.read_hex n) (M.read_hex e))

  of_b64_strings : (n e : Bytes) → Owes (rsa_key_obj_from_b64_strings M n e)
  unfolding rsa_key_obj_from_b64_strings makes frees
  of_b64_strings n e = elim (Option-cases (M.decode n)) [
    | inl q ↦ rw (q, rsa_key_obj_from_b64_strings) (omega arith)
    | inr (n', q) ↦ elim (Option-cases (M.decode e)) [
      | inl q' ↦ rw (q, rsa_key_obj_from_b64_strings, q') (omega arith)
      | inr (e', q') ↦ rw (q, rsa_key_obj_from_b64_strings, q') (of_bytes n' e')
    ]
  ]

  pub root_key_owed : (kid : Bytes) → Owes (get_root_key_for_key_id M kid)
  unfolding get_root_key_for_key_id makes frees
  root_key_owed kid = ground arith

  -- However mbedtls and the decoder fail, each function that makes a key from its numbers frees the
  -- context that it made, unless it returns it.
  pub rsa_keys_owed :
      (n e : Bytes)
      → Owes (rsa_key_obj_from_bytes M n e)
        × Owes (rsa_key_obj_from_strings M n e)
        × Owes (rsa_key_obj_from_b64_strings M n e)
  rsa_keys_owed n e = (of_bytes n e, of_strings n e, of_b64_strings n e)
