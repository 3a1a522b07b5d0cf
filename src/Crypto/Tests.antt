-- ===== src/Crypto/Tests.antt =====
-- A toy library, at which the theorems of crypto_lib.c are applied.
use mbed_ce_client_for_azure.Base.{ℕ, true, some, none, Bytes, codes}
use mbed_ce_client_for_azure.Crypto.{
  Mbedtls, rsa_key_obj_from_bytes, rsa_key_obj_from_strings, rsa_key_obj_from_b64_strings,
}
use mbed_ce_client_for_azure.Crypto.Keys.{Owes, rsa_keys_owed}

-- The completion of a key fails.
abbrev failing : Mbedtls
failing = record {
  Mpi = Bytes;
  Key = ℕ;
  md_setup = true;
  md_starts = true;
  md_update = λ b. true;
  md_finish = λ b. some b;
  rsa_len = λ k. 1;
  pkcs1_verify = λ k d s. true;
  rsa_allocated = true;
  read_binary = λ b. some b;
  read_hex = λ b. none;
  import_key = λ n e. some 7;
  complete = λ k. none;
  decode = λ b. some b;
  key_for_kid = λ b. some 5;
}

rsa_keys_owed_example :
    Owes (rsa_key_obj_from_bytes failing (codes "n") (codes "e"))
    × Owes (rsa_key_obj_from_strings failing (codes "n") (codes "e"))
    × Owes (rsa_key_obj_from_b64_strings failing (codes "n") (codes "e"))
rsa_keys_owed_example = rsa_keys_owed failing (codes "n") (codes "e")
