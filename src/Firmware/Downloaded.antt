-- ===== src/Firmware/Downloaded.antt =====
-- What a download of mcubupdate_handler.cpp leaves in the secondary slot, and which image it accepts.
use mbed_ce_client_for_azure.Base.{
  ℕ, zero, suc, ◌+◌, ◌-◌, ◌*◌, ◌/◌, ◌≤◌, ◌<◌, ◌≡◌, refl, sym, ap, ◌∙◌, arith, Bool, true, false,
  ◌&&◌, ◌==◌, if◌then◌else◌, Bool-cases, inl, inr,
}
use native.Mathlib.Nat.{div-mul-le_self}
use mbed_ce_client_for_azure.Firmware.Programming.{Buffer, Flash}
use mbed_ce_client_for_azure.Firmware.Download.{Sha, hash_blocks, verify_signature}

module _ (F : Flash) (S : Sha) where
  -- Bytes that are hashed in two parts are hashed as one, and only the bytes that are hashed count.
  unfoldable pub IsStream : Type 0
  IsStream =
      ((h : S.State) (b : Buffer) (m n : ℕ)
        → S.input (S.input h b m) (λ i. b (m + i)) n ≡ S.input h b (m + n))
      × ((h : S.State) (b : Buffer) → S.input h b 0 ≡ h)

  -- The blocks of a file can be read.
  unfoldable pub ReadsFile : (size : ℕ) → Type 0
  ReadsFile size = (k : ℕ) → k * F.block < size → F.reads (k * F.block) F.block ≡ true

  hash_blocks_lem :
      (n k size : ℕ) (slot : Buffer)
      → 0 < F.block
      → ReadsFile size
      → IsStream
      → (k + n) * F.block ≤ size
      → hash_blocks F S n slot (k * F.block) (S.input S.start slot (k * F.block))
        ≡ (true, S.input S.start slot ((k + n) * F.block))
  unfolding hash_blocks IsStream ReadsFile
  hash_blocks_lem zero k size slot positive reads stream h =
      let e : k + 0 ≡ k = omega arith in rw e refl
  hash_blocks_lem (suc n) k size slot positive reads stream h =
      let o = k * F.block in
      let next : k * F.block + F.block ≡ (k + 1) * F.block = grind arith in
      let e : k + 1 + n ≡ k + suc n = omega arith in
      let read : F.reads (k * F.block) F.block ≡ true = reads k (grind (arith, positive, h)) in
      let hashed : S.input (S.input S.start slot o) (λ i. slot (o + i)) F.block
          ≡ S.input S.start slot ((k + 1) * F.block) =
        stream.0 S.start slot o F.block ∙ ap (S.input S.start slot) next in
      let h' : (k + 1 + n) * F.block ≤ size = rw e h in
      let ih = hash_blocks_lem n (k + 1) size slot positive reads stream h' in
      go o (S.input (S.input S.start slot o) (λ i. slot (o + i)) F.block) read
      ∙ ap (λ h. hash_blocks F S n slot (o + F.block) h) hashed
      ∙ ap (λ o'. hash_blocks F S n slot o' (S.input S.start slot ((k + 1) * F.block))) next
      ∙ ih
      ∙ ap (λ j. (true, S.input S.start slot (j * F.block))) e
    where
      go :
          (o : ℕ) (h : S.State)
          → F.reads o F.block ≡ true
          → (if F.reads o F.block
              then hash_blocks F S n slot (o + F.block) h
              else (false, S.input S.start slot o))
            ≡ hash_blocks F S n slot (o + F.block) h
      go o h read = rw read refl

  -- On a device from which the blocks of the file can be read, and with a digest that can take its bytes in
  -- parts: a file with a hash is accepted exactly if the type of the hash is known and the hash of all its
  -- bytes in the slot is the expected one, though they are hashed by blocks. A file without a hash is always
  -- accepted.
  pub verify_signature_lem :
      (has_hash : Bool) (size : ℕ) (slot : Buffer)
      → 0 < F.block
      → ReadsFile size
      → IsStream
      → verify_signature F S has_hash size slot
        ≡ (if has_hash then S.is_supported && S.is_expected (S.input S.start slot size) else true)
  unfolding verify_signature IsStream ReadsFile
  verify_signature_lem false size slot positive reads stream = refl
  verify_signature_lem true size slot positive reads stream =
      let n = size / F.block in
      let whole = n * F.block in
      let le : whole ≤ size = div-mul-le_self size F.block in
      let hashed : hash_blocks F S n slot 0 S.start ≡ (true, S.input S.start slot whole) =
        let zeros : 0 * F.block ≡ 0 = omega arith in
        let all : (0 + n) * F.block ≡ whole = ap (λ k. k * F.block) (omega arith) in
        ap (hash_blocks F S n slot 0) (sym (stream.1 S.start slot))
        ∙ ap (λ o. hash_blocks F S n slot o (S.input S.start slot o)) (sym zeros)
        ∙ hash_blocks_lem n 0 size slot positive reads stream (rw all le)
        ∙ ap (λ o. (true, S.input S.start slot o)) all in
      let rest : S.input (S.input S.start slot whole) (λ i. slot (whole + i)) (size - whole)
          ≡ S.input S.start slot size =
        let e : whole + (size - whole) ≡ size = omega (arith, le) in
        stream.0 S.start slot whole (size - whole) ∙ ap (S.input S.start slot) e in
      elim (Bool-cases (size - whole == 0)) [
        | inl none_left ↦
            let e : whole ≡ size = ground (arith, none_left, le) in
            rw (hashed, none_left, e) (ground arith)
        | inr some_left ↦
            let read = reads n (ground (arith, some_left)) in
            rw (hashed, some_left, read, rest) (ground arith)
      ]
