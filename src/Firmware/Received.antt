-- ===== src/Firmware/Received.antt =====
-- The chunks of a download of mcubupdate_handler.cpp are in the slot one behind the other.
use mbed_ce_client_for_azure.Base.{
  ℕ, leb, ◌%◌, ◌^◌, ◌≤◌, ◌+◌, ◌≡◌, refl, ap, ◌∙◌, arith, Bool, true, false, List, [], ◌∷◌, Run, ok,
  Bool-cases, inl, inr, fun_ext,
}
use mbed_ce_client_for_azure.Firmware.{Hardware}
use mbed_ce_client_for_azure.Firmware.Programming.{Buffer, copy_to, Flash}
use mbed_ce_client_for_azure.Firmware.Ready.{IsReady}
use mbed_ce_client_for_azure.Firmware.Written.{write_chunk-Fits}
use mbed_ce_client_for_azure.Firmware.Download.{
  Header, Transfer, Chunk, catch_header, install_caught, combined_download_install, receive,
}

-- The chunks one behind the other, over a slot.
unfoldable pub received : Buffer → (offset : ℕ) → List Chunk → Buffer
received slot offset [] = slot
received slot offset (c ∷ cs) =
    received (copy_to slot offset c.content c.length) (offset + c.length) cs

unfoldable pub total_length : List Chunk → ℕ
total_length [] = 0
total_length (c ∷ cs) = c.length + total_length cs

module _ (hw : Hardware) (F : Flash) (I : Header) where
  -- Only the board and the header of the image change.
  catch_header-keeps :
      (c : Chunk) (t : Transfer)
      → ((catch_header hw F I c t).1.slot ≡ t.slot)
        × ((catch_header hw F I c t).1.offset ≡ t.offset)
        × ((catch_header hw F I c t).1.is_ready ≡ t.is_ready)
  unfolding catch_header
  catch_header-keeps c t = (ground arith, ground arith, ground arith)

  -- What has become of a chunk: where it was installed, its bytes are in the slot.
  abbrev Installs : Chunk → Transfer → Run (Bool × Transfer) → Type 0
  Installs c t run =
      (done : Bool) × (t' : Transfer) × (run ≡ ok (done, t'))
      × (t'.is_ready ≡ true)
      × (t'.offset ≤ F.size)
      × (done ≡ true
          → (t'.slot ≡ copy_to t.slot t.offset c.content c.length)
            × (t'.offset ≡ t.offset + c.length))

  caught_lem :
      (c : Chunk) (caught : Bool) (t : Transfer)
      → IsReady F
      → t.is_ready ≡ true
      → t.offset ≤ F.size
      → Installs c t (install_caught hw F I c (caught, t))
  unfolding install_caught
  caught_lem c false t ready usable on = (false, t, refl, usable, on, λ e. absurd cc)
  caught_lem c true t ready usable on =
      let (s, written, bytes) = write_chunk-Fits F t.slot c.content t.offset c.length ready on in
      elim (Bool-cases (leb (t.offset + c.length) F.size)) [
        | inl fits ↦
            let inside : t.offset + c.length ≤ F.size = ground (arith, fits) in
            let small : (t.offset + c.length) % 2 ^ 32 ≡ t.offset + c.length =
              omega (arith, inside, ready.bounded, ready.positive) in
            (
              true,
              record t { slot = s; offset = t.offset + c.length },
              simp (usable, written, fits, small) refl,
              usable,
              inside,
              λ e. (fun_ext (bytes inside), refl),
            )
        | inr over ↦ (
          false,
          record t { slot = s },
          simp (usable, written, over) refl,
          usable,
          on,
          λ e. absurd cc,
        )
      ]

  install_lem :
      (c : Chunk) (t : Transfer)
      → IsReady F
      → t.is_ready ≡ true
      → t.offset ≤ F.size
      → Installs c t (combined_download_install hw F I c t)
  unfolding combined_download_install
  install_lem c t ready usable on =
      let r = catch_header hw F I c t in
      let (slot, offset, still) = catch_header-keeps c t in
      let (done, t', runs, stays, on', bytes) =
        caught_lem c r.0 r.1 ready (still ∙ usable) (omega (arith, offset, on)) in
      (
        done,
        t',
        runs,
        stays,
        on',
        λ e.
            let (s, o) = bytes e in
            (
              s
                  ∙ ap (λ b. copy_to b r.1.offset c.content c.length) slot
                  ∙ ap (λ o. copy_to t.slot o c.content c.length) offset,
              o ∙ ap (λ o. o + c.length) offset,
            ),
      )

  -- The whole transfer: unless the cancellation is requested where it ends, the slot has all the chunks.
  pub receive_lem :
      (cancelled : ℕ → Bool) (cs : List Chunk) (t : Transfer)
      → IsReady F
      → t.is_ready ≡ true
      → t.offset ≤ F.size
      → (done : Bool) × (t' : Transfer) × (receive hw F I cancelled cs t ≡ ok (done, t'))
        × (t'.offset ≤ F.size)
        × (done ≡ true
            → cancelled t'.offset ≡ false
            → (t'.slot ≡ received t.slot t.offset cs) × (t'.offset ≡ t.offset + total_length cs))
  unfolding receive received total_length
  receive_lem cancelled [] t ready usable on = (true, t, refl, on, λ e none. (refl, omega arith))
  receive_lem cancelled (c ∷ cs) t ready usable on =
      let (done, t', runs, stays, on', bytes) = install_lem c t ready usable on in
      let (done', t'', runs', on'', bytes') = receive_lem cancelled cs t' ready stays on' in
      elim (Bool-cases (cancelled t.offset)) [
        | inl asked ↦ (true, t, rw asked refl, on, λ e none. absurd cc)
        | inr goes_on ↦ elim (Bool-cases done) [
          | inl all ↦ (
            done',
            t'',
            rw (goes_on, runs, all) runs',
            on'',
            λ e none.
                let (s, o) = bytes all in
                let (s', o') = bytes' e none in
                (
                  s'
                      ∙ ap (λ b. received b t'.offset cs) s
                      ∙ ap (λ k. received (copy_to t.slot t.offset c.content c.length) k cs) o,
                  omega (arith, o, o'),
                ),
          )
          | inr failed ↦ (false, t', rw (goes_on, runs, failed) refl, on', λ e none. absurd cc)
        ]
      ]
