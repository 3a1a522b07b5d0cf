-- ===== src/Firmware/Parts.antt =====
-- The parts of a chunk in a download of mcubupdate_handler.cpp.
use mbed_ce_client_for_azure.Base.{
  ℕ, ◌+◌, ◌-◌, ◌≤◌, ◌<◌, ◌≡◌, ◌≢◌, refl, ap, arith, true, false, ◌==◌, ◌∙◌, sym, leb, Bool, Run,
  if◌then◌else◌, ==_refl, ltb, ok, Bool-cases, inl, inr,
}
use mbed_ce_client_for_azure.Firmware.Programming.{
  Buffer, copy_to, Flash, unit_start, block_start, read_program_unit, program, write_first,
  write_units, write_last,
}
use mbed_ce_client_for_azure.Firmware.Ready.{
  start-le, IsReady, block-positive, block-fits, unit-fits, block_start-size, in_block, one_unit,
  start_twice,
}

-- The first part, pointwise.
first_bytes :
    (slot content : Buffer) (start offset n unit x : ℕ)
    → start ≤ offset
    → offset + n ≤ start + unit
    → copy_to slot start (copy_to (λ i. slot (start + i)) (offset - start) content n) unit x
      ≡ copy_to slot offset content n x
first_bytes slot content start offset n unit x h h' = grind (arith, h, h')

module _ (F : Flash) where
  program_lem :
      (slot content : Buffer) (address size : ℕ)
      → IsReady F
      → unit_start F address ≡ address
      → unit_start F size ≡ size
      → program F slot address content size
        ≡ ok (
          leb (address + size) F.size,
          if leb (address + size) F.size then copy_to slot address content size else slot,
        )
  unfolding program
  program_lem slot content address size ready a b =
      rw (a, b, ==_refl address, ==_refl size, ready.programs address size) refl

  program_fits :
      (slot content : Buffer) (address size : ℕ)
      → IsReady F
      → unit_start F address ≡ address
      → unit_start F size ≡ size
      → address + size ≤ F.size
      → program F slot address content size ≡ ok (true, copy_to slot address content size)
  program_fits slot content address size ready a b h =
      let fits : leb (address + size) F.size ≡ true = ground (arith, h) in
      program_lem slot content address size ready a b ∙ rw fits refl

  pub first_lem :
      (slot content : Buffer) (offset n : ℕ)
      → IsReady F
      → offset + n ≤ unit_start F offset + F.unit
      → (n ≢ 0 → offset < F.size)
      → (s : Buffer) × (write_first F slot offset content n ≡ ok (true, s))
        × ((x : ℕ) → s x ≡ copy_to slot offset content n x)
  unfolding write_first read_program_unit
  first_lem slot content offset n ready h inside = elim (Bool-cases (n == 0)) [
    | inl none_first ↦ (slot, rw none_first refl, λ x. ground (arith, none_first))
    | inr some_first ↦
        let start = unit_start F offset in
        let less = inside (ground (arith, some_first)) in
        let read : leb (block_start F offset + F.block) F.size ≡ true =
          ground (arith, block-fits F offset ready less) in
        let changed = copy_to (λ i. slot (start + i)) (offset - start) content n in
        (
          copy_to slot start changed F.unit,
          rw (some_first, in_block F offset ready, ready.reads, read)
              (program_fits slot changed start F.unit ready (start_twice F offset ready)
                (one_unit F ready) (unit-fits F offset ready less)),
          λ x. first_bytes slot content start offset n F.unit x (start-le F offset) h,
        )
  ]

  -- A part that is written exactly if it lies on the device.
  abbrev pub Fits : Buffer → (offset : ℕ) → Buffer → (n : ℕ) → Run (Bool × Buffer) → Type 0
  Fits slot offset content n run =
      (s : Buffer) × (run ≡ ok (leb (offset + n) F.size, s))
      × (offset + n ≤ F.size → (x : ℕ) → s x ≡ copy_to slot offset content n x)

  pub units_lem :
      (slot content : Buffer) (offset n : ℕ)
      → IsReady F
      → offset ≤ F.size
      → (n ≢ 0 → unit_start F offset ≡ offset)
      → unit_start F n ≡ n
      → Fits slot offset content n (write_units F slot offset content n)
  unfolding write_units
  units_lem slot content offset n ready on aligned whole = elim (Bool-cases (n == 0)) [
    | inl empty ↦ (
      slot,
      rw empty (ap (λ b. ok (b, slot)) (ground (arith, empty, on))),
      λ h x. ground (arith, empty),
    )
    | inr some_units ↦ (
      if leb (offset + n) F.size then copy_to slot offset content n else slot,
      rw some_units
          (program_lem slot content offset n ready (aligned (ground (arith, some_units))) whole),
      λ h x. ground (arith, h),
    )
  ]

  last_bytes :
      (slot content : Buffer) (offset n x : ℕ)
      → n ≤ F.unit
      → copy_to slot offset (copy_to (λ i. slot (offset + i)) 0 content n) F.unit x
        ≡ copy_to slot offset content n x
  last_bytes slot content offset n x h = grind (arith, h)

  pub last_lem :
      (slot content : Buffer) (offset n : ℕ)
      → IsReady F
      → offset ≤ F.size
      → (n ≢ 0 → unit_start F offset ≡ offset)
      → n ≤ F.unit
      → Fits slot offset content n (write_last F slot offset content n)
  unfolding write_last read_program_unit
  last_lem slot content offset n ready on aligned h = elim (Bool-cases (n == 0)) [
    | inl empty ↦ (
      slot,
      rw empty (ap (λ b. ok (b, slot)) (ground (arith, empty, on))),
      λ h x. ground (arith, empty),
    )
    | inr some_last ↦
        let a = aligned (ground (arith, some_last)) in
        let changed = copy_to (λ i. slot (offset + i)) 0 content n in
        elim (Bool-cases (ltb offset F.size)) [
          | inl less ↦
              let under : offset < F.size = ground (arith, less) in
              let room : offset + F.unit ≤ F.size =
                omega (arith, a, unit-fits F offset ready under) in
              let read : leb (block_start F offset + F.block) F.size ≡ true =
                ground (arith, block-fits F offset ready under) in
              let fits : leb (offset + n) F.size ≡ true = ground (arith, room, h) in
              (
                copy_to slot offset changed F.unit,
                rw (some_last, in_block F offset ready, ready.reads, read, a, fits)
                    (program_fits slot changed offset F.unit ready a (one_unit F ready) room),
                λ g x. last_bytes slot content offset n x h,
              )
          | inr end ↦
              let at_end : offset ≡ F.size = ground (arith, end, on) in
              let start : block_start F offset ≡ offset =
                ap (block_start F) at_end ∙ block_start-size F ready ∙ sym at_end in
              let read : leb (block_start F offset + F.block) F.size ≡ false =
                ground (arith, start, at_end, block-positive F ready) in
              let over : leb (offset + n) F.size ≡ false = ground (arith, at_end, some_last) in
              (
                slot,
                rw (some_last, in_block F offset ready, ready.reads, read, over) refl,
                λ g x. absurd (ground (arith, over, g)),
              )
        ]
  ]
