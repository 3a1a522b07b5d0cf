-- ===== src/Firmware/Written.antt =====
-- A chunk of a download of mcubupdate_handler.cpp is written where it belongs.
use mbed_ce_client_for_azure.Base.{
  ℕ, ◌+◌, ◌-◌, ◌≤◌, ◌<◌, ◌≡◌, ◌≢◌, refl, ap, arith, true, false, ◌∙◌, sym, leb, ◌%◌, ◌^◌, Bool,
  if◌then◌else◌, ltb, ok, Bool-cases, inl, inr,
}
use mbed_ce_client_for_azure.Firmware.Programming.{
  Buffer, copy_to, Flash, unit_start, write_first, write_units, write_last, first_size, write_chunk,
}
use mbed_ce_client_for_azure.Firmware.Ready.{
  start-le, start-lt, IsReady, unit-fits, unit_start-size, start_twice, up, up-le, up-ge, sum_start,
  start_zero, up-lt, up-aligned,
}
use mbed_ce_client_for_azure.Firmware.Parts.{first_lem, Fits, units_lem, last_lem}

module _ (F : Flash) where
  joined_bytes :
      (slot s s' s'' content : Buffer) (o f m l n x : ℕ)
      → s x ≡ copy_to slot o content f x
      → s' x ≡ copy_to s (o + f) (λ i. content (f + i)) m x
      → s'' x ≡ copy_to s' (o + f + m) (λ i. content (f + m + i)) l x
      → f + m + l ≡ n
      → s'' x ≡ copy_to slot o content n x
  joined_bytes slot s s' s'' content o f m l n x e e' e'' h = grind (arith, e, e', e'', h)

  -- The first part without the limits of size_t.
  abbrev first_part : (offset length : ℕ) → ℕ
  first_part offset length =
      let todo = up F offset - offset in if ltb length todo then length else todo

  first_size_lem :
      (offset length : ℕ)
      → IsReady F
      → offset ≤ F.size
      → first_size F offset length ≡ first_part offset length
  unfolding first_size
  first_size_lem offset length ready on =
      let small : (offset + F.unit - 1) % 2 ^ 32 ≡ offset + F.unit - 1 =
        omega (arith, on, ready.bounded, ready.positive) in
      let todo : (up F offset + 2 ^ 32 - offset) % 2 ^ 32 ≡ up F offset - offset =
        omega (arith, up-ge F offset ready, up-lt F offset ready, on, ready.bounded) in
      rw (small, todo) refl

  first_inside :
      (offset length : ℕ)
      → IsReady F
      → offset ≤ F.size
      → first_part offset length ≢ 0
      → offset < F.size
  first_inside offset length ready on some_first = elim (Bool-cases (ltb offset F.size)) [
    | inl less ↦ ground (arith, less)
    | inr end ↦
        let at_end : offset ≡ F.size = ground (arith, end, on) in
        let start : unit_start F offset ≡ offset =
          ap (unit_start F) at_end ∙ unit_start-size F ready ∙ sym at_end in
        absurd (some_first (grind (arith, up-aligned F offset ready start)))
  ]

  first_on :
      (offset length : ℕ) → IsReady F → offset ≤ F.size → offset + first_part offset length ≤ F.size
  first_on offset length ready on = elim (Bool-cases (ltb offset F.size)) [
    | inl less ↦ grind (
      arith,
      unit-fits F offset ready (ground (arith, less)),
      up-le F offset ready,
      up-ge F offset ready,
    )
    | inr end ↦
        let at_end : offset ≡ F.size = ground (arith, end, on) in
        let start : unit_start F offset ≡ offset =
          ap (unit_start F) at_end ∙ unit_start-size F ready ∙ sym at_end in
        grind (arith, up-aligned F offset ready start, on)
  ]

  -- Where the first part leaves something over, it ends at the start of a unit.
  first_reaches :
      (offset length : ℕ)
      → IsReady F
      → length - first_part offset length ≢ 0
      → unit_start F (offset + first_part offset length) ≡ offset + first_part offset length
  first_reaches offset length ready more =
      let e : offset + first_part offset length ≡ up F offset =
        grind (arith, more, up-ge F offset ready) in
      rw e (start_twice F (offset + F.unit - 1) ready)

  -- What is left of a chunk behind its first part and its whole units.
  chunk_runs :
      (slot s s' content : Buffer) (offset length f m : ℕ) (done : Bool)
      → first_size F offset length ≡ f
      → unit_start F (length - f) ≡ m
      → ltb f F.unit ≡ true
      → (offset + f) % 2 ^ 32 ≡ offset + f
      → write_first F slot offset content f ≡ ok (true, s)
      → write_units F s (offset + f) (λ i. content (f + i)) m ≡ ok (done, s')
      → write_chunk F slot offset content length ≡ (
          if done
          then write_last F s'
              ((offset + f + m) % 2 ^ 32)
              (λ i. content (f + m + i))
              (length - f - m)
          else ok (done, s'))
  unfolding write_chunk
  chunk_runs slot s s' content offset length f m done first middle short small e e' =
      rw (first, middle, short, small, e, e') refl

  -- A chunk at an offset on the device is written exactly if it ends on the device.
  pub write_chunk-Fits :
      (slot content : Buffer) (offset length : ℕ)
      → IsReady F
      → offset ≤ F.size
      → Fits F slot offset content length (write_chunk F slot offset content length)
  write_chunk-Fits slot content offset length ready on =
      let f = first_part offset length in
      let rest = length - f in
      let m = unit_start F rest in
      let l = rest - m in
      let le : f ≤ length = ground arith in
      let near : offset + f ≤ unit_start F offset + F.unit =
        ground (arith, up-le F offset ready, up-ge F offset ready) in
      let short : ltb f F.unit ≡ true = grind (arith, up-lt F offset ready, up-ge F offset ready) in
      let on_first = first_on offset length ready on in
      let small : (offset + f) % 2 ^ 32 ≡ offset + f =
        omega (arith, on_first, ready.bounded, ready.positive) in
      let reached : rest ≢ 0 → unit_start F (offset + f) ≡ offset + f =
        λ more. first_reaches offset length ready more in
      let (s, e, bytes) =
        first_lem F slot content offset f ready near (first_inside offset length ready on) in
      let (s', e', bytes') =
        units_lem F s (λ i. content (f + i)) (offset + f) m ready on_first
          (λ more. reached (λ none_left. more (rw none_left (start_zero F ready))))
          (start_twice F rest ready) in
      let runs =
        chunk_runs slot s s' content offset length f m (leb (offset + f + m) F.size)
          (first_size_lem offset length ready on) refl short small e e' in
      elim (Bool-cases (leb (offset + f + m) F.size)) [
        | inl fits ↦
            let on_units : offset + f + m ≤ F.size = ground (arith, fits) in
            let small' : (offset + f + m) % 2 ^ 32 ≡ offset + f + m =
              omega (arith, on_units, ready.bounded, ready.positive) in
            let (s'', e'', bytes'') =
              last_lem F s' (λ i. content (f + m + i)) (offset + f + m) l ready on_units
                (λ more.
                  sum_start F (offset + f) m ready
                    (reached (λ none_left. more (rw none_left (omega arith))))
                    (start_twice F rest ready))
                (omega (arith, start-lt F rest ready.positive)) in
            let all : f + m + l ≡ length = omega (arith, le, start-le F rest) in
            let whole : offset + f + m + l ≡ offset + length = omega (arith, all) in
            (
              s'',
              runs
                  ∙ ap
                      (λ b.
                        if b
                        then write_last F s' ((offset + f + m) % 2 ^ 32) (λ i. content (f + m + i))
                            l
                        else ok (b, s'))
                      fits
                  ∙ ap (λ o. write_last F s' o (λ i. content (f + m + i)) l) small'
                  ∙ e''
                  ∙ ap (λ k. ok (leb k F.size, s'')) whole,
              λ h x.
                  joined_bytes slot s s' s'' content offset f m l length x (bytes x)
                    (bytes' on_units x) (bytes'' (omega (arith, whole, h)) x) all,
            )
        | inr over ↦
            let long : leb (offset + length) F.size ≡ false =
              ground (arith, over, le, start-le F rest) in
            (
              s',
              runs
                  ∙ ap
                      (λ b.
                        if b
                        then write_last F s' ((offset + f + m) % 2 ^ 32) (λ i. content (f + m + i))
                            l
                        else ok (b, s'))
                      over
                  ∙ ap (λ b. ok (b, s')) (sym long),
              λ h x. absurd (ground (arith, long, h)),
            )
      ]

  -- On a device of whole blocks that are whole program units, which ends a unit before 2 ^ 32 and does what
  -- is asked of it there, the bytes of a chunk that ends on the device are in the slot at their offsets
  -- afterwards, and every other byte is as it was. No address or size is given to the device that is not a
  -- multiple of the unit, and no unit is taken from outside the block.
  pub write_chunk_lem :
      (slot content : Buffer) (offset length : ℕ)
      → IsReady F
      → offset + length ≤ F.size
      → (s : Buffer) × (write_chunk F slot offset content length ≡ ok (true, s))
        × ((x : ℕ) → s x ≡ copy_to slot offset content length x)
  write_chunk_lem slot content offset length ready fits =
      let (s, e, bytes) = write_chunk-Fits slot content offset length ready (omega (arith, fits)) in
      let on : leb (offset + length) F.size ≡ true = ground (arith, fits) in
      (s, e ∙ ap (λ b. ok (b, s)) on, bytes fits)
