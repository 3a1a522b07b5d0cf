-- ===== src/Firmware/Ready.antt =====
-- A device to which a download of mcubupdate_handler.cpp can be written, and the starts of its program
-- units and blocks.
use mbed_ce_client_for_azure.Base.{
  ℕ, ◌+◌, ◌-◌, ◌*◌, ◌/◌, ◌≤◌, ◌<◌, ◌≡◌, refl, ap, arith, true, ◌∙◌, sym, leb, ◌^◌, ltb, Bool-cases,
  inl, inr,
}
use native.Mathlib.Nat.{
  div-mul-le_self, lt-div-mul-add, mul-div_cancel, mul-le-mul_right, add-mul, mul_assoc, div_self,
}
use mbed_ce_client_for_azure.Firmware.Programming.{Flash, unit_start, block_start, is_unit_in_block}

ring : (q k u b : ℕ) → b ≡ k * u → (q * k + k) * u ≡ q * b + b
ring q k u b h = rw (h, add-mul, mul_assoc) refl

-- Two multiples of a number.
multiple-below : (p q u : ℕ) → p * u < q * u → p < q
multiple-below p q u h = elim (Bool-cases (ltb p q)) [
  | inl less ↦ ground (arith, less)
  | inr more ↦
      let le : q ≤ p = ground (arith, more) in absurd (omega (arith, h, mul-le-mul_right u le))
]

-- What lies below a multiple lies in a whole part below it.
whole_part : (x q u : ℕ) → x < q * u → (x / u) * u + u ≤ q * u
whole_part x q u h =
    let less = multiple-below (x / u) q u (omega (arith, h, div-mul-le_self x u)) in
    omega (arith, mul-le-mul_right u less)

module _ (F : Flash) where
  pub start-le : (offset : ℕ) → unit_start F offset ≤ offset
  start-le offset = div-mul-le_self offset F.unit

  pub start-lt : (offset : ℕ) → 0 < F.unit → offset < unit_start F offset + F.unit
  start-lt offset h = lt-div-mul-add h

  start_multiple : (q : ℕ) → 0 < F.unit → unit_start F (q * F.unit) ≡ q * F.unit
  start_multiple q h = ap (λ k. k * F.unit) (mul-div_cancel q h)

  -- Two multiples of the unit.
  apart : (p q : ℕ) → p < q → p * F.unit + F.unit ≤ q * F.unit
  apart p q h = omega (arith, mul-le-mul_right F.unit h)

  -- A device of whole blocks, which are whole units, that ends a unit before 2 ^ 32, and which does exactly
  -- what lies on it.
  pub record IsReady : Type 0 where
    pub positive : 0 < F.unit
    pub units : ℕ
    pub has_units : 0 < units
    pub whole : F.block ≡ units * F.unit
    pub blocks : ℕ
    pub whole_blocks : F.size ≡ blocks * F.block
    pub bounded : F.size + F.unit ≤ 2 ^ 32
    pub reads : (address size : ℕ) → F.reads address size ≡ leb (address + size) F.size
    pub programs : (address size : ℕ) → F.programs address size ≡ leb (address + size) F.size

  pub block-positive : IsReady → 0 < F.block
  block-positive ready =
      omega (arith, ready.whole, ready.positive, mul-le-mul_right F.unit ready.has_units)

  size_units : (ready : IsReady) → F.size ≡ (ready.blocks * ready.units) * F.unit
  size_units ready = rw (ready.whole_blocks, ready.whole, mul_assoc) refl

  pub block-fits :
      (offset : ℕ) → IsReady → offset < F.size → block_start F offset + F.block ≤ F.size
  block-fits offset ready h =
      let e = ready.whole_blocks in
      omega (arith, e, whole_part offset ready.blocks F.block (omega (arith, e, h)))

  pub unit-fits : (offset : ℕ) → IsReady → offset < F.size → unit_start F offset + F.unit ≤ F.size
  unit-fits offset ready h =
      let e = size_units ready in
      omega (arith, e, whole_part offset (ready.blocks * ready.units) F.unit (omega (arith, e, h)))

  pub unit_start-size : IsReady → unit_start F F.size ≡ F.size
  unit_start-size ready =
      ap (unit_start F) (size_units ready)
      ∙ start_multiple (ready.blocks * ready.units) ready.positive
      ∙ sym (size_units ready)

  pub block_start-size : IsReady → block_start F F.size ≡ F.size
  block_start-size ready =
      ap (block_start F) ready.whole_blocks
      ∙ ap (λ k. k * F.block) (mul-div_cancel ready.blocks (block-positive ready))
      ∙ sym ready.whole_blocks

  below : (p q : ℕ) → p * F.unit < q * F.unit → p < q
  below p q h = elim (Bool-cases (ltb p q)) [
    | inl less ↦ ground (arith, less)
    | inr more ↦
        let le : q ≤ p = ground (arith, more) in
        absurd (omega (arith, h, mul-le-mul_right F.unit le))
  ]

  pub in_block : (offset : ℕ) → IsReady → is_unit_in_block F offset ≡ true
  in_block offset ready =
      let q = offset / F.block in
      let p = offset / F.unit in
      let k = ready.units in
      let e : (q * k + k) * F.unit ≡ q * F.block + F.block = ring q k F.unit F.block ready.whole in
      let size : 0 < F.block =
        omega (arith, ready.whole, ready.positive, mul-le-mul_right F.unit ready.has_units) in
      let inside : offset < q * F.block + F.block = lt-div-mul-add size in
      let h : p * F.unit < (q * k + k) * F.unit = omega (arith, start-le offset, inside, e) in
      let far = apart p (q * k + k) (below p (q * k + k) h) in
      let e' : (q * k) * F.unit ≡ q * F.block = rw (ready.whole, mul_assoc) refl in
      let near : q * k ≤ p =
        let h' : (q * k) * F.unit < (p + 1) * F.unit =
          let next : (p + 1) * F.unit ≡ p * F.unit + F.unit = rw add-mul (omega arith) in
          omega (arith, e', next, div-mul-le_self offset F.block, start-lt offset ready.positive) in
        omega (arith, below (q * k) (p + 1) h') in
      ground (
        arith,
        far,
        e,
        e',
        mul-le-mul_right F.unit near,
        size,
        mul-le-mul_right F.unit ready.has_units,
        ready.whole,
      )

  pub one_unit : IsReady → unit_start F F.unit ≡ F.unit
  one_unit ready = rw (div_self ready.positive) (omega arith)

  pub start_twice :
      (offset : ℕ) → IsReady → unit_start F (unit_start F offset) ≡ unit_start F offset
  start_twice offset ready = start_multiple (offset / F.unit) ready.positive

  -- The next start of a unit, from the offset on.
  abbrev pub up : ℕ → ℕ
  up offset = unit_start F (offset + F.unit - 1)

  pub up-le : (offset : ℕ) → IsReady → up offset ≤ unit_start F offset + F.unit
  up-le offset ready =
      let p = (offset + F.unit - 1) / F.unit in
      let q = offset / F.unit in
      let two : (q + 2) * F.unit ≡ q * F.unit + F.unit + F.unit = omega arith in
      let h : p * F.unit < (q + 2) * F.unit = omega (
        arith,
        start-le (offset + F.unit - 1),
        start-lt offset ready.positive,
        two,
        ready.positive,
      ) in
      let far = below p (q + 2) h in
      let le : p ≤ q + 1 = omega (arith, far) in omega (arith, mul-le-mul_right F.unit le)

  pub up-ge : (offset : ℕ) → IsReady → offset ≤ up offset
  up-ge offset ready = omega (arith, start-lt (offset + F.unit - 1) ready.positive, ready.positive)

  -- The sum of two starts is a start.
  pub sum_start :
      (a b : ℕ) → IsReady → unit_start F a ≡ a → unit_start F b ≡ b → unit_start F (a + b) ≡ a + b
  sum_start a b ready ha hb =
      let e : (a / F.unit + b / F.unit) * F.unit ≡ a + b = rw add-mul (omega (arith, ha, hb)) in
      rw (← e) (start_multiple (a / F.unit + b / F.unit) ready.positive)

  pub start_zero : IsReady → unit_start F 0 ≡ 0
  start_zero ready = ground (arith, start-le 0)

  pub up-lt : (offset : ℕ) → IsReady → up offset < offset + F.unit
  up-lt offset ready = omega (arith, start-le (offset + F.unit - 1), ready.positive)

  -- At the start of a unit there is no first part.
  pub up-aligned : (offset : ℕ) → IsReady → unit_start F offset ≡ offset → up offset ≡ offset
  up-aligned offset ready aligned =
      let p = (offset + F.unit - 1) / F.unit in
      let q = offset / F.unit in
      let next : (q + 1) * F.unit ≡ q * F.unit + F.unit = rw add-mul (omega arith) in
      let less = below p (q + 1) (omega (arith, next, aligned, up-lt offset ready)) in
      let le : p ≤ q = omega (arith, less) in
      omega (arith, mul-le-mul_right F.unit le, aligned, up-ge offset ready)
