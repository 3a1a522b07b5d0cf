-- ===== src/Firmware/Programming.antt =====
-- MCUbUpdateHandlerImpl::CombinedDownloadInstall of mcubupdate_handler.cpp: a chunk of the download is
-- written to the secondary slot by whole program units. A buffer is a function from its indices.
use mbed_ce_client_for_azure.Base.{
  ℕ, ◌+◌, ◌-◌, ◌*◌, ◌/◌, ◌%◌, ◌^◌, Bool, true, false, ◌&&◌, ◌==◌, leb, ltb, if◌then◌else◌, Run, ok,
  fault, ◌>>=◌,
}

abbrev pub Buffer : Type 0
Buffer = ℕ → ℕ

-- memcpy of `n` bytes to the index `at`
abbrev pub copy_to : Buffer → (at : ℕ) → Buffer → (n : ℕ) → Buffer
copy_to target at source n i = if leb at i && ltb i (at + n) then source (i - at) else target i

-- A block device, with its size and those of its program units and of the blocks that are read. A read and
-- a program can fail.
pub record Flash : Type 0 where
  pub size : ℕ
  pub unit : ℕ  -- secondary_bd_progunit_size
  pub block : ℕ  -- secondary_bd_readblock_size
  pub reads : (address size : ℕ) → Bool
  pub programs : (address size : ℕ) → Bool

module _ (F : Flash) where
  abbrev pub unit_start : ℕ → ℕ
  unit_start offset = (offset / F.unit) * F.unit

  abbrev pub block_start : ℕ → ℕ
  block_start offset = (offset / F.block) * F.block

  -- The assertions of bd_read_program_unit, and that its memcpy stays inside of the block.
  abbrev pub is_unit_in_block : ℕ → Bool
  is_unit_in_block offset =
      leb F.unit F.block
      && (leb (block_start offset) (unit_start offset)
          && leb (unit_start offset + F.unit) (block_start offset + F.block))

  -- bd_read_program_unit, with whether the read succeeds.
  unfoldable pub read_program_unit : Buffer → (offset : ℕ) → Run (Bool × Buffer)
  read_program_unit slot offset =
      if is_unit_in_block offset
      then ok (F.reads (block_start offset) F.block, λ i. slot (unit_start offset + i))
      else fault

  -- BlockDevice::program, whose address and size have to be multiples of the unit. Where it fails, the
  -- slot is left as it was.
  unfoldable pub program : Buffer → (address : ℕ) → Buffer → (size : ℕ) → Run (Bool × Buffer)
  program slot address content size =
      if unit_start address == address && unit_start size == size
      then ok (
        F.programs address size,
        if F.programs address size then copy_to slot address content size else slot,
      )
      else fault

  -- What follows on a success.
  abbrev pub then_write : Run (Bool × Buffer) → (Buffer → Run (Bool × Buffer)) → Run (Bool × Buffer)
  then_write r k = r >>= λ x. let next = k x.1 in if x.0 then next else ok x

  -- The part before the next unit: its unit is read, changed and programmed.
  unfoldable pub write_first : Buffer → (offset : ℕ) → Buffer → (n : ℕ) → Run (Bool × Buffer)
  write_first slot offset content n =
      let start = unit_start offset in
      let written = read_program_unit slot offset >>= λ r.
      let programmed = program slot start (copy_to r.1 (offset - start) content n) F.unit in
      if r.0 then programmed else ok (false, slot) in
      if n == 0 then ok (true, slot) else written

  -- Whole units
  unfoldable pub write_units : Buffer → (offset : ℕ) → Buffer → (n : ℕ) → Run (Bool × Buffer)
  write_units slot offset content n =
      let programmed = program slot offset content n in
      if n == 0 then ok (true, slot) else programmed

  -- The last part, at the beginning of a unit
  unfoldable pub write_last : Buffer → (offset : ℕ) → Buffer → (n : ℕ) → Run (Bool × Buffer)
  write_last slot offset content n =
      let written = read_program_unit slot offset >>= λ r.
      let programmed = program slot offset (copy_to r.1 0 content n) F.unit in
      if r.0 then programmed else ok (false, slot) in
      if n == 0 then ok (true, slot) else written

  -- How much stands before the next unit, in size_t.
  unfoldable pub first_size : (offset length : ℕ) → ℕ
  first_size offset length =
      let next = unit_start ((offset + F.unit - 1) % 2 ^ 32) in
      let todo = (next + 2 ^ 32 - offset) % 2 ^ 32 in if ltb length todo then length else todo

  -- The first part, the whole units and the last part, up to the first failure. The first part has to be
  -- shorter than a unit.
  unfoldable pub write_chunk : Buffer → (offset : ℕ) → Buffer → (length : ℕ) → Run (Bool × Buffer)
  write_chunk slot offset content length =
      let first = first_size offset length in
      let middle = unit_start (length - first) in
      let last = length - first - middle in
      let offset' = (offset + first) % 2 ^ 32 in
      let offset'' = (offset' + middle) % 2 ^ 32 in
      let written = then_write (write_first slot offset content first) (λ s.
        then_write (write_units s offset' (λ i. content (first + i)) middle)
          (λ s'. write_last s' offset'' (λ i. content (first + middle + i)) last)) in
      if ltb first F.unit then written else fault
