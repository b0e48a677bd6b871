-- ===== src/Disk.antt =====
-- src/disk/disk.c: the one disk, read through the ports of its controller.
pub mod Sector
pub mod Streamer
pub mod Stream
use tmp_os.Base.{
  ℕ, zero, suc, ◌+◌, ◌*◌, ◌/◌, ◌%◌, ◌^◌, ◌==◌, if◌then◌else◌, Option, none, some, List, [], ◌∷◌,
}
use tmp_os.Base.Int.{ℤ, pos, negsuc}

-- The registers of the controller at the ports 0x1F6 and 0x1F2 to 0x1F5, and the last command.
pub record Registers : Type 0 where
  pub device : ℕ
  pub count : ℕ
  pub low : ℕ
  pub mid : ℕ
  pub high : ℕ
  pub command : ℕ

-- What the controller then gives at the data port 0x1F0, by the number of the word.
abbrev pub Controller : Type 0
Controller = Registers → ℕ → ℕ

-- The `outb` calls of `disk_read_sector`; `x | 0xE0` sets the upper three bits of a byte.
unfoldable pub select : ℕ → ℕ → ℕ → Registers
select lba total command = record {
  device = 224 + lba / 2 ^ 24 % 32;
  count = total % 256;
  low = lba % 256;
  mid = lba / 2 ^ 8 % 256;
  high = lba / 2 ^ 16 % 256;
  command = command;
}

-- `n` words from word `k` on, as the bytes that they are in memory.
unfoldable pub read_words : (ℕ → ℕ) → ℕ → ℕ → List ℕ
read_words word k zero = []
read_words word k (suc n) = word k % 256 ∷ (word k / 256 % 256 ∷ read_words word (k + 1) n)

-- What is left in the buffer. The wait for the controller to be ready before each sector is not in
-- the model.
unfoldable pub disk_read_sector : Controller → ℕ → ℕ → List ℕ
disk_read_sector c lba total = read_words (c (select lba total 0x20)) 0 (256 * total)

-- `n` words of a buffer, the lower byte first. `none`: it ends before.
unfoldable pub buffer_words : List ℕ → ℕ → Option (List ℕ)
buffer_words buf zero = some []
buffer_words [] (suc n) = none
buffer_words (a ∷ []) (suc n) = none
buffer_words (a ∷ b ∷ buf) (suc n) = elim (buffer_words buf n) [
  | none ↦ none
  | some words ↦ some ((a + 256 * b) ∷ words)
]

-- The command and the words that follow it at the data port.
unfoldable pub disk_write_sector : ℕ → ℕ → List ℕ → Option (Registers × List ℕ)
unfolding buffer_words
disk_write_sector lba total buf = elim (buffer_words buf (256 * total)) [
  | none ↦ none
  | some words ↦ some (select lba total 0x30, words)
]

-- A `struct disk *`: `disk` or another address.
pub data DiskRef : Type 0 where
  the_disk : DiskRef
  other_disk : DiskRef

unfoldable pub disk_get : ℕ → Option DiskRef
disk_get index = if index == 0 then some the_disk else none

-- `none` is -EIO.
unfoldable pub disk_read_block : Controller → DiskRef → ℕ → ℕ → Option (List ℕ)
disk_read_block c the_disk lba total = some (disk_read_sector c lba total)
disk_read_block c other_disk lba total = none
