-- ===== src/Disk/Sector.antt =====
-- src/disk/disk.c: a sector arrives from the disk as it lies there.
use tmp_os.Base.{
  ℕ, zero, suc, ◌+◌, ◌*◌, ◌/◌, ◌%◌, ◌^◌, ◌<◌, ◌≡◌, refl, List, [], ◌∷◌, ◌++◌, some, arith, take,
  drop, ap, ◌∙◌,
}
use tmp_os.Disk.{
  Registers, Controller, select, read_words, disk_read_sector, disk_read_block, the_disk,
}

-- The sector number that a controller in LBA28 mode takes from its registers.
abbrev pub address : Registers → ℕ
address r = r.device % 16 * 2 ^ 24 + r.high * 2 ^ 16 + r.mid * 2 ^ 8 + r.low

-- The controller of a disk with the contents `byte`: it answers a read command, where the bit for
-- LBA mode is set, with the words of the sector, the lower byte first.
pub record IsDisk (byte : ℕ → ℕ) (c : Controller) : Type 0 where
  pub is_byte : (a : ℕ) → byte a < 256
  pub answers :
      (r : Registers) (k : ℕ)
      → r.command ≡ 0x20
      → r.device / 64 % 2 ≡ 1
      → k < 256 * r.count
      → c r k ≡ byte (address r * 512 + 2 * k) + 256 * byte (address r * 512 + 2 * k + 1)

-- `n` bytes of the disk from byte `a` on.
unfoldable pub slice : (ℕ → ℕ) → ℕ → ℕ → List ℕ
slice byte a zero = []
slice byte a (suc n) = byte a ∷ slice byte (a + 1) n

pub slice-append :
    (byte : ℕ → ℕ) (a m n : ℕ) → slice byte a m ++ slice byte (a + m) n ≡ slice byte a (m + n)
unfolding slice
slice-append byte a zero n =
    let e : a + 0 ≡ a = omega arith in let e' : 0 + n ≡ n = omega arith in rw (e, e') refl
slice-append byte a (suc m) n =
    let e : a + suc m ≡ a + 1 + m = omega arith in
    let e' : suc m + n ≡ suc (m + n) = omega arith in rw (e, e', slice-append byte (a + 1) m n) refl

drop-slice : (byte : ℕ → ℕ) (a d n : ℕ) → drop d (slice byte a (d + n)) ≡ slice byte (a + d) n
unfolding slice
drop-slice byte a zero n =
    let e : a + 0 ≡ a = omega arith in let e' : 0 + n ≡ n = omega arith in rw (e, e') refl
drop-slice byte a (suc d) n =
    let e : a + suc d ≡ a + 1 + d = omega arith in
    let e' : suc d + n ≡ suc (d + n) = omega arith in rw (e, e') (drop-slice byte (a + 1) d n)

take-slice : (byte : ℕ → ℕ) (a n m : ℕ) → take n (slice byte a (n + m)) ≡ slice byte a n
unfolding slice
take-slice byte a zero m = refl
take-slice byte a (suc n) m =
    let e' : suc n + m ≡ suc (n + m) = omega arith in
    rw e' (ap (λ l. byte a ∷ l) (take-slice byte (a + 1) n m))

pub slice_inside :
    (byte : ℕ → ℕ) (a d n m : ℕ)
    → take n (drop d (slice byte a (d + (n + m)))) ≡ slice byte (a + d) n
slice_inside byte a d n m = rw (drop-slice byte a d (n + m)) (take-slice byte (a + d) n m)

address-select : (lba total : ℕ) → lba < 2 ^ 28 → address (select lba total 0x20) ≡ lba
unfolding select
address-select lba total h = omega arith

read_words-slice :
    (byte word : ℕ → ℕ) (base k n : ℕ)
    → ((a : ℕ) → byte a < 256)
    → ((j : ℕ) → j < k + n → word j ≡ byte (base + 2 * j) + 256 * byte (base + 2 * j + 1))
    → read_words word k n ≡ slice byte (base + 2 * k) (2 * n)
unfolding read_words slice
read_words-slice byte word base k zero b h = refl
read_words-slice byte word base k (suc n) b h =
    let e = h k (omega arith) in
    let low : word k % 256 ≡ byte (base + 2 * k) =
      omega (arith, e, b (base + 2 * k), b (base + 2 * k + 1)) in
    let high : word k / 256 % 256 ≡ byte (base + 2 * k + 1) =
      omega (arith, e, b (base + 2 * k), b (base + 2 * k + 1)) in
    let rest = read_words-slice byte word base (k + 1) n b (λ j l. h j (omega arith)) in
    let e' : 2 * suc n ≡ suc (suc (2 * n)) = omega arith in
    let e'' : base + 2 * (k + 1) ≡ base + 2 * k + 1 + 1 = omega arith in
    rw (low, high, rest, e', e'') refl

-- `disk_read_sector` on a disk gives the bytes of the `total` sectors from `lba` on as they lie
-- there, if the number of the sector has 28 bits and there are fewer than 256 to read.
pub disk_read_sector-slice :
    (byte : ℕ → ℕ) (c : Controller) (lba total : ℕ)
    → IsDisk byte c
    → lba < 2 ^ 28
    → total < 256
    → disk_read_sector c lba total ≡ slice byte (lba * 512) (512 * total)
unfolding disk_read_sector select
disk_read_sector-slice byte c lba total d h t =
    let e : lba * 512 + 2 * 0 ≡ lba * 512 = omega arith in
    let e' : 2 * (256 * total) ≡ 512 * total = omega arith in
    let m : total % 256 ≡ total = omega arith in
    rw (← e, ← e')
      (read_words-slice byte (c (select lba total 0x20)) (lba * 512) 0 (256 * total) d.is_byte
        (λ j l.
          d.answers (select lba total 0x20) j refl (omega arith) (omega (arith, m, l))
          ∙ ap (λ a. byte (a * 512 + 2 * j) + 256 * byte (a * 512 + 2 * j + 1))
              (address-select lba total h)))

pub disk_read_block-slice :
    (byte : ℕ → ℕ) (c : Controller) (lba : ℕ)
    → IsDisk byte c
    → lba < 2 ^ 28
    → disk_read_block c the_disk lba 1 ≡ some (slice byte (lba * 512) 512)
unfolding disk_read_block
disk_read_block-slice byte c lba d h =
    rw (disk_read_sector-slice byte c lba 1 d h (omega arith)) refl
