-- ===== src/Disk/Stream.antt =====
-- src/disk/streamer.c: what a read gives, and what it leaves out at the end of a sector.
use tmp_os.Base.{
  ℕ, zero, suc, ◌+◌, ◌-◌, ◌*◌, ◌/◌, ◌%◌, ◌^◌, ◌<◌, ◌≤◌, ◌≡◌, refl, ◌++◌, arith, take, drop, ap, ◌∙◌,
  some, ltb, leb, if◌then◌else◌, Bool-cases, inl, inr, false,
}
use tmp_os.Base.Int.{pos}
use tmp_os.Disk.{Controller, the_disk}
use tmp_os.Disk.Sector.{IsDisk, slice, slice-append, slice_inside, disk_read_block-slice}
use tmp_os.Disk.Streamer.{DiskStream, sector_size, total_to_read, read_rounds, disk_stream_read}

-- The bytes that a read gives: the first round stops at the end of its sector, and what it then
-- does not read is not made up for.
abbrev pub transferred : ℕ → ℕ → ℕ
transferred p total =
    total - (p % sector_size + (if leb total sector_size then total else sector_size) - sector_size)

abbrev pub at : ℕ → DiskStream
at p = record { position = p; disk = the_disk }

total_to_read_fits :
    (p total : ℕ) → p % sector_size + total_to_read (p % sector_size) total ≤ sector_size
unfolding total_to_read
total_to_read_fits p total = ground arith

last_round :
    (p total : ℕ) → total ≤ 512 → total_to_read (p % sector_size) total ≡ transferred p total
unfolding total_to_read
last_round p total h = ground arith

more_rounds :
    (p total : ℕ)
    → 512 < total
    → total_to_read (p % sector_size) total
        + transferred (p + total_to_read (p % sector_size) total) (total - sector_size)
      ≡ transferred p total
unfolding total_to_read
more_rounds p total h = ground arith

moved_at_most : (p total : ℕ) → total_to_read (p % sector_size) total ≤ total
unfolding total_to_read
moved_at_most p total = ground arith

got-slice :
    (byte : ℕ → ℕ) (p n : ℕ)
    → p % 512 + n ≤ 512
    → take n (drop (p % 512) (slice byte (p / 512 * 512) 512)) ≡ slice byte p n
got-slice byte p n h =
    let e : 512 ≡ p % 512 + (n + (512 - p % 512 - n)) = omega (arith, h) in
    let e' : p / 512 * 512 + p % 512 ≡ p = omega arith in
    ap (λ k. take n (drop (p % 512) (slice byte (p / 512 * 512) k))) e
    ∙ slice_inside byte (p / 512 * 512) (p % 512) n (512 - p % 512 - n)
    ∙ ap (λ k. slice byte k n) e'

read_rounds_lem :
    (byte : ℕ → ℕ) (c : Controller) (f p total : ℕ)
    → IsDisk byte c
    → p + total < 2 ^ 31
    → total < f * 512 + 512
    → read_rounds c (suc f) (at p) total
      ≡ some (record {
        res = pos 0;
        stream = at (p + transferred p total);
        out = slice byte p (transferred p total);
      })
unfolding read_rounds
read_rounds_lem byte c zero p total d h b =
    let block = disk_read_block-slice byte c (p / 512) d (omega (arith, h)) in
    let n = total_to_read (p % sector_size) total in
    let got = got-slice byte p n (total_to_read_fits p total) in
    let int : leb (2 ^ 31) (p + n) ≡ false = ground (arith, h, moved_at_most p total) in
    let e : ltb sector_size total ≡ false = ground arith in
    rw (block, int, e, got, last_round p total (omega arith), read_rounds) refl
read_rounds_lem byte c (suc f) p total d h b =
    let block = disk_read_block-slice byte c (p / 512) d (omega (arith, h)) in
    let n = total_to_read (p % sector_size) total in
    let got = got-slice byte p n (total_to_read_fits p total) in
    let int : leb (2 ^ 31) (p + n) ≡ false = ground (arith, h, moved_at_most p total) in
    elim (Bool-cases (ltb sector_size total)) [
      | inl e ↦
          let more = more_rounds p total (ground arith) in
          let rest =
            read_rounds_lem byte c f (p + n) (total - 512) d
              (omega (arith, h, more, total_to_read_fits p total)) (ground arith) in
          let k = transferred (p + n) (total - 512) in
          let end : p + n + k ≡ p + transferred p total = omega (arith, more) in
          rw (block, int, e, rest, read_rounds)
            (ap
                (λ l. some (record {
                  res = pos 0;
                  stream = at (p + n + k);
                  out = l ++ slice byte (p + n) k;
                }))
                got
              ∙ rw (slice-append byte p n k, more, end) refl)
      | inr e ↦ rw (block, int, e, got, last_round p total (ground arith), read_rounds) refl
    ]

-- Up to the last position that is an `int`, `disk_stream_read` on the disk returns 0 and writes the bytes from the position on, in their
-- order, but fewer than it was asked for where the first round meets the end of a sector: short by
-- as many as would lie behind it.
pub disk_stream_read_lem :
    (byte : ℕ → ℕ) (c : Controller) (p total : ℕ)
    → IsDisk byte c
    → p + total < 2 ^ 31
    → disk_stream_read c (at p) total
      ≡ some (record {
        res = pos 0;
        stream = at (p + transferred p total);
        out = slice byte p (transferred p total);
      })
unfolding disk_stream_read
disk_stream_read_lem byte c p total d h =
    let e : total / sector_size + 1 ≡ suc (total / sector_size) = omega arith in
    rw e (read_rounds_lem byte c (total / sector_size) p total d h (omega arith))
