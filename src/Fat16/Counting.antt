-- ===== src/Fat16/Counting.antt =====
-- src/fs/fat/fat16.c: which number of items a directory gets.
use tmp_os.Base.{
  ℕ, zero, suc, ◌+◌, ◌*◌, ◌%◌, ◌^◌, ◌<◌, ◌≤◌, ◌≡◌, ◌≢◌, refl, sym, ◌∙◌, ap, ◌==◌, true, false, some,
  arith, if◌then◌else◌, Bool-cases, inl, inr,
}
use tmp_os.Base.Int.{pos}
use tmp_os.Disk.{Controller}
use tmp_os.Disk.Sector.{IsDisk, slice}
use tmp_os.Disk.Streamer.{disk_stream_read}
use tmp_os.Disk.Stream.{transferred, at, disk_stream_read_lem}
use tmp_os.Fat16.Items.{item_size, count_items, max_rounds, fat16_get_total_items_for_directory}

-- The items from byte `p` on that are not deleted, of `n` items.
unfoldable pub live_items : (ℕ → ℕ) → ℕ → ℕ → ℕ
live_items byte p zero = 0
live_items byte p (suc n) = (if byte p == 0xE5 then 0 else 1) + live_items byte (p + item_size) n

-- A directory of `n` items from byte `p` on, before the first item that starts with a zero.
pub record EndsAfter (byte : ℕ → ℕ) (p n : ℕ) : Type 0 where
  pub is_end : byte (p + item_size * n) ≡ 0
  pub no_end : (j : ℕ) → j < n → byte (p + item_size * j) ≢ 0

pub live_items_bound : (byte : ℕ → ℕ) (p n : ℕ) → live_items byte p n ≤ n
unfolding live_items
live_items_bound byte p zero = omega arith
live_items_bound byte p (suc n) = ground (arith, live_items_bound byte (p + item_size) n)

EndsAfter-tail :
    (byte : ℕ → ℕ) (p n : ℕ) → EndsAfter byte p (suc n) → EndsAfter byte (p + item_size) n
EndsAfter-tail byte p n e = record {
  is_end = ap byte (omega arith) ∙ e.is_end;
  no_end = λ j l z. e.no_end (suc j) (omega arith) (ap byte (omega arith) ∙ z);
}

whole_item : (p : ℕ) → p % item_size ≡ 0 → transferred p item_size ≡ item_size
whole_item p h = ground arith

item_read :
    (byte : ℕ → ℕ) (c : Controller) (p : ℕ)
    → IsDisk byte c
    → p % item_size ≡ 0
    → p + item_size < 2 ^ 31
    → disk_stream_read c (at p) item_size
      ≡ some (record { res = pos 0; stream = at (p + item_size); out = slice byte p item_size })
item_read byte c p d h l =
    disk_stream_read_lem byte c p item_size d l
    ∙ ap (λ n. some (record { res = pos 0; stream = at (p + n); out = slice byte p n }))
        (whole_item p h)

count_items_lem :
    (byte : ℕ → ℕ) (c : Controller) (f n p i : ℕ)
    → IsDisk byte c
    → p % item_size ≡ 0
    → p + item_size * n + item_size < 2 ^ 31
    → n < f
    → EndsAfter byte p n
    → count_items c f (at p) i ≡ some (pos (i + live_items byte p n))
unfolding count_items live_items slice
count_items_lem byte c zero n p i d h l b e = absurd (omega arith)
count_items_lem byte c (suc f) zero p i d h l b e =
    let p0 : p ≡ p + item_size * 0 = omega arith in
    let e0 : byte p ≡ 0 = ap byte p0 ∙ e.is_end in
    let z : (byte p == 0) ≡ true = ground (arith, e0) in
    let i0 : i + 0 ≡ i = omega arith in
    rw (item_read byte c p d h (omega arith), z, i0, count_items) refl
count_items_lem byte c (suc f) (suc n) p i d h l b e =
    let p0 : p ≡ p + item_size * 0 = omega arith in
    let e0 : byte p ≢ 0 = λ q. e.no_end 0 (omega arith) (ap byte (sym p0) ∙ q) in
    let z : (byte p == 0) ≡ false = ground (arith, e0) in
    elim (Bool-cases (byte p == 0xE5)) [
      | inl q ↦
          let s : i + (0 + live_items byte (p + item_size) n)
              ≡ i + live_items byte (p + item_size) n =
            omega arith in
          rw (item_read byte c p d h (omega arith), z, q, s, count_items)
            (count_items_lem byte c f n (p + item_size) i d (omega arith) (omega arith)
              (omega arith) (EndsAfter-tail byte p n e))
      | inr q ↦
          let s : i + (1 + live_items byte (p + item_size) n)
              ≡ i + 1 + live_items byte (p + item_size) n =
            omega arith in
          rw (item_read byte c p d h (omega arith), z, q, s, count_items)
            (count_items_lem byte c f n (p + item_size) (i + 1) d (omega arith) (omega arith)
              (omega arith) (EndsAfter-tail byte p n e))
    ]

-- `fat16_get_total_items_for_directory` returns the number of items that are not deleted before the
-- first item that starts with a zero, for a directory that has one at a position that is an `int`.
pub total_items-live :
    (byte : ℕ → ℕ) (c : Controller) (sector n : ℕ)
    → IsDisk byte c
    → sector * 512 + item_size * n + item_size < 2 ^ 31
    → EndsAfter byte (sector * 512) n
    → fat16_get_total_items_for_directory c sector ≡ some (pos (live_items byte (sector * 512) n))
unfolding fat16_get_total_items_for_directory
total_items-live byte c sector n d l e =
    let w : sector * 512 % 2 ^ 32 ≡ sector * 512 = omega arith in
    let k : 0 + live_items byte (sector * 512) n ≡ live_items byte (sector * 512) n = omega arith in
    rw w (
      count_items_lem byte c max_rounds n (sector * 512) 0 d (omega arith) (omega arith)
        (omega arith) e
      ∙ ap (λ i. some (pos i)) k)
