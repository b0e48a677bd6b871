-- ===== src/Fat16/Seeking.antt =====
-- src/fs/fat/fat16.c: where `fat16_seek` lets a file be.
use tmp_os.Base.{
  ℕ, ◌+◌, ◌-◌, ◌%◌, ◌^◌, ◌<◌, ◌≤◌, ◌≡◌, refl, ◌==◌, true, false, some, List, arith, ltb,
  if◌then◌else◌,
}
use tmp_os.Base.Int.{pos, add32}
use tmp_os.Base.Errno.{neg_eio, neg_einvarg, neg_eunimp}
use tmp_os.Fat16.Items.{filesize}
use tmp_os.Fat16.Operations.{fat16_seek, seek_set, seek_cur, seek_end}
use tmp_os.Fat16.Opening.{file_at}

-- `fat16_seek` in a file that is not empty moves to every offset up to 2 ^ 32 minus its size, far
-- behind its end, from the start or from the position, where the word may wrap around; the other
-- modes fail and change nothing.
pub seek_past_end :
    (item : List ℕ) (p offset mode : ℕ)
    → 0 < filesize item
    → filesize item < 2 ^ 32
    → offset + filesize item ≤ 2 ^ 32
    → fat16_seek (file_at item p) offset mode
      ≡ some (
          if mode == seek_set
          then (pos 0, file_at item offset)
          else if mode == seek_end
          then (neg_eunimp, file_at item p)
          else if mode == seek_cur
          then (pos 0, file_at item (add32 p offset))
          else (neg_einvarg, file_at item p))
unfolding fat16_seek
seek_past_end item p offset mode z l h =
    let e : ltb ((2 ^ 32 - filesize item) % 2 ^ 32) offset ≡ false = ground arith in
    rw (e, fat16_seek) refl

-- In an empty file it accepts no offset but 0.
pub seek_empty :
    (item : List ℕ) (p offset mode : ℕ)
    → filesize item ≡ 0
    → 0 < offset
    → fat16_seek (file_at item p) offset mode ≡ some (neg_eio, file_at item p)
unfolding fat16_seek
seek_empty item p offset mode z l =
    let e : ltb ((2 ^ 32 - filesize item) % 2 ^ 32) offset ≡ true = ground arith in
    rw (e, fat16_seek) refl
