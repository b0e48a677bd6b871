-- ===== src/Disk/Streamer.antt =====
-- src/disk/streamer.c: reading a disk from any byte on. A position and a number of bytes are `int`s
-- of the code that are not negative; `none`: the position overflows.
use tmp_os.Base.{
  ℕ, zero, suc, ◌+◌, ◌-◌, ◌/◌, ◌%◌, ◌^◌, Option, none, some, List, [], ◌++◌, ltb, leb,
  if◌then◌else◌, take, drop,
}
use tmp_os.Base.Int.{ℤ, pos}
use tmp_os.Base.Errno.{neg_eio}
use tmp_os.Disk.{Controller, DiskRef, disk_get, disk_read_block}

abbrev pub sector_size : ℕ
sector_size = 512

-- `struct disk_stream`
pub record DiskStream : Type 0 where
  pub position : ℕ
  pub disk : DiskRef

-- With memory for the stream, which the code does not check.
unfoldable pub disk_streamer_new : ℕ → Option DiskStream
unfolding disk_get
disk_streamer_new disk_id = elim (disk_get disk_id) [
  | none ↦ none
  | some d ↦ some (record { position = 0; disk = d })
]

unfoldable pub disk_stream_seek : DiskStream → ℕ → ℤ × DiskStream
disk_stream_seek s p = (pos 0, record s { position = p })

-- A call's result, the stream behind it and what it wrote through `out`.
pub record Read : Type 0 where
  pub res : ℤ
  pub stream : DiskStream
  pub out : List ℕ

-- `total_to_read`, behind the guard on the end of the sector.
unfoldable pub total_to_read : ℕ → ℕ → ℕ
total_to_read offset total =
    let want = if ltb sector_size total then sector_size else total in
    if leb sector_size (offset + want) then want - (offset + want - sector_size) else want

-- A round of the recursion takes a sector's size from `total`.
unfoldable pub read_rounds : Controller → ℕ → DiskStream → ℕ → Option Read
read_rounds c zero s total = none
read_rounds c (suc f) s total =
    let offset = s.position % sector_size in
    let n = total_to_read offset total in
    let s' = record s { position = s.position + n } in
    let rest = read_rounds c f s' (total - sector_size) in
    elim (disk_read_block c s.disk (s.position / sector_size) 1) [
      | none ↦ some (record { res = neg_eio; stream = s; out = [] })
      | some buf ↦
          let got = take n (drop offset buf) in
          if leb (2 ^ 31) s'.position
          then none
          else if ltb sector_size total
          then (elim rest [ none ↦ none | some r ↦ some (record r { out = got ++ r.out }) ])
          else some (record { res = pos 0; stream = s'; out = got })
    ]

unfoldable pub disk_stream_read : Controller → DiskStream → ℕ → Option Read
disk_stream_read c s total = read_rounds c (total / sector_size + 1) s total

-- The first round is that of a read, and the others are a read: nothing is written to the disk.
unfoldable pub disk_stream_write : Controller → DiskStream → ℕ → Option Read
disk_stream_write c s total =
    let offset = s.position % sector_size in
    let n = total_to_read offset total in
    let s' = record s { position = s.position + n } in
    let rest = disk_stream_read c s' (total - sector_size) in
    elim (disk_read_block c s.disk (s.position / sector_size) 1) [
      | none ↦ some (record { res = neg_eio; stream = s; out = [] })
      | some buf ↦
          let got = take n (drop offset buf) in
          if leb (2 ^ 31) s'.position
          then none
          else if ltb sector_size total
          then (elim rest [ none ↦ none | some r ↦ some (record r { out = got ++ r.out }) ])
          else some (record { res = pos 0; stream = s'; out = got })
    ]
