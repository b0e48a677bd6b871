-- ===== src/Fat16/Opening.antt =====
-- src/fs/fat/fat16.c: what `fat16_open` and `fat16_read` give.
use native.Mathlib.Nat.{zero-mod}
use tmp_os.Base.{
  take-append-drop, ℕ, suc, ◌/◌, ◌<◌, ◌≡◌, ◌≢◌, refl, true, ap, ◌==◌, false, some, List, [], ◌∷◌,
  arith, take,
}
use tmp_os.Base.Int.{pos}
use tmp_os.Disk.{Controller}
use tmp_os.Disk.Sector.{IsDisk}
use tmp_os.File.{opened, file_read}
use tmp_os.Fat16.{FatPrivate}
use tmp_os.Fat16.Items.{item_size, overwrite, first_cluster_of}
use tmp_os.Fat16.Directory.{file_item, fat16_get_directory_entry, walk}
use tmp_os.Fat16.Operations.{
  Handle, descriptor, plain_number, fat16_open, fat16_read, read_items, erdonly,
}
use tmp_os.Fat16.Lookup.{LastMatch, nth_item, find_item-LastMatch}
use tmp_os.Fat16.Reading.{IsChain, chain_bytes, cluster_size, read_internal-chain_bytes}

-- An open file at a position.
abbrev pub file_at : List ℕ → ℕ → Handle
file_at item p = descriptor (record { item = file_item item; position = p })

-- `fat16_open` for reading, with a path of one part, gives a descriptor at position 0 of the last
-- of the items of the root directory that has the part as its name.
pub open-LastMatch :
    (c : Controller) (private : FatPrivate) (part : List ℕ) (j : ℕ)
    → LastMatch private.root_dir.item part private.root_dir.total j
    → fat16_open true c private (part ∷ []) file_read
      ≡ some (opened (file_at (take item_size (nth_item private.root_dir.item j)) 0))
unfolding fat16_open fat16_get_directory_entry walk
open-LastMatch c private part j m =
    rw (find_item-LastMatch c private private.root_dir part j m, fat16_open) refl

-- A mode other than for reading does not fail: whatever the path is, `fat16_open` returns the
-- address 6, which is not an error to the file layer, and the other operations then use it.
pub open-plain_number :
    (c : Controller) (private : FatPrivate) (path : List (List ℕ)) (mode : ℕ)
    → mode ≢ file_read
    → fat16_open true c private path mode ≡ some (opened (plain_number erdonly))
unfolding fat16_open
open-plain_number c private path mode ne =
    let e : (mode == file_read) ≡ false = ground arith in rw (e, fat16_open) refl

-- `fat16_read` of one item of `size` bytes at position 0 gives the first bytes of the file's
-- clusters and returns 1, and the position stays at 0.
pub read-chain_bytes :
    (byte : ℕ → ℕ) (c : Controller) (private : FatPrivate) (item : List ℕ) (chain : ℕ → ℕ)
    (size : ℕ) (mem : List ℕ)
    → IsDisk byte c
    → IsChain c private (first_cluster_of item) chain size
    → 0 < cluster_size private
    → 0 < size
    → fat16_read c private (file_at item 0) size 1 mem
      ≡ some (
        pos 1,
        file_at item 0,
        overwrite (chain_bytes byte private chain (suc (size / cluster_size private)) 0 size) mem,
      )
unfolding fat16_read read_items
read-chain_bytes byte c private item chain size mem d k z p =
    let whole =
      read_internal-chain_bytes byte c private (first_cluster_of item) chain size d k 0 size mem z
        (zero-mod (cluster_size private)) p (omega arith) in
    rw (whole, fat16_read)
      (ap (λ m. some (pos 1, file_at item 0, m))
        (take-append-drop size (
          overwrite (chain_bytes byte private chain (suc (size / cluster_size private)) 0 size)
            mem)))
