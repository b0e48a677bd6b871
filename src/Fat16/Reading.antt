-- ===== src/Fat16/Reading.antt =====
-- src/fs/fat/fat16.c: what a read of a file gives.
use mathlib.Core.List.{append_assoc}
use native.Mathlib.Nat.{add-mod_right, lt-div-mul-add}
use tmp_os.Base.{
  ℕ, zero, suc, ◌+◌, ◌-◌, ◌*◌, ◌/◌, ◌%◌, ◌^◌, ◌<◌, ◌≤◌, ◌≡◌, refl, sym, ◌∙◌, ap, ◌==◌, true, false,
  some, List, [], ◌∷◌, ◌++◌, arith, ltb, if◌then◌else◌, length, take, drop, length-append,
  Bool-cases, inl, inr,
}
use tmp_os.Base.Int.{pos}
use tmp_os.Disk.{Controller}
use tmp_os.Disk.Sector.{IsDisk, slice}
use tmp_os.Disk.Streamer.{sector_size}
use tmp_os.Disk.Stream.{at}
use tmp_os.Fat16.{FatPrivate, seek_and_read, fat16_get_cluster_for_offset, fat16_cluster_to_sector}
use tmp_os.Fat16.Clusters.{seek_and_read_lem}
use tmp_os.Fat16.Items.{overwrite, read_clusters, fat16_read_internal}
use tmp_os.Fat16.Resolving.{length-slice, whole_sectors}
use tmp_os.Fat16.Lookup.{drop-drop}

abbrev pub cluster_size : FatPrivate → ℕ
cluster_size private = private.header.sectors_per_cluser * sector_size

abbrev pub cluster_start : FatPrivate → ℕ → ℕ
cluster_start private cluster = fat16_cluster_to_sector private cluster * sector_size

-- `chain` gives the cluster for every offset below `limit` as the code finds it, and their bytes
-- have positions that are `int`s.
pub record IsChain (c : Controller) (private : FatPrivate) (cluster : ℕ) (chain : ℕ → ℕ) (limit : ℕ)
    : Type 0 where
  pub leads :
      (o : ℕ) → o < limit → fat16_get_cluster_for_offset c private cluster o ≡ some (pos (chain o))
  pub inside : (o : ℕ) → o < limit → cluster_start private (chain o) + cluster_size private < 2 ^ 31

-- The first `total` bytes of the clusters from offset `o` on, of at most so many clusters.
unfoldable pub chain_bytes : (ℕ → ℕ) → FatPrivate → (ℕ → ℕ) → ℕ → ℕ → ℕ → List ℕ
chain_bytes byte private chain zero o total = []
chain_bytes byte private chain (suc n) o total =
    let size = cluster_size private in
    let rest = chain_bytes byte private chain n (o + size) (total - size) in
    if ltb size total
    then slice byte (cluster_start private (chain o)) size ++ rest
    else slice byte (cluster_start private (chain o)) total

position_lem : (s r : ℕ) → r ≡ 0 → s * 512 < 2 ^ 32 → (s * 512 + r) % 2 ^ 32 ≡ s * 512
position_lem s r e h = omega (arith, e)

take-append : (xs ys : List ℕ) → take (length xs) (xs ++ ys) ≡ xs
take-append [] ys = refl
take-append (x ∷ xs) ys = ap (λ l. x ∷ l) (take-append xs ys)

drop-append : (xs ys : List ℕ) → drop (length xs) (xs ++ ys) ≡ ys
drop-append [] ys = refl
drop-append (x ∷ xs) ys = drop-append xs ys

-- A write and then another behind it.
overwrite_append :
    (xs ys mem : List ℕ) (n : ℕ)
    → length xs ≡ n
    → take n (overwrite xs mem) ++ overwrite ys (drop n (overwrite xs mem))
      ≡ overwrite (xs ++ ys) mem
overwrite_append xs ys mem n e =
    let t : take n (overwrite xs mem) ≡ xs =
      ap (λ k. take k (overwrite xs mem)) (sym e) ∙ take-append xs (drop (length xs) mem) in
    let d : drop n (overwrite xs mem) ≡ drop (length xs) mem =
      ap (λ k. drop k (overwrite xs mem)) (sym e) ∙ drop-append xs (drop (length xs) mem) in
    rw (t, d, drop-drop (length ys) (length xs) mem, length-append xs ys)
      (sym (append_assoc xs ys (drop (length xs + length ys) mem)))

module _ (byte : ℕ → ℕ) (c : Controller) (private : FatPrivate) (cluster : ℕ) (chain : ℕ → ℕ)
    (limit : ℕ) (is_disk : IsDisk byte c) (is_chain : IsChain c private cluster chain limit) where
  cluster_read :
      (o n : ℕ)
      → o < limit
      → o % cluster_size private ≡ 0
      → n ≤ cluster_size private
      → let p = cluster_start private (chain o) in
        seek_and_read c ((p + o % cluster_size private) % 2 ^ 32) n
        ≡ some (record { res = pos 0; stream = at (p + n); out = slice byte p n })
  cluster_read o n l m h =
      let s = fat16_cluster_to_sector private (chain o) in
      let fits = is_chain.inside o l in
      rw (position_lem s (o % cluster_size private) m (omega (arith, fits))) (
        seek_and_read_lem byte c (s * 512) n is_disk (omega (arith, fits))
        ∙ ap
            (λ k.
              some
                (record { res = pos 0; stream = at (s * 512 + k); out = slice byte (s * 512) k }))
            (whole_sectors s n))

  one_cluster :
      (f o total : ℕ) (mem : List ℕ)
      → o < limit
      → o % cluster_size private ≡ 0
      → ltb (cluster_size private) total ≡ false
      → read_clusters c private (suc f) cluster o total mem
        ≡ some (pos 0, overwrite (slice byte (cluster_start private (chain o)) total) mem)
  unfolding read_clusters
  one_cluster f o total mem l m e =
      let last : ltb 0 (total - total) ≡ false = ground arith in
      rw (is_chain.leads o l, e, cluster_read o total l m (ground arith), e, last, read_clusters)
        refl

  more_clusters :
      (f o total : ℕ) (mem rest : List ℕ)
      → o < limit
      → o % cluster_size private ≡ 0
      → ltb (cluster_size private) total ≡ true
      → read_clusters c private f cluster
          (o + cluster_size private)
          (total - cluster_size private)
          (drop
            (cluster_size private)
            (overwrite (slice byte (cluster_start private (chain o)) (cluster_size private)) mem))
        ≡ some (
          pos 0,
          overwrite rest (
              drop (cluster_size private) (
                overwrite
                  (slice byte (cluster_start private (chain o)) (cluster_size private))
                  mem)),
        )
      → read_clusters c private (suc f) cluster o total mem
        ≡ some (
          pos 0,
          overwrite
              (slice byte (cluster_start private (chain o)) (cluster_size private) ++ rest)
              mem,
        )
  unfolding read_clusters
  more_clusters f o total mem rest l m e tail =
      let size = cluster_size private in
      let bytes = slice byte (cluster_start private (chain o)) size in
      let again : ltb 0 (total - size) ≡ true = ground arith in
      rw
        (
          is_chain.leads o l,
          e,
          cluster_read o size l m (omega arith),
          e,
          again,
          e,
          tail,
          e,
          read_clusters,
        )
        (ap (λ mem'. some (pos 0, mem'))
          (overwrite_append bytes rest mem size
            (length-slice byte (cluster_start private (chain o)) size)))

  pub read_clusters-chain_bytes :
      (f o total : ℕ) (mem : List ℕ)
      → o % cluster_size private ≡ 0
      → 0 < total
      → o + total ≤ limit
      → total ≤ f * cluster_size private + cluster_size private
      → read_clusters c private (suc f) cluster o total mem
        ≡ some (pos 0, overwrite (chain_bytes byte private chain (suc f) o total) mem)
  unfolding chain_bytes
  read_clusters-chain_bytes zero o total mem m p l b =
      let e : ltb (cluster_size private) total ≡ false = ground arith in
      rw e (one_cluster 0 o total mem (omega arith) m e)
  read_clusters-chain_bytes (suc f) o total mem m p l b =
      let size = cluster_size private in
      elim (Bool-cases (ltb size total)) [
        | inr e ↦ rw e (one_cluster (suc f) o total mem (omega arith) m e)
        | inl e ↦
            let bytes = slice byte (cluster_start private (chain o)) size in
            let product : suc f * size ≡ f * size + size = grind arith in
            let tail =
              read_clusters-chain_bytes f (o + size) (total - size)
                (drop size (overwrite bytes mem)) (add-mod_right o size ∙ m) (ground arith)
                (ground arith) (ground arith) in
            rw e (
              more_clusters (suc f) o total mem
                (chain_bytes byte private chain (suc f) (o + size) (total - size)) (omega arith) m e
                tail)
      ]

  -- A read of `total` bytes from the start of a cluster on gives the bytes of the clusters that
  -- `fat16_get_cluster_for_offset` finds, in their order, and writes no other.
  pub read_internal-chain_bytes :
      (o total : ℕ) (mem : List ℕ)
      → 0 < cluster_size private
      → o % cluster_size private ≡ 0
      → 0 < total
      → o + total ≤ limit
      → fat16_read_internal c private cluster o total mem
        ≡ some (
          pos 0,
          overwrite
              (chain_bytes byte private chain (suc (total / cluster_size private)) o total)
              mem,
        )
  unfolding fat16_read_internal
  read_internal-chain_bytes o total mem z m p l =
      let n : total / cluster_size private + 1 ≡ suc (total / cluster_size private) = omega arith in
      let some_size : (cluster_size private == 0) ≡ false = ground arith in
      let enough = lt-div-mul-add {a = total} z in
      rw (some_size, n, fat16_read_internal)
        (read_clusters-chain_bytes (total / cluster_size private) o total mem m p l
          (omega (arith, enough)))
