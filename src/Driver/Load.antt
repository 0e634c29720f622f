-- ===== src/Driver/Load.antt =====
-- cromfs.cc and lib/longfileread.hh: reading and decompressing parts of the image.
use cromfs.Base.{
  ℕ, zero, suc, ◌+◌, ◌-◌, ◌^◌, Bool, ◌&&◌, ◌||◌, List, [], ◌∷◌, ◌++◌, length, get_elem?, take, drop,
}
use cromfs.Base.{
  ltb, leb, ◌==◌, if◌then◌else◌, none, some, ok, throw, fault, ebadf, einval, enodata,
}
use cromfs.Base.{Result, throw_if}
use cromfs.Base
use cromfs.Base.Bytes.{Bytes}
use cromfs.Endian.{get_32, get_64}
use cromfs.Format.{has_opt, opt_sparse_fblocks}
use cromfs.BlockTable.{decode_block_table}
use cromfs.Driver.{Fs, Fblock, LzmaDecode, M, ◌>>=◌, ◌>>◌, return, raise, lift, get, set_state}
use cromfs.Driver.{undefined}

abbrev pub lzma_props_size : ℕ
lzma_props_size = 5

-- `LongFileRead(fd, pos, size)`: the bytes of a mapping. Behind the end of the file a mapping has
-- no bytes that the program could rely on.
unfoldable pub long_file_read : Bytes → ℕ → ℕ → Result Bytes
long_file_read image pos size =
    if leb (pos + size) (length image) then ok (take size (drop pos image)) else fault

-- SZ_OK is 0; the two statuses of a finished stream are 1 and 4.
unfoldable pub lzma_decompress : LzmaDecode → Bytes → Result Bytes
lzma_decompress decode buf =
    let header = lzma_props_size + 8 in
    let out_sizemax = get_64 buf lzma_props_size in
    let checked = λ (size : ℕ).
      let r = decode (take header buf) size (drop header buf) in
      if (r.res == 0)
        && (((r.status == 1) || (r.status == 4))
            && ((r.in_done == length buf - header) && (length r.out == size)))
      then ok r.out
      else throw ebadf in
    if leb (length buf) header
    then throw ebadf
    else Base.◌>>=◌ out_sizemax
        (λ size. if leb (2 ^ 64 - 1) size then throw ebadf else checked size)

unfoldable pub do_lzma_loading : LzmaDecode → Bytes → ℕ → ℕ → Result Bytes
do_lzma_loading decode image pos size =
    Base.◌>>=◌ (long_file_read image pos size) (lzma_decompress decode)

module _ (decode : LzmaDecode) where
  -- The fblock's data depend on the image and the fblock table only.
  unfoldable pub load_fblock : Bytes → List Fblock → ℕ → Result Bytes
  load_fblock image fblktab fblocknum = elim (get_elem? fblktab fblocknum) [
    | none ↦ throw enodata
    | some fblock ↦ do_lzma_loading decode image fblock.filepos fblock.length
  ]

  abbrev pub read_fblock_uncached : ℕ → Fs → Result Bytes
  read_fblock_uncached fblocknum fs = load_fblock fs.image fs.fblktab fblocknum

  unfoldable pub forget_blktab : M (Unit {0})
  forget_blktab = do fs ← get; set_state (record fs { blktab = [] })

  unfoldable pub reread_blktab : M (Unit {0})
  reread_blktab = do
    fs ← get
    blktab_data ← lift (do_lzma_loading decode fs.image fs.sblock.blktab_offs fs.sblock.blktab_size)
    blktab ← lift (decode_block_table blktab_data fs.sblock.fsize fs.storage_opts)
    set_state (record fs { blktab = blktab })

-- The distance to the next fblock.
abbrev pub fblock_room : Fs → ℕ → ℕ
fblock_room fs size =
    if has_opt fs.storage_opts opt_sparse_fblocks then 4 + fs.sblock.fsize else 4 + size

-- The loop of `reread_fblktab`. Each round moves `startpos` by 4 at least, so that as many rounds
-- as the file has bytes are enough; to run out of `fuel` would be `undefined`.
unfoldable pub fblktab_loop : ℕ → ℕ → M (Unit {0})
fblktab_loop zero startpos = λ fs. undefined
fblktab_loop (suc fuel) startpos = do
  fs ← get
  let add : ℕ → M (Unit {0}) = λ size. do
    let fblock : Fblock = record { filepos = startpos + 4; length = size }
    set_state (record fs { fblktab = fs.fblktab ++ (fblock ∷ []) })
    fblktab_loop fuel (startpos + fblock_room fs size)
  let round = do
    buf ← lift (long_file_read fs.image startpos (4 + lzma_props_size + 8))
    size ← lift (get_32 buf 0)
    if leb size (lzma_props_size + 8) then raise einval else add size
  if ltb (startpos + (4 + lzma_props_size + 8)) (length fs.image) then round else return tt

unfoldable pub reread_fblktab : M (Unit {0})
reread_fblktab = do
  fs ← get
  set_state (record fs { fblktab = [] })
  fblktab_loop (length fs.image + 1) fs.sblock.fblktab_offs
