-- ===== src/Driver/Read.antt =====
-- cromfs.cc: reading the data of a file.
use cromfs.Base.{
  ℕ, zero, suc, ◌+◌, ◌-◌, ◌*◌, ◌/◌, ◌%◌, ◌^◌, min, bit_and, bit_or, List, [], ◌∷◌, ◌++◌,
}
use cromfs.Base.{
  Bool, true, false, Option, none, some, length, get_elem?, set, take, drop, replicate, ltb, leb,
  ◌==◌,
}
use cromfs.Base.{if◌then◌else◌, Result, ok, fault, or_fault, not}
use cromfs.Base
use cromfs.Base.Int.{negsuc}
use cromfs.Base.Bytes.{Bytes}
use cromfs.Inode.{Inode}
use cromfs.BlockTable.{Block}
use cromfs.Cache
use cromfs.Driver.{Fs, LzmaDecode, M, undefined, ◌>>=◌, ◌>>◌, return, lift, get, set_state, time}
use cromfs.Driver.Load.{read_fblock_uncached, reread_blktab}
use cromfs.Base.Bytes.{memcpy}

-- The second half of `read_block`, which copies from a decompressed fblock.
unfoldable pub copy_block : Bytes → ℕ → Bytes → ℕ → ℕ → Result Bytes
copy_block fblock startoffs target pos size =
    let bytes = min (length fblock - startoffs) size in
    if ltb startoffs (length fblock)
    then memcpy target pos (take bytes (drop startoffs fblock))
    else ok target

-- A part of a read that lies in one block: where it starts in the file and in the block, its
-- length, the number of the block and of the fblock that has it.
pub record Chunk : Type 0 where
  pub pos : ℕ
  pub block_offset : ℕ
  pub bytes : ℕ
  pub blocknum : ℕ
  pub fblocknum : ℕ

abbrev pub chunk_of : Inode → ℕ → ℕ → ℕ → Block → Chunk
chunk_of inode pos endpos blocknum block = record {
  pos = pos;
  block_offset = pos % inode.blocksize;
  bytes = min (endpos - pos) (inode.blocksize - pos % inode.blocksize);
  blocknum = blocknum;
  fblocknum = block.fblocknum;
}

-- The first half of a round of both loops. `none` is the `break` on a block index behind the block
-- list or a block number behind the block table; a block size of 0 is a division by zero.
unfoldable pub next_chunk : Inode → List Block → ℕ → ℕ → Result (Option Chunk)
next_chunk inode blktab pos endpos =
    let in_table : ℕ → Option Chunk = λ blocknum. elim (get_elem? blktab blocknum) [
      | none ↦ none
      | some b ↦ some (chunk_of inode pos endpos blocknum b)
    ] in
    let found : Option Chunk = elim (get_elem? inode.blocklist (pos / inode.blocksize)) [
      | none ↦ none
      | some b ↦ in_table b
    ] in
    if inode.blocksize == 0 then fault else ok found

-- `1U << n`, on 32 bits: a shift by 32 or more is undefined behaviour.
unfoldable pub shift_1u : ℕ → Result ℕ
shift_1u n = if ltb n 32 then ok (2 ^ n) else fault

abbrev pub bitset_bitness : ℕ
bitset_bitness = 64

-- The fblocks that a read needs, those in the cache and the others, and the bit set of both.
pub record Required : Type 0 where
  pub bits : List ℕ
  pub cached : List ℕ
  pub uncached : List ℕ

-- An fblock joins the list of cached or of other fblocks, and the bit set is `bits` now.
unfoldable pub add_required : Fs → ℕ → List ℕ → Required → Required
add_required fs fblocknum bits req =
    if Cache.has fblocknum fs.fblock_cache
    then record req { bits = bits; cached = req.cached ++ (fblocknum ∷ []) }
    else record req { bits = bits; uncached = req.uncached ++ (fblocknum ∷ []) }

-- The second half of a round of the first loop of `read_file_data`.
unfoldable pub require : Fs → ℕ → Required → Result Required
require fs fblocknum req =
    let index = fblocknum / bitset_bitness in
    let add =
      λ (bit word : ℕ). add_required fs fblocknum (set req.bits index (bit_or word bit)) req in
    if ltb fblocknum (length fs.fblktab)
    then Base.◌>>=◌ (shift_1u (fblocknum % bitset_bitness)) (λ bit.
      Base.◌>>=◌ (or_fault (get_elem? req.bits index))
        (λ word. ok (if bit_and word bit == 0 then add bit word else req)))
    else ok req

-- The first loop of `read_file_data`. A round moves `pos` by 1 at least, so that `endpos - pos`
-- rounds are enough; to run out of `fuel` would be a `fault`.
unfoldable pub collect : Fs → Inode → ℕ → ℕ → ℕ → Required → Result Required
collect fs inode zero pos endpos req = if ltb pos endpos then fault else ok req
collect fs inode (suc fuel) pos endpos req =
    let round = Base.◌>>=◌ (next_chunk inode fs.blktab pos endpos) (λ found. elim found [
      | none ↦ ok req
      | some c ↦
          Base.◌>>=◌ (require fs c.fblocknum req)
            (λ req'. collect fs inode fuel (pos + c.bytes) endpos req')
    ]) in
    if ltb pos endpos then round else ok req

module _ (decode : LzmaDecode) where
  -- What follows the call of `Find`. Only a hit looks at the clock in `Find`.
  unfoldable pub read_found : ℕ → Fs → Cache.Cache Bytes × Option Bytes → M Bytes
  read_found fblocknum fs (cache, some b) = do
    set_state (record fs { fblock_cache = cache; ticks = fs.ticks + 1 })
    return b
  read_found fblocknum fs (cache, none) = do
    b ← lift (read_fblock_uncached decode fblocknum fs)
    put_now ← time
    fs' ← get
    set_state (record fs' { fblock_cache = Cache.put put_now fblocknum b fs'.fblock_cache })
    return b

  unfoldable pub read_fblock : ℕ → M Bytes
  read_fblock fblocknum = do
    fs ← get
    read_found fblocknum fs (Cache.find (fs.clock fs.ticks) fblocknum fs.fblock_cache)

  -- `if(blktab.empty()) reread_blktab();`
  unfoldable pub fill_blktab : List Block → M (Unit {0})
  fill_blktab [] = reread_blktab decode
  fill_blktab (b ∷ bs) = return tt

  unfoldable pub ensure_blktab : M (Unit {0})
  ensure_blktab = do fs ← get; fill_blktab fs.blktab

  unfoldable pub read_block : ℕ → ℕ → Bytes → ℕ → ℕ → M Bytes
  read_block ind offset target pos size = do
    ensure_blktab
    fs ← get
    block ← lift (or_fault (get_elem? fs.blktab ind))
    fblock ← read_fblock block.fblocknum
    lift (copy_block fblock (block.startoffs + offset) target pos size)

  -- The loop of `read_file_data_from_one_fblock_only`, with the target and the result so far.
  unfoldable pub one_fblock_loop : ℕ → Inode → ℕ → ℕ → ℕ → ℕ → Bytes → ℕ → M (Bytes × ℕ)
  one_fblock_loop zero inode offset allowed pos endpos target result =
      if ltb pos endpos then (λ fs. undefined) else return (target, result)
  one_fblock_loop (suc fuel) inode offset allowed pos endpos target result =
      let loop = one_fblock_loop fuel inode offset allowed in
      let visit : Chunk → M (Bytes × ℕ) = λ c.
        if c.fblocknum == allowed
        then (read_block c.blocknum c.block_offset target (pos - offset) c.bytes >>= λ target'.
            loop (pos + c.bytes) endpos target' (result + c.bytes))
        else loop (pos + c.bytes) endpos target result in
      let round = (do
        fs ← get
        found ← lift (next_chunk inode fs.blktab pos endpos)
        elim found [ none ↦ return (target, result) | some c ↦ visit c ]) in
      if ltb pos endpos then round else return (target, result)

  unfoldable pub read_file_data_from_one_fblock_only : Inode → ℕ → Bytes → ℕ → ℕ → M (Bytes × ℕ)
  read_file_data_from_one_fblock_only inode offset target size allowed =
      let pos = min inode.bytesize offset in
      let endpos = min inode.bytesize ((offset + size) % 2 ^ 64) in
      one_fblock_loop (endpos - pos) inode offset allowed pos endpos target 0

  -- The two parallel loops, one after the other: each round reads another fblock's data.
  unfoldable pub read_fblocks : List ℕ → Inode → ℕ → Bytes → ℕ → ℕ → M (Bytes × ℕ)
  read_fblocks [] inode offset target size result = return (target, result)
  read_fblocks (allowed ∷ rest) inode offset target size result = do
    (target', num_read) ← read_file_data_from_one_fblock_only inode offset target size allowed
    read_fblocks rest inode offset target' size (result + num_read)

  unfoldable pub check_fblock_ages : M (Unit {0})
  check_fblock_ages = do
    now ← time
    fs ← get
    cache ← lift (Cache.check_ages now (negsuc 0) fs.fblock_cache)
    set_state (record fs { fblock_cache = cache })

  unfoldable pub read_file_data : Inode → ℕ → Bytes → ℕ → M (Bytes × ℕ)
  read_file_data inode offset target size = do
    ensure_blktab
    fs ← get
    let words = (length fs.fblktab + bitset_bitness - 1) / bitset_bitness
    let pos = min inode.bytesize offset
    let endpos = min inode.bytesize ((offset + size) % 2 ^ 64)
    let none_yet : Required = record { bits = replicate words 0; cached = []; uncached = [] }
    req ← lift (collect fs inode (endpos - pos) pos endpos none_yet)
    (target', result) ← read_fblocks (req.cached ++ req.uncached) inode offset target size 0
    check_fblock_ages
    return (target', result)
