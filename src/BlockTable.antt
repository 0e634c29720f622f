-- ===== src/BlockTable.antt =====
-- lib/cromfs-blockfun.hh and .cc: the block table, a list of data locators. Compression is done by
-- the callers.
pub mod Loops
pub mod RoundTrip
mod Tests
use cromfs.Base.{ℕ, zero, suc, ◌+◌, ◌*◌, ◌/◌, ◌%◌, ◌^◌, List, [], ◌∷◌, length, replicate, ◌==◌}
use cromfs.Base.{if◌then◌else◌, Result, ok, fault, ◌>>=◌}
use cromfs.Base.Bytes.{Bytes}
use cromfs.Endian.{get_32, put_32}
use cromfs.Format.{has_opt, opt_packed_blocks, datalocator_size_bytes}

-- `cromfs_block_internal`
pub record Block : Type 0 where
  pub fblocknum : ℕ
  pub startoffs : ℕ

-- The bodies of the two loops of `EncodeBlockTable`; `put_32` keeps 32 bits of the sum.
pub put_packed : ℕ → Bytes → ℕ → Block → Result Bytes
put_packed fsize raw p block = put_32 raw p (block.fblocknum * fsize + block.startoffs)

unfoldable pub put_plain : Bytes → ℕ → Block → Result Bytes
put_plain raw p block = do raw ← put_32 raw p block.fblocknum; put_32 raw (p + 4) block.startoffs

-- `for(unsigned a=0; a<blocks.size(); ++a)` on the blocks not yet stored; `a*onesize` has 32 bits.
unfoldable pub put_locators :
    (Bytes → ℕ → Block → Result Bytes) → ℕ → Bytes → ℕ → List Block → Result Bytes
put_locators put onesize raw a [] = ok raw
put_locators put onesize raw a (block ∷ blocks) = do
  raw ← put raw (a * onesize % 2 ^ 32) block
  put_locators put onesize raw (a + 1) blocks

unfoldable pub encode_block_table : List Block → ℕ → ℕ → Result Bytes
encode_block_table blocks storage_opts fsize =
    let onesize = datalocator_size_bytes storage_opts in
    let raw = replicate (length blocks * onesize) 0 in
    if has_opt storage_opts opt_packed_blocks
    then put_locators (put_packed fsize) onesize raw 0 blocks
    else put_locators put_plain onesize raw 0 blocks

-- The bodies of the two loops of `DecodeBlockTable`; a division by zero is undefined behaviour.
pub get_packed : ℕ → Bytes → ℕ → Result Block
get_packed fsize raw p = do
  value ← get_32 raw p
  if fsize == 0 then fault else ok (record { fblocknum = value / fsize; startoffs = value % fsize })

pub get_plain : Bytes → ℕ → Result Block
get_plain raw p = do
  fblocknum ← get_32 raw p
  startoffs ← get_32 raw (p + 4)
  ok (record { fblocknum = fblocknum; startoffs = startoffs })

-- `for(long a=0; a < size; ++a)` with `n` rounds left; the rounds, which run in parallel, each
-- define an element of their own.
pub get_locators : (Bytes → ℕ → Result Block) → ℕ → Bytes → ℕ → ℕ → Result (List Block)
get_locators get onesize raw zero a = ok []
get_locators get onesize raw (suc n) a = do
  block ← get raw (a * onesize)
  blocks ← get_locators get onesize raw n (a + 1)
  ok (block ∷ blocks)

pub decode_block_table : Bytes → ℕ → ℕ → Result (List Block)
decode_block_table blktab_data fsize storage_opts =
    let onesize = datalocator_size_bytes storage_opts in
    let size = length blktab_data / onesize in
    if has_opt storage_opts opt_packed_blocks
    then get_locators (get_packed fsize) onesize blktab_data size 0
    else get_locators get_plain onesize blktab_data size 0
