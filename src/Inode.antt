-- ===== src/Inode.antt =====
-- lib/cromfs-inodefun.cc and .hh: inodes in memory and in the inode table.
-- A vector that cannot be allocated (std::bad_alloc) is outside the model.
pub mod Sizes
pub mod Blocks
pub mod Layout
pub mod RoundTrip
pub mod Special
pub mod Header
mod Tests
pub mod Links
use cromfs.Base.{ℕ, zero, suc, ◌+◌, ◌-◌, ◌*◌, ◌/◌, ◌%◌, ◌^◌, Bool, true, false, ◌&&◌, ◌||◌, bit_and}
use cromfs.Base.{List, [], ◌∷◌, length, set, take, replicate, ◌++◌, ltb, ◌==◌, if◌then◌else◌}
use cromfs.Base.{Result, ok, fault, eio, throw_if, ◌>>=◌, ◌>>◌}
use cromfs.Base.Bytes.{Bytes}
use cromfs.Endian.{get_16, get_32, get_64, get_n, put_16, put_32, put_64, put_n}
use cromfs.Format.{has_opt, opt_variable_blocksizes, blocknum_size_bytes, inode_header_size}
use cromfs.Format.{inode_size_bytes, s_ischr, s_isblk}

-- `cromfs_inode_internal`
pub record Inode : Type 0 where
  pub mode : ℕ
  pub time : ℕ
  pub links : ℕ
  pub rdev : ℕ
  pub uid : ℕ
  pub gid : ℕ
  pub bytesize : ℕ
  pub blocksize : ℕ
  pub blocklist : List ℕ

-- The constructor of `cromfs_inode_internal`.
abbrev pub new_inode : Inode
new_inode = record {
  mode = 0;
  time = 0;
  links = 0;
  rdev = 0;
  uid = 0;
  gid = 0;
  bytesize = 0;
  blocksize = 0;
  blocklist = [];
}

-- `std::vector::resize`
abbrev pub resize : ℕ → List ℕ → List ℕ
resize n xs = take n xs ++ replicate (n - length xs) 0

-- The sums are of 64-bit numbers; `& ~3` is a mask of 62 ones.
unfoldable pub get_inode_size : Inode → ℕ → ℕ
get_inode_size inode storage_opts =
    let result = inode_size_bytes storage_opts (length inode.blocklist) % 2 ^ 64 in
    bit_and ((result + 3) % 2 ^ 64) (2 ^ 64 - 4)

unfoldable pub get_inode_offset : ℕ → ℕ
get_inode_offset inonum = (inonum + 2 ^ 64 - 2) % 2 ^ 64 * 4 % 2 ^ 64

pub get_first_free_inode_number : ℕ → ℕ
get_first_free_inode_number inotab_size = ((inotab_size + 3) % 2 ^ 64 / 4 + 2) % 2 ^ 64

-- The division by zero is undefined behaviour.
unfoldable pub calc_size_in_blocks : ℕ → ℕ → Result ℕ
calc_size_in_blocks filesize bsize =
    if bsize == 0 then fault else ok ((filesize + bsize + 2 ^ 64 - 1) % 2 ^ 64 / bsize)

pub calc_encoded_inode_size : Inode → ℕ → Result ℕ
calc_encoded_inode_size inode storage_opts = do
  nblocks ← calc_size_in_blocks inode.bytesize inode.blocksize
  ok (inode_size_bytes storage_opts nblocks)

pub put_inode_size : Inode → ℕ → Result Inode
put_inode_size inode bytesize = do
  nblocks ← calc_size_in_blocks bytesize inode.blocksize
  ok (record inode { bytesize = bytesize; blocklist = resize nblocks inode.blocklist })

abbrev pub is_device : ℕ → Bool
is_device mode = s_ischr mode || s_isblk mode

pub put_header : Bytes → Inode → ℕ → Result Bytes
put_header inodata inode storage_opts = do
  inodata ← put_32 inodata 0x00 inode.mode
  inodata ← put_32 inodata 0x04 inode.time
  inodata ← put_32 inodata 0x08 (if is_device inode.mode then inode.rdev else inode.links)
  inodata ← put_16 inodata 0x0c inode.uid
  inodata ← put_16 inodata 0x0e inode.gid
  inodata ← put_64 inodata 0x10 inode.bytesize
  if has_opt storage_opts opt_variable_blocksizes
      then put_32 inodata 0x18 inode.blocksize
      else ok inodata

-- `for(a = 0; a < blocklist.size(); ++a)`, on the blocks not yet stored; the position is a 32-bit
-- number, and so is `a`, which therefore never reaches the end of a list of 2 ^ 32 blocks.
pub put_blocks : Bytes → ℕ → ℕ → ℕ → List ℕ → Result Bytes
put_blocks inodata headersize b a [] = ok inodata
put_blocks inodata headersize b a (block ∷ blocks) = do
  inodata ← put_n inodata ((headersize + a * b) % 2 ^ 32) block b
  put_blocks inodata headersize b (a + 1) blocks

pub put_inode : Bytes → Inode → ℕ → Bool → Result Bytes
put_inode inodata inode storage_opts and_blocks = do
  inodata ← put_header inodata inode storage_opts
  let headersize = inode_header_size storage_opts
  let b = blocknum_size_bytes storage_opts
  if and_blocks then put_blocks inodata headersize b 0 inode.blocklist else ok inodata

pub encode_inode : Inode → ℕ → Result Bytes
encode_inode inode storage_opts =
    put_inode (replicate (get_inode_size inode storage_opts) 0) inode storage_opts true

-- The header, into an inode that keeps its block list.
pub get_header : Bytes → Inode → ℕ → ℕ → Result Inode
get_header inodata inode storage_opts bsize = do
  mode ← get_32 inodata 0x00
  time ← get_32 inodata 0x04
  rdev_links ← get_32 inodata 0x08
  uid ← get_16 inodata 0x0c
  gid ← get_16 inodata 0x0e
  bytesize ← get_64 inodata 0x10
  blocksize ← if has_opt storage_opts opt_variable_blocksizes then get_32 inodata 0x18 else ok bsize
  ok (record {
    mode = mode;
    time = time;
    links = if is_device mode then 1 else rdev_links;
    rdev = if is_device mode then rdev_links else 0;
    uid = uid;
    gid = gid;
    bytesize = bytesize;
    blocksize = blocksize;
    blocklist = inode.blocklist;
  })

-- `while(n-- > 0)`; the elements have 32 bits.
pub get_blocks : Bytes → ℕ → ℕ → ℕ → List ℕ → Result (List ℕ)
get_blocks inodata headersize b zero blocklist = ok blocklist
get_blocks inodata headersize b (suc n) blocklist = do
  block ← get_n inodata (headersize + b * n) b
  get_blocks inodata headersize b n (set blocklist n (block % 2 ^ 32))

pub get_inode : Bytes → ℕ → Inode → ℕ → ℕ → Bool → Result Inode
get_inode inodata inodata_size inode storage_opts bsize and_blocks = do
  let headersize = inode_header_size storage_opts
  throw_if (ltb 0 inodata_size && ltb inodata_size headersize) eio
  inode ← get_header inodata inode storage_opts bsize
  let b = blocknum_size_bytes storage_opts
  let with_blocks = do
    nblocks ← calc_size_in_blocks inode.bytesize inode.blocksize
    throw_if (ltb 0 inodata_size && ltb inodata_size (headersize + b * nblocks)) eio
    blocklist ← get_blocks inodata headersize b nblocks (resize nblocks inode.blocklist)
    ok (record inode { blocklist = blocklist })
  if and_blocks then with_blocks else ok inode

pub get_inode_header : Bytes → ℕ → Inode → ℕ → ℕ → Result Inode
get_inode_header inodata inodata_size inode storage_opts bsize =
    get_inode inodata inodata_size inode storage_opts bsize false

pub get_inode_and_blocks : Bytes → ℕ → Inode → ℕ → ℕ → Result Inode
get_inode_and_blocks inodata inodata_size inode storage_opts bsize =
    get_inode inodata inodata_size inode storage_opts bsize true

-- `by_value` is the two's complement of the `int`, below 2 ^ 32: what `put_32` keeps of the sum
-- depends on no more of it.
pub increment_inode_linkcount : Bytes → ℕ → Result Bytes
increment_inode_linkcount inodata by_value = do
  mode ← get_32 inodata 0x00
  let counted = do links ← get_32 inodata 0x08; put_32 inodata 0x08 (links + by_value)
  if is_device mode then ok inodata else counted
