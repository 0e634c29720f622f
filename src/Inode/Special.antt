-- ===== src/Inode/Special.antt =====
-- lib/cromfs-inodefun.cc, `get_inode` on the inodes that stand outside of the inode table.
use cromfs.Base.{ℕ, ◌≡◌, refl, sym, ap, ◌∙◌, ◌++◌, length, replicate, drop, true, false, ok, inl}
use cromfs.Base.Bytes.{Bytes}
use cromfs.Format.{inode_size_bytes, blocknum_size_bytes}
use cromfs.Inode.{Inode, new_inode, get_inode, get_inode_and_blocks, encode_inode, get_inode_size}
use cromfs.Inode.Blocks.{block_bytes}
use cromfs.Inode.Layout.{
  header_bytes, blocksize_bytes, is_variable, get_header_lem, read_header, inode_bytes,
  encode_inode_lem,
}
use cromfs.Inode.RoundTrip.{IsStorable, get_inode-encode_inode}

-- An inode that the encoder stored, as `get_inode` reads it when it is told no size.
pub get_inode_stored :
    (inode : Inode) (storage_opts bsize : ℕ) (raw : Bytes)
    → IsStorable inode storage_opts bsize
    → encode_inode inode storage_opts ≡ ok raw
    → get_inode raw 0 new_inode storage_opts bsize true ≡ ok inode
get_inode_stored inode storage_opts bsize raw storable encodes =
    let (inodata, encodes', len, decodes) =
      get_inode-encode_inode inode new_inode storage_opts bsize 0 storable (inl refl) in
    let both : ok raw ≡ ok inodata = sym encodes ∙ encodes' in
    let same : raw ≡ inodata = cc in
    ap (λ t. get_inode t 0 new_inode storage_opts bsize true) same
    ∙ (unfold get_inode_and_blocks in decodes)

-- What the first read of the inode table's inode comes to, before the options are known: all but
-- the block size and the block list is right.
pub get_inode_first :
    (inode : Inode) (storage_opts bsize : ℕ) (raw : Bytes)
    → IsStorable inode storage_opts bsize
    → encode_inode inode storage_opts ≡ ok raw
    → get_inode raw 0 new_inode 0 bsize false ≡ ok (read_header inode new_inode 0 bsize)
get_inode_first inode storage_opts bsize raw storable encodes =
    let size : ℕ = inode_size_bytes storage_opts (length inode.blocklist) in
    let rest : Bytes =
      blocksize_bytes (is_variable storage_opts) inode
      ++ (block_bytes (blocknum_size_bytes storage_opts) inode.blocklist
          ++ drop size (replicate (get_inode_size inode storage_opts) 0)) in
    let both : ok raw ≡ ok (inode_bytes storage_opts inode) =
      sym encodes ∙ encode_inode_lem inode storage_opts storable.size in
    let same : raw ≡ header_bytes false inode rest = cc in
    ap (λ t. get_inode t 0 new_inode 0 bsize false) same
    ∙ (unfold get_inode in rw (get_header_lem inode new_inode 0 bsize rest storable.fits) refl)
