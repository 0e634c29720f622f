-- ===== src/Driver/InodeContent.antt =====
-- cromfs.cc, `read_inode_and_blocks` on a table that holds the inode.
use mathlib.Core.List.{append_assoc}
use cromfs.Base.{ℕ, ◌+◌, ◌*◌, ◌%◌, ◌<◌, ◌≤◌, ◌^◌, ◌≡◌, sym, ap, subst, ◌∙◌, arith}
use cromfs.Base.{
  [], ◌++◌, length, get_elem?, get_elem?-append, take, drop, replicate, length-append,
  length-replicate,
}
use cromfs.Base.{false, ltb, ◌==◌, ok}
use cromfs.Base.Access.{cut, get_elem?-append_left}
use cromfs.Base.Bytes.{Bytes}
use cromfs.Format.{inode_header_size, inode_size_bytes, blocknum_size_bytes, blocknum_size_bytes-le}
use cromfs.Inode.{Inode, get_inode_offset, get_inode_size, calc_size_in_blocks, encode_inode}
use cromfs.Inode.Blocks.{block_bytes, length-block_bytes}
use cromfs.Inode.RoundTrip.{IsStorable}
use cromfs.Inode.Layout.{
  header_bytes, is_variable, length-header_bytes, header_bytes-append, inode_bytes,
  encode_inode_lem,
}
use cromfs.Cache.{Cache}
use cromfs.Driver.{Fs, LzmaDecode, done, ◌>>=◌}
use cromfs.Driver.Read.{read_file_data}
use cromfs.Driver.Content.{IsCoherent, moved}
use cromfs.Driver.Inodes.{read_inode, read_inode-header_bytes}
use cromfs.Driver.File.{HoldsFile, HoldsFile-moved, read_within, block_table_there}
use cromfs.Driver.InodeBlocks.{
  read_inode_and_blocks, read_blocklist, get_blocklist, get_blocklist_lem, max_nblocks,
}

module _ (decode : LzmaDecode) (fs : Fs) (inode : Inode) (inodenum : ℕ) where
  abbrev b : ℕ
  b = blocknum_size_bytes fs.storage_opts

  abbrev nblocks : ℕ
  nblocks = length inode.blocklist

  abbrev header : Bytes
  header = header_bytes (is_variable fs.storage_opts) inode []

  abbrev blocks : Bytes
  blocks = block_bytes b inode.blocklist

  abbrev size : ℕ
  size = inode_header_size fs.storage_opts

  abbrev bare : Inode
  bare = record inode { blocklist = [] }

  read_blocklist_step :
      (cache cache' : Cache Bytes) (ticks ticks' n : ℕ)
      → (get_inode_offset inodenum + size) % 2 ^ 64 ≡ get_inode_offset inodenum + size
      → read_file_data decode fs.inotab
          (get_inode_offset inodenum + size)
          (replicate (b * nblocks) 0)
          (b * nblocks)
          (moved fs cache ticks)
        ≡ done (blocks, n) (moved fs cache' ticks')
      → get_blocklist blocks b nblocks 0 ≡ ok inode.blocklist
      → read_blocklist decode inodenum bare nblocks (moved fs cache ticks)
        ≡ done inode (moved fs cache' ticks')
  read_blocklist_step cache cache' ticks ticks' n low reads decodes =
      unfold read_blocklist in rw (read_blocklist, ◌>>=◌, low, reads, decodes)

  read_inode_and_blocks_step :
      (buf : Bytes) (fs' fs'' : Fs)
      → 2 ≤ inodenum
      → nblocks ≤ max_nblocks
      → read_inode decode buf inodenum fs ≡ done bare fs'
      → calc_size_in_blocks inode.bytesize inode.blocksize ≡ ok nblocks
      → read_blocklist decode inodenum bare nblocks fs' ≡ done inode fs''
      → read_inode_and_blocks decode buf inodenum fs ≡ done inode fs''
  read_inode_and_blocks_step buf fs' fs'' h few reads count list =
      let not_root : (inodenum == 1) ≡ false = ground arith in
      let small : ltb max_nblocks nblocks ≡ false = ground arith in
      unfold read_inode_and_blocks in
      rw (read_inode_and_blocks, ◌>>=◌, not_root, reads, count, small, list)

  module _ (pre rest : Bytes) where
    abbrev content : Bytes
    content = pre ++ (header ++ (blocks ++ rest))

    length-content : length content ≡ length pre + (size + (b * nblocks + length rest))
    length-content =
        length-append pre (header ++ (blocks ++ rest))
        ∙ omega (
          arith,
          length-append header (blocks ++ rest),
          length-header_bytes fs.storage_opts inode,
          length-append blocks rest,
          length-block_bytes b inode.blocklist,
        )

    list_bytes : take (b * nblocks) (drop (length pre + size) content) ≡ blocks
    list_bytes =
        let whole : (pre ++ header) ++ (blocks ++ rest) ≡ content =
          append_assoc pre header (blocks ++ rest) in
        ap (λ t. take (b * nblocks) (drop (length pre + size) t)) (sym whole)
        ∙ cut (pre ++ header) blocks rest (length pre + size) (b * nblocks)
            (omega (arith, length-append pre header, length-header_bytes fs.storage_opts inode))
            (sym (length-block_bytes b inode.blocklist))

    header_byte : (j : ℕ) → j < size → get_elem? content (length pre + j) ≡ get_elem? header j
    header_byte j h =
        get_elem?-append pre (header ++ (blocks ++ rest)) j
        ∙ get_elem?-append_left header (blocks ++ rest) j
            (omega (arith, length-header_bytes fs.storage_opts inode))

    pub read_inode_and_blocks_content :
        (buf : Bytes)
        → 2 ≤ inodenum
        → IsStorable inode fs.storage_opts fs.sblock.bsize
        → nblocks ≤ max_nblocks
        → length pre ≡ get_inode_offset inodenum
        → HoldsFile decode fs fs.inotab content
        → length content < 2 ^ 64
        → size ≤ length buf
        → IsCoherent decode fs
        → (cache : Cache Bytes) × (ticks : ℕ) × (read_inode_and_blocks decode buf inodenum fs
            ≡ done inode (moved fs cache ticks))
          × IsCoherent decode (moved fs cache ticks)
    read_inode_and_blocks_content buf h storable few at holds short room coherent =
        let total = length-content in
        let some_header : 0 < size = unfold inode_header_size in omega arith in
        let (cache, ticks, reads, coherent') =
          read_inode-header_bytes decode fs inode inodenum buf h storable
            (block_table_there decode fs fs.inotab 0 holds.some_size
              (holds.readable 0 (omega arith)))
            holds.some_size (omega arith) (omega (arith, holds.bytesize)) room coherent
            (λ j below.
              let place : length pre + j ≡ get_inode_offset inodenum + j = omega arith in
              (
                holds.readable (get_inode_offset inodenum + j) (omega arith),
                holds.bytes (get_inode_offset inodenum + j) (omega arith)
                    ∙ (ap (get_elem? content) (sym place) ∙ header_byte j below),
              )) in
        let (cache', ticks', list, coherent'') =
          read_within decode (moved fs cache ticks) fs.inotab content
            (get_inode_offset inodenum + size) (b * nblocks) (replicate (b * nblocks) 0)
            (HoldsFile-moved decode fs fs.inotab content cache ticks holds) coherent' (omega arith)
            short (omega arith) (length-replicate (b * nblocks) 0) in
        let start : get_inode_offset inodenum + size ≡ length pre + size = omega arith in
        let found : take (b * nblocks) (drop (get_inode_offset inodenum + size) content) ≡ blocks =
          ap (λ o. take (b * nblocks) (drop o content)) start ∙ list_bytes in
        let reads' = list ∙ ap (λ t. done (t, b * nblocks) (moved fs cache' ticks')) found in
        let decodes =
          get_blocklist_lem [] b 0 inode.blocklist (blocknum_size_bytes-le fs.storage_opts)
            storable.blocks (omega arith) in
        (
          cache',
          ticks',
          read_inode_and_blocks_step buf (moved fs cache ticks) (moved fs cache' ticks') h few reads
              storable.nblocks
              (read_blocklist_step cache cache' ticks ticks' (b * nblocks) (omega arith) reads'
                decodes),
          coherent'',
        )

  -- Where the inode table holds what `encode_inode` made of an inode, at the offset of its number,
  -- `read_inode_and_blocks` on the number returns the inode with its block list, whatever the
  -- buffer on the stack had in it and whatever is cached. The cache is coherent and stays so.
  pub read_inode_and_blocks-encode_inode :
      (buf pre raw post : Bytes)
      → 2 ≤ inodenum
      → IsStorable inode fs.storage_opts fs.sblock.bsize
      → length inode.blocklist ≤ max_nblocks
      → encode_inode inode fs.storage_opts ≡ ok raw
      → length pre ≡ get_inode_offset inodenum
      → HoldsFile decode fs fs.inotab (pre ++ (raw ++ post))
      → length (pre ++ (raw ++ post)) < 2 ^ 64
      → inode_header_size fs.storage_opts ≤ length buf
      → IsCoherent decode fs
      → (cache : Cache Bytes) × (ticks : ℕ) × (read_inode_and_blocks decode buf inodenum fs
          ≡ done inode (moved fs cache ticks))
        × IsCoherent decode (moved fs cache ticks)
  read_inode_and_blocks-encode_inode buf pre raw post h storable few encodes at holds short room
        coherent =
      let pad : Bytes =
        drop (inode_size_bytes fs.storage_opts nblocks)
          (replicate (get_inode_size inode fs.storage_opts) 0) in
      let both : ok raw ≡ ok (inode_bytes fs.storage_opts inode) =
        sym encodes ∙ encode_inode_lem inode fs.storage_opts storable.size in
      let same : raw ≡ inode_bytes fs.storage_opts inode = cc in
      let whole : pre ++ (raw ++ post) ≡ content pre (pad ++ post) =
        ap (λ t. pre ++ t)
          (ap (λ t. t ++ post)
              (same ∙ sym (header_bytes-append (is_variable fs.storage_opts) inode (blocks ++ pad)))
            ∙ (append_assoc header (blocks ++ pad) post
                ∙ ap (λ t. header ++ t) (append_assoc blocks pad post))) in
      read_inode_and_blocks_content pre (pad ++ post) buf h storable few at
        (subst (HoldsFile decode fs fs.inotab) whole holds)
        (subst (λ t. length t < 2 ^ 64) whole short) room coherent
