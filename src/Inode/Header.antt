-- ===== src/Inode/Header.antt =====
-- The header of an inode, decoded alone.
use cromfs.Base.{ℕ, ◌≡◌, [], false, ltb, ◌&&◌, ok, arith}
use cromfs.Base.Bytes.{Bytes}
use cromfs.Format.{inode_header_size}
use cromfs.Inode.{Inode, new_inode, get_inode_header, get_inode}
use cromfs.Inode.Layout.{header_bytes, is_variable}
use cromfs.Inode.RoundTrip.{IsStorable, decode_header}

pub get_inode_header_lem :
    (inode : Inode) (storage_opts bsize : ℕ) (rest : Bytes)
    → IsStorable inode storage_opts bsize
    → get_inode_header
        (header_bytes (is_variable storage_opts) inode rest)
        (inode_header_size storage_opts)
        new_inode
        storage_opts
        bsize
      ≡ ok (record inode { blocklist = [] })
get_inode_header_lem inode storage_opts bsize rest storable =
    let h = inode_header_size storage_opts in
    let fits : (ltb 0 h && ltb h h) ≡ false = ground arith in
    unfold get_inode_header get_inode in
    rw (
      get_inode_header,
      get_inode,
      fits,
      decode_header inode new_inode storage_opts bsize rest storable,
    )
