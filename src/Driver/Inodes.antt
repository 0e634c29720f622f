-- ===== src/Driver/Inodes.antt =====
-- cromfs.cc, `read_inode`: the header of an inode from the inode table.
use cromfs.Base.{ℕ, ◌+◌, ◌-◌, ◌<◌, ◌≤◌, ◌^◌, ◌≡◌, refl, sym, ap, subst, ◌∙◌, min, arith}
use cromfs.Base.{
  [], ◌++◌, length, get_elem?, drop, get_elem?-append, length-append, length-drop, Bool-cases, inl,
  inr,
}
use cromfs.Base.{false, ltb, ◌==◌, if◌then◌else◌, ebadf, ok}
use cromfs.Base.Access.{get_elem?-drop, get_elem?-append_left}
use cromfs.Base.Bytes.{Bytes}
use cromfs.Format.{inode_header_size}
use cromfs.Inode.{Inode, new_inode, get_inode_offset, get_inode_header}
use cromfs.Inode.Layout.{header_bytes, is_variable, length-header_bytes, header_bytes-append}
use cromfs.Inode.RoundTrip.{IsStorable}
use cromfs.Inode.Header.{get_inode_header_lem}
use cromfs.Cache.{Cache}
use cromfs.Driver.{Fs, LzmaDecode, M, done, ◌>>=◌, return, raise, lift, get}
use cromfs.Driver.Read.{read_file_data, ensure_blktab}
use cromfs.Driver.Content.{file_byte, IsReadable, IsCoherent, moved}
use cromfs.Driver.ReadData.{read_file_data_lem}
use cromfs.Driver.Order.{same_elements}

-- `buf` is what the array on the stack has in it before.
module _ (decode : LzmaDecode) where
  unfoldable pub read_inode : Bytes → ℕ → M Inode
  read_inode buf inodenum = do
    fs ← get
    let size = inode_header_size fs.storage_opts
    let header = do
      (buf', n) ← read_file_data decode fs.inotab (get_inode_offset inodenum) buf size
      lift (get_inode_header buf' size new_inode fs.storage_opts fs.sblock.bsize)
    if inodenum == 1 then return fs.rootdir else if ltb inodenum 1 then raise ebadf else header

-- A buffer whose start is `xs` and whose rest is that of `buf`.
starts_with :
    (buf t xs : Bytes)
    → length t ≡ length buf
    → length xs ≤ length buf
    → ((j : ℕ) → get_elem? t j ≡ (if ltb j (length xs) then get_elem? xs j else get_elem? buf j))
    → t ≡ xs ++ drop (length xs) buf
starts_with buf t xs len fits content =
    same_elements t (xs ++ drop (length xs) buf)
      (len ∙ omega (arith, length-append xs (drop (length xs) buf), length-drop (length xs) buf))
      (λ j. content j ∙ each j)
  where
    each :
        (j : ℕ)
        → (if ltb j (length xs) then get_elem? xs j else get_elem? buf j)
          ≡ get_elem? (xs ++ drop (length xs) buf) j
    each j = elim (Bool-cases (ltb j (length xs))) [
      | inl e ↦ rw e (sym (get_elem?-append_left xs (drop (length xs) buf) j (ground arith)))
      | inr e ↦
          let k = j - length xs in
          let at : length xs + k ≡ j = ground arith in
          rw e (
            subst (λ q. get_elem? buf q ≡ get_elem? (xs ++ drop (length xs) buf) q) at
              (sym
                (get_elem?-append xs (drop (length xs) buf) k ∙ get_elem?-drop (length xs) buf k)))
    ]

module _ (decode : LzmaDecode) (fs : Fs) (inode : Inode) (inodenum : ℕ) where
  abbrev stored_header : Bytes
  stored_header = header_bytes (is_variable fs.storage_opts) inode []

  abbrev offset : ℕ
  offset = get_inode_offset inodenum

  abbrev size : ℕ
  size = inode_header_size fs.storage_opts

  read_inode_steps :
      (buf t : Bytes) (n : ℕ) (fs' : Fs) (result : Inode)
      → 2 ≤ inodenum
      → read_file_data decode fs.inotab offset buf size fs ≡ done (t, n) fs'
      → get_inode_header t size new_inode fs.storage_opts fs.sblock.bsize ≡ ok result
      → read_inode decode buf inodenum fs ≡ done result fs'
  read_inode_steps buf t n fs' result h reads decodes =
      let not_root : (inodenum == 1) ≡ false = ground arith in
      let is_valid : ltb inodenum 1 ≡ false = ground arith in
      unfold read_inode in rw (read_inode, ◌>>=◌, not_root, is_valid, reads, decodes)

  header_byte :
      (buf : Bytes)
      → length stored_header ≡ size
      → offset + size ≤ fs.inotab.bytesize
      → ((j : ℕ)
          → j < size
          → IsReadable decode fs fs.inotab (offset + j)
            × (file_byte decode fs fs.inotab (offset + j) ≡ get_elem? stored_header j))
      → (j : ℕ)
      → (if ltb (offset + j) (min fs.inotab.bytesize (offset + size))
          then file_byte decode fs fs.inotab (offset + j)
          else get_elem? buf j)
        ≡ (if ltb j (length stored_header) then get_elem? stored_header j else get_elem? buf j)
  header_byte buf len inside stored j =
      let same : ltb (offset + j) (min fs.inotab.bytesize (offset + size))
          ≡ ltb j (length stored_header) =
        ground arith in
      elim (Bool-cases (ltb j (length stored_header))) [
        | inl e ↦ rw (same, e) (stored j (ground arith)).1
        | inr e ↦ rw (same, e) refl
      ]

  -- Where the inode table holds the header of an inode, `read_inode` on its number returns the inode
  -- without its block list, whatever the buffer on the stack had in it and whatever is cached. The
  -- block table is loaded, the cache is coherent, the header lies in the table and is readable.
  pub read_inode-header_bytes :
      (buf : Bytes)
      → 2 ≤ inodenum
      → IsStorable inode fs.storage_opts fs.sblock.bsize
      → ensure_blktab decode fs ≡ done tt fs
      → 0 < fs.inotab.blocksize
      → get_inode_offset inodenum + inode_header_size fs.storage_opts < 2 ^ 64
      → get_inode_offset inodenum + inode_header_size fs.storage_opts ≤ fs.inotab.bytesize
      → inode_header_size fs.storage_opts ≤ length buf
      → IsCoherent decode fs
      → ((j : ℕ)
          → j < inode_header_size fs.storage_opts
          → IsReadable decode fs fs.inotab (get_inode_offset inodenum + j)
            × (file_byte decode fs fs.inotab (get_inode_offset inodenum + j)
                ≡ get_elem? (header_bytes (is_variable fs.storage_opts) inode []) j))
      → (cache : Cache Bytes) × (ticks : ℕ) × (read_inode decode buf inodenum fs
          ≡ done (record inode { blocklist = [] }) (moved fs cache ticks))
        × IsCoherent decode (moved fs cache ticks)
  read_inode-header_bytes buf h storable filled some_size short inside room coherent stored =
      let len : length stored_header ≡ size = length-header_bytes fs.storage_opts inode in
      let readable : (i : ℕ)
          → offset ≤ i
          → i < min fs.inotab.bytesize (offset + size)
          → IsReadable decode fs fs.inotab i =
        λ i low high.
          let at : offset + (i - offset) ≡ i = omega arith in
          subst (λ q. IsReadable decode fs fs.inotab q) at (stored (i - offset) (omega arith)).0 in
      let (t, cache, ticks, reads, coherent', t_len, content) =
        read_file_data_lem decode fs.inotab offset size buf fs fs filled some_size short room
          coherent readable in
      let is_header : t ≡ stored_header ++ drop (length stored_header) buf =
        starts_with buf t stored_header t_len (omega arith)
          (λ j. content j ∙ header_byte buf len inside stored j) in
      let decodes : get_inode_header t size new_inode fs.storage_opts fs.sblock.bsize
          ≡ ok (record inode { blocklist = [] }) =
        ap (λ b. get_inode_header b size new_inode fs.storage_opts fs.sblock.bsize)
          (is_header
            ∙ header_bytes-append (is_variable fs.storage_opts) inode
                (drop (length stored_header) buf))
        ∙ get_inode_header_lem inode fs.storage_opts fs.sblock.bsize
            (drop (length stored_header) buf) storable in
      (
        cache,
        ticks,
        read_inode_steps buf t (min fs.inotab.bytesize (offset + size) - offset)
            (moved fs cache ticks) (record inode { blocklist = [] }) h reads decodes,
        coherent',
      )
