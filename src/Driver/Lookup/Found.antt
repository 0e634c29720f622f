-- ===== src/Driver/Lookup/Found.antt =====
-- cromfs.cc, `dir_lookup` as a whole.
use cromfs.Base.{
  ℕ, zero, suc, ◌+◌, ◌*◌, ◌%◌, ◌^◌, ◌≤◌, ◌<◌, ◌≡◌, ◌⊎◌, refl, sym, ap, ◌∙◌, subst, arith, [], ◌++◌,
  length, get_elem?, set, replicate, length-set, length-replicate, All,
}
use cromfs.Base.{
  Option, true, false, some, none, ◌==◌, not, ◌&&◌, ok, inl, inr, Option-cases, get_elem?-set_self,
}
use cromfs.Base.Bytes.{Bytes}
use cromfs.Endian.{get_32}
use cromfs.Endian.Get.{get_32_at}
use cromfs.Endian.Window.{window, get_32-window}
use cromfs.Format.{DirInfo, s_isdir, inode_header_size}
use cromfs.Inode.{Inode, encode_inode, get_inode_offset}
use cromfs.Inode.RoundTrip.{IsStorable}
use cromfs.Directory.{encode_directory}
use cromfs.Directory.Names.{find_name, IsSorted}
use cromfs.Directory.Layout.{
  directory_bytes, addresses, names, length-directory_bytes, encode_directory_lem,
}
use cromfs.Directory.Places.{address, address-length}
use cromfs.Cache
use cromfs.Cache.Lookup.{value_of, find-has-put_refine}
use cromfs.Driver.{Fs, LzmaDecode, done, ◌>>=◌}
use cromfs.Driver.Content.{IsCoherent, moved}
use cromfs.Driver.File.{HoldsFile}
use cromfs.Driver.InodeBlocks.{read_inode_and_blocks, max_nblocks}
use cromfs.Driver.InodeContent.{read_inode_and_blocks-encode_inode}
use cromfs.Driver.Lookup.{
  Offsets, search_directory, number_or_0, read_dir_inode, read_num_files, lookup_found, dir_lookup,
}
use cromfs.Driver.Lookup.Pointers.{IsTable, read_part}
use cromfs.Driver.Lookup.Entry.{IsEntry}
use cromfs.Driver.Lookup.Search.{search_loop_lem}
use cromfs.Base.{List}
use cromfs.Base.Access.{get_elem?-some}

nothing_read : (k i : ℕ) → get_elem? (replicate k false) i ≡ some true → ⊥
nothing_read zero i h = cc
nothing_read (suc k) zero h = cc
nothing_read (suc k) (suc i) h = nothing_read k i h

module _ (decode : LzmaDecode) (fs : Fs) (inode : Inode) (dir : DirInfo) (name : Bytes)
    (holds : HoldsFile decode fs inode (directory_bytes dir))
    (fits : length (directory_bytes dir) < 2 ^ 32) where
  abbrev empty_table : Offsets
  empty_table = record {
    entry_offsets = set (replicate (length dir + 1) 0) (length dir) (inode.bytesize % 2 ^ 32);
    offs_read = replicate (length dir) false;
  }

  empty_table-IsTable : IsTable dir empty_table
  empty_table-IsTable =
      let zeros : List ℕ = replicate (length dir + 1) 0 in
      let len : length zeros ≡ length dir + 1 = length-replicate (length dir + 1) 0 in
      let size : inode.bytesize % 2 ^ 32 ≡ address dir (length dir) =
        omega (arith, holds.bytesize, address-length dir) in
      record {
        n_offsets = length-set zeros (length dir) (inode.bytesize % 2 ^ 32) ∙ len;
        n_read = length-replicate (length dir) false;
        known = λ i read. absurd (nothing_read (length dir) i read);
        last =
            get_elem?-set_self zeros (length dir) (inode.bytesize % 2 ^ 32) (omega arith)
            ∙ ap some size;
      }

  search_directory_lem :
      (cache : Cache.Cache Bytes) (ticks : ℕ)
      → IsSorted dir
      → All IsEntry dir
      → IsCoherent decode (moved fs cache ticks)
      → (cache' : Cache.Cache Bytes) × (ticks' : ℕ) × (search_directory decode inode name
            (length dir)
            (moved fs cache ticks)
          ≡ done (number_or_0 (find_name name dir)) (moved fs cache' ticks'))
        × IsCoherent decode (moved fs cache' ticks')
  unfolding search_directory
  search_directory_lem cache ticks sorted entries coherent =
      search_loop_lem decode fs inode dir name holds fits sorted entries (length dir) 0 (length dir)
        empty_table cache ticks (omega arith) (omega arith) empty_table-IsTable coherent
        (
          (λ i e at h. absurd (omega arith)),
          λ i e at h. absurd (omega (arith, get_elem?-some dir i e at)),
        )

  num_files_bytes : get_32 (window (directory_bytes dir) 0 4) 0 ≡ ok (length dir)
  num_files_bytes =
      get_32-window (directory_bytes dir) 0 4 0 0 (omega arith) (omega arith)
      ∙ (unfold directory_bytes in
          get_32_at [] (addresses (4 + 4 * length dir) dir ++ names dir) 0 (length dir) refl
            (omega (arith, length-directory_bytes dir)))

  pub read_num_files_lem :
      (dir_header : Bytes) (cache : Cache.Cache Bytes) (ticks : ℕ)
      → length dir_header ≡ 4
      → IsCoherent decode (moved fs cache ticks)
      → (cache' : Cache.Cache Bytes) × (ticks' : ℕ) × (read_num_files decode dir_header inode
            (moved fs cache ticks)
          ≡ done (length dir) (moved fs cache' ticks'))
        × IsCoherent decode (moved fs cache' ticks')
  read_num_files_lem dir_header cache ticks len coherent =
      let (cache', ticks', reads, coherent') =
        read_part decode fs inode dir holds fits cache ticks 0 4 dir_header coherent
          (omega (arith, length-directory_bytes dir)) len in
      (
        cache',
        ticks',
        (unfold read_num_files in rw (read_num_files, ◌>>=◌, reads, num_files_bytes) refl),
        coherent',
      )

module _ (decode : LzmaDecode) (fs : Fs) (inode : Inode) (inonum : ℕ) (dir : DirInfo)
    (name : Bytes) where
  abbrev find_cached : Cache.Cache DirInfo × Option DirInfo
  find_cached = Cache.find (fs.clock fs.ticks) inonum fs.readdir_cache

  lookup_found_hit :
      (buf dir_header : Bytes) (found : Cache.Cache DirInfo × Option DirInfo) (info : DirInfo)
      → found.1 ≡ some info
      → lookup_found decode buf dir_header inonum name fs found fs
        ≡ done
            (number_or_0 (find_name name info))
            (record fs { readdir_cache = found.0; ticks = fs.ticks + 1 })
  lookup_found_hit buf dir_header (cache, none) info hit = cc
  lookup_found_hit buf dir_header (cache, some other) info hit =
      let same : other ≡ info = cc in
      unfold lookup_found in
      ap
        (λ d.
          done (number_or_0 (find_name name d))
            (record fs { readdir_cache = cache; ticks = fs.ticks + 1 }))
        same

  lookup_found_miss :
      (buf dir_header : Bytes) (found : Cache.Cache DirInfo × Option DirInfo) (n r : ℕ)
      (s s' s'' : Fs)
      → found.1 ≡ none
      → read_dir_inode decode buf inonum fs ≡ done inode s
      → read_num_files decode dir_header inode s ≡ done n s'
      → search_directory decode inode name n s' ≡ done r s''
      → lookup_found decode buf dir_header inonum name fs found fs ≡ done r s''
  lookup_found_miss buf dir_header (cache, some other) n r s s' s'' miss reads counts finds = cc
  lookup_found_miss buf dir_header (cache, none) n r s s' s'' miss reads counts finds =
      unfold lookup_found in rw (lookup_found, ◌>>=◌, reads, counts, finds) refl

  pub read_dir_inode_lem :
      (buf : Bytes) (s : Fs)
      → (inonum ≡ 1) ⊎ (s_isdir inode.mode ≡ true)
      → read_inode_and_blocks decode buf inonum fs ≡ done inode s
      → read_dir_inode decode buf inonum fs ≡ done inode s
  read_dir_inode_lem buf s is_dir reads =
      let passes : (not (inonum == 1) && not (s_isdir inode.mode)) ≡ false = ground arith in
      unfold read_dir_inode in rw (read_dir_inode, ◌>>=◌, reads, passes) refl

  -- `dir_lookup` of a name in a directory that is encoded, whether the directory is in the cache
  -- or not.
  pub dir_lookup_lem :
      (buf dir_header : Bytes) (cache : Cache.Cache Bytes) (ticks : ℕ)
      → HoldsFile decode fs inode (directory_bytes dir)
      → length (directory_bytes dir) < 2 ^ 32
      → IsSorted dir
      → All IsEntry dir
      → (inonum ≡ 1) ⊎ (s_isdir inode.mode ≡ true)
      → ((info : DirInfo) → value_of inonum fs.readdir_cache.entries ≡ some info → info ≡ dir)
      → read_inode_and_blocks decode buf inonum fs ≡ done inode (moved fs cache ticks)
      → IsCoherent decode fs
      → IsCoherent decode (moved fs cache ticks)
      → length dir_header ≡ 4
      → (fs' : Fs) × (dir_lookup decode buf dir_header inonum name fs
          ≡ done (number_or_0 (find_name name dir)) fs')
        × IsCoherent decode fs'
  unfolding dir_lookup
  dir_lookup_lem buf dir_header cache ticks holds fits sorted entries is_dir cached reads coherent
        coherent0 len =
      let looks : find_cached.1 ≡ value_of inonum fs.readdir_cache.entries =
        (find-has-put_refine (fs.clock fs.ticks) inonum inonum dir fs.readdir_cache).0 in
      elim (Option-cases (value_of inonum fs.readdir_cache.entries)) [
        | inr (info, hit) ↦ (
          record fs { readdir_cache = find_cached.0; ticks = fs.ticks + 1 },
          lookup_found_hit buf dir_header find_cached info (looks ∙ hit)
              ∙ ap
                  (λ d.
                    done (number_or_0 (find_name name d))
                      (record fs { readdir_cache = find_cached.0; ticks = fs.ticks + 1 }))
                  (cached info hit),
          coherent,
        )
        | inl miss ↦
            let (cache1, ticks1, counts, coherent1) =
              read_num_files_lem decode fs inode dir name holds fits dir_header cache ticks len
                coherent0 in
            let (cache2, ticks2, finds, coherent2) =
              search_directory_lem decode fs inode dir name holds fits cache1 ticks1 sorted entries
                coherent1 in
            (
              moved fs cache2 ticks2,
              lookup_found_miss buf dir_header find_cached (length dir)
                  (number_or_0 (find_name name dir)) (moved fs cache ticks) (moved fs cache1 ticks1)
                  (moved fs cache2 ticks2) (looks ∙ miss)
                  (read_dir_inode_lem buf (moved fs cache ticks) is_dir reads) counts finds,
              coherent2,
            )
      ]

-- The image has the directory `dir` under the number `inonum`, with the inode `inode`: the inode
-- table holds what `encode_inode` made of the inode, behind `pre`, and the file of the inode what
-- `encode_directory` made of the directory. The names are sorted, not empty and free of nul bytes.
pub record HoldsDir (decode : LzmaDecode) (fs : Fs) (inonum : ℕ) (inode : Inode) (dir : DirInfo)
    (pre raw post bytes : Bytes) : Type 0 where
  pub number : 2 ≤ inonum
  pub storable : IsStorable inode fs.storage_opts fs.sblock.bsize
  pub nblocks : length inode.blocklist ≤ max_nblocks
  pub is_dir : s_isdir inode.mode ≡ true
  pub inode_raw : encode_inode inode fs.storage_opts ≡ ok raw
  pub place : length pre ≡ get_inode_offset inonum
  pub table : HoldsFile decode fs fs.inotab (pre ++ (raw ++ post))
  pub table_size : length (pre ++ (raw ++ post)) < 2 ^ 64
  pub dir_raw : encode_directory dir ≡ ok bytes
  pub dir_size : length (directory_bytes dir) < 2 ^ 31
  pub file : HoldsFile decode fs inode bytes
  pub sorted : IsSorted dir
  pub entries : All IsEntry dir

-- The cache of directories has this directory or nothing under the number.
abbrev pub IsCached : Fs → ℕ → DirInfo → Type 0
IsCached fs inonum dir =
    (info : DirInfo) → value_of inonum fs.readdir_cache.entries ≡ some info → info ≡ dir

module _ (decode : LzmaDecode) (fs : Fs) (inonum : ℕ) (inode : Inode) (dir : DirInfo)
    (pre raw post bytes : Bytes)
    (holds : HoldsDir decode fs inonum inode dir pre raw post bytes) where
  pub HoldsDir-file : HoldsFile decode fs inode (directory_bytes dir)
  HoldsDir-file =
      let both : ok bytes ≡ ok (directory_bytes dir) =
        sym holds.dir_raw ∙ (encode_directory_lem dir (let h = holds.dir_size in omega arith)).0 in
      let same : bytes ≡ directory_bytes dir = cc in
      subst (HoldsFile decode fs inode) same holds.file

  pub HoldsDir-inode :
      (buf : Bytes)
      → IsCoherent decode fs
      → inode_header_size fs.storage_opts ≤ length buf
      → (cache : Cache.Cache Bytes) × (ticks : ℕ) × (read_inode_and_blocks decode buf inonum fs
          ≡ done inode (moved fs cache ticks))
        × IsCoherent decode (moved fs cache ticks)
  HoldsDir-inode buf coherent room =
      read_inode_and_blocks-encode_inode decode fs inode inonum buf pre raw post holds.number
        holds.storable holds.nblocks holds.inode_raw holds.place holds.table holds.table_size room
        coherent

  -- `dir_lookup` in a directory that the image holds returns the inode number of a name in it, and
  -- 0 for any other name, whether the directory is cached or not, whatever the arrays on the stack
  -- have in them before. The fblock cache is coherent and stays so.
  pub dir_lookup-encode_directory :
      (name buf dir_header : Bytes)
      → IsCached fs inonum dir
      → IsCoherent decode fs
      → inode_header_size fs.storage_opts ≤ length buf
      → length dir_header ≡ 4
      → (fs' : Fs) × (dir_lookup decode buf dir_header inonum name fs
          ≡ done (number_or_0 (find_name name dir)) fs')
        × IsCoherent decode fs'
  dir_lookup-encode_directory name buf dir_header cached coherent room len =
      let (cache, ticks, reads, coherent0) = HoldsDir-inode buf coherent room in
      dir_lookup_lem decode fs inode inonum dir name buf dir_header cache ticks HoldsDir-file
        (let h = holds.dir_size in omega arith) holds.sorted holds.entries (inr holds.is_dir) cached
        reads coherent coherent0 len
