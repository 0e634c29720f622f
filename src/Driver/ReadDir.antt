-- ===== src/Driver/ReadDir.antt =====
-- cromfs.cc, `read_dir`: the entries of a directory.
pub mod Region
pub mod Listed
pub mod Whole
use cromfs.Base.{
  ℕ, zero, suc, ◌+◌, ◌-◌, ◌*◌, ◌%◌, ◌^◌, min, List, [], ◌∷◌, ◌++◌, length, get_elem?, set, take,
  drop, replicate,
}
use cromfs.Base.{
  Option, true, false, ◌&&◌, ◌||◌, none, some, ltb, leb, ◌==◌, if◌then◌else◌, Result, ok, throw,
  fault, or_fault, eio,
}
use cromfs.Base
use cromfs.Base.Int.{negsuc}
use cromfs.Base.Bytes.{Bytes}
use cromfs.Endian.{get_32, get_64}
use cromfs.Format.{DirInfo}
use cromfs.Inode.{Inode}
use cromfs.Inode.Blocks.{block_bytes}
use cromfs.Directory.Names.{insert_name}
use cromfs.Cache
use cromfs.Driver.{Fs, LzmaDecode, M, ◌>>=◌, ◌>>◌, return, lift, get, set_state, time}
use cromfs.Driver.Read.{read_file_data}
use cromfs.Driver.Lookup.{c_string, read_dir_inode, read_num_files}

-- The entries from number `dir_offset` on, at most `dir_count`, in the order of the map.
unfoldable pub get_dirinfo_portion : DirInfo → ℕ → ℕ → DirInfo
get_dirinfo_portion full dir_offset dir_count = take dir_count (drop dir_offset full)

-- `for(n...) entry_offsets[n] = get_32(&entry_offsets[n]);` from `n` on, with `left` to go.
unfoldable pub get_offsets : Bytes → ℕ → ℕ → Result (List ℕ)
get_offsets raw zero n = ok []
get_offsets raw (suc left) n =
    Base.◌>>=◌ (get_32 raw (4 * n))
      (λ x. Base.◌>>=◌ (get_offsets raw left (n + 1)) (λ rest. ok (x ∷ rest)))

-- The entry at `offs`. The code looks for the nul byte in `name_room` bytes from 8 bytes behind
-- `name_data` on, so that it reads behind `name_buf` when there is none.
unfoldable pub read_name : Bytes → ℕ → Result (Bytes × ℕ)
read_name name_buf offs = Base.◌>>=◌ (get_64 name_buf offs) (λ inonumber.
    elim (c_string (drop (offs + 8) name_buf)) [
      | none ↦ fault
      | some filename ↦ ok (filename, inonumber)
    ])

-- `first` is `entry_offsets[0]` and `previous` the address of the entry before, if there is one.
unfoldable pub read_names : Bytes → ℕ → ℕ → List ℕ → DirInfo → Result DirInfo
read_names name_buf first previous [] result = ok result
read_names name_buf first previous (offs ∷ rest) result =
    let name_offs = (offs + 2 ^ 32 - first) % 2 ^ 32 in
    let is_bad =
      leb (2 ^ 31) name_offs
      || (leb (length name_buf) ((name_offs + 9) % 2 ^ 32) || ltb offs previous) in
    let go_on =
      λ (e : Bytes × ℕ). read_names name_buf first offs rest (insert_name e.0 e.1 result) in
    if is_bad then throw eio else Base.◌>>=◌ (read_name name_buf name_offs) go_on

-- `readdir_cache.CheckAges(-1); readdir_cache.Put(inonum, result);`
unfoldable pub remember_dir : ℕ → DirInfo → M (Unit {0})
remember_dir inonum result = do
  now ← time
  fs ← get
  cache ← lift (Cache.check_ages now (negsuc 0) fs.readdir_cache)
  put_now ← time
  fs' ← get
  set_state (record fs' { readdir_cache = Cache.put put_now inonum result cache })

module _ (decode : LzmaDecode) where
  -- What follows when the addresses are read.
  unfoldable pub read_name_region : Inode → ℕ → List ℕ → M DirInfo
  read_name_region inode num_to_read entry_offsets = do
    first ← lift (or_fault (get_elem? entry_offsets 0))
    end ← lift (or_fault (get_elem? entry_offsets num_to_read))
    let name_buf_size = (end + 2 ^ 32 - first) % 2 ^ 32
    (name_buf, n) ← read_file_data decode inode first (replicate name_buf_size 0) name_buf_size
    lift (read_names name_buf first 0 (take num_to_read entry_offsets) [])

  unfoldable pub read_entries : Inode → ℕ → ℕ → ℕ → M DirInfo
  read_entries inode num_files dir_offset num_to_read =
      let zeros : List ℕ = replicate ((num_to_read + 1) % 2 ^ 32) 0 in
      let at_end = (dir_offset + num_to_read) == num_files in
      let start = if at_end then set zeros num_to_read (inode.bytesize % 2 ^ 32) else zeros in
      let num_addrs_to_read = if at_end then num_to_read else num_to_read + 1 in
      let size = 4 * num_addrs_to_read % 2 ^ 32 in
      (do
        (raw, n) ←
            read_file_data decode inode ((4 + dir_offset * 4) % 2 ^ 64)
              (block_bytes 4 (take num_addrs_to_read start)) size
        offsets ← lift (get_offsets raw num_addrs_to_read 0)
        read_name_region inode num_to_read (offsets ++ drop num_addrs_to_read start))

  unfoldable pub read_portion : Inode → ℕ → ℕ → ℕ → M DirInfo
  read_portion inode num_files dir_offset dir_count =
      let num_to_read = min (num_files - dir_offset) dir_count % 2 ^ 32 in
      if ltb dir_offset num_files && ltb 0 num_to_read
      then read_entries inode num_files dir_offset num_to_read
      else return []

  -- What follows the call of `Find`. Only a hit looks at the clock in `Find`.
  unfoldable pub read_dir_found :
      Bytes → Bytes → ℕ → ℕ → ℕ → Fs → Cache.Cache DirInfo × Option DirInfo → M DirInfo
  read_dir_found buf dir_header inonum dir_offset dir_count fs (cache, some info) = do
    set_state (record fs { readdir_cache = cache; ticks = fs.ticks + 1 })
    return (
        if (dir_offset == 0) && leb (length info) dir_count
        then info
        else get_dirinfo_portion info dir_offset dir_count)
  read_dir_found buf dir_header inonum dir_offset dir_count fs (cache, none) = do
    inode ← read_dir_inode decode buf inonum
    num_files ← read_num_files decode dir_header inode
    result ← read_portion inode num_files dir_offset dir_count
    if (dir_offset == 0) && leb num_files dir_count then remember_dir inonum result else return tt
    return result

  -- `buf` and `dir_header` are what the arrays on the stack have in them before.
  unfoldable pub read_dir : Bytes → Bytes → ℕ → ℕ → ℕ → M DirInfo
  read_dir buf dir_header inonum dir_offset dir_count = do
    fs ← get
    read_dir_found buf dir_header inonum dir_offset dir_count fs
        (Cache.find (fs.clock fs.ticks) inonum fs.readdir_cache)
