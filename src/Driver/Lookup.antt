-- ===== src/Driver/Lookup.antt =====
-- cromfs.cc, `dir_lookup`: the inode number of a name in a directory.
pub mod Pointers
pub mod Entry
pub mod Search
pub mod Found
use cromfs.Base.{
  ℕ, zero, suc, ◌+◌, ◌-◌, ◌*◌, ◌/◌, ◌%◌, ◌^◌, List, [], ◌∷◌, length, get_elem?, set, take, drop,
  replicate,
}
use cromfs.Base.{
  Bool, true, false, not, ◌&&◌, ◌||◌, Option, none, some, ltb, leb, ◌==◌, if◌then◌else◌, Result, ok,
  or_fault, eio, enotdir,
}
use cromfs.Base
use cromfs.Base.Bytes.{Bytes}
use cromfs.Endian.{get_32, get_64}
use cromfs.Format.{DirInfo, s_isdir}
use cromfs.Inode.{Inode}
use cromfs.Inode.Blocks.{block_bytes}
use cromfs.Directory.Names.{Comparison, less, equal, greater, compare, find_name}
use cromfs.Cache
use cromfs.Driver.{Fs, LzmaDecode, M, undefined, ◌>>=◌, ◌>>◌, return, raise, lift, get, set_state}
use cromfs.Driver.Read.{read_file_data}
use cromfs.Driver.InodeBlocks.{read_inode_and_blocks}

-- The two vectors of the search: the addresses, and which of them have been read.
pub record Offsets : Type 0 where
  pub entry_offsets : List ℕ
  pub offs_read : List Bool

-- `entry_offsets[i] = get_32(...); offs_read[i] = true;`
unfoldable pub store_pointer : Bytes → ℕ → ℕ → Offsets → Result Offsets
store_pointer raw at i o = Base.◌>>=◌ (or_fault (get_elem? o.offs_read i)) (λ old.
    Base.◌>>=◌ (get_32 raw at) (λ x.
      ok (record { entry_offsets = set o.entry_offsets i x; offs_read = set o.offs_read i true })))

-- `memchr`: the bytes in front of the first nul byte.
unfoldable pub c_string : Bytes → Option Bytes
c_string [] = none
c_string (x ∷ xs) =
    let rest = c_string xs in
    if x == 0 then some [] else elim rest [ none ↦ none | some s ↦ some (x ∷ s) ]

-- `j->second` of what `find` returns, or 0.
abbrev pub number_or_0 : Option ℕ → ℕ
number_or_0 none = 0
number_or_0 (some ino) = ino

module _ (decode : LzmaDecode) where
  -- The raw read goes into the vector's own memory, little-endian as on the hosts of the program.
  unfoldable pub load_pointers : Inode → ℕ → ℕ → ℕ → Offsets → M Offsets
  load_pointers inode middle read_offs n_read o = do
    let old = block_bytes 4 (take (n_read / 4) (drop (middle + read_offs / 4) o.entry_offsets))
    (raw, n) ← read_file_data decode inode ((4 + read_offs + middle * 4) % 2 ^ 32) old n_read
    o' ← lift (if read_offs == 0 then store_pointer raw 0 middle o else ok o)
    lift (
        if (n_read == 8) || (read_offs == 4)
        then store_pointer raw (4 - read_offs) (middle + 1) o'
        else ok o')

  -- The addresses of an entry and of the next one, unless they have been read; `last` is not read.
  unfoldable pub read_pointers : Inode → ℕ → ℕ → Offsets → M Offsets
  read_pointers inode last middle o = do
    has_this ← lift (or_fault (get_elem? o.offs_read middle))
    has_next ←
        lift
          (if ltb (middle + 1) last then or_fault (get_elem? o.offs_read (middle + 1)) else ok true)
    let read_offs = if has_this then 4 else 0
    let n_read = (if has_this then 0 else 4) + (if has_next then 0 else 4)
    if n_read == 0 then return o else load_pointers inode middle read_offs n_read o

  -- The inode number and the name of the entry between two addresses.
  unfoldable pub read_entry : Inode → ℕ → ℕ → M (ℕ × Bytes)
  read_entry inode offs_this offs_next =
      let entry_length = (offs_next + 2 ^ 32 - offs_this) % 2 ^ 32 in
      let name_room = (entry_length + 2 ^ 32 - 8) % 2 ^ 32 in
      let entry = (do
        (entry_buf, n) ←
            read_file_data decode inode offs_this (replicate entry_length 0) entry_length
        inonumber ← lift (get_64 entry_buf 0)
        elim (c_string (take name_room (drop 8 entry_buf))) [
          | none ↦ raise eio
          | some filename ↦ return (inonumber, filename)
        ]) in
      if leb offs_next ((offs_this + 9) % 2 ^ 32)
        || (leb inode.bytesize offs_this || ltb inode.bytesize offs_next)
      then raise eio
      else entry

  -- A round of the search, which goes on with `loop` from a new `first` and `len`.
  unfoldable pub search_round : (ℕ → ℕ → Offsets → M ℕ) → Inode → Bytes → ℕ → ℕ → ℕ → Offsets → M ℕ
  search_round loop inode search_name last first len o =
      let half = len / 2 in
      let middle = (first + half) % 2 ^ 32 in
      let go : Offsets → Comparison → ℕ → M ℕ = λ o' c inonumber. elim c [
        | less ↦ loop first half o'
        | equal ↦ return inonumber
        | greater ↦ loop (middle + 1) (len - half - 1) o'
      ] in
      (do
        o' ← read_pointers inode last middle o
        offs_this ← lift (or_fault (get_elem? o'.entry_offsets middle))
        offs_next ← lift (or_fault (get_elem? o'.entry_offsets (middle + 1)))
        (inonumber, filename) ← read_entry inode offs_this offs_next
        go o' (compare search_name filename) inonumber)

  -- The binary search. Each round makes `len` smaller, so that `len` rounds are enough.
  unfoldable pub search_loop : ℕ → Inode → Bytes → ℕ → ℕ → ℕ → Offsets → M ℕ
  search_loop zero inode search_name last first len o =
      if ltb 0 len then (λ fs. undefined) else return 0
  search_loop (suc fuel) inode search_name last first len o =
      if ltb 0 len
      then search_round (search_loop fuel inode search_name last) inode search_name last first len o
      else return 0

  -- The search behind the header, where no address has been read.
  unfoldable pub search_directory : Inode → Bytes → ℕ → M ℕ
  search_directory inode search_name num_files =
      search_loop num_files inode search_name num_files 0 num_files (record {
        entry_offsets = set (replicate (num_files + 1) 0) num_files (inode.bytesize % 2 ^ 32);
        offs_read = replicate num_files false;
      })

  -- `buf` and `dir_header` are what the arrays on the stack have in them before.
  unfoldable pub read_dir_inode : Bytes → ℕ → M Inode
  read_dir_inode buf inonum = do
    inode ← read_inode_and_blocks decode buf inonum
    if not (inonum == 1) && not (s_isdir inode.mode) then raise enotdir else return inode

  unfoldable pub read_num_files : Bytes → Inode → M ℕ
  read_num_files dir_header inode = do
    (header, n) ← read_file_data decode inode 0 dir_header 4
    if ltb n 4 then raise eio else lift (get_32 header 0)

  -- What follows the call of `Find`. Only a hit looks at the clock in `Find`.
  unfoldable pub lookup_found :
      Bytes → Bytes → ℕ → Bytes → Fs → Cache.Cache DirInfo × Option DirInfo → M ℕ
  lookup_found buf dir_header inonum search_name fs (cache, some info) = do
    set_state (record fs { readdir_cache = cache; ticks = fs.ticks + 1 })
    return (number_or_0 (find_name search_name info))
  lookup_found buf dir_header inonum search_name fs (cache, none) = do
    inode ← read_dir_inode buf inonum
    num_files ← read_num_files dir_header inode
    search_directory inode search_name num_files

  unfoldable pub dir_lookup : Bytes → Bytes → ℕ → Bytes → M ℕ
  dir_lookup buf dir_header inonum search_name = do
    fs ← get
    lookup_found buf dir_header inonum search_name fs
        (Cache.find (fs.clock fs.ticks) inonum fs.readdir_cache)
