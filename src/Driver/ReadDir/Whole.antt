-- ===== src/Driver/ReadDir/Whole.antt =====
-- cromfs.cc, `read_dir` as a whole.
use cromfs.Base.{
  ℕ, suc, ◌+◌, ◌≤◌, ◌<◌, ◌≡◌, refl, sym, ap, ◌∙◌, subst, arith, List, [], ◌∷◌, length, take, drop,
  All,
}
use cromfs.Base.{
  Option, Bool, true, some, none, leb, ◌==◌, ◌&&◌, if◌then◌else◌, Bool-cases, inl, inr,
  Option-cases,
}
use cromfs.Base.Bytes.{Bytes}
use cromfs.Format.{DirInfo, inode_header_size}
use cromfs.Inode.{Inode}
use cromfs.Cache
use cromfs.Cache.Held.{All-check_ages}
use cromfs.Cache.Lookup.{value_of, value_of-find, value_of-put, find-has-put_refine}
use cromfs.Driver.{Fs, LzmaDecode, done, ◌>>=◌, return}
use cromfs.Driver.Content.{IsCoherent, moved}
use cromfs.Driver.Lookup.{read_dir_inode, read_num_files}
use cromfs.Driver.Lookup.Found.{
  HoldsDir, HoldsDir-file, HoldsDir-inode, IsCached, read_dir_inode_lem, read_num_files_lem,
}
use cromfs.Driver.ReadDir.{
  get_dirinfo_portion, read_portion, remember_dir, read_dir_found, read_dir,
}
use cromfs.Driver.ReadDir.Listed.{read_portion_lem}
use cromfs.Base.Access.{take_all}
use cromfs.Base.{◌-◌}

all_true : {A : Type 0} → (xs : List A) → All (λ x. Unit {0}) xs
all_true [] = tt
all_true (x ∷ xs) = (tt, all_true xs)

-- A directory that has been read as a whole is in the cache.
remember_dir_lem :
    (inonum m : ℕ) (dir : DirInfo) (fs : Fs)
    → fs.readdir_cache.max_size ≡ suc m
    → (cache : Cache.Cache DirInfo) × (remember_dir inonum dir fs
        ≡ done tt (record fs { readdir_cache = cache; ticks = fs.ticks + 1 + 1 }))
      × (value_of inonum cache.entries ≡ some dir)
remember_dir_lem inonum m dir fs room =
    let (cache, checks, size, all) =
      All-check_ages (λ e. Unit {0}) (fs.clock fs.ticks) m fs.readdir_cache room
        (all_true fs.readdir_cache.entries) in
    let now : ℕ = fs.clock (fs.ticks + 1) in
    let puts = value_of-put now inonum inonum dir cache in
    let same : (inonum == inonum) ≡ true = ground arith in
    (
      Cache.put now inonum dir cache,
      (unfold remember_dir in rw (remember_dir, ◌>>=◌, checks) refl),
      puts ∙ rw same refl,
    )

module _ (decode : LzmaDecode) (fs : Fs) (inonum : ℕ) (inode : Inode) (dir : DirInfo)
    (dir_offset dir_count : ℕ) where
  abbrev part : DirInfo
  part = take dir_count (drop dir_offset dir)

  abbrev is_whole : Bool
  is_whole = (dir_offset == 0) && leb (length dir) dir_count

  whole_part : is_whole ≡ true → part ≡ dir
  whole_part e =
      let start : dir_offset ≡ 0 = ground arith in
      let all : length dir ≤ dir_count = ground arith in
      ap (λ o. take dir_count (drop o dir)) start ∙ take_all dir_count dir all

  answer : (if is_whole then dir else get_dirinfo_portion dir dir_offset dir_count) ≡ part
  answer = elim (Bool-cases is_whole) [
    | inl e ↦ rw e (sym (whole_part e))
    | inr e ↦ rw e (unfold get_dirinfo_portion in refl)
  ]

  found_hit :
      (buf dir_header : Bytes) (found : Cache.Cache DirInfo × Option DirInfo)
      → found.1 ≡ some dir
      → read_dir_found decode buf dir_header inonum dir_offset dir_count fs found fs
        ≡ done part (record fs { readdir_cache = found.0; ticks = fs.ticks + 1 })
  found_hit buf dir_header (cache, none) hit = cc
  found_hit buf dir_header (cache, some other) hit =
      let same : dir ≡ other = cc in
      let s : Fs = record fs { readdir_cache = cache; ticks = fs.ticks + 1 } in
      unfold read_dir_found in
      subst
        (λ d.
          done
            (if (dir_offset == 0) && leb (length d) dir_count
              then d
              else get_dirinfo_portion d dir_offset dir_count)
            s
          ≡ done part s)
        same (ap (λ d. done d s) answer)

  found_miss :
      (buf dir_header : Bytes) (found : Cache.Cache DirInfo × Option DirInfo) (n : ℕ)
      (result : DirInfo) (s s' s'' s''' : Fs)
      → found.1 ≡ none
      → read_dir_inode decode buf inonum fs ≡ done inode s
      → read_num_files decode dir_header inode s ≡ done n s'
      → read_portion decode inode n dir_offset dir_count s' ≡ done result s''
      → (if (dir_offset == 0) && leb n dir_count then remember_dir inonum result else return tt) s''
        ≡ done tt s'''
      → read_dir_found decode buf dir_header inonum dir_offset dir_count fs found fs
        ≡ done result s'''
  found_miss buf dir_header (cache, some other) n result s s' s'' s''' miss reads counts lists
        keeps =
      cc
  found_miss buf dir_header (cache, none) n result s s' s'' s''' miss reads counts lists keeps =
      unfold read_dir_found in rw (read_dir_found, ◌>>=◌, reads, counts, lists, keeps) refl

  -- The end of `read_dir`, after the part has been read.
  keep_lem :
      (m : ℕ) (s : Fs)
      → s.readdir_cache.max_size ≡ suc m
      → IsCached s inonum dir
      → IsCoherent decode s
      → (s' : Fs) × ((if is_whole then remember_dir inonum part else return tt) s ≡ done tt s')
        × IsCached s' inonum dir
        × IsCoherent decode s'
  keep_lem m s room cached coherent = elim (Bool-cases is_whole) [
    | inr e ↦ (s, rw e refl, cached, coherent)
    | inl e ↦
        let (cache, remembers, there) = remember_dir_lem inonum m dir s room in
        (
          record s { readdir_cache = cache; ticks = s.ticks + 1 + 1 },
          rw e (ap (λ d. remember_dir inonum d s) (whole_part e) ∙ remembers),
          (λ info at. let both : some info ≡ some dir = sym at ∙ there in cc),
          coherent,
        )
  ]

  hit-IsCached :
      IsCached fs inonum dir
      → IsCached
          (record fs {
            readdir_cache = (Cache.find (fs.clock fs.ticks) inonum fs.readdir_cache).0;
            ticks = fs.ticks + 1;
          })
          inonum
          dir
  hit-IsCached cached info at =
      let keeps = value_of-find (fs.clock fs.ticks) inonum inonum fs.readdir_cache in
      cached info (sym keeps ∙ at)

  -- `read_dir` of a directory that the image holds returns its entries from number `dir_offset` on,
  -- `dir_count` at most, whether the directory is cached or not, whatever the arrays on the stack
  -- have in them before. Both caches stay right. The cache of directories has room for one.
  pub read_dir-encode_directory :
      (pre raw post bytes buf dir_header : Bytes)
      → HoldsDir decode fs inonum inode dir pre raw post bytes
      → IsCached fs inonum dir
      → IsCoherent decode fs
      → 0 < fs.readdir_cache.max_size
      → inode_header_size fs.storage_opts ≤ length buf
      → length dir_header ≡ 4
      → (fs' : Fs) × (read_dir decode buf dir_header inonum dir_offset dir_count fs
          ≡ done (take dir_count (drop dir_offset dir)) fs')
        × IsCached fs' inonum dir
        × IsCoherent decode fs'
  unfolding read_dir
  read_dir-encode_directory pre raw post bytes buf dir_header holds cached coherent room header
        len =
      let found = Cache.find (fs.clock fs.ticks) inonum fs.readdir_cache in
      let looks : found.1 ≡ value_of inonum fs.readdir_cache.entries =
        (find-has-put_refine (fs.clock fs.ticks) inonum inonum dir fs.readdir_cache).0 in
      let file = HoldsDir-file decode fs inonum inode dir pre raw post bytes holds in
      let fits = holds.dir_size in
      elim (Option-cases (value_of inonum fs.readdir_cache.entries)) [
        | inr (info, hit) ↦ (
          record fs { readdir_cache = found.0; ticks = fs.ticks + 1 },
          found_hit buf dir_header found (looks ∙ (hit ∙ ap some (cached info hit))),
          hit-IsCached cached,
          coherent,
        )
        | inl miss ↦
            let (cache0, ticks0, reads, coherent0) =
              HoldsDir-inode decode fs inonum inode dir pre raw post bytes holds buf coherent
                header in
            let (cache1, ticks1, counts, coherent1) =
              read_num_files_lem decode fs inode dir [] file (omega arith) dir_header cache0 ticks0
                len coherent0 in
            let (cache2, ticks2, lists, coherent2) =
              read_portion_lem decode fs inode dir file fits holds.sorted holds.entries dir_offset
                dir_count cache1 ticks1 coherent1 in
            let (s, keeps, cached', coherent') =
              keep_lem (fs.readdir_cache.max_size - 1) (moved fs cache2 ticks2) (omega arith) cached
                coherent2 in
            (
              s,
              found_miss buf dir_header found (length dir) part (moved fs cache0 ticks0)
                  (moved fs cache1 ticks1) (moved fs cache2 ticks2) s (looks ∙ miss)
                  (read_dir_inode_lem decode fs inode inonum dir [] buf (moved fs cache0 ticks0)
                    (inr holds.is_dir) reads)
                  counts lists keeps,
              cached',
              coherent',
            )
      ]
