-- ===== src/Driver/ReadData.antt =====
-- `read_file_data` as a whole: the bytes of the file in the target, and their number.
use cromfs.Base.{ℕ, suc, ◌+◌, ◌-◌, ◌/◌, ◌%◌, ◌^◌, ◌<◌, ◌≤◌, ◌≡◌, ap, ◌∙◌, min, arith}
use cromfs.Base.{[], some, get_elem?, length, ok, Bool-cases, inl, inr, replicate}
use cromfs.Base.{true, ◌&&◌, ltb, leb, if◌then◌else◌}
use cromfs.Base.Bytes.{Bytes}
use cromfs.Inode.{Inode}
use cromfs.BlockTable.{Block}
use cromfs.Cache.{Cache}
use cromfs.Cache.Held.{All-check_ages}
use cromfs.Driver.{Fs, LzmaDecode, done, ◌>>=◌, ◌>>◌}
use cromfs.Driver.Read.{
  Required, collect, read_fblocks, read_file_data, check_fblock_ages, ensure_blktab, bitset_bitness,
}
use cromfs.Driver.Content.{block_at, file_byte, IsReadable, IsCoherent, moved}
use cromfs.Driver.Needed.{occurs, all_needed}
use cromfs.Driver.Collect.{collect_lists, none_needed}
use cromfs.Driver.Load.{read_fblock_uncached}
use cromfs.Driver.Totals.{is_in_any, total, total-all, is_in_any-occurs}
use cromfs.Driver.Fblocks.{read_fblocks-Fills}

module _ (decode : LzmaDecode) (inode : Inode) (offset size : ℕ) where
  abbrev stop : ℕ
  stop = min inode.bytesize ((offset + size) % 2 ^ 64)

  abbrev from : ℕ
  from = min inode.bytesize offset

  ages_checked :
      (fs0 : Fs) (cache : Cache Bytes) (ticks : ℕ)
      → IsCoherent decode (moved fs0 cache ticks)
      → (cache' : Cache Bytes) × (ticks' : ℕ) × (check_fblock_ages decode (moved fs0 cache ticks)
          ≡ done tt (moved fs0 cache' ticks'))
        × IsCoherent decode (moved fs0 cache' ticks')
  ages_checked fs0 cache ticks (room, held) =
      let some_room : cache.max_size ≡ suc (cache.max_size - 1) = omega arith in
      let (cache', checked, same_size, held') =
        All-check_ages (λ e. read_fblock_uncached decode e.key fs0 ≡ ok e.value) (fs0.clock ticks)
          (cache.max_size - 1) cache some_room held in
      (
        cache',
        ticks + 1,
        unfold check_fblock_ages in rw (check_fblock_ages, ◌>>=◌, checked),
        (omega arith, held'),
      )

  abbrev none_yet : Fs → Required
  none_yet fs0 = record {
    bits = replicate ((length fs0.fblktab + bitset_bitness - 1) / bitset_bitness) 0;
    cached = [];
    uncached = [];
  }

  read_file_data_steps :
      (target t' : Bytes) (n : ℕ) (fs fs0 fs1 fs2 : Fs) (req : Required)
      → ensure_blktab decode fs ≡ done tt fs0
      → collect fs0 inode (stop - from) from stop (none_yet fs0) ≡ ok req
      → read_fblocks decode (all_needed req) inode offset target size 0 fs0 ≡ done (t', n) fs1
      → check_fblock_ages decode fs1 ≡ done tt fs2
      → read_file_data decode inode offset target size fs ≡ done (t', n) fs2
  read_file_data_steps target t' n fs fs0 fs1 fs2 req filled collected reads checked =
      unfold read_file_data in rw (read_file_data, ◌>>◌, ◌>>=◌, filled, collected, reads, checked)

  module _ (fs0 : Fs) (req : Required)
      (listed : (i : ℕ) (block : Block)
        → from ≤ i
        → i < stop
        → block_at inode fs0.blktab i ≡ some block
        → occurs block.fblocknum (all_needed req) ≡ 1)
      (readable : (i : ℕ) → from ≤ i → i < stop → IsReadable decode fs0 inode i) where
    block_listed :
        (k : ℕ)
        → from ≤ k
        → k < stop
        → (block : Block) × (block_at inode fs0.blktab k ≡ some block)
          × (occurs block.fblocknum (all_needed req) ≡ 1)
    unfolding IsReadable
    block_listed k low high =
        let (block, bytes, found, loads, inside, bit) = readable k low high in
        (block, found, listed k block low high found)

    -- The bytes of the listed fblocks are all bytes up to the end of the read.
    covered :
        (j : ℕ)
        → offset + size < 2 ^ 64
        → (leb from (offset + j)
            && (ltb (offset + j) stop && is_in_any inode fs0.blktab (all_needed req) (offset + j)))
          ≡ ltb (offset + j) (min inode.bytesize (offset + size))
    covered j short =
        let last : (offset + size) % 2 ^ 64 ≡ offset + size = omega arith in
        elim (Bool-cases (ltb (offset + j) stop)) [
          | inl e ↦
              let high : offset + j < stop = ground arith in
              let low : from ≤ offset + j = omega arith in
              let (block, found, once) = block_listed (offset + j) low high in
              let any : is_in_any inode fs0.blktab (all_needed req) (offset + j) ≡ true =
                is_in_any-occurs inode fs0.blktab (all_needed req) (offset + j) block found
                  (omega arith) in
              rw (any) (ground arith)
          | inr e ↦ ground arith
        ]

  -- A read of `size` bytes at `offset` returns the number of bytes of the file that lie there, puts
  -- exactly these bytes of the file at the start of the target and keeps the rest of the target,
  -- whatever fblocks are in the cache. It changes the cache and the clock only, and leaves the cache
  -- coherent. `fs0` is the state once the block table is there. The cache is coherent before, each
  -- byte to read is readable, the range ends below 2 ^ 64, the block size is not 0, and the target
  -- has room for `size` bytes.
  pub read_file_data_lem :
      (target : Bytes) (fs fs0 : Fs)
      → ensure_blktab decode fs ≡ done tt fs0
      → 0 < inode.blocksize
      → offset + size < 2 ^ 64
      → size ≤ length target
      → IsCoherent decode fs0
      → ((i : ℕ)
          → offset ≤ i
          → i < min inode.bytesize (offset + size)
          → IsReadable decode fs0 inode i)
      → (target' : Bytes) × (cache : Cache Bytes) × (ticks : ℕ) × (read_file_data decode inode
            offset target size fs
          ≡ done (target', min inode.bytesize (offset + size) - offset) (moved fs0 cache ticks))
        × IsCoherent decode (moved fs0 cache ticks)
        × (length target' ≡ length target)
        × ((j : ℕ)
            → get_elem? target' j ≡ (
                if ltb (offset + j) (min inode.bytesize (offset + size))
                then file_byte decode fs0 inode (offset + j)
                else get_elem? target j))
  read_file_data_lem target fs fs0 filled some_size short fits coherent readable =
      let last : (offset + size) % 2 ^ 64 ≡ offset + size = omega arith in
      let readable' : (i : ℕ) → from ≤ i → i < stop → IsReadable decode fs0 inode i =
        λ i low high. readable i (omega arith) (omega arith) in
      let (req, collected, covers, kept) =
        collect_lists decode fs0 inode stop some_size (stop - from) from (none_yet fs0)
          (omega arith) readable' (none_needed fs0) in
      let (t', cache, ticks, reads, coherent', len, content) =
        read_fblocks-Fills decode fs0 inode offset size some_size (all_needed req) target 0
          fs0.fblock_cache fs0.ticks (omega arith) readable' coherent in
      let (cache', ticks', checked, coherent'') = ages_checked fs0 cache ticks coherent' in
      let once : (k : ℕ)
          → from ≤ k
          → k < from + (stop - from)
          → (block : Block) × (block_at inode fs0.blktab k ≡ some block)
            × (occurs block.fblocknum (all_needed req) ≡ 1) =
        λ k low high. block_listed fs0 req (λ i b. covers i b) readable' k low (omega arith) in
      let counted : 0 + total inode fs0.blktab (all_needed req) from (stop - from)
          ≡ min inode.bytesize (offset + size) - offset =
        let all = total-all inode fs0.blktab (all_needed req) from (stop - from) once in
        omega arith in
      (
        t',
        cache',
        ticks',
        read_file_data_steps target t'
              (0 + total inode fs0.blktab (all_needed req) from (stop - from)) fs fs0
              (moved fs0 cache ticks) (moved fs0 cache' ticks') req filled collected reads checked
            ∙ ap (λ q. done (t', q) (moved fs0 cache' ticks')) counted,
        coherent'',
        len,
        λ j.
            content j
            ∙ ap (λ b. if b then file_byte decode fs0 inode (offset + j) else get_elem? target j)
                (covered fs0 req (λ i b. covers i b) readable' j short),
      )
