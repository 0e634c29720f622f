-- ===== src/Driver/File.antt =====
-- A file whose content is known, and reads that lie within it.
use cromfs.Base.{ℕ, ◌+◌, ◌-◌, ◌<◌, ◌≤◌, ◌^◌, ◌≡◌, refl, sym, ◌∙◌, min, arith}
use cromfs.Base.{length, get_elem?, take, drop, length-drop, length-take_le, Bool-cases, inl, inr}
use cromfs.Base.{ltb, if◌then◌else◌}
use cromfs.Base.Access.{get_elem?-drop, get_elem?-take}
use cromfs.Base.Bytes.{Bytes}
use cromfs.Inode.{Inode}
use cromfs.Cache.{Cache}
use cromfs.Driver.{Fs, LzmaDecode, done}
use cromfs.Driver.Read.{read_file_data, ensure_blktab}
use cromfs.Driver.Content.{file_byte, IsReadable, IsCoherent, moved}
use cromfs.Driver.Fetch.{ensure_blktab_filled}
use cromfs.Driver.ReadData.{read_file_data_lem}
use cromfs.Driver.Order.{same_elements}
use cromfs.Base.{ap₂}
use cromfs.Base.Access.{get_elem?-none}
use cromfs.Driver.Chunks.{next_chunk_found}

module _ (decode : LzmaDecode) where
  -- The file has the bytes `content`, and each can be read.
  pub record HoldsFile (fs : Fs) (inode : Inode) (content : Bytes) : Type 0 where
    pub some_size : 0 < inode.blocksize
    pub bytesize : inode.bytesize ≡ length content
    pub readable : (i : ℕ) → i < length content → IsReadable decode fs inode i
    pub bytes : (i : ℕ) → i < length content → file_byte decode fs inode i ≡ get_elem? content i

  IsReadable-moved :
      (fs : Fs) (inode : Inode) (i : ℕ) (cache : Cache Bytes) (ticks : ℕ)
      → IsReadable decode fs inode i
      → IsReadable decode (moved fs cache ticks) inode i
  unfolding IsReadable
  IsReadable-moved fs inode i cache ticks h = h

  file_byte-moved :
      (fs : Fs) (inode : Inode) (i : ℕ) (cache : Cache Bytes) (ticks : ℕ)
      → file_byte decode (moved fs cache ticks) inode i ≡ file_byte decode fs inode i
  unfolding file_byte
  file_byte-moved fs inode i cache ticks = refl

  pub HoldsFile-moved :
      (fs : Fs) (inode : Inode) (content : Bytes) (cache : Cache Bytes) (ticks : ℕ)
      → HoldsFile fs inode content
      → HoldsFile (moved fs cache ticks) inode content
  HoldsFile-moved fs inode content cache ticks h = record {
    some_size = h.some_size;
    bytesize = h.bytesize;
    readable = λ i below. IsReadable-moved fs inode i cache ticks (h.readable i below);
    bytes = λ i below. file_byte-moved fs inode i cache ticks ∙ h.bytes i below;
  }

  -- A file with a byte in it has a block, so the block table is there.
  pub block_table_there :
      (fs : Fs) (inode : Inode) (i : ℕ)
      → 0 < inode.blocksize
      → IsReadable decode fs inode i
      → ensure_blktab decode fs ≡ done tt fs
  unfolding IsReadable
  block_table_there fs inode i some_size (block, bytes, found, loads, inside, bit) =
      let (blocknum, chunk, at) = next_chunk_found inode fs.blktab some_size i i block found in
      ensure_blktab_filled decode fs blocknum block at

  read_byte :
      (fs : Fs) (inode : Inode) (content : Bytes) (offset size : ℕ) (target : Bytes)
      → HoldsFile fs inode content
      → offset + size ≤ length content
      → length target ≡ size
      → (j : ℕ)
      → (if ltb (offset + j) (min inode.bytesize (offset + size))
          then file_byte decode fs inode (offset + j)
          else get_elem? target j)
        ≡ get_elem? (take size (drop offset content)) j
  read_byte fs inode content offset size target h inside len j =
      let same : ltb (offset + j) (min inode.bytesize (offset + size)) ≡ ltb j size =
        ground (arith, h.bytesize) in
      let n : length (take size (drop offset content)) ≡ size =
        length-take_le size (drop offset content) (omega (arith, length-drop offset content)) in
      elim (Bool-cases (ltb j size)) [
        | inl e ↦
            rw (same, e)
              (h.bytes (offset + j) (ground arith)
                ∙ sym (
                    get_elem?-take size (drop offset content) j (ground arith)
                    ∙ get_elem?-drop offset content j))
        | inr e ↦
            rw (same, e)
              (get_elem?-none target j (ground arith)
                ∙ sym (get_elem?-none (take size (drop offset content)) j (ground arith)))
      ]

  -- A read within the file gives the bytes that stand there.
  pub read_within :
      (fs : Fs) (inode : Inode) (content : Bytes) (offset size : ℕ) (target : Bytes)
      → HoldsFile fs inode content
      → IsCoherent decode fs
      → 0 < length content
      → length content < 2 ^ 64
      → offset + size ≤ length content
      → length target ≡ size
      → (cache : Cache Bytes) × (ticks : ℕ) × (read_file_data decode inode offset target size fs
          ≡ done (take size (drop offset content), size) (moved fs cache ticks))
        × IsCoherent decode (moved fs cache ticks)
  read_within fs inode content offset size target h coherent some_content short inside len =
      let readable : (i : ℕ)
          → offset ≤ i
          → i < min inode.bytesize (offset + size)
          → IsReadable decode fs inode i =
        λ i low high. h.readable i (omega (arith, h.bytesize)) in
      let (t, cache, ticks, reads, coherent', t_len, t_content) =
        read_file_data_lem decode inode offset size target fs fs
          (block_table_there fs inode 0 h.some_size (h.readable 0 some_content)) h.some_size
          (omega arith) (omega arith) coherent readable in
      let number : min inode.bytesize (offset + size) - offset ≡ size = omega (arith, h.bytesize) in
      let whole : t ≡ take size (drop offset content) =
        same_elements t (take size (drop offset content))
          (t_len
            ∙ (len
                ∙ sym (
                    length-take_le size (drop offset content)
                      (omega (arith, length-drop offset content)))))
          (λ j. t_content j ∙ read_byte fs inode content offset size target h inside len j) in
      (
        cache,
        ticks,
        reads ∙ ap₂ (λ b n. done (b, n) (moved fs cache ticks)) whole number,
        coherent',
      )
