-- ===== src/Driver/OneFblock.antt =====
-- `read_file_data_from_one_fblock_only`: one round of its loop.
pub mod Round
pub mod Merge
pub mod Loop
use cromfs.Base.{
  ℕ, zero, suc, ◌+◌, ◌-◌, ◌*◌, ◌/◌, ◌%◌, ◌<◌, ◌≤◌, ◌≡◌, refl, sym, ap, ◌∙◌, min, arith,
}
use cromfs.Base.{
  List, Option, none, some, get_elem?, length, take, drop, Result, ok, Option-cases, Bool-cases,
  inl, inr, ◌⊎◌,
}
use cromfs.Base.{Bool, true, false, ◌&&◌, ltb, leb, ◌==◌, if◌then◌else◌, lt→ltb, le→ltb}
use cromfs.Base.{length-take_le, length-drop}
use cromfs.Base.Access.{
  get_elem?-write_inside, get_elem?-write_outside, get_elem?-take, get_elem?-drop,
}
use cromfs.Base.Bytes.{Bytes, write, length-write}
use cromfs.Inode.{Inode}
use cromfs.BlockTable.{Block}
use cromfs.Cache.{Cache}
use cromfs.Driver.{Fs, LzmaDecode, Run, done, ◌>>=◌}
use cromfs.Driver.Load.{read_fblock_uncached}
use cromfs.Driver.Read.{Chunk, chunk_of, next_chunk, read_block, one_fblock_loop}
use cromfs.Driver.Content.{block_at, file_byte, IsReadable, IsCoherent, moved}
use cromfs.Driver.Fetch.{read_block_inside}
use cromfs.Driver.Chunks.{
  is_in_fblock, count_in_fblock, chunk_size, next_chunk_found, chunk_pos, chunk_inside, same_block,
  block_at-chunk, is_in_fblock-chunk, count_in_fblock-chunk,
}
use cromfs.Base.{subst}
use cromfs.Base.{ap₂}

module _ {ℓ} {A : Type ℓ} where
  pub if_reached :
      (b b' : Bool) (x y z : A)
      → b ≡ false
      → b' ≡ true
      → y ≡ x
      → (if b then x else y) ≡ (if b' then x else z)
  if_reached b b' x y z e e' h = rw (e, e') h

  pub if_same :
      (b b' : Bool) (x y z : A) → b ≡ b' → y ≡ z → (if b then x else y) ≡ (if b' then x else z)
  if_same b b' x y z e h = ap₂ (λ c w. if c then x else w) e h

  pub if_not : (b : Bool) (x y : A) → b ≡ false → y ≡ (if b then x else y)
  if_not b x y e = rw e

module _ (decode : LzmaDecode) (fs0 : Fs) (inode : Inode) (offset endpos : ℕ) where
  -- A run that ends well: it fills in the bytes that `covers` names, keeps the other bytes of the
  -- target, and leaves all but the cache and the clock as they were.
  abbrev pub Fills : Run (Bytes × ℕ) → ℕ → (ℕ → Bool) → Bytes → Type 0
  Fills run result covers t =
      (t' : Bytes) × (cache : Cache Bytes) × (ticks : ℕ) × (run
        ≡ done (t', result) (moved fs0 cache ticks))
      × IsCoherent decode (moved fs0 cache ticks)
      × (length t' ≡ length t)
      × ((j : ℕ)
          → get_elem? t' j ≡ (
              if covers (offset + j)
              then file_byte decode fs0 inode (offset + j)
              else get_elem? t j))

  abbrev pub covers_from : ℕ → ℕ → ℕ → Bool
  covers_from a p i = leb p i && (ltb i endpos && is_in_fblock inode fs0.blktab a i)

  module _ (a : ℕ) where
    pub loop_end :
        (fuel p : ℕ) (t : Bytes) (r : ℕ) (fs : Fs)
        → endpos ≤ p
        → one_fblock_loop decode fuel inode offset a p endpos t r fs ≡ done (t, r) fs
    loop_end zero p t r fs h = unfold one_fblock_loop in rw (one_fblock_loop, le→ltb p endpos h)
    loop_end (suc fuel) p t r fs h =
        unfold one_fblock_loop in rw (one_fblock_loop, le→ltb p endpos h)

    pub loop_skip :
        (fuel p : ℕ) (t : Bytes) (r : ℕ) (fs : Fs) (c : Chunk)
        → p < endpos
        → next_chunk inode fs.blktab p endpos ≡ ok (some c)
        → (c.fblocknum == a) ≡ false
        → one_fblock_loop decode (suc fuel) inode offset a p endpos t r fs
          ≡ one_fblock_loop decode fuel inode offset a (p + c.bytes) endpos t r fs
    loop_skip fuel p t r fs c h found other =
        unfold one_fblock_loop in rw (one_fblock_loop, lt→ltb p endpos h, ◌>>=◌, found, other)

    pub loop_take :
        (fuel p : ℕ) (t t' : Bytes) (r : ℕ) (fs fs' : Fs) (c : Chunk)
        → p < endpos
        → next_chunk inode fs.blktab p endpos ≡ ok (some c)
        → (c.fblocknum == a) ≡ true
        → read_block decode c.blocknum c.block_offset t (p - offset) c.bytes fs ≡ done t' fs'
        → one_fblock_loop decode (suc fuel) inode offset a p endpos t r fs
          ≡ one_fblock_loop decode fuel inode offset a (p + c.bytes) endpos t' (r + c.bytes) fs'
    loop_take fuel p t t' r fs fs' c h found same reads =
        unfold one_fblock_loop in rw (one_fblock_loop, lt→ltb p endpos h, ◌>>=◌, found, same, reads)
