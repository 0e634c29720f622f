-- ===== src/Driver/InodeBlocks.antt =====
-- cromfs.cc, `read_inode_and_blocks`: an inode with its block list from the inode table.
use mathlib.Core.List.{append_assoc}
use cromfs.Base.{
  ℕ, zero, suc, ◌+◌, ◌-◌, ◌*◌, ◌%◌, ◌<◌, ◌≤◌, ◌^◌, ◌≡◌, refl, sym, ap, ap₂, subst, ◌∙◌, min, arith,
}
use cromfs.Base.{
  List, [], ◌∷◌, ◌++◌, length, get_elem?, take, drop, replicate, length-append, length-replicate,
  All, Bool-cases, inl, inr,
}
use cromfs.Base.{true, false, ltb, leb, ◌==◌, if◌then◌else◌, Result, ok}
use cromfs.Base
use cromfs.Base.Bytes.{Bytes, le_bytes, length-le_bytes}
use cromfs.Endian.{get_32, get_n}
use cromfs.Format.{inode_header_size, blocknum_size_bytes}
use cromfs.Inode.{Inode, get_inode_offset, calc_size_in_blocks}
use cromfs.Inode.Blocks.{block_bytes}
use cromfs.Driver.{LzmaDecode, M, ◌>>=◌, return, lift, get}
use cromfs.Driver.Read.{read_file_data}
use cromfs.Driver.Inodes.{read_inode}
use native.Mathlib.Nat.{pow-le-pow_right, mod-eq_of_lt}
use cromfs.Endian.Get.{get_32_at, get_n-le_bytes}

-- The block numbers in the raw list, `b` bytes each, from number `a` on with `n` left. `get_32` is
-- the case of 4 bytes, where the code reads into the list itself.
unfoldable pub get_blocklist : Bytes → ℕ → ℕ → ℕ → Result (List ℕ)
get_blocklist raw b zero a = ok []
get_blocklist raw b (suc n) a =
    let block = if b == 4 then get_32 raw (a * 4) else get_n raw (a * b) b in
    Base.◌>>=◌ block
      (λ x. Base.◌>>=◌ (get_blocklist raw b n (a + 1)) (λ rest. ok (x % 2 ^ 32 ∷ rest)))

abbrev pub max_nblocks : ℕ
max_nblocks = 100000000

module _ (decode : LzmaDecode) where
  -- `buf` is what the array of `read_inode` has in it before.
  unfoldable pub read_blocklist : ℕ → Inode → ℕ → M Inode
  read_blocklist inodenum result nblocks = do
    fs ← get
    let b = blocknum_size_bytes fs.storage_opts
    let offset = (get_inode_offset inodenum + inode_header_size fs.storage_opts) % 2 ^ 64
    (raw, n) ← read_file_data decode fs.inotab offset (replicate (b * nblocks) 0) (b * nblocks)
    blocklist ← lift (get_blocklist raw b nblocks 0)
    return (record result { blocklist = blocklist })

  unfoldable pub read_inode_and_blocks : Bytes → ℕ → M Inode
  read_inode_and_blocks buf inodenum = do
    fs ← get
    let other = do
      result ← read_inode decode buf inodenum
      nblocks ← lift (calc_size_in_blocks result.bytesize result.blocksize)
      if ltb max_nblocks nblocks then return result else read_blocklist inodenum result nblocks
    if inodenum == 1 then return fs.rootdir else other

abbrev block_number : Bytes → ℕ → ℕ → Result ℕ
block_number raw b a = if b == 4 then get_32 raw (a * 4) else get_n raw (a * b) b

block_number_lem :
    (pre post : Bytes) (b a x : ℕ)
    → b ≤ 4
    → x < 256 ^ b
    → length pre ≡ a * b
    → block_number (pre ++ (le_bytes b x ++ post)) b a ≡ ok x
block_number_lem pre post b a x small below len = elim (Bool-cases (b == 4)) [
  | inl e ↦
      let four : 4 ≡ b = ground arith in
      rw e (
        subst
          (λ (q : ℕ).
            length pre ≡ a * q
            → x < 256 ^ q
            → get_32 (pre ++ (le_bytes q x ++ post)) (a * 4) ≡ ok x)
          four (λ at low. get_32_at pre post (a * 4) x (sym at) low) len below)
  | inr e ↦
      rw e
        (get_n-le_bytes pre post (a * b) b x (sym len) (omega arith) ∙ ap ok (mod-eq_of_lt below))
]

get_blocklist_step :
    (raw : Bytes) (b n a x : ℕ) (bl : List ℕ)
    → block_number raw b a ≡ ok x
    → get_blocklist raw b n (a + 1) ≡ ok bl
    → x % 2 ^ 32 ≡ x
    → get_blocklist raw b (suc n) a ≡ ok (x ∷ bl)
get_blocklist_step raw b n a x bl first others low =
    unfold get_blocklist in rw (get_blocklist, first, others, low)

-- The list is what the bytes stand for.
pub get_blocklist_lem :
    (pre : Bytes) (b a : ℕ) (bl : List ℕ)
    → b ≤ 4
    → All (λ x. x < 256 ^ b) bl
    → length pre ≡ a * b
    → get_blocklist (pre ++ block_bytes b bl) b (length bl) a ≡ ok bl
get_blocklist_lem pre b a [] small fit len = unfold get_blocklist in refl
get_blocklist_lem pre b a (x ∷ bl) small (here, rest) len =
    let wide : 256 ^ b ≤ 2 ^ 32 = pow-le-pow_right (omega arith) small in
    let low : x % 2 ^ 32 ≡ x = omega arith in
    let moved_on : (pre ++ le_bytes b x) ++ block_bytes b bl ≡ pre ++ block_bytes b (x ∷ bl) =
      append_assoc pre (le_bytes b x) (block_bytes b bl) in
    let longer : length (pre ++ le_bytes b x) ≡ (a + 1) * b =
      length-append pre (le_bytes b x) ∙ omega (arith, length-le_bytes b x) in
    get_blocklist_step (pre ++ block_bytes b (x ∷ bl)) b (length bl) a x bl
      (block_number_lem pre (block_bytes b bl) b a x small here len)
      (ap (λ t. get_blocklist t b (length bl) (a + 1)) (sym moved_on)
        ∙ get_blocklist_lem (pre ++ le_bytes b x) b (a + 1) bl small rest longer)
      low
