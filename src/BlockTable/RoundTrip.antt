-- ===== src/BlockTable/RoundTrip.antt =====
-- The block table in both forms.
use mathlib.Core.List.{append_assoc}
use cromfs.Base.{
  ℕ, ◌+◌, ◌*◌, ◌/◌, ◌%◌, ◌^◌, ◌≤◌, ◌<◌, ◌≡◌, refl, sym, ap, ◌∙◌, Bool, true, false, ok, arith,
}
use cromfs.Base.{List, [], ◌++◌, length, length-append, length-replicate, replicate, All}
use cromfs.Base.{Bool-cases, inl, inr}
use cromfs.Base.Bytes.{Bytes, le_bytes, write, write_all, write-write, length-write}
use cromfs.Endian.{get_32}
use cromfs.Endian.Put.{put_32-write}
use cromfs.Endian.Get.{get_32_at}
use cromfs.Format.{has_opt, opt_packed_blocks, datalocator_size_bytes}
use cromfs.BlockTable.{
  Block, put_packed, put_plain, put_locators, get_packed, get_plain, get_locators,
}
use cromfs.BlockTable.{encode_block_table, decode_block_table}
use cromfs.BlockTable.Loops.{table_bytes, length-table_bytes, put_locators_lem, get_locators_lem}
use cromfs.Base.{◌==◌, Result}

packed_bytes : ℕ → Block → Bytes
packed_bytes fsize x = le_bytes 4 (x.fblocknum * fsize + x.startoffs)

plain_bytes : Block → Bytes
plain_bytes x = le_bytes 4 x.fblocknum ++ le_bytes 4 x.startoffs

length-packed_bytes : (fsize : ℕ) (x : Block) → length (packed_bytes fsize x) ≡ 4
unfolding packed_bytes
length-packed_bytes fsize x = refl

length-plain_bytes : (x : Block) → length (plain_bytes x) ≡ 8
unfolding plain_bytes
length-plain_bytes x = refl

put_packed_lem :
    (fsize : ℕ) (raw : Bytes) (p : ℕ) (x : Block)
    → p + 4 ≤ length raw
    → put_packed fsize raw p x ≡ ok (write raw p (packed_bytes fsize x))
unfolding put_packed packed_bytes
put_packed_lem fsize raw p x h = put_32-write raw p (x.fblocknum * fsize + x.startoffs) h

put_plain_lem :
    (raw : Bytes) (p : ℕ) (x : Block)
    → p + 8 ≤ length raw
    → put_plain raw p x ≡ ok (write raw p (plain_bytes x))
unfolding put_plain plain_bytes
put_plain_lem raw p x h =
    rw
      (
        put_32-write raw p x.fblocknum (omega arith),
        put_32-write (write raw p (le_bytes 4 x.fblocknum)) (p + 4) x.startoffs
            (omega (arith, length-write raw p (le_bytes 4 x.fblocknum))),
      )
      (ap ok (write-write raw p (p + 4) (le_bytes 4 x.fblocknum) (le_bytes 4 x.startoffs) refl))

-- A locator that the packed form can hold: its offset lies in an fblock of `fsize` bytes, and the
-- number made of both has 32 bits.
pub record FitsPacked (fsize : ℕ) (x : Block) : Type 0 where
  pub offset : x.startoffs < fsize
  pub number : x.fblocknum * fsize + x.startoffs < 2 ^ 32

pub record FitsPlain (x : Block) : Type 0 where
  pub fblocknum : x.fblocknum < 2 ^ 32
  pub startoffs : x.startoffs < 2 ^ 32

get_packed_lem :
    (fsize : ℕ) (pre post : Bytes) (p : ℕ) (x : Block)
    → FitsPacked fsize x
    → p ≡ length pre
    → get_packed fsize (pre ++ (packed_bytes fsize x ++ post)) p ≡ ok x
unfolding get_packed packed_bytes
get_packed_lem fsize pre post p x h e =
    let value : ℕ = x.fblocknum * fsize + x.startoffs in
    let quotient : value / fsize ≡ x.fblocknum = grind arith in
    let remainder : value % fsize ≡ x.startoffs = grind arith in
    let divides : (fsize == 0) ≡ false = ground arith in
    rw (get_32_at pre post p value e h.number, divides, quotient, remainder) refl

get_plain_lem :
    (pre post : Bytes) (p : ℕ) (x : Block)
    → FitsPlain x
    → p ≡ length pre
    → get_plain (pre ++ (plain_bytes x ++ post)) p ≡ ok x
unfolding get_plain plain_bytes
get_plain_lem pre post p x h e =
    let second : get_32 (pre ++ (le_bytes 4 x.fblocknum ++ (le_bytes 4 x.startoffs ++ post)))
          (p + 4)
        ≡ ok x.startoffs =
      ap (λ t. get_32 t (p + 4))
        (sym (append_assoc pre (le_bytes 4 x.fblocknum) (le_bytes 4 x.startoffs ++ post)))
      ∙ get_32_at (pre ++ le_bytes 4 x.fblocknum) post (p + 4) x.startoffs
          (omega (arith, length-append pre (le_bytes 4 x.fblocknum))) h.startoffs in
    rw (get_32_at pre (le_bytes 4 x.startoffs ++ post) p x.fblocknum e h.fblocknum, second) refl

-- What a locator must satisfy to be stored.
abbrev pub Fits : Bool → ℕ → Block → Type 0
Fits true fsize x = FitsPacked fsize x
Fits false fsize x = FitsPlain x

-- The round trip for one way to store locators.
module _ (bytes : Block → Bytes) (onesize : ℕ) (size : (x : Block) → length (bytes x) ≡ onesize)
    (put : Bytes → ℕ → Block → Result Bytes)
    (puts : (raw : Bytes) (p : ℕ) (x : Block)
      → p + onesize ≤ length raw
      → put raw p x ≡ ok (write raw p (bytes x)))
    (Stored : Block → Type 0) (get : Bytes → ℕ → Result Block)
    (gets : (pre post : Bytes) (p : ℕ) (x : Block)
      → Stored x
      → p ≡ length pre
      → get (pre ++ (bytes x ++ post)) p ≡ ok x) where
  stored_table :
      (blocks : List Block)
      → length blocks * onesize < 2 ^ 32
      → put_locators put onesize (replicate (length blocks * onesize) 0) 0 blocks
        ≡ ok (table_bytes bytes blocks)
  unfolding write
  stored_table blocks short =
      let raw : Bytes = replicate (length blocks * onesize) 0 in
      let len : length raw ≡ length blocks * onesize =
        length-replicate (length blocks * onesize) 0 in
      put_locators_lem bytes onesize size put puts raw [] 0 blocks (omega arith)
        (omega (arith, len)) (omega (arith, len))
      ∙ ap ok (
          write_all raw (table_bytes bytes blocks)
            (length-table_bytes bytes onesize size blocks ∙ sym len))

  loaded_table :
      (blocks : List Block)
      → 0 < onesize
      → All Stored blocks
      → get_locators get onesize
          (table_bytes bytes blocks)
          (length (table_bytes bytes blocks) / onesize)
          0
        ≡ ok blocks
  loaded_table blocks pos stored =
      let n : length (table_bytes bytes blocks) / onesize ≡ length blocks =
        ap (λ (t : ℕ). t / onesize) (length-table_bytes bytes onesize size blocks) ∙ grind arith in
      rw n (get_locators_lem bytes onesize size Stored get gets [] 0 blocks stored (omega arith))

-- A table that the form of the filesystem can hold, and whose size has 32 bits, is encoded to as
-- many bytes as its locators take, and decoded from them to the same table.
pub decode_block_table-encode_block_table :
    (blocks : List Block) (storage_opts fsize : ℕ)
    → length blocks * datalocator_size_bytes storage_opts < 2 ^ 32
    → All (Fits (has_opt storage_opts opt_packed_blocks) fsize) blocks
    → (data_bytes : Bytes) × (encode_block_table blocks storage_opts fsize ≡ ok data_bytes)
      × (length data_bytes ≡ length blocks * datalocator_size_bytes storage_opts)
      × (decode_block_table data_bytes fsize storage_opts ≡ ok blocks)
unfolding encode_block_table decode_block_table datalocator_size_bytes
decode_block_table-encode_block_table blocks storage_opts fsize short stored =
    elim (Bool-cases (has_opt storage_opts opt_packed_blocks)) [
      | inl e ↦
          let bytes = packed_bytes fsize in
          let puts = put_packed_lem fsize in
          rw e (
            table_bytes bytes blocks,
            stored_table bytes 4 (length-packed_bytes fsize) (put_packed fsize) puts
                (FitsPacked fsize) (get_packed fsize) (get_packed_lem fsize) blocks (rw e at short),
            length-table_bytes bytes 4 (length-packed_bytes fsize) blocks,
            loaded_table bytes 4 (length-packed_bytes fsize) (put_packed fsize) puts
                (FitsPacked fsize) (get_packed fsize) (get_packed_lem fsize) blocks (omega arith)
                (rw e at stored),
          )
      | inr e ↦ rw e (
        table_bytes plain_bytes blocks,
        stored_table plain_bytes 8 length-plain_bytes put_plain put_plain_lem FitsPlain get_plain
            get_plain_lem blocks (rw e at short),
        length-table_bytes plain_bytes 8 length-plain_bytes blocks,
        loaded_table plain_bytes 8 length-plain_bytes put_plain put_plain_lem FitsPlain get_plain
            get_plain_lem blocks (omega arith) (rw e at stored),
      )
    ]
