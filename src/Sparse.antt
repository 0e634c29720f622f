-- ===== src/Sparse.antt =====
-- lib/sparsewrite.cc, `SparseWrite` and the form of `is_zero_block` that is compiled. The macros are
-- functions on the local variables; pointers into the buffer are offsets from its start. The faster
-- forms of `is_zero_block`, which the preprocessor removes, are left out.
pub mod Written
mod Tests
use cromfs.Base.{
  ℕ, zero, suc, ◌+◌, ◌-◌, ◌%◌, ◌/◌, ◌^◌, ◌*◌, min, Bool, true, false, not, ◌||◌, List, [], ◌∷◌,
  length, take, drop, get_elem?, Option, none, some,
}
use cromfs.Base.{ltb, ◌==◌, if◌then◌else◌}
use cromfs.Base.Bytes.{Bytes}

-- A file: the byte at each position.
abbrev pub File : Type 0
File = ℕ → ℕ

-- How many bytes `pwrite64` writes of these at this position; none when it fails.
abbrev pub Pwrite : Type 0
Pwrite = Bytes → ℕ → Option ℕ

pub stored : ℕ → Option ℕ → ℕ
stored old none = old
stored old (some b) = b

-- The file when bytes have been written at a position.
pub write_at : File → ℕ → Bytes → File
write_at file pos bytes p =
    if ltb p pos then file p else stored (file p) (get_elem? bytes (p - pos))

-- `memchr`: whether the byte is found.
pub memchr : Bytes → ℕ → Bool
memchr [] c = false
memchr (b ∷ bs) c = (b == c) || memchr bs c

pub is_zero_block : Bytes → Bool
is_zero_block block = not (memchr block 0)

abbrev pub block_size : ℕ
block_size = 1024

-- The local variables of `SparseWrite`, and the file. `at` is how far `Buffer` has moved.
pub record Sparse : Type 0 where
  pub file : File
  pub buffered_begin : ℕ
  pub buffered_size : ℕ
  pub buffered_pos : ℕ
  pub skipped_size : ℕ
  pub at : ℕ
  pub buf_size : ℕ
  pub write_pos : ℕ

-- The code goes on, or it has returned false.
pub data Outcome : Type 0 where
  going : Sparse → Outcome
  failed : File → Outcome

pub and_then : Outcome → (Sparse → Outcome) → Outcome
and_then (going s) f = f s
and_then (failed file) f = failed file

pub returned : Outcome → Bool × File
returned (going s) = (true, s.file)
returned (failed file) = (false, file)

module _ (pwrite : Pwrite) (buffer : Bytes) where
  abbrev pub pending : Sparse → Bytes
  pending s = take s.buffered_size (drop s.buffered_begin buffer)

  pub forget_pending : File → Sparse → Sparse
  forget_pending file s = record s {
    file = file;
    buffered_size = 0;
    buffered_begin = s.at;
    buffered_pos = s.write_pos;
  }

  pub flush_buf : Sparse → Outcome
  flush_buf s =
      if s.buffered_size == 0
      then going (forget_pending s.file s)
      else elim (pwrite (pending s) s.buffered_pos) [
        | none ↦ failed s.file
        | some res ↦
            let file = write_at s.file s.buffered_pos (take res (pending s)) in
            if res == s.buffered_size then going (forget_pending file s) else failed file
      ]

  pub go_ahead_by : ℕ → Sparse → Sparse
  go_ahead_by n s = record s {
    at = s.at + n;
    buf_size = s.buf_size - n;
    write_pos = (s.write_pos + n) % 2 ^ 64;
  }

  pub skip_buf : ℕ → Sparse → Sparse
  skip_buf n s = go_ahead_by n (record s { skipped_size = s.skipped_size + n })

  pub add_buf : ℕ → Sparse → Sparse
  add_buf n s = go_ahead_by n (record s { buffered_size = s.buffered_size + n })

  pub append_buf : ℕ → Sparse → Outcome
  append_buf n s =
      if ltb 0 s.skipped_size
      then and_then (flush_buf s) (λ t. going (add_buf n (record t { skipped_size = 0 })))
      else going (add_buf n s)

  pub put_block : ℕ → Sparse → Outcome
  put_block n s =
      if is_zero_block (take n (drop s.at buffer)) then going (skip_buf n s) else append_buf n s

  -- `(WritePos + BlockSize-1) & ~BlockSize`: the bit of `BlockSize` is cleared.
  pub next_block_boundary : ℕ → ℕ
  next_block_boundary write_pos =
      let end = (write_pos + (block_size - 1)) % 2 ^ 64 in end - (end / block_size) % 2 * block_size

  pub unaligned_remainder : Sparse → ℕ
  unaligned_remainder s =
      min s.buf_size ((next_block_boundary s.write_pos + 2 ^ 64 - s.write_pos) % 2 ^ 64)

  pub start_unaligned : Sparse → Outcome
  start_unaligned s = let n = unaligned_remainder s in if n == 0 then going s else append_buf n s

  -- The loop over whole blocks, with a number of rounds that is left.
  pub block_loop : ℕ → Sparse → Outcome
  block_loop zero s = going s
  block_loop (suc rounds) s =
      let next : Sparse → Outcome = block_loop rounds in
      if ltb s.buf_size block_size then going s else and_then (put_block block_size s) next

  pub end_block : Sparse → Outcome
  end_block s = if s.buf_size == 0 then going s else put_block s.buf_size s

  pub sparse_run : Sparse → Outcome
  sparse_run s =
      and_then (start_unaligned s)
        (λ s1. and_then (block_loop s1.buf_size s1) (λ s2. and_then (end_block s2) flush_buf))

  abbrev pub sparse_start : File → ℕ → Sparse
  sparse_start file write_pos = record {
    file = file;
    buffered_begin = 0;
    buffered_size = 0;
    buffered_pos = write_pos;
    skipped_size = 0;
    at = 0;
    buf_size = length buffer;
    write_pos = write_pos;
  }

  -- What `SparseWrite` returns, and the file behind it.
  pub sparse_write : File → ℕ → Bool × File
  sparse_write file write_pos = returned (sparse_run (sparse_start file write_pos))
