-- ===== src/LongWrite.antt =====
-- lib/longfilewrite.cc and .hh, `LongFileWrite`: writes that follow each other are merged in a buffer.
-- The variants for asynchronous output, which the preprocessor removes, are left out.
pub mod Merge
mod Tests
use cromfs.Base.{
  ℕ, ◌+◌, ◌%◌, ◌^◌, min, Bool, true, false, not, ◌&&◌, ◌||◌, List, [], ◌∷◌, ◌++◌, length, take,
  Option, none, some,
}
use cromfs.Base.{ltb, leb, ◌==◌, if◌then◌else◌}
use cromfs.Base.Bytes.{Bytes}
use cromfs.Sparse.{File, Pwrite, write_at, sparse_write}

-- The object, and the file that it writes.
pub record LongFileWrite : Type 0 where
  pub file : File
  pub bufpos : ℕ
  pub expected_size : ℕ
  pub buf : Bytes

-- A call returns, or it throws `errno`.
pub data Written : Type 0 where
  wrote : LongFileWrite → Written
  threw : LongFileWrite → Written

pub after : Written → (LongFileWrite → Written) → Written
after (wrote w) f = f w
after (threw w) f = threw w

pub getbufend : LongFileWrite → ℕ
getbufend w = (w.bufpos + length w.buf) % 2 ^ 64

pub max_buf_size : LongFileWrite → ℕ
max_buf_size w = min 0x80000 w.expected_size

pub is_empty : Bytes → Bool
is_empty [] = true
is_empty (b ∷ bs) = false

-- `bufpos = offset`, if the buffer is empty.
pub place_buffer : ℕ → LongFileWrite → LongFileWrite
place_buffer offset w = if is_empty w.buf then record w { bufpos = offset } else w

-- What comes of `pwrite64`, which is to write everything.
pub written_bytes : Bytes → ℕ → LongFileWrite → Option ℕ → Written
written_bytes bytes offset w none = threw w
written_bytes bytes offset w (some n) =
    let w' : LongFileWrite = record w { file = write_at w.file offset (take n bytes) } in
    if n == length bytes then wrote w' else threw w'

module _ (pwrite : Pwrite) where
  pub pwrite_all : Bytes → ℕ → LongFileWrite → Written
  pwrite_all bytes offset w = written_bytes bytes offset w (pwrite bytes offset)

  pub flush_buffer : LongFileWrite → Written
  flush_buffer w =
      if is_empty w.buf
      then wrote w
      else after (pwrite_all w.buf w.bufpos w) (λ w'. wrote (record w' { buf = [] }))

  -- From the label `JustWriteIt` on.
  pub just_write_it : Bytes → ℕ → Bool → LongFileWrite → Written
  just_write_it bytes offset use_sparse w =
      let (ok, file) = sparse_write pwrite bytes w.file offset in
      let w' : LongFileWrite = record w { file = file } in
      if use_sparse then if ok then wrote w' else threw w' else pwrite_all bytes offset w

  -- From the test of the buffer's end on.
  pub append_or_write : Bytes → ℕ → Bool → LongFileWrite → Written
  append_or_write bytes offset use_sparse w =
      if (offset == getbufend w) && leb (length w.buf + length bytes) (max_buf_size w)
      then wrote (record w { buf = w.buf ++ bytes })
      else just_write_it bytes offset use_sparse w

  pub write : Bytes → ℕ → Bool → LongFileWrite → Written
  write bytes offset use_sparse w =
      let must_flush : Bool =
        not (offset == getbufend w) || ltb (max_buf_size w) (length w.buf + length bytes) in
      if (offset == 0) && (length bytes == w.expected_size)
      then just_write_it bytes offset use_sparse w
      else after (if must_flush then flush_buffer w else wrote w)
          (λ w'. append_or_write bytes offset use_sparse (place_buffer offset w'))
