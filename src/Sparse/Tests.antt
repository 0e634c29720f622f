-- ===== src/Sparse/Tests.antt =====
-- `SparseWrite` on small buffers and on a block that it leaves out.
use cromfs.Base.{
  ℕ, ◌+◌, ◌≤◌, ◌<◌, ◌≡◌, ◌≢◌, ◌↔◌, All, ◌⊎◌, refl, arith, true, [], ◌∷◌, length, replicate,
  get_elem?, some,
}
use cromfs.Base.{if◌then◌else◌}
use cromfs.Base.Bytes.{Bytes}
use cromfs.Sparse.{
  File, Pwrite, sparse_write, is_zero_block, memchr, write_at, stored, and_then, returned,
  forget_pending, flush_buf, go_ahead_by, skip_buf, add_buf, append_buf, put_block,
  next_block_boundary, unaligned_remainder, start_unaligned, block_loop, end_block, sparse_run,
}
use cromfs.Sparse.Written.{is_left_out, head_size, is_zero_block-All, sparse_write_lem}

abbrev takes_all : Pwrite
takes_all bytes pos = some (length bytes)

abbrev old_file : File
old_file p = 3

abbrev text : Bytes
text = replicate 1100 7

-- The bytes behind the first 1023 have no zero among them, and are left out.
left_out : (sparse_write takes_all text old_file 0).1 1050 ≡ 3
unfolding sparse_write returned is_zero_block memchr write_at stored and_then forget_pending
    flush_buf go_ahead_by skip_buf add_buf append_buf put_block next_block_boundary
    unaligned_remainder start_unaligned block_loop end_block sparse_run
left_out = refl

no_zero_byte : is_zero_block (1 ∷ (2 ∷ (3 ∷ []))) ≡ true
unfolding is_zero_block memchr
no_zero_byte = refl

sparse_write_lem_example :
    ((sparse_write takes_all text old_file 0).0 ≡ true)
    × ((i b : ℕ)
        → get_elem? text i ≡ some b
        → (sparse_write takes_all text old_file 0).1 (0 + i)
          ≡ (if is_left_out (head_size 0 (length text)) text i then old_file (0 + i) else b))
    × ((p : ℕ)
        → (p < 0) ⊎ (0 + length text ≤ p)
        → (sparse_write takes_all text old_file 0).1 p ≡ old_file p)
sparse_write_lem_example =
    sparse_write_lem takes_all text old_file 0 (λ bytes pos. refl) (omega arith)

is_zero_block-All_example :
    (is_zero_block (1 ∷ (0 ∷ [])) ≡ true) ↔ All (λ (b : ℕ). b ≢ 0) (1 ∷ (0 ∷ []))
is_zero_block-All_example = is_zero_block-All (1 ∷ (0 ∷ []))
