-- ===== src/LongWrite/Tests.antt =====
-- `LongFileWrite` on small writes.
use cromfs.Base.{ℕ, ◌≡◌, ◌≢◌, refl, arith, false, [], ◌∷◌, length, some, inl, inr}
use cromfs.Base.Bytes.{Bytes}
use cromfs.Sparse.{Pwrite, write_at}
use cromfs.LongWrite.{LongFileWrite, wrote, write, flush_buffer}
use cromfs.LongWrite.Merge.{merged, write-flush_buffer_refine}

abbrev takes_all : Pwrite
takes_all bytes pos = some (length bytes)

abbrev two_held : LongFileWrite
two_held = record { file = λ p. 0; bufpos = 4; expected_size = 20; buf = 5 ∷ (6 ∷ []) }

abbrev three : Bytes
three = 7 ∷ (8 ∷ (9 ∷ []))

nonzero : ◌≢◌ {A = ℕ} 6 0
nonzero = omega arith

write-flush_buffer_refine_example :
    ((t : LongFileWrite) × (write takes_all three 6 false two_held ≡ wrote t)
      × ((p : ℕ) → merged t p ≡ write_at (merged two_held) 6 three p))
    × ((t : LongFileWrite) × (flush_buffer takes_all two_held ≡ wrote t)
        × (t.buf ≡ [])
        × ((p : ℕ) → t.file p ≡ merged two_held p))
write-flush_buffer_refine_example =
    write-flush_buffer_refine takes_all (λ bytes pos. refl) three 6 two_held (inr (inl nonzero))
      (omega arith) (omega arith)
