-- ===== src/LongWrite/Merge.antt =====
-- lib/longfilewrite.cc, `LongFileWrite`: the file with what the buffer holds.
use cromfs.Base.{
  ℕ, ◌+◌, ◌-◌, ◌^◌, ◌≤◌, ◌<◌, ◌≡◌, ◌≢◌, ◌⊎◌, refl, sym, ap, ◌∙◌, arith, true, false, not, ◌&&◌,
  ◌||◌, Bool-cases, [], ◌∷◌, ◌++◌, length, some, inl, inr, get_elem?_lt, get_elem?-append,
  length-append,
}
use cromfs.Base.{ltb, leb, ◌==◌}
use cromfs.Base.Access.{get_elem?-append_left, take_all}
use cromfs.Base.Bytes.{Bytes}
use cromfs.Sparse.{File, Pwrite, write_at}
use cromfs.Sparse.Written.{
  write_at_before, write_at_inside, write_at_behind, write_at_nil, write_at_same, lt_or_ge,
}
use cromfs.LongWrite.{
  LongFileWrite, Written, wrote, after, getbufend, max_buf_size, is_empty, place_buffer,
  written_bytes, pwrite_all, flush_buffer, just_write_it, append_or_write, write,
}

-- Writing two parts one behind the other is writing them at once.
write_at-append :
    (file : File) (pos : ℕ) (xs ys : Bytes) (p : ℕ)
    → write_at file pos (xs ++ ys) p ≡ write_at (write_at file pos xs) (pos + length xs) ys p
write_at-append file pos xs ys p =
    let first : File = write_at file pos xs in
    let size = length-append xs ys in
    elim (lt_or_ge p (pos + length xs)) [
      | inl low ↦
          write_first (lt_or_ge p pos) low ∙ sym (write_at_before first (pos + length xs) ys p low)
      | inr high ↦ elim (lt_or_ge p (pos + length xs + length ys)) [
        | inl inside ↦
            let j : ℕ = p - (pos + length xs) in
            let (b, e) = get_elem?_lt ys j (omega arith) in
            let at : p ≡ pos + length xs + j = omega arith in
            let at' : p ≡ pos + (length xs + j) = omega arith in
            ap (write_at file pos (xs ++ ys)) at'
            ∙ (write_at_inside file pos (xs ++ ys) (length xs + j) b (get_elem?-append xs ys j ∙ e)
                ∙ (sym (write_at_inside first (pos + length xs) ys j b e)
                    ∙ ap (write_at first (pos + length xs) ys) (sym at)))
        | inr behind ↦
            write_at_behind file pos (xs ++ ys) p (omega arith)
            ∙ (sym (write_at_behind file pos xs p high)
                ∙ sym (write_at_behind first (pos + length xs) ys p behind))
      ]
    ]
  where
    write_first :
        (p < pos) ⊎ (pos ≤ p)
        → p < pos + length xs
        → write_at file pos (xs ++ ys) p ≡ write_at file pos xs p
    write_first (inl before) low =
        write_at_before file pos (xs ++ ys) p before ∙ sym (write_at_before file pos xs p before)
    write_first (inr from_pos) low =
        let j : ℕ = p - pos in
        let (b, e) = get_elem?_lt xs j (omega arith) in
        let at : p ≡ pos + j = omega arith in
        ap (write_at file pos (xs ++ ys)) at
        ∙ (write_at_inside file pos (xs ++ ys) j b (get_elem?-append_left xs ys j (omega arith) ∙ e)
            ∙ (sym (write_at_inside file pos xs j b e) ∙ ap (write_at file pos xs) (sym at)))

-- The file as it is when the buffer is written.
abbrev pub merged : LongFileWrite → File
merged w = write_at w.file w.bufpos w.buf

is_empty_lem : (xs : Bytes) → is_empty xs ≡ true → xs ≡ []
unfolding is_empty
is_empty_lem [] e = refl
is_empty_lem (x ∷ xs) e = cc

module _ (pwrite : Pwrite)
    (all_written : (bytes : Bytes) (pos : ℕ) → pwrite bytes pos ≡ some (length bytes)) where
  pwrite_all_lem :
      (bytes : Bytes) (offset : ℕ) (w : LongFileWrite)
      → pwrite_all pwrite bytes offset w ≡ wrote (record w { file = write_at w.file offset bytes })
  unfolding pwrite_all written_bytes
  pwrite_all_lem bytes offset w =
      let e : (length bytes == length bytes) ≡ true = ground arith in
      ap (written_bytes bytes offset w) (all_written bytes offset)
      ∙ rw (e, take_all (length bytes) bytes (omega arith))

  -- The buffer is empty and in the file.
  record Flushed (w t : LongFileWrite) : Type 0 where
    nothing : t.buf ≡ []
    same : (p : ℕ) → t.file p ≡ merged w p
    same_size : t.expected_size ≡ w.expected_size

  flush_buffer_lem :
      (w : LongFileWrite) → (t : LongFileWrite) × (flush_buffer pwrite w ≡ wrote t) × Flushed w t
  unfolding flush_buffer after
  flush_buffer_lem w = elim (Bool-cases (is_empty w.buf)) [
    | inl e ↦
        let none = is_empty_lem w.buf e in
        (
          w,
          rw e,
          record {
            nothing = none;
            same = λ p. rw none (sym (write_at_nil w.file w.bufpos p));
            same_size = refl;
          },
        )
    | inr e ↦ (
      record w { file = merged w; buf = [] },
      rw (e, pwrite_all_lem w.buf w.bufpos w),
      record { nothing = refl; same = λ p. refl; same_size = refl },
    )
  ]

  merged_nothing : (w : LongFileWrite) (p : ℕ) → w.buf ≡ [] → merged w p ≡ w.file p
  merged_nothing w p none = rw none (write_at_nil w.file w.bufpos p)

  just_write_it_lem :
      (bytes : Bytes) (offset : ℕ) (w : LongFileWrite)
      → w.buf ≡ []
      → (t : LongFileWrite) × (just_write_it pwrite bytes offset false w ≡ wrote t)
        × ((p : ℕ) → merged t p ≡ write_at (merged w) offset bytes p)
  unfolding just_write_it
  just_write_it_lem bytes offset w none =
      let t : LongFileWrite = record w { file = write_at w.file offset bytes } in
      (
        t,
        pwrite_all_lem bytes offset w,
        λ p.
            merged_nothing t p none
            ∙ write_at_same w.file (merged w) offset bytes p (sym (merged_nothing w p none)),
      )

  append_or_write_lem :
      (bytes : Bytes) (offset : ℕ) (w : LongFileWrite)
      → (w.buf ≡ [])
        ⊎ ((offset == getbufend w) && leb (length w.buf + length bytes) (max_buf_size w) ≡ true)
      → w.bufpos + length w.buf < 2 ^ 64
      → (t : LongFileWrite) × (append_or_write pwrite bytes offset false w ≡ wrote t)
        × ((p : ℕ) → merged t p ≡ write_at (merged w) offset bytes p)
  unfolding append_or_write getbufend
  append_or_write_lem bytes offset w empty below =
      elim (Bool-cases
        ((offset == getbufend w) && leb (length w.buf + length bytes) (max_buf_size w))) [
          | inl e ↦
              let at : offset ≡ w.bufpos + length w.buf = ground arith in
              (
                record w { buf = w.buf ++ bytes },
                rw e,
                λ p. rw at (write_at-append w.file w.bufpos w.buf bytes p),
              )
          | inr e ↦
              let none : w.buf ≡ [] = elim empty [ inl none ↦ none | inr fits ↦ cc ] in
              let (t, eq, same) = just_write_it_lem bytes offset w none in (t, rw e eq, same)
        ]

  abbrev Writes : Bytes → ℕ → LongFileWrite → Written → Type 0
  Writes bytes offset w out =
      (t : LongFileWrite) × (out ≡ wrote t)
      × ((p : ℕ) → merged t p ≡ write_at (merged w) offset bytes p)

  place_buffer_empty :
      (offset : ℕ) (w : LongFileWrite)
      → w.buf ≡ []
      → place_buffer offset w ≡ record w { bufpos = offset }
  unfolding place_buffer is_empty
  place_buffer_empty offset w none = rw none

  place_buffer_filled :
      (offset : ℕ) (w : LongFileWrite) → is_empty w.buf ≡ false → place_buffer offset w ≡ w
  unfolding place_buffer
  place_buffer_filled offset w e = rw e

  -- On an empty buffer, wherever it stood.
  write_on_empty :
      (bytes : Bytes) (offset : ℕ) (w s : LongFileWrite)
      → s.buf ≡ []
      → ((p : ℕ) → s.file p ≡ merged w p)
      → offset < 2 ^ 64
      → Writes bytes offset w (append_or_write pwrite bytes offset false (place_buffer offset s))
  write_on_empty bytes offset w s none same below =
      let s' : LongFileWrite = record s { bufpos = offset } in
      let room : offset + length s.buf < 2 ^ 64 = rw none (omega arith) in
      let (t, eq, seen) = append_or_write_lem bytes offset s' (inl none) room in
      (
        t,
        rw (place_buffer_empty offset s none) eq,
        λ p.
            seen p
            ∙ write_at_same (merged s') (merged w) offset bytes p
                (merged_nothing s' p none ∙ same p),
      )

  write_lem :
      (bytes : Bytes) (offset : ℕ) (w : LongFileWrite)
      → (w.buf ≡ []) ⊎ ((offset ≢ 0) ⊎ (length bytes ≢ w.expected_size))
      → w.bufpos + length w.buf < 2 ^ 64
      → offset < 2 ^ 64
      → Writes bytes offset w (write pwrite bytes offset false w)
  unfolding write after
  write_lem bytes offset w may below offset_below =
      elim (Bool-cases ((offset == 0) && (length bytes == w.expected_size))) [
        | inl e ↦
            let none : w.buf ≡ [] = elim may [
              | inl none ↦ none
              | inr other ↦ elim other [
                | inl ne ↦ let z : offset ≡ 0 = ground arith in elim (ne z) [ ]
                | inr ne ↦ let z : length bytes ≡ w.expected_size = ground arith in elim (ne z) [ ]
              ]
            ] in
            let (t, eq, same) = just_write_it_lem bytes offset w none in (t, rw e eq, same)
        | inr e ↦
            elim (Bool-cases
              (not (offset == getbufend w) || ltb (max_buf_size w) (length w.buf + length bytes))) [
                | inl e' ↦
                    let (s, flushed, is) = flush_buffer_lem w in
                    let (t, eq, same) =
                      write_on_empty bytes offset w s is.nothing is.same offset_below in
                    (t, rw (e, e', flushed) eq, same)
                | inr e' ↦ elim (Bool-cases (is_empty w.buf)) [
                  | inl empty ↦
                      let none = is_empty_lem w.buf empty in
                      let (t, eq, same) =
                        write_on_empty bytes offset w w none (λ p. sym (merged_nothing w p none))
                          offset_below in
                      (t, rw (e, e') eq, same)
                  | inr filled ↦
                      let fits : (offset == getbufend w)
                            && leb (length w.buf + length bytes) (max_buf_size w)
                          ≡ true =
                        ground arith in
                      let (t, eq, same) = append_or_write_lem bytes offset w (inr fits) below in
                      (t, rw (e, e', place_buffer_filled offset w filled) eq, same)
                ]
              ]
      ]

  -- When the file's system takes all bytes, a write that may not leave holes, of bytes that are not the
  -- whole file or on an empty buffer, succeeds, and the file with the buffer has the bytes where they
  -- belong and what it had elsewhere. Flushing succeeds then and puts all of it into the file.
  pub write-flush_buffer_refine :
      (bytes : Bytes) (offset : ℕ) (w : LongFileWrite)
      → (w.buf ≡ []) ⊎ ((offset ≢ 0) ⊎ (length bytes ≢ w.expected_size))
      → w.bufpos + length w.buf < 2 ^ 64
      → offset < 2 ^ 64
      → ((t : LongFileWrite) × (write pwrite bytes offset false w ≡ wrote t)
          × ((p : ℕ) → merged t p ≡ write_at (merged w) offset bytes p))
        × ((t : LongFileWrite) × (flush_buffer pwrite w ≡ wrote t)
            × (t.buf ≡ [])
            × ((p : ℕ) → t.file p ≡ merged w p))
  write-flush_buffer_refine bytes offset w may below offset_below =
      let (t, flushed, is) = flush_buffer_lem w in
      (write_lem bytes offset w may below offset_below, (t, flushed, is.nothing, is.same))
