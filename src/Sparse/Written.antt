-- ===== src/Sparse/Written.antt =====
-- lib/sparsewrite.cc, `SparseWrite`: what the file holds behind it.
use cromfs.Base.{
  ℕ, zero, suc, ◌+◌, ◌-◌, ◌^◌, ◌≤◌, ◌<◌, ◌≡◌, ◌≢◌, ◌↔◌, All, ◌⊎◌, refl, sym, ap, ◌∙◌, subst, arith,
  true, false, Bool-cases, [], ◌∷◌, length, take, drop, get_elem?, none, some, inl, inr,
}
use cromfs.Base.{Bool, leb, not, ◌&&◌, if◌then◌else◌, min, ◌*◌, ◌/◌, ◌%◌}
use cromfs.Base.{ltb, ◌==◌}
use cromfs.Base.{length-take_le, length-drop}
use cromfs.Base.Access.{get_elem?-drop, get_elem?-take, get_elem?-none, get_elem?-some, take_all}
use cromfs.Base.Bytes.{Bytes}
use cromfs.Sparse.{next_block_boundary}
use cromfs.Sparse.{
  File, Pwrite, Sparse, Outcome, going, and_then, returned, stored, write_at, memchr, is_zero_block,
  pending, forget_pending, flush_buf, go_ahead_by, skip_buf, add_buf, append_buf, put_block,
  unaligned_remainder, start_unaligned, block_loop, end_block, sparse_run, sparse_start,
  sparse_write,
}

pub write_at_before :
    (file : File) (pos : ℕ) (bytes : Bytes) (p : ℕ) → p < pos → write_at file pos bytes p ≡ file p
unfolding write_at
write_at_before file pos bytes p h = let e : ltb p pos ≡ true = ground arith in rw e

pub write_at_inside :
    (file : File) (pos : ℕ) (bytes : Bytes) (j b : ℕ)
    → get_elem? bytes j ≡ some b
    → write_at file pos bytes (pos + j) ≡ b
unfolding write_at stored
write_at_inside file pos bytes j b e =
    let low : ltb (pos + j) pos ≡ false = ground arith in
    let at : (pos + j) - pos ≡ j = omega arith in rw (low, at, e)

pub write_at_nil : (file : File) (pos : ℕ) (p : ℕ) → write_at file pos [] p ≡ file p
unfolding write_at stored
write_at_nil file pos p = elim (Bool-cases (ltb p pos)) [ inl e ↦ rw e | inr e ↦ rw e ]

pub write_at_behind :
    (file : File) (pos : ℕ) (bytes : Bytes) (p : ℕ)
    → pos + length bytes ≤ p
    → write_at file pos bytes p ≡ file p
unfolding write_at stored
write_at_behind file pos bytes p h =
    let low : ltb p pos ≡ false = ground arith in
    let e : get_elem? bytes (p - pos) ≡ none = get_elem?-none bytes (p - pos) (omega arith) in
    rw (low, e)

pub write_at_same :
    (file file' : File) (pos : ℕ) (bytes : Bytes) (p : ℕ)
    → file p ≡ file' p
    → write_at file pos bytes p ≡ write_at file' pos bytes p
unfolding write_at
write_at_same file file' pos bytes p e = rw e

pub lt_or_ge : (a b : ℕ) → (a < b) ⊎ (b ≤ a)
lt_or_ge a b = elim (Bool-cases (ltb a b)) [
  | inl e ↦ inl (ground arith)
  | inr e ↦ inr (ground arith)
]

memchr_head : (x : ℕ) (xs : Bytes) → memchr (x ∷ xs) 0 ≡ false → (x ≢ 0) × (memchr xs 0 ≡ false)
unfolding memchr
memchr_head x xs e = ground arith

memchr_none :
    (block : Bytes) (i b : ℕ) → memchr block 0 ≡ false → get_elem? block i ≡ some b → b ≢ 0
memchr_none [] i b e h = cc
memchr_none (x ∷ xs) zero b e h =
    let at : x ≡ b = cc in subst (λ y. y ≢ 0) at (memchr_head x xs e).0
memchr_none (x ∷ xs) (suc i) b e h = memchr_none xs i b (memchr_head x xs e).1 h

All-memchr : (block : Bytes) → memchr block 0 ≡ false → All (λ b. b ≢ 0) block
unfolding memchr
All-memchr [] e = tt
All-memchr (x ∷ xs) e = let (first, rest) = memchr_head x xs e in (first, All-memchr xs rest)

memchr-All : (block : Bytes) → All (λ b. b ≢ 0) block → memchr block 0 ≡ false
unfolding memchr
memchr-All [] h = refl
memchr-All (x ∷ xs) (first, rest) =
    let e : (x == 0) ≡ false = ground arith in rw e (memchr-All xs rest)

-- `is_zero_block` says yes to a block exactly when none of its bytes is zero.
pub is_zero_block-All : (block : Bytes) → (is_zero_block block ≡ true) ↔ All (λ b. b ≢ 0) block
unfolding is_zero_block
is_zero_block-All block =
    ((λ e. All-memchr block (ground arith)), (λ h. rw (memchr-All block h) refl))

-- Whether no byte is zero.
abbrev pub has_no_zero : Bytes → Bool
has_no_zero [] = true
has_no_zero (b ∷ bs) = not (b == 0) && has_no_zero bs

is_zero_block_lem : (block : Bytes) → is_zero_block block ≡ has_no_zero block
unfolding is_zero_block memchr
is_zero_block_lem [] = refl
is_zero_block_lem (b ∷ bs) = elim (Bool-cases (b == 0)) [
  | inl e ↦ rw e refl
  | inr e ↦ rw e (is_zero_block_lem bs)
]

-- How many bytes at the start of the buffer are written without a test, by where they go and how many
-- there are.
abbrev pub head_size : ℕ → ℕ → ℕ
head_size start len = if (start + 1023) / 1024 % 2 == 0 then min len 1023 else len

-- The block that a place behind the head lies in, 1024 bytes or what is left of the buffer, and
-- whether the place is left out with it.
abbrev pub block_of : ℕ → Bytes → ℕ → Bytes
block_of head buffer i = take 1024 (drop (head + (i - head) / 1024 * 1024) buffer)

abbrev pub is_left_out : ℕ → Bytes → ℕ → Bool
is_left_out head buffer i = leb head i && has_no_zero (block_of head buffer i)

if_not : (c : Bool) (x y : ℕ) → c ≡ false → (if c then x else y) ≡ y
if_not true x y e = absurd cc
if_not false x y e = refl

if_so : (c : Bool) (x y : ℕ) → c ≡ true → (if c then x else y) ≡ x
if_so true x y e = refl
if_so false x y e = absurd cc

module _ (pwrite : Pwrite) (buffer : Bytes) (old : File) (start : ℕ)
    (all_written : (bytes : Bytes) (pos : ℕ) → pwrite bytes pos ≡ some (length bytes))
    (below : start + length buffer < 2 ^ 64) where
  abbrev head : ℕ
  head = head_size start (length buffer)

  abbrev left_out : ℕ → Bool
  left_out i = is_left_out head buffer i

  -- The file as it is when the pending bytes are written.
  abbrev view : Sparse → File
  view s = write_at s.file s.buffered_pos (pending pwrite buffer s)

  record Holds (s : Sparse) : Type 0 where
    at_pos : s.write_pos ≡ start + s.at
    whole : s.at + s.buf_size ≡ length buffer
    pending_pos : s.buffered_pos ≡ start + s.buffered_begin
    pending_end : s.buffered_begin + s.buffered_size ≤ s.at
    joined : s.skipped_size ≡ 0 → s.buffered_begin + s.buffered_size ≡ s.at
    done :
        (i b : ℕ)
        → i < s.at
        → get_elem? buffer i ≡ some b
        → view s (start + i) ≡ (if left_out i then old (start + i) else b)
    outside : (p : ℕ) → (p < start) ⊎ (start + s.at ≤ p) → view s p ≡ old p

  length-pending :
      (s : Sparse)
      → s.buffered_begin + s.buffered_size ≤ length buffer
      → length (pending pwrite buffer s) ≡ s.buffered_size
  length-pending s h =
      length-take_le s.buffered_size (drop s.buffered_begin buffer)
        (rw (length-drop s.buffered_begin buffer) (omega arith))

  view_inside :
      (s : Sparse) (i b : ℕ)
      → s.buffered_pos ≡ start + s.buffered_begin
      → s.buffered_begin ≤ i
      → i < s.buffered_begin + s.buffered_size
      → get_elem? buffer i ≡ some b
      → view s (start + i) ≡ b
  view_inside s i b e low high h =
      let j : ℕ = i - s.buffered_begin in
      let at : start + i ≡ s.buffered_pos + j = omega arith in
      let at' : s.buffered_begin + j ≡ i = omega arith in
      rw at (
        write_at_inside s.file s.buffered_pos (pending pwrite buffer s) j b (
          get_elem?-take s.buffered_size (drop s.buffered_begin buffer) j (omega arith)
          ∙ (get_elem?-drop s.buffered_begin buffer j ∙ (ap (get_elem? buffer) at' ∙ h))))

  view_outside :
      (s : Sparse) (p : ℕ)
      → s.buffered_pos ≡ start + s.buffered_begin
      → s.buffered_begin + s.buffered_size ≤ length buffer
      → (p < start + s.buffered_begin) ⊎ (start + (s.buffered_begin + s.buffered_size) ≤ p)
      → view s p ≡ s.file p
  view_outside s p e h (inl low) =
      write_at_before s.file s.buffered_pos (pending pwrite buffer s) p (omega arith)
  view_outside s p e h (inr high) =
      let size : length (pending pwrite buffer s) ≡ s.buffered_size = length-pending s h in
      write_at_behind s.file s.buffered_pos (pending pwrite buffer s) p (omega arith)

  abbrev Becomes : Outcome → (Sparse → Type 0) → Type 0
  Becomes out P = (s : Sparse) × (out ≡ going s) × P s

  record Flushed (s t : Sparse) : Type 0 where
    holds : Holds t
    empty : t.buffered_size ≡ 0
    from_here : t.buffered_begin ≡ t.at
    same_at : t.at ≡ s.at
    same_size : t.buf_size ≡ s.buf_size

  view_nothing : (t : Sparse) (p : ℕ) → t.buffered_size ≡ 0 → view t p ≡ t.file p
  view_nothing t p e = rw e (write_at_nil t.file t.buffered_pos p)

  in_buffer : (s : Sparse) → Holds s → s.buffered_begin + s.buffered_size ≤ length buffer
  in_buffer s holds = let whole = holds.whole in let end = holds.pending_end in omega arith

  forget_pending_lem :
      (s : Sparse) (file : File)
      → Holds s
      → ((p : ℕ) → file p ≡ view s p)
      → Flushed s (forget_pending pwrite buffer file s)
  unfolding forget_pending
  forget_pending_lem s file holds same =
      let t : Sparse = forget_pending pwrite buffer file s in
      let seen : (p : ℕ) → view t p ≡ view s p = λ p. view_nothing t p refl ∙ same p in
      record {
        holds = record {
          at_pos = holds.at_pos;
          whole = holds.whole;
          pending_pos = holds.at_pos;
          pending_end = omega arith;
          joined = λ e. omega arith;
          done = λ i b h e. rw (seen (start + i)) (holds.done i b h e);
          outside = λ p h. seen p ∙ holds.outside p h;
        };
        empty = refl;
        from_here = refl;
        same_at = refl;
        same_size = refl;
      }

  flush_buf_lem : (s : Sparse) → Holds s → Becomes (flush_buf pwrite buffer s) (Flushed s)
  unfolding flush_buf
  flush_buf_lem s holds = elim (Bool-cases (s.buffered_size == 0)) [
    | inl e ↦
        (_, rw e, forget_pending_lem s s.file holds (λ p. sym (view_nothing s p (ground arith))))
    | inr e ↦
        let e1 : length (pending pwrite buffer s) ≡ s.buffered_size =
          length-pending s (in_buffer s holds) in
        let e2 : (length (pending pwrite buffer s) == s.buffered_size) ≡ true = ground arith in
        let e3 : take (length (pending pwrite buffer s)) (pending pwrite buffer s)
            ≡ pending pwrite buffer s =
          take_all (length (pending pwrite buffer s)) (pending pwrite buffer s) (omega arith) in
        (
          _,
          rw (e, all_written (pending pwrite buffer s) s.buffered_pos, e2, e3),
          forget_pending_lem s (view s) holds (λ p. refl),
        )
  ]

  add_buf_lem :
      (n : ℕ) (s : Sparse)
      → Holds s
      → s.buffered_begin + s.buffered_size ≡ s.at
      → n ≤ s.buf_size
      → ((i : ℕ) → s.at ≤ i → i < s.at + n → left_out i ≡ false)
      → Holds (add_buf pwrite buffer n s)
  unfolding add_buf go_ahead_by
  add_buf_lem n s holds joined h shown =
      let t : Sparse = add_buf pwrite buffer n s in
      let at = holds.at_pos in
      let whole = holds.whole in
      let pos = holds.pending_pos in
      let end : t.buffered_begin + t.buffered_size ≡ s.at + n = omega arith in
      let aside : (p : ℕ)
          → (p < start + s.buffered_begin) ⊎ (start + (s.at + n) ≤ p)
          → view t p ≡ view s p =
        λ p far.
          view_outside t p pos (omega arith)
            (elim far [ inl low ↦ inl low | inr high ↦ inr (omega arith) ])
          ∙ sym (
              view_outside s p pos (omega arith)
                (elim far [ inl low ↦ inl low | inr high ↦ inr (omega arith) ])) in
      record {
        at_pos = omega arith;
        whole = omega arith;
        pending_pos = pos;
        pending_end = omega arith;
        joined = λ e. end;
        done = λ i b low e. elim (lt_or_ge i s.buffered_begin) [
          | inl early ↦ rw (aside (start + i) (inl (omega arith))) (holds.done i b (omega arith) e)
          | inr late ↦ view_inside t i b pos late (omega arith) e ∙ elim (lt_or_ge i s.at) [
            | inl already ↦
                sym (view_inside s i b pos late (omega arith) e) ∙ holds.done i b already e
            | inr new ↦ sym (if_not (left_out i) (old (start + i)) b (shown i new low))
          ]
        ];
        outside = λ p far. elim far [
          | inl before ↦ aside p (inl (omega arith)) ∙ holds.outside p (inl before)
          | inr behind ↦ aside p (inr behind) ∙ holds.outside p (inr (omega arith))
        ];
      }

  skip_buf_lem :
      (n : ℕ) (s : Sparse)
      → Holds s
      → 0 < n
      → n ≤ s.buf_size
      → ((i : ℕ) → s.at ≤ i → i < s.at + n → left_out i ≡ true)
      → Holds (skip_buf pwrite buffer n s)
  unfolding skip_buf go_ahead_by
  skip_buf_lem n s holds moves h hidden =
      let at = holds.at_pos in
      let whole = holds.whole in
      let end = holds.pending_end in
      record {
        at_pos = omega arith;
        whole = omega arith;
        pending_pos = holds.pending_pos;
        pending_end = omega arith;
        joined = λ e. omega arith;
        done = λ i b low e. elim (lt_or_ge i s.at) [
          | inl early ↦ holds.done i b early e
          | inr late ↦
              holds.outside (start + i) (inr (omega arith))
              ∙ sym (if_so (left_out i) (old (start + i)) b (hidden i late low))
        ];
        outside = λ p far. elim far [
          | inl before ↦ holds.outside p (inl before)
          | inr behind ↦ holds.outside p (inr (omega arith))
        ];
      }

  -- `n` bytes further on.
  abbrev Moved : ℕ → Sparse → Sparse → Type 0
  Moved n s t = Holds t × (t.buf_size ≡ s.buf_size - n)

  unskipped : (s t : Sparse) → Flushed s t → Holds (record t { skipped_size = 0 })
  unskipped s t is =
      let holds = is.holds in
      let e = is.empty in
      let e' = is.from_here in
      record {
        at_pos = holds.at_pos;
        whole = holds.whole;
        pending_pos = holds.pending_pos;
        pending_end = holds.pending_end;
        joined = λ e''. omega arith;
        done = holds.done;
        outside = holds.outside;
      }

  add_buf-Moved :
      (n : ℕ) (s : Sparse)
      → Holds s
      → s.buffered_begin + s.buffered_size ≡ s.at
      → n ≤ s.buf_size
      → ((i : ℕ) → s.at ≤ i → i < s.at + n → left_out i ≡ false)
      → Moved n s (add_buf pwrite buffer n s)
  unfolding add_buf go_ahead_by
  add_buf-Moved n s holds joined h shown = (add_buf_lem n s holds joined h shown, refl)

  append_buf_lem :
      (n : ℕ) (s : Sparse)
      → Holds s
      → n ≤ s.buf_size
      → ((i : ℕ) → s.at ≤ i → i < s.at + n → left_out i ≡ false)
      → Becomes (append_buf pwrite buffer n s) (Moved n s)
  unfolding append_buf and_then
  append_buf_lem n s holds h shown = elim (Bool-cases (ltb 0 s.skipped_size)) [
    | inl e ↦
        let (t, flushed, is) = flush_buf_lem s holds in
        let size = is.same_size in
        let empty = is.empty in
        let here = is.from_here in
        let u : Sparse = record t { skipped_size = 0 } in
        let same = is.same_at in
        let (held, left) =
          add_buf-Moved n u (unskipped s t is) (omega arith) (omega arith)
            (λ i low high. shown i (omega arith) (omega arith)) in
        (add_buf pwrite buffer n u, rw (e, flushed), (held, left ∙ ap (λ k. k - n) size))
    | inr e ↦
        let none_skipped : s.skipped_size ≡ 0 = ground arith in
        (
          add_buf pwrite buffer n s,
          rw e,
          add_buf-Moved n s holds (holds.joined none_skipped) h shown,
        )
  ]

  -- The bytes of a block are left out together.
  abbrev IsBlock : ℕ → Sparse → Type 0
  IsBlock n s =
      (i : ℕ) → s.at ≤ i → i < s.at + n → left_out i ≡ is_zero_block (take n (drop s.at buffer))

  put_block_lem :
      (n : ℕ) (s : Sparse)
      → Holds s
      → 0 < n
      → n ≤ s.buf_size
      → IsBlock n s
      → Becomes (put_block pwrite buffer n s) (Moved n s)
  unfolding put_block skip_buf go_ahead_by
  put_block_lem n s holds moves h block =
      elim (Bool-cases (is_zero_block (take n (drop s.at buffer)))) [
        | inl e ↦ (
          skip_buf pwrite buffer n s,
          rw e,
          (skip_buf_lem n s holds moves h (λ i low high. block i low high ∙ e), refl),
        )
        | inr e ↦
            let (t, eq, moved) = append_buf_lem n s holds h (λ i low high. block i low high ∙ e) in
            (t, rw e eq, moved)
      ]

  -- A place within 1024 bytes of the start of a block is in it.
  left_out-block :
      (at k i : ℕ)
      → at ≡ head + 1024 * k
      → at ≤ i
      → i < at + 1024
      → left_out i ≡ is_zero_block (take 1024 (drop at buffer))
  left_out-block at k i e low high =
      let behind : leb head i ≡ true = ground arith in
      let here : head + (i - head) / 1024 * 1024 ≡ at = omega arith in
      rw (behind, here) (sym (is_zero_block_lem (take 1024 (drop at buffer))))

  IsBlock-whole : (s : Sparse) (k : ℕ) → s.at ≡ head + 1024 * k → IsBlock 1024 s
  IsBlock-whole s k e i low high = left_out-block s.at k i e low high

  IsBlock-end :
      (s : Sparse) (k : ℕ)
      → Holds s
      → s.at ≡ head + 1024 * k
      → s.buf_size < 1024
      → IsBlock s.buf_size s
  IsBlock-end s k holds e short i low high =
      let whole = holds.whole in
      let size = length-drop s.at buffer in
      let all : take s.buf_size (drop s.at buffer) ≡ drop s.at buffer =
        take_all s.buf_size (drop s.at buffer) (omega arith) in
      let all' : take 1024 (drop s.at buffer) ≡ drop s.at buffer =
        take_all 1024 (drop s.at buffer) (omega arith) in
      left_out-block s.at k i e low (omega arith) ∙ ap is_zero_block (all' ∙ sym all)

  -- Where the code is between two blocks.
  abbrev Between : Sparse → Type 0
  Between s = (k : ℕ) × Holds s × (s.at ≡ head + 1024 * k)

  head_lem : unaligned_remainder pwrite buffer (sparse_start pwrite buffer old start) ≡ head
  unfolding unaligned_remainder next_block_boundary
  head_lem = elim (lt_or_ge (start + 1023) (2 ^ 64)) [
    | inl fits ↦
        let e : (start + 1023) % 2 ^ 64 ≡ start + 1023 = omega arith in
        elim (Bool-cases ((start + 1023) / 1024 % 2 == 0)) [
          | inl even ↦
              let d : (start + 1023) / 1024 % 2 ≡ 0 = ground arith in rw (even, e, d) (omega arith)
          | inr odd ↦
              let d : (start + 1023) / 1024 % 2 ≡ 1 = ground arith in rw (odd, e, d) (omega arith)
        ]
    | inr wraps ↦
        let e : (start + 1023) % 2 ^ 64 / 1024 % 2 ≡ 0 = omega arith in
        let d : (start + 1023) / 1024 % 2 ≡ 0 = omega arith in rw (e, d) (omega arith)
  ]

  remainder_le :
      unaligned_remainder pwrite buffer (sparse_start pwrite buffer old start) ≤ length buffer
  unfolding unaligned_remainder
  remainder_le = omega arith

  before_head : (i : ℕ) → i < head → left_out i ≡ false
  before_head i h = let front : leb head i ≡ false = ground arith in rw front refl

  start_unaligned_lem :
      Holds (sparse_start pwrite buffer old start)
      → Becomes (start_unaligned pwrite buffer (sparse_start pwrite buffer old start)) Between
  unfolding start_unaligned
  start_unaligned_lem holds =
      let s : Sparse = sparse_start pwrite buffer old start in
      let n : ℕ = unaligned_remainder pwrite buffer s in
      let is_head : n ≡ head = head_lem in
      let fits : n ≤ length buffer = remainder_le in
      elim (Bool-cases (n == 0)) [
        | inl e ↦ let none : n ≡ 0 = ground arith in (s, rw e, (0, holds, omega arith))
        | inr e ↦
            let (t, eq, moved) =
              append_buf_lem n s holds fits (λ i low high. before_head i (omega arith)) in
            let size = moved.1 in
            let whole = moved.0.whole in (t, rw e eq, (0, moved.0, omega arith))
      ]

  -- As many rounds as there are bytes are enough for the loop to end by its condition.
  block_loop_lem :
      (rounds : ℕ) (s : Sparse)
      → Between s
      → s.buf_size ≤ rounds
      → Becomes (block_loop pwrite buffer rounds s) (λ t. Between t × (t.buf_size < 1024))
  unfolding block_loop and_then
  block_loop_lem zero s between h = (s, refl, (between, omega arith))
  block_loop_lem (suc rounds) s (k, holds, e) h = elim (Bool-cases (ltb s.buf_size 1024)) [
    | inl small ↦ (s, rw small, ((k, holds, e), ground arith))
    | inr large ↦
        let room : 1024 ≤ s.buf_size = ground arith in
        let (t, eq, moved) = put_block_lem 1024 s holds (omega arith) room (IsBlock-whole s k e) in
        let size = moved.1 in
        let before = holds.whole in
        let after = moved.0.whole in
        let (u, eq', end) = block_loop_lem rounds t (k + 1, moved.0, omega arith) (omega arith) in
        (u, rw (large, eq) eq', end)
  ]

  end_block_lem :
      (s : Sparse)
      → Between s
      → s.buf_size < 1024
      → Becomes (end_block pwrite buffer s) (λ t. Holds t × (t.buf_size ≡ 0))
  unfolding end_block
  end_block_lem s (k, holds, e) small = elim (Bool-cases (s.buf_size == 0)) [
    | inl empty ↦ (s, rw empty, (holds, ground arith))
    | inr more ↦
        let some_left : 0 < s.buf_size = ground arith in
        let (t, eq, moved) =
          put_block_lem s.buf_size s holds some_left (omega arith)
            (IsBlock-end s k holds e small) in
        let size = moved.1 in (t, rw more eq, (moved.0, omega arith))
  ]

  start-Holds : Holds (sparse_start pwrite buffer old start)
  start-Holds = record {
    at_pos = omega arith;
    whole = omega arith;
    pending_pos = omega arith;
    pending_end = omega arith;
    joined = λ e. refl;
    done = λ i b low e. absurd (omega arith);
    outside = λ p far. view_nothing (sparse_start pwrite buffer old start) p refl;
  }

  sparse_run_lem :
      Becomes
        (sparse_run pwrite buffer (sparse_start pwrite buffer old start))
        (λ t. Holds t × (t.buffered_size ≡ 0) × (t.at ≡ length buffer))
  unfolding sparse_run and_then
  sparse_run_lem =
      let (s1, eq1, between) = start_unaligned_lem start-Holds in
      let (s2, eq2, looped) = block_loop_lem s1.buf_size s1 between (omega arith) in
      let (s3, eq3, ended) = end_block_lem s2 looped.0 looped.1 in
      let (s4, eq4, is) = flush_buf_lem s3 ended.0 in
      let whole = ended.0.whole in
      let size = ended.1 in
      let same = is.same_at in (s4, rw (eq1, eq2, eq3) eq4, (is.holds, is.empty, omega arith))

  sparse_write_going :
      (t : Sparse)
      → sparse_run pwrite buffer (sparse_start pwrite buffer old start) ≡ going t
      → sparse_write pwrite buffer old start ≡ (true, t.file)
  unfolding sparse_write returned
  sparse_write_going t eq = ap returned eq

  -- When the file's system takes all bytes, `SparseWrite` succeeds, whatever the buffer's length and
  -- place below 2 ^ 64. The file then has the buffer's byte at each place of the buffer, except in the
  -- blocks of 1024 bytes behind the head, the last one maybe shorter, in which no byte is zero: there
  -- it has what it had before. Outside of the buffer's place nothing has changed.
  pub sparse_write_lem :
      ((sparse_write pwrite buffer old start).0 ≡ true)
      × ((i b : ℕ)
          → get_elem? buffer i ≡ some b
          → (sparse_write pwrite buffer old start).1 (start + i) ≡ (
              if is_left_out (head_size start (length buffer)) buffer i
              then old (start + i)
              else b))
      × ((p : ℕ)
          → (p < start) ⊎ (start + length buffer ≤ p)
          → (sparse_write pwrite buffer old start).1 p ≡ old p)
  sparse_write_lem =
      let (t, eq, (holds, empty, end)) = sparse_run_lem in
      let seen : (p : ℕ) → t.file p ≡ view t p = λ p. sym (view_nothing t p empty) in
      let result = sparse_write_going t eq in
      (
        ap (λ r. r.0) result,
        (λ i b e.
            let inside : i < t.at = subst (λ n. i < n) (sym end) (get_elem?-some buffer i b e) in
            rw (result, seen (start + i)) (holds.done i b inside e)),
        (λ p far. rw (result, seen p) (holds.outside p (rw end far))),
      )
