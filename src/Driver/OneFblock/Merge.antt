-- ===== src/Driver/OneFblock/Merge.antt =====
-- The target and the count after one round, against those of the later rounds.
use cromfs.Base.{ℕ, ◌+◌, ◌-◌, ◌<◌, ◌≤◌, ◌≡◌, refl, ap, ◌∙◌, arith}
use cromfs.Base.{Option, get_elem?, length, Bool-cases, inl, inr}
use cromfs.Base.{Bool, true, false, ltb, leb, if◌then◌else◌}
use cromfs.Base.Access.{get_elem?-write_inside, get_elem?-write_outside}
use cromfs.Base.Bytes.{Bytes, write}
use cromfs.Inode.{Inode}
use cromfs.Driver.{Fs, LzmaDecode}
use cromfs.Driver.Content.{file_byte}
use cromfs.Driver.Chunks.{is_in_fblock, count_in_fblock, chunk_size}
use cromfs.Base.{subst}
use cromfs.Driver.OneFblock.{if_reached, if_same, covers_from}
use cromfs.Driver.OneFblock.Round.{
  Copied, count_at_chunk, in_chunk, slice, length-slice, slice-content,
}

module _ (decode : LzmaDecode) (fs0 : Fs) (inode : Inode) (offset endpos : ℕ)
    (some_size : 0 < inode.blocksize) where
  pub covers_skip :
      (a p i : ℕ)
      → p < endpos
      → is_in_fblock inode fs0.blktab a p ≡ false
      → covers_from decode fs0 inode offset endpos a (p + chunk_size inode p endpos) i
        ≡ covers_from decode fs0 inode offset endpos a p i
  covers_skip a p i h other = elim (Bool-cases (leb p i)) [
    | inl low ↦ elim (Bool-cases (ltb i (p + chunk_size inode p endpos))) [
      | inl high ↦
          let out : is_in_fblock inode fs0.blktab a i ≡ false =
            in_chunk decode fs0 inode offset endpos some_size a p i (ground arith) (ground arith)
            ∙ other in
          rw (out) (ground arith)
      | inr high ↦ ground arith
    ]
    | inr low ↦ ground arith
  ]

  pub covers_chunk :
      (a p i : ℕ)
      → p < endpos
      → is_in_fblock inode fs0.blktab a p ≡ true
      → p ≤ i
      → i < p + chunk_size inode p endpos
      → covers_from decode fs0 inode offset endpos a p i ≡ true
  covers_chunk a p i h same low high =
      let inn : is_in_fblock inode fs0.blktab a i ≡ true =
        in_chunk decode fs0 inode offset endpos some_size a p i low high ∙ same in
      rw inn (ground arith)

  -- After a chunk is copied decode fs0 inode offset endpos some_size, the later rounds fill in the rest.
  pub merge_chunk :
      (a p : ℕ) (t : Bytes) (c : Copied decode fs0 inode offset endpos some_size p) (j : ℕ)
      → p < endpos
      → offset ≤ p
      → endpos ≤ offset + length t
      → is_in_fblock inode fs0.blktab a p ≡ true
      → (if covers_from decode fs0 inode offset endpos a
            (p + chunk_size inode p endpos)
            (offset + j)
          then file_byte decode fs0 inode (offset + j)
          else get_elem?
              (write t (p - offset) (slice decode fs0 inode offset endpos some_size p c))
              j)
        ≡ (if covers_from decode fs0 inode offset endpos a p (offset + j)
            then file_byte decode fs0 inode (offset + j)
            else get_elem? t j)
  merge_chunk a p t c j h off fits same =
      let n = chunk_size inode p endpos in
      let covers_after : Bool = covers_from decode fs0 inode offset endpos a (p + n) (offset + j) in
      let covers_before : Bool = covers_from decode fs0 inode offset endpos a p (offset + j) in
      let fb : Option ℕ = file_byte decode fs0 inode (offset + j) in
      let moved_byte : Option ℕ =
        get_elem? (write t (p - offset) (slice decode fs0 inode offset endpos some_size p c)) j in
      let old_byte : Option ℕ = get_elem? t j in
      let n_in : p + n ≤ endpos = omega arith in
      let len = length-slice decode fs0 inode offset endpos some_size p c in
      let fits' : p - offset + length (slice decode fs0 inode offset endpos some_size p c)
          ≤ length t =
        omega arith in
      elim (Bool-cases (leb p (offset + j))) [
        | inl low ↦ elim (Bool-cases (ltb (offset + j) (p + n))) [
          | inl high ↦
              let low' : p ≤ offset + j = ground arith in
              let k = offset + j - p in
              let j_is : p - offset + k ≡ j = omega arith in
              let i_is : p + k ≡ offset + j = omega arith in
              let here =
                get_elem?-write_inside t (p - offset)
                  (slice decode fs0 inode offset endpos some_size p c) k fits' (ground arith)
                ∙ slice-content decode fs0 inode offset endpos some_size p k c (ground arith) in
              if_reached covers_after covers_before fb moved_byte old_byte (ground arith)
                (covers_chunk a p (offset + j) h same (ground arith) (ground arith))
                (subst
                  (λ q.
                    get_elem?
                      (write t (p - offset) (slice decode fs0 inode offset endpos some_size p c)) j
                    ≡ file_byte decode fs0 inode q)
                  i_is
                  (subst
                    (λ q.
                      get_elem?
                        (write t (p - offset) (slice decode fs0 inode offset endpos some_size p c))
                        q
                      ≡ file_byte decode fs0 inode (p + k))
                    j_is here))
          | inr high ↦ if_same covers_after covers_before fb moved_byte old_byte (ground arith) (
              get_elem?-write_outside t (p - offset)
                (slice decode fs0 inode offset endpos some_size p c) j fits' (inr (ground arith)))
        ]
        | inr low ↦ if_same covers_after covers_before fb moved_byte old_byte (ground arith) (
            get_elem?-write_outside t (p - offset)
              (slice decode fs0 inode offset endpos some_size p c) j fits' (inl (ground arith)))
      ]

  pub nothing_left :
      (a p r : ℕ) → endpos ≤ p → r ≡ r + count_in_fblock inode fs0.blktab a p (endpos - p)
  nothing_left a p r h =
      let none_left : endpos - p ≡ 0 = omega arith in
      let counted : count_in_fblock inode fs0.blktab a p (endpos - p) ≡ 0 =
        ap (count_in_fblock inode fs0.blktab a p) none_left ∙ (unfold count_in_fblock in refl) in
      omega arith

  pub counted_skip :
      (a p r : ℕ)
      → p < endpos
      → is_in_fblock inode fs0.blktab a p ≡ false
      → r
          + count_in_fblock inode fs0.blktab a
              (p + chunk_size inode p endpos)
              (endpos - (p + chunk_size inode p endpos))
        ≡ r + count_in_fblock inode fs0.blktab a p (endpos - p)
  counted_skip a p r h other =
      let count = count_at_chunk decode fs0 inode offset endpos some_size a p h in
      let none_here : (if is_in_fblock inode fs0.blktab a p then chunk_size inode p endpos else 0)
          ≡ 0 =
        rw other in
      omega arith

  pub counted_take :
      (a p r : ℕ)
      → p < endpos
      → is_in_fblock inode fs0.blktab a p ≡ true
      → r
          + chunk_size inode p endpos
          + count_in_fblock inode fs0.blktab a
              (p + chunk_size inode p endpos)
              (endpos - (p + chunk_size inode p endpos))
        ≡ r + count_in_fblock inode fs0.blktab a p (endpos - p)
  counted_take a p r h same =
      let count = count_at_chunk decode fs0 inode offset endpos some_size a p h in
      let all_here : (if is_in_fblock inode fs0.blktab a p then chunk_size inode p endpos else 0)
          ≡ chunk_size inode p endpos =
        rw same in
      omega arith
