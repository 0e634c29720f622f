-- ===== src/Endian/Put.antt =====
-- The writers: each stores the little-endian bytes of its value, if they fit the buffer.
use cromfs.Base.{
  ℕ, zero, suc, ◌+◌, ◌/◌, ◌%◌, ◌^◌, ◌≤◌, ◌<◌, ◌≡◌, refl, sym, ap, ◌∙◌, length, set, ok,
}
use cromfs.Base.{[], ◌∷◌, ◌++◌, arith, lt→ltb, length-set, ◌>>=◌, Result}
use cromfs.Base.Bytes.{
  Bytes, le_bytes, length-le_bytes, write, write-write, write-set, length-write,
}
use cromfs.Endian.{put_8, put_16, put_32, put_64, w24, put_n_5, put_n_6, put_n_7, put_n}

put_8_lem : (buf : Bytes) (p v : ℕ) → p < length buf → put_8 buf p v ≡ ok (set buf p (v % 256))
unfolding put_8
put_8_lem buf p v h = rw (lt→ltb p (length buf) h)

-- Two stores that each write bytes, one behind the other.
module _ (first second : Bytes → ℕ → ℕ → Result Bytes) (j k : ℕ)
    (first_writes : (buf : Bytes) (p v : ℕ)
      → p + j ≤ length buf
      → first buf p v ≡ ok (write buf p (le_bytes j v)))
    (second_writes : (buf : Bytes) (p v : ℕ)
      → p + k ≤ length buf
      → second buf p v ≡ ok (write buf p (le_bytes k v))) where
  two_stores :
      (buf : Bytes) (p v w : ℕ) (all : Bytes)
      → le_bytes j v ++ le_bytes k w ≡ all
      → p + (j + k) ≤ length buf
      → (first buf p v >>= λ b. second b (p + j) w) ≡ ok (write buf p all)
  two_stores buf p v w all e h =
      rw
        (
          first_writes buf p v (omega arith),
          second_writes (write buf p (le_bytes j v)) (p + j) w
              (omega (arith, length-write buf p (le_bytes j v))),
        )
        (ap ok (
          write-write buf p (p + j) (le_bytes j v) (le_bytes k w)
            (omega (arith, length-le_bytes j v))
          ∙ ap (write buf p) e))

pub put_8-write :
    (buf : Bytes) (p v : ℕ) → p + 1 ≤ length buf → put_8 buf p v ≡ ok (write buf p (le_bytes 1 v))
unfolding write
put_8-write buf p v h = put_8_lem buf p v (omega arith)

pub put_16-write :
    (buf : Bytes) (p v : ℕ) → p + 2 ≤ length buf → put_16 buf p v ≡ ok (write buf p (le_bytes 2 v))
unfolding put_16
put_16-write buf p v h =
    two_stores put_8 put_8 1 1 put_8-write put_8-write buf p v (v / 2 ^ 8) (le_bytes 2 v) refl h

pub w24-write :
    (buf : Bytes) (p v : ℕ) → p + 3 ≤ length buf → w24 buf p v ≡ ok (write buf p (le_bytes 3 v))
unfolding w24
w24-write buf p v h =
    two_stores put_16 put_8 2 1 put_16-write put_8-write buf p v (v / 2 ^ 16) (le_bytes 3 v)
      (ap (λ (t : ℕ). le_bytes 2 v ++ le_bytes 1 t)
        (let e : v / 2 ^ 16 ≡ v / 256 / 256 = omega arith in e))
      h

pub put_32-write :
    (buf : Bytes) (p v : ℕ) → p + 4 ≤ length buf → put_32 buf p v ≡ ok (write buf p (le_bytes 4 v))
unfolding put_32
put_32-write buf p v h =
    two_stores put_16 put_16 2 2 put_16-write put_16-write buf p v (v / 2 ^ 16) (le_bytes 4 v)
      (ap (λ (t : ℕ). le_bytes 2 v ++ le_bytes 2 t)
        (let e : v / 2 ^ 16 ≡ v / 256 / 256 = omega arith in e))
      h

pub put_64-write :
    (buf : Bytes) (p v : ℕ) → p + 8 ≤ length buf → put_64 buf p v ≡ ok (write buf p (le_bytes 8 v))
unfolding put_64
put_64-write buf p v h =
    two_stores put_32 put_32 4 4 put_32-write put_32-write buf p v (v / 2 ^ 32) (le_bytes 8 v)
      (ap (λ (t : ℕ). le_bytes 4 v ++ le_bytes 4 t)
        (let e : v / 2 ^ 32 ≡ v / 256 / 256 / 256 / 256 = omega arith in e))
      h

-- The cases of `put_n` for 5, 6 and 7 bytes store the top byte first, and then the bytes below it.
top_first :
    (buf : Bytes) (p k q v x : ℕ)
    → q ≡ p + k
    → x % 256 ≡ v
    → (w : ℕ) → le_bytes (suc k) w ≡ le_bytes k w ++ (v ∷ [])
    → write (set buf q (x % 256)) p (le_bytes k w) ≡ write buf p (le_bytes (suc k) w)
unfolding write
top_first buf p k q v x e ex w top =
    write-set buf p q (x % 256) (le_bytes k w) (omega (arith, length-le_bytes k w))
    ∙ ap (set (write buf p (le_bytes k w)) q) ex
    ∙ write-write buf p q (le_bytes k w) (v ∷ []) (omega (arith, length-le_bytes k w))
    ∙ ap (write buf p) (sym top)

put_n_5-write :
    (buf : Bytes) (p v : ℕ) → p + 5 ≤ length buf → put_n_5 buf p v ≡ ok (write buf p (le_bytes 5 v))
unfolding put_n_5
put_n_5-write buf p v h =
    rw
      (
        put_8_lem buf (p + 4) (v / 2 ^ 32) (omega arith),
        put_32-write (set buf (p + 4) (v / 2 ^ 32 % 256)) p v
            (omega (arith, length-set buf (p + 4) (v / 2 ^ 32 % 256))),
      )
      (ap ok (
        top_first buf p 4 (p + 4) (v / 256 / 256 / 256 / 256 % 256) (v / 2 ^ 32) refl (omega arith)
          v refl))

put_n_6-write :
    (buf : Bytes) (p v : ℕ) → p + 6 ≤ length buf → put_n_6 buf p v ≡ ok (write buf p (le_bytes 6 v))
unfolding put_n_6
put_n_6-write buf p v h =
    rw
      (
        put_8_lem buf (p + 5) (v / 2 ^ 40) (omega arith),
        put_n_5-write (set buf (p + 5) (v / 2 ^ 40 % 256)) p v
            (omega (arith, length-set buf (p + 5) (v / 2 ^ 40 % 256))),
      )
      (ap ok (
        top_first buf p 5 (p + 5) (v / 256 / 256 / 256 / 256 / 256 % 256) (v / 2 ^ 40) refl
          (omega arith) v refl))

put_n_7-write :
    (buf : Bytes) (p v : ℕ) → p + 7 ≤ length buf → put_n_7 buf p v ≡ ok (write buf p (le_bytes 7 v))
unfolding put_n_7
put_n_7-write buf p v h =
    rw
      (
        put_8_lem buf (p + 6) (v / 2 ^ 48) (omega arith),
        put_n_6-write (set buf (p + 6) (v / 2 ^ 48 % 256)) p v
            (omega (arith, length-set buf (p + 6) (v / 2 ^ 48 % 256))),
      )
      (ap ok (
        top_first buf p 6 (p + 6) (v / 256 / 256 / 256 / 256 / 256 / 256 % 256) (v / 2 ^ 48) refl
          (omega arith) v refl))

-- `put_n` stores exactly the `bytes` low bytes of its value, lowest first, when they fit the buffer.
pub put_n-write :
    (buf : Bytes) (p v bytes : ℕ)
    → bytes ≤ 8
    → p + bytes ≤ length buf
    → put_n buf p v bytes ≡ ok (write buf p (le_bytes bytes v))
unfolding put_n
put_n-write buf p v zero b h = unfold write in refl
put_n-write buf p v (suc zero) b h = put_8-write buf p v h
put_n-write buf p v (suc (suc zero)) b h = put_16-write buf p v h
put_n-write buf p v (suc (suc (suc zero))) b h = w24-write buf p v h
put_n-write buf p v (suc (suc (suc (suc zero)))) b h = put_32-write buf p v h
put_n-write buf p v (suc (suc (suc (suc (suc zero))))) b h = put_n_5-write buf p v h
put_n-write buf p v (suc (suc (suc (suc (suc (suc zero)))))) b h = put_n_6-write buf p v h
put_n-write buf p v (suc (suc (suc (suc (suc (suc (suc zero))))))) b h = put_n_7-write buf p v h
put_n-write buf p v (suc (suc (suc (suc (suc (suc (suc (suc zero)))))))) b h =
    put_64-write buf p v h
put_n-write buf p v (suc (suc (suc (suc (suc (suc (suc (suc (suc n))))))))) b h =
    absurd (omega arith)

-- A store right behind a run from the start of the buffer makes the run longer.
module _ (buf xs : Bytes) (q v : ℕ) (here : length xs ≡ q) where
  pub put_16_next :
      q + 2 ≤ length buf → put_16 (write buf 0 xs) q v ≡ ok (write buf 0 (xs ++ le_bytes 2 v))
  put_16_next h =
      put_16-write (write buf 0 xs) q v (omega (arith, length-write buf 0 xs))
      ∙ ap ok (write-write buf 0 q xs (le_bytes 2 v) (omega arith))

  pub put_32_next :
      q + 4 ≤ length buf → put_32 (write buf 0 xs) q v ≡ ok (write buf 0 (xs ++ le_bytes 4 v))
  put_32_next h =
      put_32-write (write buf 0 xs) q v (omega (arith, length-write buf 0 xs))
      ∙ ap ok (write-write buf 0 q xs (le_bytes 4 v) (omega arith))

  pub put_64_next :
      q + 8 ≤ length buf → put_64 (write buf 0 xs) q v ≡ ok (write buf 0 (xs ++ le_bytes 8 v))
  put_64_next h =
      put_64-write (write buf 0 xs) q v (omega (arith, length-write buf 0 xs))
      ∙ ap ok (write-write buf 0 q xs (le_bytes 8 v) (omega arith))
