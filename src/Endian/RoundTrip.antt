-- ===== src/Endian/RoundTrip.antt =====
-- What `get_n` reads where `put_n` wrote.
use cromfs.Base.{ℕ, ◌+◌, ◌%◌, ◌^◌, ◌≤◌, ◌≡◌, ap, sym, ◌∙◌, length, take, drop, length-take_le, ok}
use cromfs.Base.{◌++◌, arith, ◌>>=◌}
use cromfs.Base.Bytes.{Bytes, le_bytes, length-le_bytes, write_splice}
use cromfs.Endian.{get_n, put_n}
use cromfs.Endian.Get.{get_n-le_bytes}
use cromfs.Endian.Put.{put_n-write}

-- The buffer after `put_n`, as what stands before, in and behind the field.
pub put_n_splice :
    (buf : Bytes) (p v bytes : ℕ)
    → bytes ≤ 8
    → p + bytes ≤ length buf
    → put_n buf p v bytes ≡ ok (take p buf ++ (le_bytes bytes v ++ drop (p + bytes) buf))
put_n_splice buf p v bytes small fits =
    put_n-write buf p v bytes small fits
    ∙ ap ok (
        write_splice buf p (le_bytes bytes v) (omega (arith, length-le_bytes bytes v))
        ∙ ap (λ t. take p buf ++ (le_bytes bytes v ++ drop (p + t) buf)) (length-le_bytes bytes v))

-- For a width of at most 8 bytes and a field that lies in the buffer, `put_n` leaves every byte
-- outside the field as it was, and `get_n` of the same width then reads back the value, cut to
-- that width.
pub get_n-put_n :
    (buf : Bytes) (p v bytes : ℕ)
    → bytes ≤ 8
    → p + bytes ≤ length buf
    → (field : Bytes) × (length field ≡ bytes)
      × (put_n buf p v bytes ≡ ok (take p buf ++ (field ++ drop (p + bytes) buf)))
      × ((put_n buf p v bytes >>= λ b. get_n b p bytes) ≡ ok (v % 256 ^ bytes))
get_n-put_n buf p v bytes small fits = (
  le_bytes bytes v,
  length-le_bytes bytes v,
  put_n_splice buf p v bytes small fits,
  rw (put_n_splice buf p v bytes small fits) (
      get_n-le_bytes (take p buf) (drop (p + bytes) buf) p bytes v
        (sym (length-take_le p buf (omega arith))) small),
)
