-- ===== src/Endian/Get.antt =====
-- The readers on the little-endian bytes of a number.
use cromfs.Base.{ℕ, zero, suc, ◌+◌, ◌*◌, ◌/◌, ◌%◌, ◌^◌, ◌≤◌, ◌<◌, ◌≡◌, ap, ◌∙◌, bit_or, length, ok}
use cromfs.Base.{◌++◌, arith}
use cromfs.Base.Bits.{or_low, or_high}
use cromfs.Base.Bytes.{Bytes, le_bytes}
use cromfs.Endian.{
  get_8, get_16, get_32, get_64, get_n_1, get_n_3, get_n_5, get_n_6, get_n_7, get_n,
}
use cromfs.Endian.Shift.{get_16-append, get_32-append, get_64-append, get_n-append}

pub get_16_start : (v : ℕ) (post : Bytes) → get_16 (le_bytes 2 v ++ post) 0 ≡ ok (v % 2 ^ 16)
unfolding get_16 get_8
get_16_start v post = ap ok (or_low 8 (v / 256 % 256) (v % 256) (omega arith) ∙ omega arith)

pub get_32_start : (v : ℕ) (post : Bytes) → get_32 (le_bytes 4 v ++ post) 0 ≡ ok (v % 2 ^ 32)
unfolding get_32
get_32_start v post =
    rw
      (
        get_16_start v (le_bytes 2 (v / 256 / 256) ++ post),
        get_16-append (le_bytes 2 v) (le_bytes 2 (v / 256 / 256) ++ post) 0,
        get_16_start (v / 256 / 256) post,
      )
      (ap ok (or_low 16 (v / 256 / 256 % 2 ^ 16) (v % 2 ^ 16) (omega arith) ∙ omega arith))

pub get_64_start : (v : ℕ) (post : Bytes) → get_64 (le_bytes 8 v ++ post) 0 ≡ ok (v % 2 ^ 64)
unfolding get_64
get_64_start v post =
    let high : ℕ = v / 256 / 256 / 256 / 256 in
    rw
      (
        get_32_start v (le_bytes 4 high ++ post),
        get_32-append (le_bytes 4 v) (le_bytes 4 high ++ post) 0,
        get_32_start high post,
      )
      (ap ok (or_low 32 (high % 2 ^ 32) (v % 2 ^ 32) (omega arith) ∙ omega arith))

get_n_1_start :
    (v res : ℕ) (post : Bytes)
    → get_n_1 (le_bytes 1 v ++ post) 0 (res * 2 ^ 8) ≡ ok (res * 2 ^ 8 + v % 2 ^ 8)
unfolding get_n_1 get_8
get_n_1_start v res post = ap ok (or_high 8 res (v % 256) (omega arith))

-- The bytes read so far stand `k` bits above the field that comes next.
join_fields :
    (k j res w : ℕ)
    → w * 2 ^ j < 2 ^ k
    → res * 2 ^ k + w * 2 ^ j ≡ (res * (2 ^ k / 2 ^ j) + w) * 2 ^ j
    → bit_or (res * 2 ^ k) (w * 2 ^ j) ≡ (res * (2 ^ k / 2 ^ j) + w) * 2 ^ j
join_fields k j res w fits e = or_high k res (w * 2 ^ j) fits ∙ e

get_n_3_start :
    (v res : ℕ) (post : Bytes)
    → get_n_3 (le_bytes 3 v ++ post) 0 (res * 2 ^ 24) ≡ ok (res * 2 ^ 24 + v % 2 ^ 24)
unfolding get_n_3 get_n_1 get_8
get_n_3_start v res post =
    let w : ℕ = v / 256 % 2 ^ 16 in
    rw
      (
        get_16-append (le_bytes 1 v) (le_bytes 2 (v / 256) ++ post) 0,
        get_16_start (v / 256) post,
        join_fields 24 8 res w (omega arith) (omega arith),
        or_high 8 (res * 2 ^ 16 + w) (v % 256) (omega arith),
      )
      (ap ok (omega arith))

get_n_5_start :
    (v res : ℕ) (post : Bytes)
    → get_n_5 (le_bytes 5 v ++ post) 0 (res * 2 ^ 40) ≡ ok (res * 2 ^ 40 + v % 2 ^ 40)
unfolding get_n_5
get_n_5_start v res post =
    let high : ℕ = v / 256 / 256 / 256 in
    let w : ℕ = high % 2 ^ 16 in
    rw
      (
        get_16-append (le_bytes 3 v) (le_bytes 2 high ++ post) 0,
        get_16_start high post,
        join_fields 40 24 res w (omega arith) (omega arith),
        get_n_3_start v (res * 2 ^ 16 + w) (le_bytes 2 high ++ post),
      )
      (ap ok (omega arith))

get_n_6_start :
    (v res : ℕ) (post : Bytes)
    → get_n_6 (le_bytes 6 v ++ post) 0 (res * 2 ^ 48) ≡ ok (res * 2 ^ 48 + v % 2 ^ 48)
unfolding get_n_6 get_8
get_n_6_start v res post =
    let high : ℕ = v / 256 / 256 / 256 / 256 / 256 in
    let w : ℕ = high % 256 in
    rw
      (
        join_fields 48 40 res w (omega arith) (omega arith),
        get_n_5_start v (res * 2 ^ 8 + w) (le_bytes 1 high ++ post),
      )
      (ap ok (omega arith))

get_n_7_start : (v : ℕ) (post : Bytes) → get_n_7 (le_bytes 7 v ++ post) 0 0 ≡ ok (v % 2 ^ 56)
unfolding get_n_7 get_8
get_n_7_start v post =
    let high : ℕ = v / 256 / 256 / 256 / 256 / 256 / 256 in
    let w : ℕ = high % 256 in
    let joined : bit_or 0 (w * 2 ^ 48) ≡ w * 2 ^ 48 =
      or_high 56 0 (w * 2 ^ 48) (omega arith) ∙ omega arith in
    rw (joined, get_n_6_start v w (le_bytes 1 high ++ post)) (ap ok (omega arith))

get_n_start :
    (bytes v : ℕ) (post : Bytes)
    → bytes ≤ 8
    → get_n (le_bytes bytes v ++ post) 0 bytes ≡ ok (v % 256 ^ bytes)
unfolding get_n
get_n_start zero v post h = ap ok (omega arith)
get_n_start (suc zero) v post h = get_n_1_start v 0 post ∙ ap ok (omega arith)
get_n_start (suc (suc zero)) v post h = get_16_start v post
get_n_start (suc (suc (suc zero))) v post h = get_n_3_start v 0 post ∙ ap ok (omega arith)
get_n_start (suc (suc (suc (suc zero)))) v post h = get_32_start v post
get_n_start (suc (suc (suc (suc (suc zero))))) v post h =
    get_n_5_start v 0 post ∙ ap ok (omega arith)
get_n_start (suc (suc (suc (suc (suc (suc zero)))))) v post h =
    get_n_6_start v 0 post ∙ ap ok (omega arith)
get_n_start (suc (suc (suc (suc (suc (suc (suc zero))))))) v post h = get_n_7_start v post
get_n_start (suc (suc (suc (suc (suc (suc (suc (suc zero)))))))) v post h = get_64_start v post
get_n_start (suc (suc (suc (suc (suc (suc (suc (suc (suc n))))))))) v post h = absurd (omega arith)

-- `get_n` at a position that holds the little-endian bytes of `v` returns `v` cut to that width.
pub get_n-le_bytes :
    (pre post : Bytes) (p bytes v : ℕ)
    → p ≡ length pre
    → bytes ≤ 8
    → get_n (pre ++ (le_bytes bytes v ++ post)) p bytes ≡ ok (v % 256 ^ bytes)
get_n-le_bytes pre post p bytes v e h =
    let at_end : p ≡ length pre + 0 = omega arith in
    rw at_end (get_n-append pre (le_bytes bytes v ++ post) 0 bytes ∙ get_n_start bytes v post h)

-- The same for a value that fits its field.
module _ (pre post : Bytes) (p v : ℕ) (e : p ≡ length pre) where
  at_end : p ≡ length pre + 0
  at_end = omega arith

  pub get_16_at : v < 2 ^ 16 → get_16 (pre ++ (le_bytes 2 v ++ post)) p ≡ ok v
  get_16_at h =
      rw at_end
        (get_16-append pre (le_bytes 2 v ++ post) 0 ∙ get_16_start v post ∙ ap ok (omega arith))

  pub get_32_at : v < 2 ^ 32 → get_32 (pre ++ (le_bytes 4 v ++ post)) p ≡ ok v
  get_32_at h =
      rw at_end
        (get_32-append pre (le_bytes 4 v ++ post) 0 ∙ get_32_start v post ∙ ap ok (omega arith))

  pub get_64_at : v < 2 ^ 64 → get_64 (pre ++ (le_bytes 8 v ++ post)) p ≡ ok v
  get_64_at h =
      rw at_end
        (get_64-append pre (le_bytes 8 v ++ post) 0 ∙ get_64_start v post ∙ ap ok (omega arith))
