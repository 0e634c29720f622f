-- ===== src/Endian/Shift.antt =====
-- Reading behind a prefix of the buffer is reading the rest.
use native.Mathlib.Nat.{add_assoc}
use cromfs.Base.{ℕ, ◌+◌, ◌≡◌, ap, length, get_elem?-append, or_fault, ◌++◌}
use cromfs.Base.Bytes.{Bytes}
use cromfs.Endian.{
  get_8, get_16, get_32, get_64, get_n_1, get_n_3, get_n_5, get_n_6, get_n_7, get_n,
}

module _ (pre post : Bytes) where
  pub get_8-append : (j : ℕ) → get_8 (pre ++ post) (length pre + j) ≡ get_8 post j
  unfolding get_8
  get_8-append j = ap or_fault (get_elem?-append pre post j)

  pub get_16-append : (j : ℕ) → get_16 (pre ++ post) (length pre + j) ≡ get_16 post j
  unfolding get_16
  get_16-append j = rw (add_assoc (length pre) j 1, get_8-append j, get_8-append (j + 1))

  pub get_32-append : (j : ℕ) → get_32 (pre ++ post) (length pre + j) ≡ get_32 post j
  unfolding get_32
  get_32-append j = rw (add_assoc (length pre) j 2, get_16-append j, get_16-append (j + 2))

  pub get_64-append : (j : ℕ) → get_64 (pre ++ post) (length pre + j) ≡ get_64 post j
  unfolding get_64
  get_64-append j = rw (add_assoc (length pre) j 4, get_32-append j, get_32-append (j + 4))

  get_n_3-append : (j res : ℕ) → get_n_3 (pre ++ post) (length pre + j) res ≡ get_n_3 post j res
  unfolding get_n_3 get_n_1
  get_n_3-append j res = rw (add_assoc (length pre) j 1, get_16-append (j + 1), get_8-append j)

  get_n_5-append : (j res : ℕ) → get_n_5 (pre ++ post) (length pre + j) res ≡ get_n_5 post j res
  unfolding get_n_5
  get_n_5-append j res = simp (add_assoc (length pre) j 3, get_16-append, get_n_3-append)

  get_n_6-append : (j res : ℕ) → get_n_6 (pre ++ post) (length pre + j) res ≡ get_n_6 post j res
  unfolding get_n_6
  get_n_6-append j res = simp (add_assoc (length pre) j 5, get_8-append, get_n_5-append)

  get_n_7-append : (j res : ℕ) → get_n_7 (pre ++ post) (length pre + j) res ≡ get_n_7 post j res
  unfolding get_n_7
  get_n_7-append j res = simp (add_assoc (length pre) j 6, get_8-append, get_n_6-append)

  pub get_n-append : (j bytes : ℕ) → get_n (pre ++ post) (length pre + j) bytes ≡ get_n post j bytes
  unfolding get_n get_n_1
  get_n-append j bytes = rw (
    get_64-append j,
    get_32-append j,
    get_16-append j,
    get_n_7-append j 0,
    get_n_6-append j 0,
    get_n_5-append j 0,
    get_n_3-append j 0,
    get_8-append j,
  )
