-- ===== src/Endian/Window.antt =====
-- lib/endian.hh: the readers on a part of a buffer that was read on its own.
use cromfs.Base.{ℕ, ◌+◌, ◌≤◌, ◌<◌, ◌≡◌, sym, ap, ◌∙◌, get_elem?, take, drop, or_fault, arith}
use cromfs.Base.Access.{get_elem?-take, get_elem?-drop}
use cromfs.Base.Bytes.{Bytes}
use cromfs.Endian.{get_8, get_16, get_32, get_64}
use cromfs.Base.{refl}

module _ (buf : Bytes) (p n : ℕ) where
  abbrev pub window : Bytes
  window = take n (drop p buf)

  get_8-window : (i k : ℕ) → i < n → k ≡ p + i → get_8 window i ≡ get_8 buf k
  unfolding get_8
  get_8-window i k h at =
      ap or_fault
        (get_elem?-take n (drop p buf) i h ∙ (get_elem?-drop p buf i ∙ ap (get_elem? buf) (sym at)))

  get_16-window : (i k : ℕ) → i + 2 ≤ n → k ≡ p + i → get_16 window i ≡ get_16 buf k
  unfolding get_16
  get_16-window i k h at =
      rw
        (
          get_8-window i k (omega arith) at,
          get_8-window (i + 1) (k + 1) (omega arith) (omega arith),
        )
        refl

  pub get_32-window : (i k : ℕ) → i + 4 ≤ n → k ≡ p + i → get_32 window i ≡ get_32 buf k
  unfolding get_32
  get_32-window i k h at =
      rw
        (
          get_16-window i k (omega arith) at,
          get_16-window (i + 2) (k + 2) (omega arith) (omega arith),
        )
        refl

  pub get_64-window : (i k : ℕ) → i + 8 ≤ n → k ≡ p + i → get_64 window i ≡ get_64 buf k
  unfolding get_64
  get_64-window i k h at =
      rw
        (
          get_32-window i k (omega arith) at,
          get_32-window (i + 4) (k + 4) (omega arith) (omega arith),
        )
        refl
