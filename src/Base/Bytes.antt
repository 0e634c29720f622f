-- ===== src/Base/Bytes.antt =====
-- Byte buffers: numbers as little-endian byte lists, and the effect of a run of writes.
use cromfs.Base.Tests.{leb, if◌then◌else◌}
use cromfs.Base.Fallible.{Result, ok, fault}
use mathlib.Core.Bool.{true}
use Prim.Native.Nat.{ℕ, zero, suc, ◌+◌, ◌/◌, ◌%◌, ◌≤◌}
use mathlib.Core.Path.{◌≡◌, refl, sym, ap, ◌∙◌}
use mathlib.Core.List.{List, [], ◌∷◌, ◌++◌}
use mathlib.Core.List.{append-nil}
use native.Mathlib.Omega.{arith}
use cromfs.Base.Lists.{
  length, set, take, drop, take-append-drop, length-take_le, length-drop, drop-drop, length-set,
  set-set_comm, drop-length,
}

abbrev pub Bytes : Type 0
Bytes = List ℕ

-- The `k` lowest bytes of `v`, lowest first.
abbrev pub le_bytes : ℕ → ℕ → Bytes
le_bytes zero v = []
le_bytes (suc k) v = (v % 256) ∷ le_bytes k (v / 256)

pub length-le_bytes : (k v : ℕ) → length (le_bytes k v) ≡ k
length-le_bytes zero v = refl
length-le_bytes (suc k) v = ap suc (length-le_bytes k (v / 256))

-- `xs` stored one after the other from position `p` on.
unfoldable pub write : Bytes → ℕ → Bytes → Bytes
write buf p [] = buf
write buf p (x ∷ xs) = write (set buf p x) (suc p) xs

pub length-write : (buf : Bytes) (p : ℕ) (xs : Bytes) → length (write buf p xs) ≡ length buf
unfolding write
length-write buf p [] = refl
length-write buf p (x ∷ xs) = length-write (set buf p x) (suc p) xs ∙ length-set buf p x

-- Two adjacent runs are one.
pub write-write :
    (buf : Bytes) (p q : ℕ) (xs ys : Bytes)
    → p + length xs ≡ q
    → write (write buf p xs) q ys ≡ write buf p (xs ++ ys)
unfolding write
write-write buf p q [] ys e = let e' : q ≡ p = omega arith in ap (λ t. write buf t ys) e'
write-write buf p q (x ∷ xs) ys e = write-write (set buf p x) (suc p) q xs ys (omega arith)

write-cons :
    (y : ℕ) (buf : Bytes) (p : ℕ) (xs : Bytes) → write (y ∷ buf) (suc p) xs ≡ y ∷ write buf p xs
unfolding write
write-cons y buf p [] = refl
write-cons y buf p (x ∷ xs) = write-cons y (set buf p x) (suc p) xs

-- A run from the start of the buffer.
pub write_start :
    (buf xs : Bytes) → length xs ≤ length buf → write buf 0 xs ≡ xs ++ drop (length xs) buf
unfolding write
write_start buf [] h = refl
write_start [] (x ∷ xs) h = absurd (omega arith)
write_start (y ∷ buf) (x ∷ xs) h =
    write-cons x buf 0 xs ∙ ap (λ t. x ∷ t) (write_start buf xs (omega arith))

pub write_front :
    (buf xs : Bytes) (n : ℕ) → length xs ≡ n → n ≤ length buf → write buf 0 xs ≡ xs ++ drop n buf
write_front buf xs n e h = write_start buf xs (omega arith) ∙ ap (λ t. xs ++ drop t buf) e

pub write-append :
    (pre post : Bytes) (j : ℕ) (xs : Bytes)
    → write (pre ++ post) (length pre + j) xs ≡ pre ++ write post j xs
unfolding write
write-append [] post j xs = ap (λ t. write post t xs) (omega arith)
write-append (y ∷ pre) post j xs =
    ap (λ t. write (y ∷ pre ++ post) t xs)
      (let e : length (y ∷ pre) + j ≡ suc (length pre + j) = omega arith in e)
    ∙ write-cons y (pre ++ post) (length pre + j) xs
    ∙ ap (λ t. y ∷ t) (write-append pre post j xs)

-- A run replaces the bytes that it covers, and no other.
pub write_splice :
    (buf : Bytes) (p : ℕ) (xs : Bytes)
    → p + length xs ≤ length buf
    → write buf p xs ≡ take p buf ++ (xs ++ drop (p + length xs) buf)
write_splice buf p xs h =
    let at_end : p ≡ length (take p buf) + 0 = omega (arith, length-take_le p buf) in
    ap (λ t. write t p xs) (sym (take-append-drop p buf))
    ∙ ap (λ t. write (take p buf ++ drop p buf) t xs) at_end
    ∙ write-append (take p buf) (drop p buf) 0 xs
    ∙ ap (λ t. take p buf ++ t)
        (write_start (drop p buf) xs (omega (arith, length-drop p buf))
          ∙ ap (λ t. xs ++ t) (drop-drop p (length xs) buf))

-- A run that fills the buffer.
pub write_all : (buf xs : Bytes) → length xs ≡ length buf → write buf 0 xs ≡ xs
write_all buf xs e =
    write_start buf xs (omega arith)
    ∙ ap (λ t. xs ++ t) (drop-length (length xs) buf (omega arith))
    ∙ append-nil xs

-- A store behind the run commutes with it.
pub write-set :
    (buf : Bytes) (p q x : ℕ) (xs : Bytes)
    → p + length xs ≤ q
    → write (set buf q x) p xs ≡ set (write buf p xs) q x
unfolding write
write-set buf p q x [] h = refl
write-set buf p q x (y ∷ ys) h =
    ap (λ t. write t (suc p) ys) (set-set_comm buf q p x y (omega arith))
    ∙ write-set (set buf p y) (suc p) q x ys (omega arith)

-- `std::memcpy(target + pos, xs)`
unfoldable pub memcpy : Bytes → ℕ → Bytes → Result Bytes
memcpy target pos xs =
    if leb (pos + length xs) (length target) then ok (write target pos xs) else fault

pub memcpy-write :
    (target : Bytes) (pos : ℕ) (xs : Bytes)
    → pos + length xs ≤ length target
    → memcpy target pos xs ≡ ok (write target pos xs)
memcpy-write target pos xs h =
    let fits : leb (pos + length xs) (length target) ≡ true = ground arith in
    unfold memcpy in rw (memcpy, fits)
