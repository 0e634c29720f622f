-- ===== src/Inode/Blocks.antt =====
-- The loops over the block list of an inode.
use native.Mathlib.Nat.{pow-le-pow_right, mod-eq_of_lt}
use mathlib.Core.List.{append-nil, append_assoc}
use cromfs.Base.{
  ℕ, zero, suc, ◌+◌, ◌*◌, ◌%◌, ◌^◌, ◌≤◌, ◌<◌, ◌≡◌, sym, ap, ap₂, ◌∙◌, ok, some, arith,
}
use cromfs.Base.{
  List, [], ◌∷◌, ◌++◌, length, length-append, get_elem?, get_elem?_lt, drop, drop_step,
}
use cromfs.Base.{set, length-set, get_elem?-set_self, drop-set, drop-length, All, All-get_elem?}
use cromfs.Base.Bytes.{Bytes, le_bytes, length-le_bytes, write, write-write, length-write}
use cromfs.Endian.{get_n}
use cromfs.Endian.Get.{get_n-le_bytes}
use cromfs.Endian.Put.{put_n-write}
use cromfs.Inode.{put_blocks, get_blocks}

-- The block numbers of a list, `b` bytes each.
abbrev pub block_bytes : ℕ → List ℕ → Bytes
block_bytes b [] = []
block_bytes b (x ∷ xs) = le_bytes b x ++ block_bytes b xs

pub length-block_bytes : (b : ℕ) (bl : List ℕ) → length (block_bytes b bl) ≡ b * length bl
length-block_bytes b [] = omega arith
length-block_bytes b (x ∷ xs) =
    length-append (le_bytes b x) (block_bytes b xs)
    ∙ omega (arith, length-le_bytes b x, length-block_bytes b xs)

-- The loop of `put_inode` stores the list behind what was written.
pub put_blocks_lem :
    (buf xs : Bytes) (h b a : ℕ) (bl : List ℕ)
    → b ≤ 8
    → length xs ≡ h + a * b
    → h + a * b + b * length bl ≤ length buf
    → length buf < 2 ^ 32
    → put_blocks (write buf 0 xs) h b a bl ≡ ok (write buf 0 (xs ++ block_bytes b bl))
unfolding put_blocks
put_blocks_lem buf xs h b a [] small len fits bound =
    ap (λ t. ok (write buf 0 t)) (sym (append-nil xs))
put_blocks_lem buf xs h b a (x ∷ bl) small len fits bound =
    rw
      (
        position,
        put_n-write (write buf 0 xs) (h + a * b) x b small (omega (arith, length-write buf 0 xs)),
        write-write buf 0 (h + a * b) xs (le_bytes b x) (omega arith),
      )
      (put_blocks_lem buf (xs ++ le_bytes b x) h b (a + 1) bl small longer (omega arith) bound
        ∙ ap (λ t. ok (write buf 0 t)) (append_assoc xs (le_bytes b x) (block_bytes b bl)))
  where
    position : (h + a * b) % 2 ^ 32 ≡ h + a * b
    position = omega arith

    longer : length (xs ++ le_bytes b x) ≡ h + (a + 1) * b
    longer = length-append xs (le_bytes b x) ∙ omega (arith, length-le_bytes b x)

-- The block number at an index.
get_block :
    (pre post : Bytes) (b : ℕ) (bl : List ℕ) (n x : ℕ)
    → b ≤ 8
    → get_elem? bl n ≡ some x
    → get_n (pre ++ (block_bytes b bl ++ post)) (length pre + b * n) b ≡ ok (x % 256 ^ b)
get_block pre post b [] n x small e = cc
get_block pre post b (y ∷ bl) zero x small e =
    ap (λ t. get_n (pre ++ t) (length pre + b * 0) b)
      (append_assoc (le_bytes b y) (block_bytes b bl) post)
    ∙ get_n-le_bytes pre (block_bytes b bl ++ post) (length pre + b * 0) b y (omega arith) small
    ∙ ap (λ t. ok (t % 256 ^ b)) (let e' : y ≡ x = cc in e')
get_block pre post b (y ∷ bl) (suc n) x small e =
    ap₂ (λ s t. get_n s t b) moved position ∙ get_block (pre ++ le_bytes b y) post b bl n x small e
  where
    moved :
        pre ++ (block_bytes b (y ∷ bl) ++ post)
        ≡ (pre ++ le_bytes b y) ++ (block_bytes b bl ++ post)
    moved =
        ap (λ t. pre ++ t) (append_assoc (le_bytes b y) (block_bytes b bl) post)
        ∙ sym (append_assoc pre (le_bytes b y) (block_bytes b bl ++ post))

    position : length pre + b * suc n ≡ length (pre ++ le_bytes b y) + b * n
    position = omega (arith, length-append pre (le_bytes b y), length-le_bytes b y)

-- The loop of `get_inode` from `n` down, when the places from `n` on are filled already.
get_blocks_from :
    (pre post : Bytes) (b : ℕ) (bl : List ℕ) (n : ℕ) (acc : List ℕ)
    → b ≤ 4
    → All (λ x. x < 256 ^ b) bl
    → length acc ≡ length bl
    → n ≤ length bl
    → drop n acc ≡ drop n bl
    → get_blocks (pre ++ (block_bytes b bl ++ post)) (length pre) b n acc ≡ ok bl
unfolding get_blocks
get_blocks_from pre post b bl zero acc small fit len le e = ap ok e
get_blocks_from pre post b bl (suc n) acc small fit len le e =
    let (x, at) = get_elem?_lt bl n le in
    let below : x < 256 ^ b = All-get_elem? (λ x. x < 256 ^ b) bl n x fit at in
    let wide : 256 ^ b ≤ 2 ^ 32 = pow-le-pow_right (omega arith) small in
    let kept : x % 256 ^ b % 2 ^ 32 ≡ x = ap (λ t. t % 2 ^ 32) (mod-eq_of_lt below) ∙ omega arith in
    rw (get_block pre post b bl n x (omega arith) at, kept)
      (get_blocks_from pre post b bl n (set acc n x) small fit (length-set acc n x ∙ len)
        (omega arith)
        (drop_step (set acc n x) n x (get_elem?-set_self acc n x (omega arith))
          ∙ ap (λ t. x ∷ t) (drop-set acc n (suc n) x (omega arith) ∙ e)
          ∙ sym (drop_step bl n x at)))

-- The loop of `get_inode` returns the list that is stored behind the header.
pub get_blocks_lem :
    (pre post : Bytes) (b : ℕ) (bl acc : List ℕ)
    → b ≤ 4
    → All (λ x. x < 256 ^ b) bl
    → length acc ≡ length bl
    → get_blocks (pre ++ (block_bytes b bl ++ post)) (length pre) b (length bl) acc ≡ ok bl
get_blocks_lem pre post b bl acc small fit len =
    get_blocks_from pre post b bl (length bl) acc small fit len (omega arith)
      (drop-length (length bl) acc (omega arith) ∙ sym (drop-length (length bl) bl (omega arith)))
