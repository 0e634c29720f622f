-- ===== src/Endian.antt =====
-- lib/endian.hh: little-endian numbers in byte buffers, in the portable form (the `#else` branches).
-- A pointer is a buffer with an offset. The shifts and `|` are done on values that fit the types.
pub mod Window
pub mod Shift
pub mod Get
pub mod Put
pub mod RoundTrip
mod Tests
use cromfs.Base.{ℕ, ◌+◌, ◌*◌, ◌/◌, ◌%◌, ◌^◌, bit_or, length, get_elem?, set, ltb, ◌==◌}
use cromfs.Base.{if◌then◌else◌, Result, ok, fault, or_fault, ◌>>=◌}
use cromfs.Base.Bytes.{Bytes}

unfoldable pub get_8 : Bytes → ℕ → Result ℕ
get_8 buf p = or_fault (get_elem? buf p)

unfoldable pub get_16 : Bytes → ℕ → Result ℕ
get_16 buf p = do lo ← get_8 buf p; hi ← get_8 buf (p + 1); ok (bit_or lo (hi * 2 ^ 8))

unfoldable pub get_32 : Bytes → ℕ → Result ℕ
get_32 buf p = do lo ← get_16 buf p; hi ← get_16 buf (p + 2); ok (bit_or lo (hi * 2 ^ 16))

unfoldable pub get_64 : Bytes → ℕ → Result ℕ
get_64 buf p = do lo ← get_32 buf p; hi ← get_32 buf (p + 4); ok (bit_or lo (hi * 2 ^ 32))

-- The cases of the `switch` in `get_n` that fall through, each with those below it.
get_n_1 : Bytes → ℕ → ℕ → Result ℕ
get_n_1 buf p res = do b ← get_8 buf p; ok (bit_or res b)

get_n_3 : Bytes → ℕ → ℕ → Result ℕ
get_n_3 buf p res = do w ← get_16 buf (p + 1); get_n_1 buf p (bit_or res (w * 2 ^ 8))

get_n_5 : Bytes → ℕ → ℕ → Result ℕ
get_n_5 buf p res = do w ← get_16 buf (p + 3); get_n_3 buf p (bit_or res (w * 2 ^ 24))

get_n_6 : Bytes → ℕ → ℕ → Result ℕ
get_n_6 buf p res = do b ← get_8 buf (p + 5); get_n_5 buf p (bit_or res (b * 2 ^ 40))

get_n_7 : Bytes → ℕ → ℕ → Result ℕ
get_n_7 buf p res = do b ← get_8 buf (p + 6); get_n_6 buf p (bit_or res (b * 2 ^ 48))

pub get_n : Bytes → ℕ → ℕ → Result ℕ
get_n buf p bytes =
    if bytes == 8
    then get_64 buf p
    else if bytes == 4
    then get_32 buf p
    else if bytes == 2
    then get_16 buf p
    else if bytes == 7
    then get_n_7 buf p 0
    else if bytes == 6
    then get_n_6 buf p 0
    else if bytes == 5
    then get_n_5 buf p 0
    else if bytes == 3
    then get_n_3 buf p 0
    else if bytes == 1
    then get_n_1 buf p 0
    else ok 0

-- A store returns the buffer after it.
unfoldable pub put_8 : Bytes → ℕ → ℕ → Result Bytes
put_8 buf p value = if ltb p (length buf) then ok (set buf p (value % 2 ^ 8)) else fault

unfoldable pub put_16 : Bytes → ℕ → ℕ → Result Bytes
put_16 buf p value = do buf ← put_8 buf p value; put_8 buf (p + 1) (value / 2 ^ 8)

pub w24 : Bytes → ℕ → ℕ → Result Bytes
w24 buf p value = do buf ← put_16 buf p value; put_8 buf (p + 2) (value / 2 ^ 16)

unfoldable pub put_32 : Bytes → ℕ → ℕ → Result Bytes
put_32 buf p value = do buf ← put_16 buf p value; put_16 buf (p + 2) (value / 2 ^ 16)

unfoldable pub put_64 : Bytes → ℕ → ℕ → Result Bytes
put_64 buf p value = do buf ← put_32 buf p value; put_32 buf (p + 4) (value / 2 ^ 32)

put_n_5 : Bytes → ℕ → ℕ → Result Bytes
put_n_5 buf p value = do buf ← put_8 buf (p + 4) (value / 2 ^ 32); put_32 buf p value

put_n_6 : Bytes → ℕ → ℕ → Result Bytes
put_n_6 buf p value = do buf ← put_8 buf (p + 5) (value / 2 ^ 40); put_n_5 buf p value

put_n_7 : Bytes → ℕ → ℕ → Result Bytes
put_n_7 buf p value = do buf ← put_8 buf (p + 6) (value / 2 ^ 48); put_n_6 buf p value

pub put_n : Bytes → ℕ → ℕ → ℕ → Result Bytes
put_n buf p value bytes =
    if bytes == 8
    then put_64 buf p value
    else if bytes == 7
    then put_n_7 buf p value
    else if bytes == 6
    then put_n_6 buf p value
    else if bytes == 5
    then put_n_5 buf p value
    else if bytes == 4
    then put_32 buf p value
    else if bytes == 3
    then w24 buf p value
    else if bytes == 2
    then put_16 buf p value
    else if bytes == 1
    then put_8 buf p value
    else ok buf
