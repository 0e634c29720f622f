-- ===== src/Endian/Tests.antt =====
-- lib/endian.hh at concrete values.
use cromfs.Base.{◌+◌, ◌%◌, ◌^◌, ◌≡◌, refl, length, take, drop, replicate, ok, fault}
use cromfs.Base.{[], ◌∷◌, ◌++◌, arith, ◌>>=◌}
use cromfs.Base.Bytes.{Bytes}
use cromfs.Endian.{get_8, get_16, get_32, get_n, get_n_1, get_n_3, put_8, put_16, put_n, w24}
use cromfs.Endian.RoundTrip.{get_n-put_n}

abbrev field_of_zeros : Bytes
field_of_zeros = replicate 8 0

put_24_bits : put_n field_of_zeros 2 0xff123456 3 ≡ ok (0 ∷ 0 ∷ 0x56 ∷ 0x34 ∷ 0x12 ∷ 0 ∷ 0 ∷ 0 ∷ [])
unfolding put_n w24 put_16 put_8
put_24_bits = refl

get_24_bits : get_n (0 ∷ 0x56 ∷ 0x34 ∷ 0x12 ∷ []) 1 3 ≡ ok 0x123456
unfolding get_n get_n_3 get_n_1 get_16 get_8
get_24_bits = refl

get_past_end : get_32 (1 ∷ 2 ∷ 3 ∷ []) 0 ≡ fault
unfolding get_32 get_16 get_8
get_past_end = refl

get_n-put_n_example :
    (field : Bytes) × (length field ≡ 3)
    × (put_n field_of_zeros 2 0xff123456 3
        ≡ ok (take 2 field_of_zeros ++ (field ++ drop (2 + 3) field_of_zeros)))
    × ((put_n field_of_zeros 2 0xff123456 3 >>= λ b. get_n b 2 3) ≡ ok (0xff123456 % 256 ^ 3))
get_n-put_n_example = get_n-put_n field_of_zeros 2 0xff123456 3 (omega arith) (omega arith)
