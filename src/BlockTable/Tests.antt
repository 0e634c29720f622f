-- ===== src/BlockTable/Tests.antt =====
-- A block table at concrete values, in the packed form.
use cromfs.Base.{◌*◌, ◌≡◌, length, ok, [], ◌∷◌, arith}
use cromfs.Base.Bytes.{Bytes}
use cromfs.Format.{datalocator_size_bytes}
use cromfs.BlockTable.{Block, encode_block_table, decode_block_table}
use cromfs.BlockTable.RoundTrip.{decode_block_table-encode_block_table}
use cromfs.Base.{List}

abbrev table : List Block
table = record { fblocknum = 3; startoffs = 1999 } ∷ record { fblocknum = 0; startoffs = 5 } ∷ []

decode_block_table-encode_block_table_example :
    (data_bytes : Bytes) × (encode_block_table table 0x400 2000 ≡ ok data_bytes)
    × (length data_bytes ≡ length table * datalocator_size_bytes 0x400)
    × (decode_block_table data_bytes 2000 0x400 ≡ ok table)
unfolding datalocator_size_bytes
decode_block_table-encode_block_table_example =
    decode_block_table-encode_block_table table 0x400 2000 (omega arith) (omega arith)
