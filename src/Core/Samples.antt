-- ===== src/Core/Samples.antt =====
-- Runs of the core modules on concrete numbers.
use beast_asio_standalone.Prelude.{◌≡◌, some, [], ◌∷◌, ◌++◌, arith, length}
use beast_asio_standalone.Core.Varint.{varint_size, varint_write, varint_read}
use beast_asio_standalone.Core.Varint.RoundTrip.{varint_read-varint_write}

varint_read-varint_write_example :
    (varint_read (varint_write 300 ++ (7 ∷ [])) ≡ some (300, 7 ∷ []))
    × (length (varint_write 300) ≡ varint_size 300)
varint_read-varint_write_example = varint_read-varint_write 300 (7 ∷ []) (omega arith)
