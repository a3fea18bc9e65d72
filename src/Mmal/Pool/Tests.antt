-- ===== src/Mmal/Pool/Tests.antt =====
-- The size of a pool's block at concrete numbers.
use final.Base.{◌^◌, ◌≡◌, refl}
use final.Mmal.Buffer.{buffer_header_size}
use final.Mmal.Pool.{block_size, headers_array_size, pool_header_size}

-- With 2 ^ 30 headers the size of the pointers wraps around, and so does that of the headers: the
-- block ends before the first header.
too_small :
    block_size
      (record { pointer = 4; header = 80; type_specific = 48; private_area = 120 })
      (pool_header_size
        (record { pointer = 4; header = 80; type_specific = 48; private_area = 120 }))
      (2 ^ 30)
    ≡ 8
unfolding block_size headers_array_size buffer_header_size
too_small = refl
