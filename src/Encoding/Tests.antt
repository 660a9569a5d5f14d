-- ===== src/Encoding/Tests.antt =====
-- encoding.py: runs of the integer coding on the numbers of RFC 7541 (C.1), and the theorems at
-- concrete inputs.
use tornado_http.Common.{ℕ, ◌≡◌, ◌≢◌, refl, List, [], ◌∷◌, ◌++◌, arith, length}
use tornado_http.Encoding.{write_hpack_int, new_decoder, read_hpack_int}
use tornado_http.Encoding.IntFormat.{HpackInt, write_hpack_int-HpackInt}
use tornado_http.Encoding.IntRoundTrip.{read-write_hpack_int, read_hpack_int-ne-out_of_fuel}
use tornado_http.Errors.{Exn, ok, err}

read_1337 :
    read_hpack_int (record { src = 31 ∷ 154 ∷ 10 ∷ []; byte_offset = 0; bit_offset = 3 })
    ≡ ok (1337, record { src = 31 ∷ 154 ∷ 10 ∷ []; byte_offset = 3; bit_offset = 0 })
unfolding read_hpack_int
read_1337 = refl

write_1337 :
    write_hpack_int 1337 (record { out = 0 ∷ []; bit_offset = 3 })
    ≡ record { out = 31 ∷ 154 ∷ 10 ∷ []; bit_offset = 8 }
unfolding write_hpack_int
write_1337 = refl

read-write_hpack_int_example :
    let e = write_hpack_int 1337 (record { out = 0xff ∷ 0x20 ∷ []; bit_offset = 3 }) in
    read_hpack_int (record { src = e.out ++ (0x07 ∷ []); byte_offset = 1; bit_offset = 3 })
    ≡ ok (1337, record { src = e.out ++ (0x07 ∷ []); byte_offset = length e.out; bit_offset = 0 })
read-write_hpack_int_example = read-write_hpack_int 3 1 1337 (0xff ∷ []) (0x07 ∷ []) (omega arith)

write_hpack_int-HpackInt_example :
    (bs : List ℕ) × (write_hpack_int 1337 (record { out = 0xff ∷ 0x20 ∷ []; bit_offset = 3 })
      ≡ record { out = 0xff ∷ bs; bit_offset = 8 })
    × HpackInt 5 1 1337 bs
write_hpack_int-HpackInt_example = write_hpack_int-HpackInt 3 1 1337 (0xff ∷ []) (omega arith)

-- A number whose last group is missing.
read_hpack_int-ne-out_of_fuel_example :
    read_hpack_int (new_decoder (0xff ∷ 0x80 ∷ 0x80 ∷ [])) ≢ err Exn.out_of_fuel
read_hpack_int-ne-out_of_fuel_example =
    read_hpack_int-ne-out_of_fuel (new_decoder (0xff ∷ 0x80 ∷ 0x80 ∷ []))
