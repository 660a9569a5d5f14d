-- ===== src/Encoding.antt =====
-- tornado_http2/encoding.py: the bit encoder and decoder under HPACK. Bytes are numbers.
pub mod Huffman
mod HuffmanRows
pub mod IntFormat
pub mod IntRoundTrip
pub mod BitRead
mod Tests
use mathlib.Core.WellFounded.{Acc}
use tornado_http.Common.{
  ℕ, zero, suc, ◌+◌, ◌-◌, ◌*◌, ◌/◌, ◌^◌, ◌<◌, bit_and, bit_or, Bool, true, false, dite, dec_lt,
  lt_wf, arith, List, [], ◌∷◌, ◌++◌, length, get_elem?, leb, ltb, ◌==◌, if◌then◌else◌,
}
use tornado_http.Errors.{Exn, Result, ok, err, ◌>>=◌, ◌>>◌, raise_if, or_raise}

-- `_data` and `_bit_offset`
pub record BitEncoder : Type 0 where
  pub out : List ℕ
  pub bit_offset : ℕ

-- `BitEncoder()`
abbrev pub new_encoder : BitEncoder
new_encoder = record { out = []; bit_offset = 8 }

-- `self._data[-1] |= v`. An encoder with no byte stands at bit offset 8, where both writers append
-- one first, so the first clause is never met.
pub or_last : ℕ → List ℕ → List ℕ
or_last v [] = []
or_last v (x ∷ []) = bit_or x v ∷ []
or_last v (x ∷ y ∷ ys) = x ∷ or_last v (y ∷ ys)

-- The byte that `write_bit` appends when the last one is full.
abbrev next_byte : BitEncoder → BitEncoder
next_byte e = if ltb 7 e.bit_offset then record { out = e.out ++ (0 ∷ []); bit_offset = 0 } else e

unfoldable pub write_bit : ℕ → BitEncoder → BitEncoder
unfolding or_last
write_bit b e =
    let e' = next_byte e in
    record { out = or_last (b * 2 ^ (7 - e'.bit_offset)) e'.out; bit_offset = e'.bit_offset + 1 }

unfoldable pub write_bits : List ℕ → BitEncoder → BitEncoder
unfolding write_bit
write_bits [] e = e
write_bits (b ∷ bs) e = write_bits bs (write_bit b e)

-- `i >> 7` falls while `i` is 128 or more.
pub shift_falls : (i : ℕ) → 127 < i → i / 2 ^ 7 < i
shift_falls i h = omega arith

-- `while i >= 128: ...; self._data.append(i)`
pub write_groups : List ℕ → (i : ℕ) → Acc ◌<◌ i → List ℕ
write_groups out i (Acc.intro _ smaller) =
    dite (dec_lt 127 i)
      (λ more.
        write_groups (out ++ ((bit_and i 127 + 128) ∷ [])) (i / 2 ^ 7)
          (smaller _ (shift_falls i more)))
      (λ _. out ++ (i ∷ []))

-- The two cases of `write_hpack_int` over a last byte with `n` free bits.
pub write_prefixed : ℕ → ℕ → List ℕ → BitEncoder
unfolding or_last write_groups lt_wf dec_lt
write_prefixed n i out =
    if ltb i (2 ^ n - 1) then record { out = or_last i out; bit_offset = 8 } else record {
      out =
          write_groups (or_last (2 ^ n - 1) out) (i - (2 ^ n - 1)) (lt_wf.apply (i - (2 ^ n - 1)));
      bit_offset = 8;
    }

unfoldable pub write_hpack_int : ℕ → BitEncoder → BitEncoder
unfolding write_prefixed
write_hpack_int i e =
    let n = 8 - e.bit_offset in
    if n == 0 then write_prefixed 8 i (e.out ++ (0 ∷ [])) else write_prefixed n i e.out

unfoldable pub write_string : List ℕ → BitEncoder → Result BitEncoder
write_string s e =
    if e.bit_offset == 8 then ok (record e { out = e.out ++ s }) else err Exn.assertion_error

-- `_data`, `_byte_offset` and `_bit_offset`
pub record BitDecoder : Type 0 where
  pub src : List ℕ
  pub byte_offset : ℕ
  pub bit_offset : ℕ

-- `BitDecoder(data)`
abbrev pub new_decoder : List ℕ → BitDecoder
new_decoder src = record { src = src; byte_offset = 0; bit_offset = 0 }

unfoldable pub eod : BitDecoder → Bool
eod d = leb (length d.src) d.byte_offset

-- `self._data[self._byte_offset]`
abbrev pub this_byte : BitDecoder → Result ℕ
this_byte d = or_raise Exn.index_error (get_elem? d.src d.byte_offset)

-- `_bit_offset += 1`, with the carry into `_byte_offset`
abbrev pub advance_bit : BitDecoder → BitDecoder
advance_bit d =
    if ltb 7 (d.bit_offset + 1)
    then record d { byte_offset = d.byte_offset + 1; bit_offset = 0 }
    else record d { bit_offset = d.bit_offset + 1 }

unfoldable pub read_bit : BitDecoder → Result (ℕ × BitDecoder)
unfolding eod
read_bit d = do
  raise_if (eod d) Exn.eod_error
  byte ← this_byte d
  ok (bit_and byte (2 ^ (7 - d.bit_offset)) / 2 ^ (7 - d.bit_offset), advance_bit d)

-- `while True` of `read_hpack_int`, over the data and the byte offset; `i` and `m` are its variables.
unfoldable pub read_groups : ℕ → BitDecoder → ℕ → ℕ → Result (ℕ × BitDecoder)
read_groups zero d i m = err Exn.out_of_fuel
read_groups (suc fuel) d i m = do
  b ← this_byte d
  let d' = record d { byte_offset = d.byte_offset + 1 }
  let i' = i + bit_and b 0x7f * 2 ^ m
  elim (bit_and b 0x80 == 0) [ true ↦ ok (i', d') | false ↦ read_groups fuel d' i' (m + 7) ]

-- Each round reads one byte, and the read past the end raises, so the length of the data and one
-- more are enough rounds.
unfoldable pub read_hpack_int : BitDecoder → Result (ℕ × BitDecoder)
unfolding read_groups
read_hpack_int d = do
  byte ← this_byte d
  let prefix_mask = 2 ^ (8 - d.bit_offset) - 1
  let i = bit_and byte prefix_mask
  let d' = record d { byte_offset = d.byte_offset + 1; bit_offset = 0 }
  if ltb i prefix_mask then ok (i, d') else read_groups (length d.src + 1) d' i 0

unfoldable pub read_char : BitDecoder → Result (ℕ × BitDecoder)
read_char d = do
  raise_if (if d.bit_offset == 0 then false else true) Exn.assertion_error
  ch ← this_byte d
  ok (ch, record d { byte_offset = d.byte_offset + 1 })
