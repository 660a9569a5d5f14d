-- ===== src/Hpack/Ends.antt =====
-- encoding.py and hpack.py: the reads of a decoder move on, and end within their rounds.
use tornado_http.Common.{
  ℕ, zero, suc, ◌+◌, ◌-◌, ◌*◌, ◌≤◌, ◌<◌, ◌≡◌, ◌≢◌, subst, refl, ap, ◌∙◌, arith, Bool, true, false,
  inl, inr, Bool-cases, none, some, Option-cases, [], ◌∷◌, length, get_elem?, get_elem?-lt, ltb,
  bit_and, ◌^◌, ◌==◌, if◌then◌else◌,
}
use tornado_http.Encoding.{
  BitDecoder, eod, this_byte, advance_bit, read_bit, read_groups, read_hpack_int, read_char,
}
use tornado_http.Encoding.Huffman.{
  HuffmanTree, child, huffman, read_huffman_bits, read_huffman_char,
}
use tornado_http.Errors.{Exn, Result, ok, err, ◌>>=◌, raise_if}
use tornado_http.Hpack.Decoder.{read_huffman_loop, read_chars}
use tornado_http.Hpack.Table.{Bytes}

-- The bits and the bytes that a decoder has still to read.
abbrev pub bits_left : BitDecoder → ℕ
bits_left d = 8 * length d.src - (8 * d.byte_offset + d.bit_offset)

abbrev pub bytes_left : BitDecoder → ℕ
bytes_left d = length d.src - d.byte_offset

-- The decoder has taken `k` bits and `b` bytes off these at least, and stands within a byte.
pub record Further (k b : ℕ) (d d' : BitDecoder) : Type 0 where
  pub in_byte : d'.bit_offset ≤ 7
  pub same : length d'.src ≡ length d.src
  pub bits : bits_left d' + k ≤ bits_left d
  pub bytes : bytes_left d' + b ≤ bytes_left d

-- A read that does not run out of rounds, and moves on where it returns; `dec` is the decoder in what it
-- returns.
abbrev pub Reads : {C : Type 0} → (C → BitDecoder) → ℕ → ℕ → BitDecoder → Result C → Type 0
Reads dec k b d (ok c) = Further k b d (dec c)
Reads dec k b d (err e) = e ≢ Exn.out_of_fuel

pub Further-refl : (d : BitDecoder) → d.bit_offset ≤ 7 → Further 0 0 d d
Further-refl d h = record { in_byte = h; same = refl; bits = omega arith; bytes = omega arith }

Further-trans :
    (k b k' b' : ℕ) (d d' d'' : BitDecoder)
    → Further k b d d'
    → Further k' b' d' d''
    → Further (k + k') (b + b') d d''
Further-trans k b k' b' d d' d'' h h' = record {
  in_byte = h'.in_byte;
  same = h'.same ∙ h.same;
  bits = omega (arith, h.bits, h'.bits);
  bytes = omega (arith, h.bytes, h'.bytes);
}

pub Reads-after :
    {C : Type 0} (dec : C → BitDecoder) (k b k' b' : ℕ) (d d' : BitDecoder) (r : Result C)
    → Further k b d d'
    → Reads dec k' b' d' r
    → Reads dec (k + k') (b + b') d r
Reads-after dec k b k' b' d d' (ok c) h h' = Further-trans k b k' b' d d' (dec c) h h'
Reads-after dec k b k' b' d d' (err e) h h' = h'

pub Reads-bind :
    {A C : Type 0} (from : A → BitDecoder) (dec : C → BitDecoder) (k b k' b' : ℕ) (d : BitDecoder)
    (m : Result A) (next : A → Result C)
    → Reads from k b d m
    → ((a : A) → Further k b d (from a) → Reads dec k' b' (from a) (next a))
    → Reads dec (k + k') (b + b') d (m >>= next)
Reads-bind from dec k b k' b' d (ok a) next h h' =
    Reads-after dec k b k' b' d (from a) (next a) h (h' a h)
Reads-bind from dec k b k' b' d (err e) next h h' = h

pub Reads-pure :
    {A C : Type 0} (dec : C → BitDecoder) (k b : ℕ) (d : BitDecoder) (m : Result A)
    (next : A → Result C)
    → m ≢ err Exn.out_of_fuel
    → ((a : A) → m ≡ ok a → Reads dec k b d (next a))
    → Reads dec k b d (m >>= next)
Reads-pure dec k b d (ok a) next h h' = h' a refl
Reads-pure dec k b d (err e) next h h' = λ same. h (ap err same)

pub Reads-if :
    {C : Type 0} (dec : C → BitDecoder) (k b : ℕ) (d : BitDecoder) (c : Bool) (p q : Result C)
    → (c ≡ true → Reads dec k b d p)
    → (c ≡ false → Reads dec k b d q)
    → Reads dec k b d (if c then p else q)
Reads-if dec k b d true p q h h' = h refl
Reads-if dec k b d false p q h h' = h' refl

this_byte-ne : (d : BitDecoder) → this_byte d ≢ err Exn.out_of_fuel
this_byte-ne d = ground arith

this_byte-lt : (d : BitDecoder) (b : ℕ) → this_byte d ≡ ok b → d.byte_offset < length d.src
this_byte-lt d b h = elim (Option-cases (get_elem? d.src d.byte_offset)) [
  | inl past ↦ absurd (ground arith)
  | inr (c, at) ↦ get_elem?-lt d.src d.byte_offset at
]

pub raise_if-ne : (b : Bool) (e : Exn) → e ≢ Exn.out_of_fuel → raise_if b e ≢ err Exn.out_of_fuel
raise_if-ne b e h = ground arith

advance_bit-Further :
    (d : BitDecoder)
    → d.bit_offset ≤ 7
    → d.byte_offset < length d.src
    → Further 1 0 d (advance_bit d)
advance_bit-Further d h lt = elim (Bool-cases (ltb 7 (d.bit_offset + 1))) [
  | inl e ↦ record {
    in_byte = ground arith;
    same = ground arith;
    bits = ground arith;
    bytes = ground arith;
  }
  | inr e ↦ record {
    in_byte = ground arith;
    same = ground arith;
    bits = ground arith;
    bytes = ground arith;
  }
]

pub read_bit-Reads : (d : BitDecoder) → d.bit_offset ≤ 7 → Reads (λ p. p.1) 1 0 d (read_bit d)
unfolding read_bit
read_bit-Reads d h =
    Reads-pure (λ p. p.1) 1 0 d (raise_if (eod d) Exn.eod_error) _
      (raise_if-ne (eod d) Exn.eod_error (λ e. cc))
      (λ _ _.
        Reads-pure (λ p. p.1) 1 0 d (this_byte d) _ (this_byte-ne d)
          (λ byte e. advance_bit-Further d h (this_byte-lt d byte e)))

read_char-Reads : (d : BitDecoder) → d.bit_offset ≤ 7 → Reads (λ p. p.1) 0 0 d (read_char d)
unfolding read_char
read_char-Reads d h =
    Reads-pure (λ p. p.1) 0 0 d
      (raise_if (if d.bit_offset == 0 then false else true) Exn.assertion_error) _
      (raise_if-ne (if d.bit_offset == 0 then false else true) Exn.assertion_error (λ e. cc))
      (λ _ _.
        Reads-pure (λ p. p.1) 0 0 d (this_byte d) _ (this_byte-ne d)
          (λ byte e. record { in_byte = h; same = refl; bits = omega arith; bytes = omega arith }))

read_groups-Reads :
    (fuel i m : ℕ) (d : BitDecoder)
    → d.bit_offset ≤ 7
    → bytes_left d < fuel
    → Reads (λ p. p.1) 0 0 d (read_groups fuel d i m)
unfolding read_groups
read_groups-Reads zero i m d h enough = absurd (omega arith)
read_groups-Reads (suc fuel) i m d h enough =
    Reads-pure (λ p. p.1) 0 0 d (this_byte d) _ (this_byte-ne d)
      (λ b e.
        let lt = this_byte-lt d b e in
        let d' : BitDecoder = record d { byte_offset = d.byte_offset + 1 } in
        let on : Further 0 0 d d' = record {
          in_byte = h;
          same = refl;
          bits = omega arith;
          bytes = omega arith;
        } in
        elim (Bool-cases (bit_and b 0x80 == 0)) [
          | inl last ↦ rw (last) on
          | inr more ↦ rw (more) (
              Reads-after (λ p. p.1) 0 0 0 0 d d'
                (read_groups fuel d' (i + bit_and b 0x7f * 2 ^ m) (m + 7)) on
                (read_groups-Reads fuel (i + bit_and b 0x7f * 2 ^ m) (m + 7) d' h (omega arith)))
        ])

pub read_hpack_int-Reads :
    (d : BitDecoder) → d.bit_offset ≤ 7 → Reads (λ p. p.1) 1 1 d (read_hpack_int d)
unfolding read_hpack_int
read_hpack_int-Reads d h =
    Reads-pure (λ p. p.1) 1 1 d (this_byte d) _ (this_byte-ne d)
      (λ byte e.
        let lt = this_byte-lt d byte e in
        let d' : BitDecoder = record d { byte_offset = d.byte_offset + 1; bit_offset = 0 } in
        let on : Further 1 1 d d' = record {
          in_byte = omega arith;
          same = refl;
          bits = omega arith;
          bytes = omega arith;
        } in
        let mask : ℕ = 2 ^ (8 - d.bit_offset) - 1 in
        Reads-if (λ p. p.1) 1 1 d (ltb (bit_and byte mask) mask) _ _ (λ _. on)
          (λ _.
            Reads-after (λ p. p.1) 1 1 0 0 d d'
              (read_groups (length d.src + 1) d' (bit_and byte mask) 0) on
              (read_groups-Reads (length d.src + 1) (bit_and byte mask) 0 d' (omega arith)
                (omega arith))))

child-ne : (b : ℕ) (t : HuffmanTree) → child b t ≢ err Exn.out_of_fuel
unfolding child
child-ne b HuffmanTree.absent e = cc
child-ne b (HuffmanTree.leaf c) e = cc
child-ne b (HuffmanTree.node l r) e = cc

pub Reads-weaken :
    {C : Type 0} (dec : C → BitDecoder) (k b : ℕ) (d : BitDecoder) (r : Result C)
    → Reads dec k b d r
    → Reads dec 0 0 d r
Reads-weaken dec k b d (ok c) h = record {
  in_byte = h.in_byte;
  same = h.same;
  bits = omega (arith, h.bits);
  bytes = omega (arith, h.bytes);
}
Reads-weaken dec k b d (err e) h = h

huffman_bit-Reads :
    (fuel : ℕ) (t : HuffmanTree) (limit : ℕ) (d : BitDecoder)
    → d.bit_offset ≤ 7
    → bits_left d < suc fuel
    → ltb d.byte_offset limit ≡ true
    → ((t' : HuffmanTree) (d' : BitDecoder)
        → d'.bit_offset ≤ 7
        → bits_left d' < fuel
        → Reads (λ p. p.1) 0 0 d' (read_huffman_bits fuel t' limit d'))
    → Reads (λ p. p.1) 1 0 d (read_huffman_bits (suc fuel) t limit d)
unfolding read_huffman_bits
huffman_bit-Reads fuel t limit d h enough more again =
    rw (more, read_huffman_bits)
      (Reads-bind (λ p. p.1) (λ p. p.1) 1 0 0 0 d (read_bit d) _ (read_bit-Reads d h)
        (λ got on.
          Reads-pure (λ p. p.1) 0 0 got.1 (child got.0 t) _ (child-ne got.0 t)
            (λ t' _.
              elim t'
                as (λ u.
                  Reads (λ p. p.1) 0 0 got.1
                    (elim u [
                      | HuffmanTree.leaf c ↦ ok (some c, got.1)
                      | HuffmanTree.absent ↦ read_huffman_bits fuel HuffmanTree.absent limit got.1
                      | HuffmanTree.node l r ↦
                          read_huffman_bits fuel (HuffmanTree.node l r) limit got.1
                    ])) [
                      | HuffmanTree.leaf c ↦ Further-refl got.1 on.in_byte
                      | HuffmanTree.absent ↦
                          again HuffmanTree.absent got.1 on.in_byte (omega (arith, on.bits))
                      | HuffmanTree.node l r ↦
                          again (HuffmanTree.node l r) got.1 on.in_byte (omega (arith, on.bits))
                    ])))

read_huffman_bits-Reads :
    (fuel : ℕ) (t : HuffmanTree) (limit : ℕ) (d : BitDecoder)
    → d.bit_offset ≤ 7
    → bits_left d < fuel
    → Reads (λ p. p.1) 0 0 d (read_huffman_bits fuel t limit d)
unfolding read_huffman_bits
read_huffman_bits-Reads zero t limit d h enough = absurd (omega arith)
read_huffman_bits-Reads (suc fuel) t limit d h enough =
    elim (Bool-cases (ltb d.byte_offset limit)) [
      | inl more ↦
          Reads-weaken (λ p. p.1) 1 0 d (read_huffman_bits (suc fuel) t limit d)
            (huffman_bit-Reads fuel t limit d h enough more
              (λ t' d'. read_huffman_bits-Reads fuel t' limit d'))
      | inr done ↦ rw (done, read_huffman_bits) (Further-refl d h)
    ]

read_huffman_char-Reads :
    (limit : ℕ) (d : BitDecoder)
    → d.bit_offset ≤ 7
    → ltb d.byte_offset limit ≡ true
    → Reads (λ p. p.1) 1 0 d (read_huffman_char limit d)
unfolding read_huffman_char
read_huffman_char-Reads limit d h more =
    subst (λ n. Reads (λ p. p.1) 1 0 d (read_huffman_bits n huffman.tree limit d))
      {x = suc (8 * length d.src)} (omega arith)
      (huffman_bit-Reads (8 * length d.src) huffman.tree limit d h (omega arith) more
        (λ t' d'. read_huffman_bits-Reads (8 * length d.src) t' limit d'))

pub read_huffman_loop-Reads :
    (fuel dest_byte : ℕ) (d : BitDecoder)
    → d.bit_offset ≤ 7
    → bits_left d < fuel
    → Reads (λ p. p.1) 0 0 d (read_huffman_loop fuel dest_byte d)
unfolding read_huffman_loop
read_huffman_loop-Reads zero dest_byte d h enough = absurd (omega arith)
read_huffman_loop-Reads (suc fuel) dest_byte d h enough =
    elim (Bool-cases (ltb d.byte_offset dest_byte)) [
      | inr done ↦ rw (done, read_huffman_loop) (Further-refl d h)
      | inl more ↦
          rw (more, read_huffman_loop)
            (Reads-weaken (λ p. p.1) 1 0 d _
              (Reads-bind (λ p. p.1) (λ p. p.1) 1 0 0 0 d (read_huffman_char dest_byte d) _
                (read_huffman_char-Reads dest_byte d h more)
                (λ got on.
                  let d' : BitDecoder = got.1 in
                  elim got.0
                    as (λ char.
                      Reads (λ (p : Bytes × BitDecoder). p.1) 0 0 d'
                        (elim char [
                          | none ↦ ok ([], d')
                          | some c ↦
                              read_huffman_loop fuel dest_byte d' >>= λ (cs, d''). ok (c ∷ cs, d'')
                        ])) [
                          | none ↦ Further-refl d' on.in_byte
                          | some c ↦
                              Reads-bind (λ p. p.1) (λ p. p.1) 0 0 0 0 d'
                                (read_huffman_loop fuel dest_byte d') _
                                (read_huffman_loop-Reads fuel dest_byte d' on.in_byte
                                  (omega (arith, on.bits)))
                                (λ (cs, d'') on'. Further-refl d'' on'.in_byte)
                        ])))
    ]

pub read_chars-Reads :
    (n : ℕ) (d : BitDecoder) → d.bit_offset ≤ 7 → Reads (λ p. p.1) 0 0 d (read_chars n d)
unfolding read_chars
read_chars-Reads zero d h = Further-refl d h
read_chars-Reads (suc n) d h =
    Reads-bind (λ p. p.1) (λ p. p.1) 0 0 0 0 d (read_char d) _ (read_char-Reads d h)
      (λ (c, d') on.
        Reads-bind (λ p. p.1) (λ p. p.1) 0 0 0 0 d' (read_chars n d') _
          (read_chars-Reads n d' on.in_byte) (λ (cs, d'') on'. Further-refl d'' on'.in_byte))
