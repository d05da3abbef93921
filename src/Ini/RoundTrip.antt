-- ===== src/Ini/RoundTrip.antt =====
-- What `WriteIniHexBytes` wrote, `ReadIniHexBytes` reads.
use revenant_fix.Prelude.{
  ℕ, zero, suc, ◌+◌, ◌*◌, ◌/◌, ◌%◌, ◌<◌, ◌≤◌, ◌≡◌, ◌≢◌, refl, ap, ◌∙◌, Bool, true, false, ◌&&◌,
  ◌||◌, some, List, [], ◌∷◌, ltb, leb, ◌==◌, if◌then◌else◌, length, replicate, arith, none≢some,
  Bool-cases, ℕ_discrete, inl, inr,
}
use revenant_fix.Ini.{
  Profile, max_size, hex_digit, hex_nibble, encode, decode, write_hex_bytes, read_hex_bytes,
}

abbrev pub AllBytes : List ℕ → Type 0
AllBytes [] = Unit
AllBytes (b ∷ bs) = (b < 256) × AllBytes bs

abbrev pub is_hex : ℕ → Bool
is_hex c = (leb b'0' c && leb c b'9') || (leb b'a' c && leb c b'f')

abbrev pub AllHex : List ℕ → Type 0
AllHex [] = Unit
AllHex (c ∷ cs) = (is_hex c ≡ true) × AllHex cs

hex_nibble-hex_digit :
    (n : ℕ) → n < 16 → (hex_nibble (hex_digit n) ≡ some n) × (is_hex (hex_digit n) ≡ true)
unfolding hex_nibble
hex_nibble-hex_digit zero h = (refl, refl)
hex_nibble-hex_digit (suc zero) h = (refl, refl)
hex_nibble-hex_digit (suc (suc zero)) h = (refl, refl)
hex_nibble-hex_digit (suc (suc (suc zero))) h = (refl, refl)
hex_nibble-hex_digit (suc (suc (suc (suc zero)))) h = (refl, refl)
hex_nibble-hex_digit (suc (suc (suc (suc (suc zero))))) h = (refl, refl)
hex_nibble-hex_digit (suc (suc (suc (suc (suc (suc zero)))))) h = (refl, refl)
hex_nibble-hex_digit (suc (suc (suc (suc (suc (suc (suc zero))))))) h = (refl, refl)
hex_nibble-hex_digit (suc (suc (suc (suc (suc (suc (suc (suc zero)))))))) h = (refl, refl)
hex_nibble-hex_digit (suc (suc (suc (suc (suc (suc (suc (suc (suc zero))))))))) h = (refl, refl)
hex_nibble-hex_digit (suc (suc (suc (suc (suc (suc (suc (suc (suc (suc zero)))))))))) h =
    (refl, refl)
hex_nibble-hex_digit (suc (suc (suc (suc (suc (suc (suc (suc (suc (suc (suc zero))))))))))) h =
    (refl, refl)
hex_nibble-hex_digit (suc (suc (suc (suc (suc (suc (suc (suc (suc (suc (suc (suc zero))))))))))))
      h =
    (refl, refl)
hex_nibble-hex_digit
      (suc (suc (suc (suc (suc (suc (suc (suc (suc (suc (suc (suc (suc zero))))))))))))) h =
    (refl, refl)
hex_nibble-hex_digit
      (suc (suc (suc (suc (suc (suc (suc (suc (suc (suc (suc (suc (suc (suc zero)))))))))))))) h =
    (refl, refl)
hex_nibble-hex_digit
      (suc (suc (suc (suc (suc (suc (suc (suc (suc (suc (suc (suc (suc (suc (suc zero)))))))))))))))
      h =
    (refl, refl)
hex_nibble-hex_digit
      (suc
        (suc (suc (suc (suc (suc (suc (suc (suc (suc (suc (suc (suc (suc (suc (suc n))))))))))))))))
      h =
    absurd (omega arith)

length-encode : (bytes : List ℕ) → length (encode bytes) ≡ length bytes * 2
unfolding encode
length-encode [] = refl
length-encode (b ∷ bs) = omega (arith, length-encode bs)

encode-AllHex : (bytes : List ℕ) → AllHex (encode bytes)
unfolding encode
encode-AllHex [] = tt
encode-AllHex (b ∷ bs) = (
  (hex_nibble-hex_digit (b / 16 % 16) (omega arith)).1,
  ((hex_nibble-hex_digit (b % 16) (omega arith)).1, encode-AllHex bs),
)

decode_pair :
    (n x y high low : ℕ) (text bytes : List ℕ)
    → hex_nibble x ≡ some high
    → hex_nibble y ≡ some low
    → decode n text ≡ some bytes
    → decode (suc n) (x ∷ y ∷ text) ≡ some ((high * 16 + low) % 256 ∷ bytes)
unfolding decode
decode_pair n x y high low text bytes h l r = ground arith

decode-encode :
    (bytes : List ℕ) → AllBytes bytes → decode (length bytes) (encode bytes) ≡ some bytes
unfolding encode decode
decode-encode [] small = refl
decode-encode (b ∷ bs) small =
    let whole : (b / 16 % 16 * 16 + b % 16) % 256 ≡ b = omega (arith, small.0) in
    decode_pair (length bs) (hex_digit (b / 16 % 16)) (hex_digit (b % 16)) (b / 16 % 16) (b % 16)
      (encode bs) bs (hex_nibble-hex_digit (b / 16 % 16) (omega arith)).0
      (hex_nibble-hex_digit (b % 16) (omega arith)).0 (decode-encode bs small.1)
    ∙ ap (λ x. some (x ∷ bs)) whole

module _ {ℓ} {File Key : Type ℓ} (profile : Profile File Key)
    (reads_back : (file file' : File) (key : Key) (text : List ℕ) (room : ℕ)
      → profile.write_string file key text ≡ some file'
      → AllHex text
      → length text < room
      → profile.read_string file' key room ≡ text) where
  written :
      (file file' : File) (key : Key) (bytes : List ℕ)
      → write_hex_bytes profile file key bytes ≡ some file'
      → (length bytes ≢ 0)
        × (length bytes ≤ max_size)
        × (profile.read_string file' key (max_size * 2 + 1) ≡ encode bytes)
  unfolding write_hex_bytes
  written file file' key bytes done =
      elim (Bool-cases (length bytes == 0 || ltb max_size (length bytes))) [
        | inl t ↦ absurd (none≢some refl (rw t at done))
        | inr f ↦ (
          ground arith,
          ground arith,
          reads_back file file' key (encode bytes) (max_size * 2 + 1) (rw f at done)
              (encode-AllHex bytes) (ground (arith, length-encode bytes)),
        )
      ]

  -- Bytes, each below 256, that were written are read back in their size; asked for in another size
  -- from 1 to the limit, the call returns false and clears the buffer. What is assumed of the Windows
  -- calls is that a text of hex digits that was written is read into a buffer with room for it.
  pub read_hex_bytes-write_hex_bytes :
      (file file' : File) (key : Key) (bytes : List ℕ) (size : ℕ)
      → AllBytes bytes
      → size ≢ 0
      → size ≤ max_size
      → write_hex_bytes profile file key bytes ≡ some file'
      → read_hex_bytes profile file' key size
        ≡ some (if size == length bytes then (true, bytes) else (false, replicate size 0))
  unfolding read_hex_bytes
  read_hex_bytes-write_hex_bytes file file' key bytes size small nonzero bound done =
      let (some_bytes, fits, text) = written file file' key bytes done in
      let in_range : (size == 0 || ltb max_size size) ≡ false = ground arith in
      elim (ℕ_discrete size (length bytes)) [
        | yes e ↦
            let sized : (length (encode bytes) == size * 2) ≡ true =
              ground (arith, length-encode bytes) in
            let same : (size == length bytes) ≡ true = ground arith in
            rw
              (
                in_range,
                text,
                sized,
                same,
                ap (λ n. decode n (encode bytes)) e,
                decode-encode bytes small,
              )
              refl
        | no ne ↦
            let sized : (length (encode bytes) == size * 2) ≡ false =
              ground (arith, length-encode bytes) in
            let same : (size == length bytes) ≡ false = ground arith in
            rw (in_range, text, sized, same) refl
      ]
