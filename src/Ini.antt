-- ===== src/Ini.antt =====
-- Bytes in the configuration file: `WriteIniHexBytes` and `ReadIniHexBytes` of src/core.cpp, and
-- `BhrcHexNibble` of src/reconnect_fix.cpp. A character is its code.
pub mod RoundTrip
mod Tests
use revenant_fix.Prelude.{
  ℕ, zero, suc, ◌+◌, ◌-◌, ◌*◌, ◌/◌, ◌%◌, Bool, true, false, ◌&&◌, ◌||◌, not, Option, none, some,
  List, [], ◌∷◌, ltb, leb, ◌==◌, if◌then◌else◌, get_or, length, replicate, drop,
}

-- `kBhrcNativeDescriptorMaxPayloadSize`.
abbrev pub max_size : ℕ
max_size = 0x100

-- The Windows calls on one file: `WritePrivateProfileStringW`, which can fail, and
-- `GetPrivateProfileStringW`, with the number of characters that the buffer has room for.
pub record Profile {ℓ} (File Key : Type ℓ) : Type ℓ where
  pub write_string : File → Key → List ℕ → Option File
  pub read_string : File → Key → ℕ → List ℕ

-- `kHex[n]`.
abbrev pub hex_digit : ℕ → ℕ
hex_digit n =
    get_or
      (b'0' ∷ b'1' ∷ b'2' ∷ b'3' ∷ b'4' ∷ b'5' ∷ b'6' ∷ b'7' ∷ b'8' ∷ b'9' ∷ b'a' ∷ b'b' ∷ b'c'
        ∷ b'd' ∷ b'e' ∷ b'f' ∷ [])
      n 0

-- `BhrcHexNibble`, with `none` for -1.
unfoldable pub hex_nibble : ℕ → Option ℕ
hex_nibble value =
    if leb b'0' value && leb value b'9'
    then some (value - b'0')
    else if leb b'a' value && leb value b'f'
    then some (value - b'a' + 10)
    else if leb b'A' value && leb value b'F'
    then some (value - b'A' + 10)
    else none

-- The loop of `WriteIniHexBytes`.
unfoldable pub encode : List ℕ → List ℕ
encode [] = []
encode (b ∷ bs) = hex_digit (b / 16 % 16) ∷ hex_digit (b % 16) ∷ encode bs

-- The loop of `ReadIniHexBytes`; past the end of the text the buffer holds zeros.
unfoldable pub decode : ℕ → List ℕ → Option (List ℕ)
decode zero text = some []
decode (suc n) text =
    let rest : Option (List ℕ) = decode n (drop 2 text) in
    elim (hex_nibble (get_or text 0 0)) [
      | none ↦ none
      | some high ↦ elim (hex_nibble (get_or text 1 0)) [
        | none ↦ none
        | some low ↦ elim rest [ none ↦ none | some bs ↦ some ((high * 16 + low) % 256 ∷ bs) ]
      ]
    ]

module _ {ℓ} {File Key : Type ℓ} (profile : Profile File Key) where
  -- `WriteIniHexBytes`: the file afterwards, where it returns true.
  unfoldable pub write_hex_bytes : File → Key → List ℕ → Option File
  write_hex_bytes file key bytes =
      if length bytes == 0 || ltb max_size (length bytes)
      then none
      else profile.write_string file key (encode bytes)

  -- `ReadIniHexBytes`: the result, and the bytes at `out` where the sizes are in range.
  unfoldable pub read_hex_bytes : File → Key → ℕ → Option (Bool × List ℕ)
  read_hex_bytes file key size =
      if size == 0 || ltb max_size size
      then none
      else (let text : List ℕ = profile.read_string file key (max_size * 2 + 1) in
          if not (length text == size * 2)
          then some (false, replicate size 0)
          else elim (decode size text) [
            | none ↦ some (false, replicate size 0)
            | some bytes ↦ some (true, bytes)
          ])
