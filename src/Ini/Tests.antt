-- ===== src/Ini/Tests.antt =====
-- Runs of the round trip, and an instance of its theorem.
use revenant_fix.Prelude.{ℕ, ◌≡◌, refl, sym, true, some, List, [], ◌∷◌, arith, some-injective}
use revenant_fix.Ini.{Profile, hex_nibble, encode, decode, write_hex_bytes, read_hex_bytes}
use revenant_fix.Ini.RoundTrip.{read_hex_bytes-write_hex_bytes}

program : Unit {0}
unfolding hex_nibble encode decode write_hex_bytes read_hex_bytes
program = tt

-- A file with one text.
abbrev one_text : Profile (List ℕ) (Unit {0})
one_text = record { write_string = λ file key text. some text; read_string = λ file key room. file }

abbrev bytes : List ℕ
bytes = 0 ∷ 255 ∷ 26 ∷ []

encode_run : encode bytes ≡ b'0' ∷ b'0' ∷ b'f' ∷ b'f' ∷ b'1' ∷ b'a' ∷ []
unfolding program
encode_run = refl

-- Upper case is read as well.
decode_run : decode 1 (b'F' ∷ b'a' ∷ []) ≡ some (250 ∷ [])
unfolding program
decode_run = refl

read_hex_bytes-write_hex_bytes_example :
    read_hex_bytes one_text (encode bytes) tt 3 ≡ some (true, bytes)
unfolding program
read_hex_bytes-write_hex_bytes_example =
    read_hex_bytes-write_hex_bytes one_text
      (λ file file' key text room done hex fits. some-injective (sym done)) [] (encode bytes) tt
      bytes 3 (omega arith, (omega arith, (omega arith, tt))) (omega arith) (omega arith) refl
