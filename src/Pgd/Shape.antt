-- ===== src/Pgd/Shape.antt =====
-- `IsBhrcFullPgdPayloadShapeValid`: how many chunks a payload takes.
use revenant_fix.Prelude.{ℕ, ◌-◌, ◌*◌, ◌≤◌, ◌<◌, ◌≡◌, refl, true, List, [], ◌∷◌, arith}
use revenant_fix.Pgd.{
  min_payload_size, max_payload_size, chunk_payload_size, is_shape_valid, bytes_eq,
}

-- A valid shape is of a payload within the limits, and its chunks are as few as hold the payload:
-- at least one and at most three, all full but the last, which is not empty.
pub is_shape_valid_lem :
    (size chunk_count : ℕ)
    → is_shape_valid size chunk_count ≡ true
    → (min_payload_size ≤ size)
      × (size ≤ max_payload_size)
      × (1 ≤ chunk_count)
      × (chunk_count ≤ 3)
      × ((chunk_count - 1) * chunk_payload_size < size)
      × (size ≤ chunk_count * chunk_payload_size)
unfolding is_shape_valid
is_shape_valid_lem size chunk_count h = ground arith

pub bytes_eq-eq : (xs ys : List ℕ) → bytes_eq xs ys ≡ true → xs ≡ ys
bytes_eq-eq [] [] h = refl
bytes_eq-eq [] (y ∷ ys) h = cc
bytes_eq-eq (x ∷ xs) [] h = cc
bytes_eq-eq (x ∷ xs) (y ∷ ys) h = ground (arith, bytes_eq-eq xs ys)
