-- ===== src/Transfer/Holds.antt =====
-- What an assembly holds of a payload: the chunks whose bits are set.
use revenant_fix.Prelude.{
  ℕ, zero, suc, ◌+◌, ◌-◌, ◌*◌, ◌/◌, ◌^◌, ◌≤◌, ◌<◌, ◌≡◌, refl, ap, ◌∙◌, inl, inr, true, ◌&&◌, List,
  [], ◌∷◌, ltb, leb, length, get_or, take, drop, has_bit, arith, length-take, length-drop,
  Bool-cases,
}
use mathlib.Core.Bool.{false≢true}
use revenant_fix.Pgd.{chunk_payload_size}
use revenant_fix.Transfer.{ChunkPacket, Assembly}
use revenant_fix.Transfer.Send.{chunk_bytes, chunk_size_at}
use revenant_fix.Transfer.Receive.{write, read, add_chunk}
use revenant_fix.Transfer.Mask.{has_bit-set_bit, full_mask}

-- The buffer has the payload's bytes wherever a received chunk covers them.
pub Holds : List ℕ → Assembly → Type 0
Holds payload a =
    (k j : ℕ)
    → k < 3
    → has_bit a.received_chunk_mask k ≡ true
    → k * chunk_payload_size ≤ j
    → j < k * chunk_payload_size + chunk_payload_size
    → j < length payload
    → a.payload j ≡ get_or payload j 0

get_or-drop : (n : ℕ) (xs : List ℕ) (m : ℕ) → get_or (drop n xs) m 0 ≡ get_or xs (n + m) 0
get_or-drop zero xs m = let e : m ≡ 0 + m = omega arith in ap (λ z. get_or xs z 0) e
get_or-drop (suc n) [] m = refl
get_or-drop (suc n) (x ∷ xs) m =
    let e : suc (n + m) ≡ suc n + m = omega arith in
    get_or-drop n xs m ∙ ap (λ z. get_or (x ∷ xs) z 0) e

get_or-take : (n : ℕ) (xs : List ℕ) (m : ℕ) → m < n → get_or (take n xs) m 0 ≡ get_or xs m 0
get_or-take zero xs m h = absurd (omega arith)
get_or-take (suc n) [] m h = refl
get_or-take (suc n) (x ∷ xs) zero h = refl
get_or-take (suc n) (x ∷ xs) (suc m) h = get_or-take n xs m (omega arith)

-- A byte of a chunk, where the chunk is long enough.
get-chunk_bytes :
    (payload : List ℕ) (size i j : ℕ)
    → i * chunk_payload_size ≤ j
    → j - i * chunk_payload_size < chunk_size_at size i
    → get_or (chunk_bytes payload size i) (j - i * chunk_payload_size) 0 ≡ get_or payload j 0
get-chunk_bytes payload size i j h k =
    let e : i * chunk_payload_size + (j - i * chunk_payload_size) ≡ j = omega arith in
    get_or-take (chunk_size_at size i) (drop (i * chunk_payload_size) payload)
      (j - i * chunk_payload_size) k
    ∙ get_or-drop (i * chunk_payload_size) payload (j - i * chunk_payload_size)
    ∙ ap (λ z. get_or payload z 0) e

length-chunk_bytes :
    (payload : List ℕ) (i : ℕ)
    → i * chunk_payload_size < length payload
    → length (chunk_bytes payload (length payload) i) ≡ chunk_size_at (length payload) i
length-chunk_bytes payload i h = ground (
  arith,
  length-take (chunk_size_at (length payload) i) (drop (i * chunk_payload_size) payload),
  length-drop (i * chunk_payload_size) payload,
)

-- Adding a chunk of the payload keeps what is held.
pub add_chunk-Holds :
    (payload : List ℕ) (now : ℕ) (p : ChunkPacket) (a : Assembly)
    → Holds payload a
    → p.chunk_index < 3
    → p.chunk_index * chunk_payload_size < length payload
    → p.payload ≡ chunk_bytes payload (length payload) p.chunk_index
    → Holds payload (add_chunk now p a)
unfolding Holds add_chunk write
add_chunk-Holds payload now p a held small inside genuine k j lt bit from to within =
    let i : ℕ = p.chunk_index in
    let size = length-chunk_bytes payload i inside in
    rw genuine
      (elim (Bool-cases (
        leb (i * chunk_payload_size) j
        && ltb j (i * chunk_payload_size + length (chunk_bytes payload (length payload) i)))) [
          | inl t ↦
              rw t (get-chunk_bytes payload (length payload) i j (ground arith) (ground arith))
          | inr f ↦ rw f (elim (has_bit-set_bit a.received_chunk_mask i k small lt bit) [
            | inl same ↦ absurd (ground arith)
            | inr old ↦ held k j lt old from to within
          ])
        ])

-- An assembly that received nothing holds nothing.
pub Holds-blank : (payload : List ℕ) (a : Assembly) → a.received_chunk_mask ≡ 0 → Holds payload a
unfolding Holds
Holds-blank payload a h k j lt bit from to within = absurd (none_set k lt (rw h at bit))
  where
    none_set : (k : ℕ) → k < 3 → has_bit 0 k ≡ true → ⊥
    none_set zero lt bit = absurd (false≢true bit)
    none_set (suc zero) lt bit = absurd (false≢true bit)
    none_set (suc (suc zero)) lt bit = absurd (false≢true bit)
    none_set (suc (suc (suc k))) lt bit = absurd (omega arith)

read_lem :
    (buffer : ℕ → ℕ) (offset : ℕ) (xs : List ℕ)
    → ((j : ℕ) → j < length xs → buffer (offset + j) ≡ get_or xs j 0)
    → read buffer offset (length xs) ≡ xs
unfolding read
read_lem buffer offset [] h = refl
read_lem buffer offset (x ∷ xs) h =
    let here : offset ≡ offset + 0 = omega arith in
    cons_eq (ap buffer here ∙ h 0 (omega arith)) (
      read_lem buffer (offset + 1) xs (λ j lt.
        let e : offset + 1 + j ≡ offset + suc j = omega arith in
        ap buffer e ∙ h (suc j) (omega arith)))
  where
    cons_eq : {x y : ℕ} {xs ys : List ℕ} → x ≡ y → xs ≡ ys → x ∷ xs ≡ y ∷ ys
    cons_eq p q = cc

-- With every chunk received, the first bytes of the buffer are the payload.
pub read-Holds :
    (payload : List ℕ) (a : Assembly) (n : ℕ)
    → Holds payload a
    → n ≤ 3
    → length payload ≤ n * chunk_payload_size
    → a.received_chunk_mask ≡ 2 ^ n - 1
    → read a.payload 0 (length payload) ≡ payload
unfolding Holds
read-Holds payload a n held small covered full = read_lem a.payload 0 payload (λ j lt.
    let e : 0 + j ≡ j = omega arith in
    let k : ℕ = j / chunk_payload_size in
    ap a.payload e
    ∙ held k j (omega arith) (rw full (full_mask n k small (omega arith))) (omega arith)
        (omega arith) lt)
