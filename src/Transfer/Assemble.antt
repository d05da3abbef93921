-- ===== src/Transfer/Assemble.antt =====
-- The table of assemblies: a payload that was sent is put together from its chunks, in whatever order
-- they arrive and whatever else arrives between them.
use revenant_fix.Prelude.{
  ℕ, zero, suc, ◌*◌, ◌%◌, ◌^◌, ◌≤◌, ◌<◌, ◌≡◌, refl, sym, ap, ◌∙◌, ◌⊎◌, inl, inr, true, false, some,
  List, [], ◌∷◌, ◌==◌, length, get_or, arith, Bool-cases, none≢some, some-injective,
}
use mathlib.Core.Bool.{false≢true}
use revenant_fix.Pgd.{chunk_payload_size, chunks_of}
use revenant_fix.Transfer.{ChunkPacket, Assembly, empty_assembly}
use revenant_fix.Transfer.Send.{Delivery, chunk_at, chunk_bytes, is_sendable}
use revenant_fix.Transfer.Receive.{is_match, place, read, add_chunk, assemble, expected_mask}
use revenant_fix.Transfer.Holds.{Holds, add_chunk-Holds, read-Holds}
use revenant_fix.Transfer.Mask.{expected_mask_small}
use revenant_fix.Transfer.Match.{match-add_chunk, blank-match, match-size}
use revenant_fix.Transfer.Table.{
  TableHolds, is_part, placed-TableHolds, set-TableHolds, receiver, receiver-match, receiver-Holds,
}

-- A packet that reaches the receiver, and the time.
pub record Arrival : Type 0 where
  pub from : ℕ
  pub packet : ChunkPacket
  pub now : ℕ

-- The number of chunks of a delivery.
abbrev pub chunk_count_of : Delivery → ℕ
chunk_count_of d = chunks_of d.key.payload_size % 2 ^ 16

-- An arrival is one of the delivery's chunks from its sender, or is of another transfer.
abbrev pub IsFair : ℕ → Delivery → Arrival → Type 0
IsFair sender d a =
    (is_part sender d a.from a.packet ≡ false)
    ⊎ ((i : ℕ) × (a.from ≡ sender) × (a.packet ≡ chunk_at d i) × (i < chunk_count_of d))

abbrev pub AllFair : ℕ → Delivery → List Arrival → Type 0
AllFair sender d [] = Unit
AllFair sender d (a ∷ rest) = IsFair sender d a × AllFair sender d rest

-- The table after all arrivals.
abbrev pub assemble_all : List Arrival → List Assembly → List Assembly
assemble_all [] xs = xs
assemble_all (a ∷ rest) xs = assemble_all rest (assemble a.from a.packet a.now xs).1

-- `std::memset` of the whole table.
abbrev pub no_assemblies : List Assembly
no_assemblies =
    empty_assembly ∷ empty_assembly ∷ empty_assembly ∷ empty_assembly ∷ empty_assembly
    ∷ empty_assembly ∷ []

module _ (sender : ℕ) (d : Delivery) (sendable : is_sendable d ≡ true)
    (exact : d.key.payload_size ≡ length d.payload) where
  size-bound : d.key.payload_size ≤ 1048576
  unfolding is_sendable
  size-bound = ground arith

  pub count-bounds :
      (chunk_count_of d ≤ 3) × (length d.payload ≤ chunk_count_of d * chunk_payload_size)
  count-bounds = (omega (arith, size-bound), omega (arith, size-bound))

  chunk-inside : (i : ℕ) → i < chunk_count_of d → i * chunk_payload_size < length d.payload
  chunk-inside i lt = omega (arith, size-bound)

  part-Holds :
      (i now : ℕ) (a : Assembly)
      → Holds d.payload a
      → i < chunk_count_of d
      → Holds d.payload (add_chunk now (chunk_at d i) a)
  unfolding chunk_at
  part-Holds i now a held lt =
      add_chunk-Holds d.payload now (chunk_at d i) a held (omega (arith, count-bounds.0))
        (chunk-inside i lt) (ap (λ n. chunk_bytes d.payload n i) exact)

  part-match :
      (i : ℕ) (a : Assembly) → is_match a sender (chunk_at d i) ≡ is_match a sender (chunk_at d 0)
  unfolding chunk_at is_match
  part-match i a = refl

  part-receiver :
      (i now : ℕ) (xs : List Assembly)
      → TableHolds sender d xs
      → Holds d.payload (receiver sender (chunk_at d i) now xs)
  part-receiver i now xs held = receiver-Holds sender sender d (chunk_at d i) now xs held (
      sym (part-match i (receiver sender (chunk_at d i) now xs))
      ∙ receiver-match sender (chunk_at d i) now xs)

  fair-Holds :
      (a : Arrival) (xs : List Assembly)
      → IsFair sender d a
      → TableHolds sender d xs
      → is_match
          (add_chunk a.now a.packet (receiver a.from a.packet a.now xs))
          sender
          (chunk_at d 0)
        ≡ true
      → Holds d.payload (add_chunk a.now a.packet (receiver a.from a.packet a.now xs))
  fair-Holds a xs fair held match = elim fair [
    | inl other ↦ absurd (
        false≢true (
          sym other
          ∙ sym (
              match-add_chunk a.now a.from sender a.packet (chunk_at d 0)
                (receiver a.from a.packet a.now xs) (receiver-match a.from a.packet a.now xs))
          ∙ match))
    | inr (i, same, part, lt) ↦
        rw (same, part)
          (part-Holds i a.now (receiver sender (chunk_at d i) a.now xs)
            (part-receiver i a.now xs held) lt)
  ]

  -- An arrival keeps what the assemblies of the delivery hold.
  assemble-TableHolds :
      (a : Arrival) (xs : List Assembly)
      → IsFair sender d a
      → TableHolds sender d xs
      → TableHolds sender d (assemble a.from a.packet a.now xs).1
  unfolding assemble
  assemble-TableHolds a xs fair held =
      let added : Assembly = add_chunk a.now a.packet (receiver a.from a.packet a.now xs) in
      let placed = placed-TableHolds sender a.from d a.packet a.now xs held in
      let i : ℕ = (place a.from a.packet a.now xs).1 in
      elim (Bool-cases (added.received_chunk_mask == expected_mask a.packet.chunk_count)) [
        | inl t ↦ rw t (
            set-TableHolds sender d (place a.from a.packet a.now xs).0 i empty_assembly placed
              (λ match. absurd (false≢true (sym (blank-match sender (chunk_at d 0)) ∙ match))))
        | inr f ↦ rw f (
            set-TableHolds sender d (place a.from a.packet a.now xs).0 i added placed
              (fair-Holds a xs fair held))
      ]

  assemble_all-TableHolds :
      (arrivals : List Arrival) (xs : List Assembly)
      → AllFair sender d arrivals
      → TableHolds sender d xs
      → TableHolds sender d (assemble_all arrivals xs)
  assemble_all-TableHolds [] xs fair held = held
  assemble_all-TableHolds (a ∷ rest) xs fair held =
      assemble_all-TableHolds rest (assemble a.from a.packet a.now xs).1 fair.1
        (assemble-TableHolds a xs fair.0 held)

  complete_part :
      (i now : ℕ) (xs : List Assembly) (bytes : List ℕ)
      → i < chunk_count_of d
      → TableHolds sender d xs
      → (assemble sender (chunk_at d i) now xs).0 ≡ some bytes
      → bytes ≡ d.payload
  unfolding assemble chunk_at add_chunk
  complete_part i now xs bytes lt held done =
      let a : Assembly = receiver sender (chunk_at d i) now xs in
      let size : a.total_size ≡ length d.payload =
        match-size a sender (chunk_at d i) (receiver-match sender (chunk_at d i) now xs) ∙ exact in
      let added : Assembly = add_chunk now (chunk_at d i) a in
      elim (Bool-cases (added.received_chunk_mask == expected_mask (chunk_count_of d))) [
        | inl t ↦
            let taken : read added.payload 0 added.total_size ≡ bytes =
              some-injective (rw t at done) in
            sym taken
            ∙ ap (read added.payload 0) size
            ∙ read-Holds d.payload added (chunk_count_of d)
                (part-Holds i now a (part-receiver i now xs held) lt) count-bounds.0 count-bounds.1
                (ground (arith, expected_mask_small (chunk_count_of d) count-bounds.0))
        | inr f ↦ absurd (none≢some refl (rw f at done))
      ]

  blank-TableHolds : TableHolds sender d no_assemblies
  unfolding TableHolds
  blank-TableHolds j match = absurd (false≢true (sym (blank_at j) ∙ match))
    where
      blank_at :
          (j : ℕ) → is_match (get_or no_assemblies j empty_assembly) sender (chunk_at d 0) ≡ false
      blank_at zero = blank-match sender (chunk_at d 0)
      blank_at (suc zero) = blank-match sender (chunk_at d 0)
      blank_at (suc (suc zero)) = blank-match sender (chunk_at d 0)
      blank_at (suc (suc (suc zero))) = blank-match sender (chunk_at d 0)
      blank_at (suc (suc (suc (suc zero)))) = blank-match sender (chunk_at d 0)
      blank_at (suc (suc (suc (suc (suc zero))))) = blank-match sender (chunk_at d 0)
      blank_at (suc (suc (suc (suc (suc (suc j)))))) = blank-match sender (chunk_at d 0)

-- A payload that is sent and assembled is the one that was sent: whatever packets arrived before, in
-- whatever order, as long as those with the delivery's identity are its chunks, a chunk that
-- completes the delivery yields exactly its bytes.
pub assemble-send :
    (sender : ℕ) (d : Delivery) (arrivals : List Arrival) (i now : ℕ) (bytes : List ℕ)
    → is_sendable d ≡ true
    → d.key.payload_size ≡ length d.payload
    → AllFair sender d arrivals
    → i < chunk_count_of d
    → (assemble sender (chunk_at d i) now (assemble_all arrivals no_assemblies)).0 ≡ some bytes
    → bytes ≡ d.payload
assemble-send sender d arrivals i now bytes sendable exact fair lt done =
    complete_part sender d sendable exact i now (assemble_all arrivals no_assemblies) bytes lt
      (assemble_all-TableHolds sender d sendable exact arrivals no_assemblies fair
        (blank-TableHolds sender d sendable exact))
      done
