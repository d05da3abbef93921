-- ===== src/Transfer/Step.antt =====
-- One arrival at a table with one assembly, and sequences of arrivals with their times.
use revenant_fix.Prelude.{
  ℕ, ◌+◌, ◌-◌, ◌%◌, ◌^◌, ◌<◌, ◌≡◌, refl, Bool, true, false, Option, none, some, List, [], ◌∷◌, map,
  leb, ◌==◌, if◌then◌else◌, arith,
}
use revenant_fix.Transfer.{ChunkPacket, Assembly, empty_assembly}
use revenant_fix.Transfer.Send.{Delivery, chunk_at}
use revenant_fix.Transfer.Receive.{
  is_match, expire, place_from, place, new_assembly, read, add_chunk, assemble, expected_mask,
}
use revenant_fix.Transfer.Assemble.{Arrival, no_assemblies}

-- The table with one assembly, at its first place.
abbrev pub one : Assembly → List Assembly
one a = a ∷ empty_assembly ∷ empty_assembly ∷ empty_assembly ∷ empty_assembly ∷ empty_assembly ∷ []

-- The chunks `x.0` of a delivery, which arrive at the times `x.1`.
abbrev pub parts : ℕ → Delivery → List (ℕ × ℕ) → List Arrival
parts sender d order = map (λ x. record { from = sender; packet = chunk_at d x.0; now = x.1 }) order

abbrev pub is_late : ℕ → ℕ → Bool
is_late received now = leb 30000 ((now + 2 ^ 64 - received) % 2 ^ 64)

-- No two arrivals in a row are 30 seconds apart, the first one being after `received`.
abbrev pub Prompt : ℕ → List (ℕ × ℕ) → Type 0
Prompt received [] = Unit
Prompt received (x ∷ rest) = (is_late received x.1 ≡ false) × Prompt x.1 rest

abbrev pub AllPrompt : List (ℕ × ℕ) → Type 0
AllPrompt [] = Unit
AllPrompt (x ∷ rest) = Prompt x.1 rest

-- What an arrival makes of the assembly that gets it.
abbrev pub outcome : ℕ → ChunkPacket → Assembly → Option (List ℕ) × List Assembly
outcome now p a =
    if (add_chunk now p a).received_chunk_mask == expected_mask p.chunk_count
    then (
      some (read (add_chunk now p a).payload 0 (add_chunk now p a).total_size),
      one empty_assembly,
    )
    else (none, one (add_chunk now p a))

pub assemble_first :
    (sender : ℕ) (p : ChunkPacket) (now : ℕ)
    → assemble sender p now no_assemblies ≡ outcome now p (new_assembly sender p)
unfolding assemble place place_from expire is_match
assemble_first sender p now = refl

expire_kept : (now : ℕ) (a : Assembly) → is_late a.received_tick_ms now ≡ false → expire now a ≡ a
unfolding expire
expire_kept now a h = ground arith

pub assemble_next :
    (sender : ℕ) (p : ChunkPacket) (now : ℕ) (a : Assembly)
    → is_match a sender p ≡ true
    → is_late a.received_tick_ms now ≡ false
    → assemble sender p now (one a) ≡ outcome now p a
unfolding assemble place place_from
assemble_next sender p now a match kept = rw (expire_kept now a kept, match, match) refl

abbrev pub is_chunk : ℕ → ℕ × ℕ → Bool
is_chunk k x = x.0 == k

abbrev pub AllBelow : ℕ → List (ℕ × ℕ) → Type 0
AllBelow n [] = Unit
AllBelow n (x ∷ rest) = (x.0 < n) × AllBelow n rest
