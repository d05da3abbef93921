-- ===== src/Transfer/Table.antt =====
-- The table of assemblies: what its places hold of a payload, and the place that gets a packet.
use revenant_fix.Prelude.{
  ℕ, zero, suc, ◌+◌, ◌≡◌, refl, sym, ap, ◌∙◌, ◌⊎◌, inl, inr, Bool, true, Option, none, List, [],
  ◌∷◌, if◌then◌else◌, get_or, set, arith, Bool-cases,
}
use mathlib.Core.Bool.{false≢true}
use revenant_fix.Transfer.{ChunkPacket, Assembly, empty_assembly}
use revenant_fix.Transfer.Send.{Delivery, chunk_at}
use revenant_fix.Transfer.Receive.{is_match, expire, place_from, place, new_assembly}
use revenant_fix.Transfer.Holds.{Holds, Holds-blank}
use revenant_fix.Transfer.Match.{new-match, blank-match}

-- Every assembly of the delivery from the sender holds the payload's bytes.
unfoldable pub TableHolds : ℕ → Delivery → List Assembly → Type 0
TableHolds sender d xs =
    (j : ℕ)
    → is_match (get_or xs j empty_assembly) sender (chunk_at d 0) ≡ true
    → Holds d.payload (get_or xs j empty_assembly)

-- A packet of the sender belongs to the delivery.
abbrev pub is_part : ℕ → Delivery → ℕ → ChunkPacket → Bool
is_part sender d from p = is_match (new_assembly from p) sender (chunk_at d 0)

-- The loop for the place clears some assemblies, and changes nothing else.
place_from-get :
    (sender : ℕ) (p : ChunkPacket) (now : ℕ) (xs : List Assembly) (i : ℕ) (target : Option ℕ)
    (oldest tick j : ℕ)
    → (get_or (place_from sender p now xs i target oldest tick).0 j empty_assembly
        ≡ get_or xs j empty_assembly)
      ⊎ (get_or (place_from sender p now xs i target oldest tick).0 j empty_assembly
          ≡ empty_assembly)
unfolding place_from expire
place_from-get sender p now [] i target oldest tick j = inl refl
place_from-get sender p now (a ∷ rest) i target oldest tick zero = ground arith
place_from-get sender p now (a ∷ rest) i target oldest tick (suc j) =
    elim (Bool-cases (is_match (expire now a) sender p)) [
      | inl t ↦ rw t (inl refl)
      | inr f ↦ rw f (place_from-get sender p now rest (i + 1) _ _ _ j)
    ]

set-cases :
    (xs : List Assembly) (i j : ℕ) (v : Assembly)
    → (get_or (set xs i v) j empty_assembly ≡ v)
      ⊎ (get_or (set xs i v) j empty_assembly ≡ get_or xs j empty_assembly)
set-cases [] i j v = inr refl
set-cases (x ∷ xs) zero zero v = inl refl
set-cases (x ∷ xs) zero (suc j) v = inr refl
set-cases (x ∷ xs) (suc i) zero v = inr refl
set-cases (x ∷ xs) (suc i) (suc j) v = set-cases xs i j v

pub placed-TableHolds :
    (sender from : ℕ) (d : Delivery) (p : ChunkPacket) (now : ℕ) (xs : List Assembly)
    → TableHolds sender d xs
    → TableHolds sender d (place from p now xs).0
unfolding TableHolds place
placed-TableHolds sender from d p now xs held j match =
    elim (place_from-get from p now xs 0 none 0
      (expire now (get_or xs 0 empty_assembly)).received_tick_ms j) [
        | inl e ↦ rw e (held j (rw e at match))
        | inr e ↦ absurd (
            false≢true (
              sym (blank-match sender (chunk_at d 0))
              ∙ ap (λ a. is_match a sender (chunk_at d 0)) (sym e)
              ∙ match))
      ]

pub set-TableHolds :
    (sender : ℕ) (d : Delivery) (xs : List Assembly) (i : ℕ) (v : Assembly)
    → TableHolds sender d xs
    → (is_match v sender (chunk_at d 0) ≡ true → Holds d.payload v)
    → TableHolds sender d (set xs i v)
unfolding TableHolds
set-TableHolds sender d xs i v held new j match = elim (set-cases xs i j v) [
  | inl e ↦ rw e (new (rw e at match))
  | inr e ↦ rw e (held j (rw e at match))
]

-- The assembly that a packet is added to.
abbrev pub receiver : ℕ → ChunkPacket → ℕ → List Assembly → Assembly
receiver from p now xs =
    let placed : List Assembly × ℕ = place from p now xs in
    let old : Assembly = get_or placed.0 placed.1 empty_assembly in
    if is_match old from p then old else new_assembly from p

pub receiver-match :
    (from : ℕ) (p : ChunkPacket) (now : ℕ) (xs : List Assembly)
    → is_match (receiver from p now xs) from p ≡ true
receiver-match from p now xs =
    let old : Assembly = get_or (place from p now xs).0 (place from p now xs).1 empty_assembly in
    elim (Bool-cases (is_match old from p)) [
      | inl t ↦ rw (t, t) refl
      | inr f ↦ rw f (new-match from p)
    ]

-- Its match with the delivery carries what it holds.
pub receiver-Holds :
    (sender from : ℕ) (d : Delivery) (p : ChunkPacket) (now : ℕ) (xs : List Assembly)
    → TableHolds sender d xs
    → is_match (receiver from p now xs) sender (chunk_at d 0) ≡ true
    → Holds d.payload (receiver from p now xs)
unfolding TableHolds new_assembly
receiver-Holds sender from d p now xs held match =
    let placed = placed-TableHolds sender from d p now xs held in
    let i : ℕ = (place from p now xs).1 in
    elim (Bool-cases (is_match (get_or (place from p now xs).0 i empty_assembly) from p)) [
      | inl t ↦ rw t (placed i (rw t at match))
      | inr f ↦ rw f (Holds-blank d.payload (new_assembly from p) refl)
    ]
