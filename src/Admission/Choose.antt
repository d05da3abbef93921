-- ===== src/Admission/Choose.antt =====
-- The loop for the target is two searches, the second one only where the first finds nothing.
use revenant_fix.Prelude.{
  ℕ, ◌+◌, ◌<◌, ◌≡◌, ◌⊎◌, refl, ap, true, false, Option, none, some, List, [], ◌∷◌, ◌&&◌,
  if◌then◌else◌, not, length, get_or, arith, find_index, is_some, count, find-cases, inl, inr,
}
use revenant_fix.Admission.{Attempt, empty_attempt}
use revenant_fix.Admission.Table.{is_of, is_available, choose_from}

shift : ℕ → Option ℕ → Option ℕ → Option ℕ
shift n none o = o
shift n (some i) o = some (n + i)

-- What the loop returns from place `n` on.
choose_from_lem :
    (sender now : ℕ) (xs : List Attempt) (n : ℕ) (target : Option ℕ)
    → choose_from sender now xs n target
      ≡ shift n
          (find_index (is_of sender) xs)
          (if is_some target then target else shift n (find_index (is_available now) xs) none)
unfolding choose_from find_index shift
choose_from_lem sender now [] n none = refl
choose_from_lem sender now [] n (some t) = refl
choose_from_lem sender now (x ∷ xs) n none =
    rw
      (choose_from_lem sender now xs (n + 1)
        (if is_available now x && not false then some n else none))
      (ground arith)
choose_from_lem sender now (x ∷ xs) n (some t) =
    rw
      (choose_from_lem sender now xs (n + 1)
        (if is_available now x && not true then some n else some t))
      (ground arith)

-- The loop finds no place only where the sender has none and all are taken by live attempts; a place
-- that it finds is the sender's, or an available one where the sender has none.
pub choose-cases :
    (sender now : ℕ) (xs : List Attempt)
    → ((choose_from sender now xs 0 none ≡ none)
        × (count (is_of sender) xs ≡ 0)
        × (count (is_available now) xs ≡ 0))
      ⊎ ((i : ℕ) × (choose_from sender now xs 0 none ≡ some i)
          × (i < length xs)
          × ((is_of sender (get_or xs i empty_attempt) ≡ true)
              ⊎ ((count (is_of sender) xs ≡ 0)
                  × (is_available now (get_or xs i empty_attempt) ≡ true))))
unfolding shift
choose-cases sender now xs =
    rw (choose_from_lem sender now xs 0 none) (elim (find-cases (is_of sender) xs empty_attempt) [
      | inl (f, none_of) ↦ elim (find-cases (is_available now) xs empty_attempt) [
        | inl (g, none_free) ↦ rw (f, g) (inl (refl, none_of, none_free))
        | inr (i, g, lt, t) ↦ rw (f, g) (inr (i, ap some (omega arith), lt, inr (none_of, t)))
      ]
      | inr (i, f, lt, t) ↦ rw f (inr (i, ap some (omega arith), lt, inl t))
    ])

-- The sender's own place is chosen again.
pub choose_own :
    (sender now : ℕ) (xs : List Attempt) (i : ℕ)
    → find_index (is_of sender) xs ≡ some i
    → choose_from sender now xs 0 none ≡ some i
unfolding shift
choose_own sender now xs i f = rw (choose_from_lem sender now xs 0 none, f) (ap some (omega arith))
