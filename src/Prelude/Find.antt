-- ===== src/Prelude/Find.antt =====
-- Searches in a table of fixed size, and how often a test holds in it.
use Prim.Native.Nat.{ℕ, zero, suc, ◌+◌, ◌≤◌, ◌<◌}
use mathlib.Core.Path.{◌≡◌, refl, ap}
use mathlib.Core.Logic.{◌≢◌, ◌⊎◌, inl, inr}
use mathlib.Core.Bool.{Bool, true, false, not}
use mathlib.Core.List.{List, [], ◌∷◌, ◌++◌}
use mathlib.Core.Option.{Option, none, some}
use native.Mathlib.Omega.{arith}
use revenant_fix.Prelude.Tests.{◌==◌, if◌then◌else◌, Bool-cases, Option-cases}
use revenant_fix.Prelude.Lists.{length, get_or, set, length-append}

abbrev pub bit : Bool → ℕ
bit true = 1
bit false = 0

abbrev pub is_some {ℓ} : {A : Type ℓ} → Option A → Bool
is_some none = false
is_some (some a) = true

pub none≢some {ℓ} : {A : Type ℓ} {o : Option A} {a : A} → o ≡ none → o ≡ some a → ⊥
none≢some h k = cc

pub some-injective {ℓ} : {A : Type ℓ} {a b : A} → some a ≡ some b → a ≡ b
some-injective {a = a} p = ap (λ o. elim o [ none ↦ a | some x ↦ x ]) p

module _ {ℓ} {A : Type ℓ} where
  -- `for (i = 0; i < n; ++i) if (p(xs[i])) return i;`
  unfoldable pub find_index : (A → Bool) → List A → Option ℕ
  find_index p [] = none
  find_index p (x ∷ xs) =
      let later : Option ℕ = elim (find_index p xs) [ none ↦ none | some i ↦ some (suc i) ] in
      if p x then some zero else later

  -- The same loop, with the element itself as its result.
  unfoldable pub find_elem : (A → Bool) → List A → Option A
  find_elem p [] = none
  find_elem p (x ∷ xs) = if p x then some x else find_elem p xs

  -- How many entries pass the test.
  unfoldable pub count : (A → Bool) → List A → ℕ
  count p [] = 0
  count p (x ∷ xs) = bit (p x) + count p xs

  pub find_index-none : (p : A → Bool) (xs : List A) → find_index p xs ≡ none → count p xs ≡ 0
  unfolding find_index count
  find_index-none p [] h = refl
  find_index-none p (x ∷ xs) h = ground (arith, find_index-none p xs)

  pub find_index-some :
      (p : A → Bool) (xs : List A) (d : A) (i : ℕ)
      → find_index p xs ≡ some i
      → (i < length xs) × (p (get_or xs i d) ≡ true)
  unfolding find_index
  find_index-some p [] d i h = cc
  find_index-some p (x ∷ xs) d zero h = ground arith
  find_index-some p (x ∷ xs) d (suc i) h = ground (arith, find_index-some p xs d i)

  pub count-set :
      (p : A → Bool) (xs : List A) (i : ℕ) (v d : A)
      → i < length xs
      → count p (set xs i v) + bit (p (get_or xs i d)) ≡ count p xs + bit (p v)
  unfolding count
  count-set p [] i v d h = absurd (omega arith)
  count-set p (x ∷ xs) zero v d h = omega arith
  count-set p (x ∷ xs) (suc i) v d h = omega (arith, count-set p xs i v d (omega arith))

  pub count-zero-find : (p : A → Bool) (xs : List A) → count p xs ≡ 0 → find_elem p xs ≡ none
  unfolding count find_elem
  count-zero-find p [] h = refl
  count-zero-find p (x ∷ xs) h = ground (arith, count-zero-find p xs)

  pub find_elem-none : (p : A → Bool) (xs : List A) → find_elem p xs ≡ none → count p xs ≡ 0
  unfolding count find_elem
  find_elem-none p [] h = refl
  find_elem-none p (x ∷ xs) h = ground (arith, find_elem-none p xs)

  pub count-pos :
      (p : A → Bool) (xs : List A) (i : ℕ) (d : A)
      → i < length xs
      → p (get_or xs i d) ≡ true
      → 1 ≤ count p xs
  unfolding count
  count-pos p [] i d h t = absurd (omega arith)
  count-pos p (x ∷ xs) zero d h t = ground arith
  count-pos p (x ∷ xs) (suc i) d h t = omega (arith, count-pos p xs i d (omega arith) t)

  pub count-zero-get :
      (p : A → Bool) (xs : List A) (i : ℕ) (d : A)
      → i < length xs
      → count p xs ≡ 0
      → p (get_or xs i d) ≡ false
  count-zero-get p xs i d h c = elim (Bool-cases (p (get_or xs i d))) [
    | inl t ↦ absurd (omega (arith, count-pos p xs i d h t))
    | inr f ↦ f
  ]

  -- The two outcomes of a search, with what each says of the table.
  pub find-cases :
      (p : A → Bool) (xs : List A) (d : A)
      → ((find_index p xs ≡ none) × (count p xs ≡ 0))
        ⊎ ((i : ℕ) × (find_index p xs ≡ some i) × (i < length xs) × (p (get_or xs i d) ≡ true))
  find-cases p xs d = elim (Option-cases (find_index p xs)) [
    | inl e ↦ inl (e, find_index-none p xs e)
    | inr (i, e) ↦ let found = find_index-some p xs d i e in inr (i, e, found.0, found.1)
  ]

  -- Whether a search succeeds is a count.
  pub is_some-find_index :
      (p : A → Bool) (xs : List A) → is_some (find_index p xs) ≡ not (count p xs == 0)
  unfolding find_index count
  is_some-find_index p [] = refl
  is_some-find_index p (x ∷ xs) = ground (arith, is_some-find_index p xs)

  pub find_index_hit :
      (p : A → Bool) (xs : List A) (i : ℕ) (d : A)
      → i < length xs
      → p (get_or xs i d) ≡ true
      → is_some (find_index p xs) ≡ true
  find_index_hit p xs i d h t =
      rw (is_some-find_index p xs) (ground (arith, count-pos p xs i d h t))

  -- Where the test holds at most once, the search finds any entry that passes it.
  pub find_elem_unique :
      (p : A → Bool) (xs : List A) (i : ℕ) (d : A)
      → i < length xs
      → p (get_or xs i d) ≡ true
      → count p xs ≤ 1
      → find_elem p xs ≡ some (get_or xs i d)
  unfolding count find_elem
  find_elem_unique p [] i d h t u = absurd (omega arith)
  find_elem_unique p (x ∷ xs) zero d h t u = ground arith
  find_elem_unique p (x ∷ xs) (suc i) d h t u =
      ground (arith, find_elem_unique p xs i d, count-pos p xs i d)

  -- A write at a place that does not pass the test, of a value that does not, is not seen.
  pub find_elem-set :
      (p : A → Bool) (xs : List A) (i : ℕ) (v d : A)
      → p (get_or xs i d) ≡ false
      → p v ≡ false
      → find_elem p (set xs i v) ≡ find_elem p xs
  unfolding find_elem
  find_elem-set p [] i v d h t = refl
  find_elem-set p (x ∷ xs) zero v d h t = ground arith
  find_elem-set p (x ∷ xs) (suc i) v d h t = ground (arith, find_elem-set p xs i v d)

  -- A test that implies another holds at most as often.
  pub count-le :
      (p q : A → Bool)
      → ((x : A) → p x ≡ true → q x ≡ true)
      → (xs : List A) → count p xs ≤ count q xs
  unfolding count
  count-le p q imp [] = omega arith
  count-le p q imp (x ∷ xs) = ground (arith, count-le p q imp xs, imp x)

  -- Where the weaker test holds in one place only, that place decides the stronger one.
  pub count-at :
      (p q : A → Bool)
      → ((x : A) → p x ≡ true → q x ≡ true)
      → (xs : List A) (i : ℕ) (d : A) → i < length xs
      → q (get_or xs i d) ≡ true
      → count q xs ≤ 1
      → count p xs ≡ bit (p (get_or xs i d))
  unfolding count
  count-at p q imp [] i d h t u = absurd (omega arith)
  count-at p q imp (x ∷ xs) zero d h t u = ground (arith, count-le p q imp xs)
  count-at p q imp (x ∷ xs) (suc i) d h t u =
      ground (arith, imp x, count-pos q xs i d, count-at p q imp xs i d)

  pub count-append : (p : A → Bool) (xs ys : List A) → count p (xs ++ ys) ≡ count p xs + count p ys
  unfolding count
  count-append p [] ys = omega arith
  count-append p (x ∷ xs) ys = omega (arith, count-append p xs ys)

  pub find_elem-find_index :
      (p : A → Bool) (xs : List A) (d : A) (i : ℕ)
      → find_index p xs ≡ some i
      → find_elem p xs ≡ some (get_or xs i d)
  unfolding find_index find_elem
  find_elem-find_index p [] d i h = cc
  find_elem-find_index p (x ∷ xs) d zero h = ground arith
  find_elem-find_index p (x ∷ xs) d (suc i) h = ground (arith, find_elem-find_index p xs d i)

  pub find_elem-index_none :
      (p : A → Bool) (xs : List A) → find_index p xs ≡ none → find_elem p xs ≡ none
  find_elem-index_none p xs h = count-zero-find p xs (find_index-none p xs h)

  -- Deleting entry `i` of an array: what is behind it moves up, and `d` fills the last place.
  unfoldable pub shift_out : List A → ℕ → A → List A
  shift_out [] i d = []
  shift_out (x ∷ xs) zero d = xs ++ (d ∷ [])
  shift_out (x ∷ xs) (suc i) d = x ∷ shift_out xs i d

  pub length-shift_out : (xs : List A) (i : ℕ) (d : A) → length (shift_out xs i d) ≡ length xs
  unfolding shift_out
  length-shift_out [] i d = refl
  length-shift_out (x ∷ xs) zero d = omega (arith, length-append xs (d ∷ []))
  length-shift_out (x ∷ xs) (suc i) d = ap suc (length-shift_out xs i d)

  pub count-shift_out :
      (p : A → Bool) (xs : List A) (i : ℕ) (d : A)
      → i < length xs
      → count p (shift_out xs i d) + bit (p (get_or xs i d)) ≡ count p xs + bit (p d)
  unfolding shift_out count
  count-shift_out p [] i d h = absurd (omega arith)
  count-shift_out p (x ∷ xs) zero d h = omega (arith, count-append p xs (d ∷ []))
  count-shift_out p (x ∷ xs) (suc i) d h = omega (arith, count-shift_out p xs i d (omega arith))

  find_elem-append_blank :
      (p : A → Bool) (xs : List A) (d : A)
      → p d ≡ false
      → find_elem p (xs ++ (d ∷ [])) ≡ find_elem p xs
  unfolding find_elem
  find_elem-append_blank p [] d h = ground arith
  find_elem-append_blank p (x ∷ xs) d h = ground (arith, find_elem-append_blank p xs d h)

  -- Deleting an entry that does not pass the test is not seen by the search.
  pub find_elem-shift_out :
      (p : A → Bool) (xs : List A) (i : ℕ) (d : A)
      → p d ≡ false
      → p (get_or xs i d) ≡ false
      → find_elem p (shift_out xs i d) ≡ find_elem p xs
  unfolding find_elem shift_out
  find_elem-shift_out p [] i d h t = refl
  find_elem-shift_out p (x ∷ xs) zero d h t = rw (t) (find_elem-append_blank p xs d h)
  find_elem-shift_out p (x ∷ xs) (suc i) d h t = ground (arith, find_elem-shift_out p xs i d h t)

  -- What a write at `i` leaves at `j`.
  pub get_or-set_self :
      (xs : List A) (i : ℕ) (v d : A) → i < length xs → get_or (set xs i v) i d ≡ v
  get_or-set_self [] i v d h = absurd (omega arith)
  get_or-set_self (x ∷ xs) zero v d h = refl
  get_or-set_self (x ∷ xs) (suc i) v d h = get_or-set_self xs i v d (omega arith)

  pub get_or-set_ne :
      (xs : List A) (i j : ℕ) (v d : A) → i ≢ j → get_or (set xs i v) j d ≡ get_or xs j d
  get_or-set_ne [] i j v d h = refl
  get_or-set_ne (x ∷ xs) zero zero v d h = absurd (h refl)
  get_or-set_ne (x ∷ xs) zero (suc j) v d h = refl
  get_or-set_ne (x ∷ xs) (suc i) zero v d h = refl
  get_or-set_ne (x ∷ xs) (suc i) (suc j) v d h = get_or-set_ne xs i j v d (λ e. h (ap suc e))

  -- Writing an entry back over a later write undoes it.
  pub set-set : (xs : List A) (i : ℕ) (v d : A) → set (set xs i v) i (get_or xs i d) ≡ xs
  set-set [] i v d = refl
  set-set (x ∷ xs) zero v d = refl
  set-set (x ∷ xs) (suc i) v d = ap (◌∷◌ x) (set-set xs i v d)

  get_or-append_blank :
      (xs : List A) (n : ℕ) (d : A) → length xs ≤ n → get_or (xs ++ (d ∷ [])) n d ≡ d
  get_or-append_blank [] zero d h = refl
  get_or-append_blank [] (suc n) d h = refl
  get_or-append_blank (x ∷ xs) zero d h = absurd (omega arith)
  get_or-append_blank (x ∷ xs) (suc n) d h = get_or-append_blank xs n d (omega arith)

  -- After a deletion the last place is blank.
  pub get_or-shift_out_last :
      (xs : List A) (i n : ℕ) (d : A)
      → i < length xs
      → length xs ≤ suc n
      → get_or (shift_out xs i d) n d ≡ d
  unfolding shift_out
  get_or-shift_out_last [] i n d h k = absurd (omega arith)
  get_or-shift_out_last (x ∷ xs) zero n d h k = get_or-append_blank xs n d (omega arith)
  get_or-shift_out_last (x ∷ xs) (suc i) zero d h k = absurd (omega arith)
  get_or-shift_out_last (x ∷ xs) (suc i) (suc n) d h k =
      get_or-shift_out_last xs i n d (omega arith) (omega arith)

  -- The index of an element that a search returns.
  pub find_elem-some :
      (p : A → Bool) (xs : List A) (d e : A)
      → find_elem p xs ≡ some e
      → (i : ℕ) × (find_index p xs ≡ some i) × (i < length xs) × (get_or xs i d ≡ e) × (p e ≡ true)
  find_elem-some p xs d e h = elim (find-cases p xs d) [
    | inl (f, c) ↦ absurd (none≢some (count-zero-find p xs c) h)
    | inr (i, f, lt, t) ↦
        let here : get_or xs i d ≡ e = cc (find_elem-find_index p xs d i f) in
        (i, f, lt, here, rw here at t)
  ]

  -- A write that keeps the test's value at its place keeps the result of the search.
  pub find_index-set :
      (p : A → Bool) (xs : List A) (i : ℕ) (v d : A)
      → p (get_or xs i d) ≡ p v
      → find_index p (set xs i v) ≡ find_index p xs
  unfolding find_index
  find_index-set p [] i v d h = refl
  find_index-set p (x ∷ xs) zero v d h = ground arith
  find_index-set p (x ∷ xs) (suc i) v d h = ground (arith, find_index-set p xs i v d h)

  -- The first entry to pass a test is found where it is written.
  pub find_index-set_new :
      (p : A → Bool) (xs : List A) (i : ℕ) (v : A)
      → count p xs ≡ 0
      → i < length xs
      → p v ≡ true
      → find_index p (set xs i v) ≡ some i
  unfolding find_index count
  find_index-set_new p [] i v c h t = absurd (omega arith)
  find_index-set_new p (x ∷ xs) zero v c h t = ground arith
  find_index-set_new p (x ∷ xs) (suc i) v c h t = ground (arith, find_index-set_new p xs i v)

  -- Of two writes at one place the later one counts.
  pub set-overwrite : (xs : List A) (i : ℕ) (u v : A) → set (set xs i u) i v ≡ set xs i v
  set-overwrite [] i u v = refl
  set-overwrite (x ∷ xs) zero u v = refl
  set-overwrite (x ∷ xs) (suc i) u v = ap (◌∷◌ x) (set-overwrite xs i u v)

  -- A test that holds once at most holds in one place at most.
  pub place_unique :
      (p : A → Bool) (xs : List A) (i j : ℕ) (d : A)
      → count p xs ≤ 1
      → i < length xs
      → j < length xs
      → p (get_or xs i d) ≡ true
      → p (get_or xs j d) ≡ true
      → i ≡ j
  unfolding count
  place_unique p [] i j d u li lj a b = absurd (omega arith)
  place_unique p (x ∷ xs) zero zero d u li lj a b = refl
  place_unique p (x ∷ xs) zero (suc j) d u li lj a b = absurd (ground (arith, count-pos p xs j d))
  place_unique p (x ∷ xs) (suc i) zero d u li lj a b = absurd (ground (arith, count-pos p xs i d))
  place_unique p (x ∷ xs) (suc i) (suc j) d u li lj a b =
      ap suc (place_unique p xs i j d (omega arith) (omega arith) (omega arith) a b)
