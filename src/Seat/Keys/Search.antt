-- ===== src/Seat/Keys/Search.antt =====
-- The search in the table of keysym_to_qt_key, proxy/seat.c.
use qwswayland.Prelude.{
  ℕ, zero, suc, ◌+◌, ◌-◌, ◌≡◌, refl, ap, subst, Bool, true, false, not, ◌&&◌, ◌||◌, Option, none,
  some, List, [], ◌∷◌, ◌==◌, leb, if◌then◌else◌, get_elem?, arith, Bool-cases, Option-cases, inl,
  inr, ==_iff,
}
use qwswayland.Seat.Keys.{Keysym, key_pairs, as_array, search_table, keysym_to_qt_key}

-- The first pair with a keysym.
unfoldable pub first_pair : (Keysym → ℕ) → ℕ → List (Keysym × ℕ) → Option ℕ
first_pair xkb sym [] = none
first_pair xkb sym ((k, v) ∷ rest) = if xkb k == sym then some v else first_pair xkb sym rest

module _ (xkb : Keysym → ℕ) (nonzero : (k : Keysym) → (xkb k == 0) ≡ false) where
  -- If no keysym is zero, the search ends at the latest at the zero behind the pairs, never reads
  -- behind the array, and finds the first pair with the keysym, if there is one.
  pub search_lem :
      (sym : ℕ) (pairs : List (Keysym × ℕ))
      → search_table sym (as_array xkb pairs) ≡ some (first_pair xkb sym pairs)
  unfolding search_table first_pair
  search_lem sym [] = refl
  search_lem sym ((k, v) ∷ rest) = ground (arith, nonzero k, search_lem sym rest)

  pub keysym_total :
      (upper_code_point : ℕ → ℕ) (sym : ℕ)
      → (q : ℕ) × (keysym_to_qt_key xkb upper_code_point sym ≡ some q)
  unfolding keysym_to_qt_key
  keysym_total upper_code_point sym =
      let other = (if upper_code_point sym == 0 then 0x01ffffff else upper_code_point sym) in
      elim (Bool-cases (leb (xkb Keysym.f1) sym && leb sym (xkb Keysym.f35))) [
        | inl f ↦ (0x01000030 + (sym - xkb Keysym.f1), rw f refl)
        | inr nf ↦ elim (Bool-cases (leb (xkb Keysym.kp_0) sym && leb sym (xkb Keysym.kp_9))) [
          | inl d ↦ (0x30 + (sym - xkb Keysym.kp_0), rw (nf, d) refl)
          | inr nd ↦ elim (Option-cases (first_pair xkb sym key_pairs)) [
            | inl e ↦ (other, rw (nf, nd, search_lem sym key_pairs, e) refl)
            | inr (v, e) ↦ (v, rw (nf, nd, search_lem sym key_pairs, e) refl)
          ]
        ]
      ]

-- Every pair's keysym differs from those of the pairs before it and lies outside the two ranges.
abbrev pub differs : (Keysym → ℕ) → ℕ → List (Keysym × ℕ) → Bool
differs xkb sym [] = true
differs xkb sym ((k, v) ∷ rest) = not (xkb k == sym) && differs xkb sym rest

unfoldable pub distinct : (Keysym → ℕ) → List (Keysym × ℕ) → Bool
distinct xkb [] = true
distinct xkb ((k, v) ∷ rest) = differs xkb (xkb k) rest && distinct xkb rest

abbrev pub in_ranges : (Keysym → ℕ) → ℕ → Bool
in_ranges xkb sym =
    (leb (xkb Keysym.f1) sym && leb sym (xkb Keysym.f35))
    || (leb (xkb Keysym.kp_0) sym && leb sym (xkb Keysym.kp_9))

or_pair {ℓ} : {A : Type ℓ} → A → Option A → A
or_pair a none = a
or_pair a (some b) = b

differs_at :
    (xkb : Keysym → ℕ) (sym : ℕ) (pairs : List (Keysym × ℕ)) (i : ℕ) (k : Keysym) (v : ℕ)
    → differs xkb sym pairs ≡ true
    → get_elem? pairs i ≡ some (k, v)
    → (sym == xkb k) ≡ false
unfolding or_pair
differs_at xkb sym [] i k v d e = cc
differs_at xkb sym ((j, w) ∷ rest) zero k v d e =
    subst (λ q. (sym == xkb q.0) ≡ false) (ap (or_pair (j, w)) e) (ground (arith, d))
differs_at xkb sym ((j, w) ∷ rest) (suc i) k v d e =
    differs_at xkb sym rest i k v (ground (arith, d)) e

first_at :
    (xkb : Keysym → ℕ) (pairs : List (Keysym × ℕ)) (i : ℕ) (k : Keysym) (v : ℕ)
    → distinct xkb pairs ≡ true
    → get_elem? pairs i ≡ some (k, v)
    → first_pair xkb (xkb k) pairs ≡ some v
unfolding distinct first_pair or_pair
first_at xkb [] i k v d e = cc
first_at xkb ((j, w) ∷ rest) zero k v d e =
    subst (λ q. first_pair xkb (xkb q.0) ((j, w) ∷ rest) ≡ some q.1) (ap (or_pair (j, w)) e)
      (rw ((==_iff (xkb j) (xkb j)).1 refl) refl)
first_at xkb ((j, w) ∷ rest) (suc i) k v d e =
    rw (differs_at xkb (xkb j) rest i k v (ground (arith, d)) e)
      (first_at xkb rest i k v (ground (arith, d)) e)

-- If the keysyms of the table are different and none is zero, every entry of the table whose keysym
-- is outside the ranges of the function keys and of the keypad's digits is found under its keysym.
pub keysym_to_qt_key_lem :
    (xkb : Keysym → ℕ) (upper_code_point : ℕ → ℕ) (i : ℕ) (k : Keysym) (v : ℕ)
    → ((k : Keysym) → (xkb k == 0) ≡ false)
    → distinct xkb key_pairs ≡ true
    → get_elem? key_pairs i ≡ some (k, v)
    → in_ranges xkb (xkb k) ≡ false
    → keysym_to_qt_key xkb upper_code_point (xkb k) ≡ some v
unfolding keysym_to_qt_key
keysym_to_qt_key_lem xkb upper_code_point i k v nonzero d e out =
    let f : leb (xkb Keysym.f1) (xkb k) && leb (xkb k) (xkb Keysym.f35) ≡ false =
      ground (arith, out) in
    let n : leb (xkb Keysym.kp_0) (xkb k) && leb (xkb k) (xkb Keysym.kp_9) ≡ false =
      ground (arith, out) in
    rw (f, n, search_lem xkb nonzero (xkb k) key_pairs, first_at xkb key_pairs i k v d e) refl
