-- ===== src/HashMap.antt =====
-- The hash maps of the STC library (subprojects/stc.wrap), which the proxy uses for properties,
-- windows, clients and cursors: the operations that it calls, with their documented behaviour.
use qwswayland.Prelude.{ℕ, ◌≡◌, refl, Option, none, some, List, [], ◌∷◌, ◌==◌, if◌then◌else◌, arith}

-- Keys are given by their bit patterns.
pub record HashMap (V : Type 0) : Type 1 where
  pub Map : Type 0
  pub empty : Map
  pub get : Map → ℕ → Option V
  -- `_insert` leaves an entry that is there alone.
  pub insert : Map → ℕ → V → Map
  -- A write through the pointer of an entry that `_get_mut` or `_find` has found.
  pub update : Map → ℕ → V → Map
  pub erase : Map → ℕ → Map
  pub get-empty : (k : ℕ) → get empty k ≡ none
  pub get-insert :
      (m : Map) (k j : ℕ) (v : V)
      → get (insert m k v) j
        ≡ (if k == j then (elim (get m k) [ none ↦ some v | some w ↦ some w ]) else get m j)
  pub get-update :
      (m : Map) (k j : ℕ) (v : V)
      → get (update m k v) j
        ≡ (if k == j then (elim (get m k) [ none ↦ none | some w ↦ some v ]) else get m j)
  pub get-erase : (m : Map) (k j : ℕ) → get (erase m k) j ≡ (if k == j then none else get m j)

-- An association list meets the interface.
module _ {V : Type 0} where
  abbrev pub find_entry : List (ℕ × V) → ℕ → Option V
  find_entry [] j = none
  find_entry ((k, v) ∷ m) j = if k == j then some v else find_entry m j

  abbrev pub or_cons : ℕ → V → List (ℕ × V) → Option V → List (ℕ × V)
  or_cons k v m none = (k, v) ∷ m
  or_cons k v m (some w) = m

  abbrev pub update_entry : List (ℕ × V) → ℕ → V → List (ℕ × V)
  update_entry [] k v = []
  update_entry ((i, w) ∷ m) k v = if i == k then (k, v) ∷ m else (i, w) ∷ update_entry m k v

  abbrev pub erase_entry : List (ℕ × V) → ℕ → List (ℕ × V)
  erase_entry [] k = []
  erase_entry ((i, w) ∷ m) k = let rest = erase_entry m k in if i == k then rest else (i, w) ∷ rest

  pub insert_law :
      (m : List (ℕ × V)) (k j : ℕ) (v : V)
      → find_entry (or_cons k v m (find_entry m k)) j ≡ (
          if k == j
          then (elim (find_entry m k) [ none ↦ some v | some w ↦ some w ])
          else find_entry m j)
  insert_law m k j v = ground arith

  pub update_law :
      (m : List (ℕ × V)) (k j : ℕ) (v : V)
      → find_entry (update_entry m k v) j ≡ (
          if k == j
          then (elim (find_entry m k) [ none ↦ none | some w ↦ some v ])
          else find_entry m j)
  update_law [] k j v = ground arith
  update_law ((i, w) ∷ m) k j v = ground (arith, update_law m k j v)

  pub erase_law :
      (m : List (ℕ × V)) (k j : ℕ)
      → find_entry (erase_entry m k) j ≡ (if k == j then none else find_entry m j)
  erase_law [] k j = ground arith
  erase_law ((i, w) ∷ m) k j = ground (arith, erase_law m k j)

abbrev pub assoc_map : (V : Type 0) → HashMap V
assoc_map V = record {
  Map = List (ℕ × V);
  empty = [];
  get = find_entry;
  insert = λ m k v. or_cons k v m (find_entry m k);
  update = update_entry;
  erase = erase_entry;
  get-empty = λ k. refl;
  get-insert = insert_law;
  get-update = update_law;
  get-erase = erase_law;
}
