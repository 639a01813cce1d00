-- ===== src/Props/Entries.antt =====
-- Adding, removing, reading and internally replacing properties in proxy/property_store.c.
use qwswayland.Prelude.{
  ℕ, ◌≡◌, refl, Bool, true, false, ◌&&◌, Option, none, some, List, [], ◌∷◌, if◌then◌else◌, length,
  arith, ◌==◌, Option-cases, inl, inr, ==_iff,
}
use qwswayland.Prelude.Int.{ℤ, pos, negsuc}
use qwswayland.HashMap.{HashMap}
use qwswayland.Props.{
  PropVal, prop_key, bytes_of, is_some, prop_replace, qwsprop_add, qwsprop_replace_internal,
  qwsprop_set, set_value, qwsprop_remove, qwsprop_get, replace_value,
}
use qwswayland.Props.Store.{IsValid}
use qwswayland.Props.Laws.{view, AllValid, update-AllValid, view-update}

abbrev pub or_empty : Option (List ℕ) → Option (List ℕ)
or_empty none = some []
or_empty (some bs) = some bs

module _ (hm : HashMap PropVal) where
  open hm use {Map, get, insert, update, erase, get-insert, get-update, get-erase}

  -- Adding a property to a valid store answers whether the table had memory, makes the property
  -- there if so, empty if it was not and with its bytes if it was, leaves every other property
  -- alone, and keeps the store valid.
  pub add_view :
      (table_ok : Bool) (m : Map) (w p : ℤ) (j : ℕ)
      → AllValid hm m
      → let (done, after) = qwsprop_add hm table_ok m w p in
        (done ≡ table_ok)
        × (view hm after j
            ≡ (if table_ok && (prop_key w p == j) then or_empty (view hm m j) else view hm m j))
        × AllValid hm after
  unfolding qwsprop_add
  add_view false m w p j a = (refl, refl, a)
  add_view true m w p j a = (
    refl,
    ground (arith, get-insert m (prop_key w p) j (record { data_ptr = none; len = pos 0 })),
    record {
      entry = λ i v e. ground (
        arith,
        get-insert m (prop_key w p) i (record { data_ptr = none; len = pos 0 }),
        a.entry i v,
        empty_valid,
      );
    },
  )
    where
      empty_valid : IsValid (record { data_ptr = none; len = pos 0 })
      empty_valid = record { counted = refl }

  -- Removing a property tells whether it was there, makes a later get answer false with NULL and
  -- -1, and leaves every other property alone.
  pub remove_view :
      (m : Map) (w p : ℤ) (j : ℕ)
      → let (was_there, after) = qwsprop_remove hm m w p in
        (was_there ≡ is_some (view hm m (prop_key w p)))
        × (qwsprop_get hm after w p ≡ record { found = false; data_out = none; len_out = negsuc 0 })
        × (view hm after j ≡ (if prop_key w p == j then none else view hm m j))
  unfolding qwsprop_remove qwsprop_get
  remove_view m w p j = (
    ground arith,
    rw (get-erase m (prop_key w p) (prop_key w p), (==_iff (prop_key w p) (prop_key w p)).1 refl)
        refl,
    ground (arith, get-erase m (prop_key w p) j),
  )

  -- In a valid store, a get finds exactly the properties that are there, and answers their bytes
  -- and how many they are.
  pub get_view :
      (m : Map) (w p : ℤ)
      → AllValid hm m
      → let reply = qwsprop_get hm m w p in
        (reply.found ≡ is_some (view hm m (prop_key w p)))
        × (view hm m (prop_key w p)
            ≡ (if reply.found then some (bytes_of reply.data_out) else none))
        × (reply.len_out
            ≡ (if reply.found then pos (length (bytes_of reply.data_out)) else negsuc 0))
  unfolding qwsprop_get
  get_view m w p a = elim (Option-cases (get m (prop_key w p))) [
    | inl e ↦ rw e (refl, refl, refl)
    | inr (v, e) ↦ rw e (refl, refl, (a.entry (prop_key w p) v e).counted)
  ]

  -- The proxy's own replacement, in a valid store, stores the bytes for a property that is there,
  -- answers false for one that is not, leaves every other property alone, and keeps the store
  -- valid.
  pub replace_internal_view :
      (m : Map) (w p : ℤ) (bytes : Option (List ℕ)) (j : ℕ)
      → AllValid hm m
      → let (done, after) =
          qwsprop_replace_internal hm m w p bytes (pos (length (bytes_of bytes))) in
        (done ≡ is_some (view hm m (prop_key w p)))
        × (view hm after j
            ≡ (if done && (prop_key w p == j) then some (bytes_of bytes) else view hm m j))
        × AllValid hm after
  unfolding qwsprop_replace_internal
  replace_internal_view m w p bytes j a = elim (Option-cases (get m (prop_key w p))) [
    | inl e ↦ rw e (refl, refl, a)
    | inr (v, e) ↦ rw e (
      refl,
      view-update hm m (prop_key w p) j v _ e,
      update-AllValid hm m (prop_key w p) _ a (record { counted = refl }),
    )
  ]

-- If there is no memory for the new bytes, replacing a property that is there by at least one byte
-- answers true and changes nothing.
pub set_without_memory :
    (hm : HashMap PropVal) (m : hm.Map) (w p : ℤ) (b : ℕ) (new : List ℕ) (v : PropVal)
    → hm.get m (prop_key w p) ≡ some v
    → qwsprop_set hm (λ n. false) m w p prop_replace (b ∷ new) (pos (length (b ∷ new))) ≡ (true, m)
unfolding qwsprop_set set_value replace_value
set_without_memory hm m w p b new v e = rw e (ground arith)
