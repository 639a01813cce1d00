-- ===== src/Props/Laws.antt =====
-- The operations of proxy/property_store.c against a map from windows and properties to byte strings.
use qwswayland.Prelude.{
  ℕ, ◌≡◌, refl, sym, ap, ◌∙◌, Bool, true, ◌&&◌, Option, none, some, List, [], if◌then◌else◌, length,
  arith, ◌==◌, Bool-cases, Option-cases, inl, inr, ==_iff,
}
use qwswayland.Prelude.Int.{ℤ, pos}
use qwswayland.HashMap.{HashMap}
use qwswayland.Props.{
  PropVal, prop_key, bytes_of, Outcome, store, give_up, is_some, qwsprop_set, finish_set,
}
use qwswayland.Props.Store.{IsValid, combined, Meant, set_value-Meant}

abbrev pub bytes_opt : Option PropVal → Option (List ℕ)
bytes_opt none = none
bytes_opt (some v) = some (bytes_of v.data_ptr)

abbrev pub or_old : List ℕ → Option (List ℕ) → List ℕ
or_old old none = old
or_old old (some bs) = bs

-- The effect of a mode on an entry that is there or not.
abbrev pub after_set : ℤ → List ℕ → Option (List ℕ) → Option (List ℕ)
after_set mode new none = none
after_set mode new (some old) = some (or_old old (combined mode old new))

module _ (hm : HashMap PropVal) where
  open hm use {Map, get, insert, update, erase, get-insert, get-update, get-erase}

  -- The abstract store.
  abbrev pub view : Map → ℕ → Option (List ℕ)
  view m k = bytes_opt (get m k)

  pub record AllValid (m : Map) : Type 0 where
    pub entry : (k : ℕ) (v : PropVal) → get m k ≡ some v → IsValid v

  pub update-AllValid :
      (m : Map) (k : ℕ) (v : PropVal) → AllValid m → IsValid v → AllValid (update m k v)
  update-AllValid m k v a h = record {
    entry = λ j w e. ground (arith, get-update m k j v, a.entry j w);
  }

  pub view-update :
      (m : Map) (k j : ℕ) (old v : PropVal)
      → get m k ≡ some old
      → view (update m k v) j ≡ (if k == j then some (bytes_of v.data_ptr) else view m j)
  view-update m k j old v e = ground (arith, get-update m k j v)

module _ (hm : HashMap PropVal) (malloc_ok : ℕ → Bool)
    (has_memory : (n : ℕ) → malloc_ok n ≡ true) where
  open hm use {Map, get, insert, update, erase, get-insert, get-update, get-erase}

  -- What an outcome does to the view of every key.
  outcome_view :
      (m : Map) (k : ℕ) (old : PropVal) (c : Option (List ℕ)) (o : Outcome) (j : ℕ)
      → get m k ≡ some old
      → Meant c o
      → view hm (finish_set hm m k o).1 j
        ≡ (if k == j then some (or_old (bytes_of old.data_ptr) c) else view hm m j)
  outcome_view m k old none (store v) j e h = cc
  outcome_view m k old none (give_up b) j e h = ground arith
  outcome_view m k old (some bs) (store v) j e h = rw (view-update hm m k j old v e, h.1)
  outcome_view m k old (some bs) (give_up b) j e h = absurd h

  outcome_result :
      (m : Map) (k : ℕ) (c : Option (List ℕ)) (o : Outcome)
      → Meant c o
      → (finish_set hm m k o).0 ≡ is_some c
  outcome_result m k none (store v) h = cc
  outcome_result m k none (give_up b) h = ground arith
  outcome_result m k (some bs) (store v) h = refl
  outcome_result m k (some bs) (give_up b) h = absurd h

  outcome-AllValid :
      (m : Map) (k : ℕ) (c : Option (List ℕ)) (o : Outcome)
      → AllValid hm m
      → Meant c o
      → AllValid hm (finish_set hm m k o).1
  outcome-AllValid m k none (store v) a h = cc
  outcome-AllValid m k none (give_up b) a h = a
  outcome-AllValid m k (some bs) (store v) a h = update-AllValid hm m k v a h.0
  outcome-AllValid m k (some bs) (give_up b) a h = absurd h

  -- The same, where the view of the key is read back.
  outcome_view_at :
      (m : Map) (k : ℕ) (old : PropVal) (mode : ℤ) (new : List ℕ) (o : Outcome) (j : ℕ)
      → get m k ≡ some old
      → Meant (combined mode (bytes_of old.data_ptr) new) o
      → view hm (finish_set hm m k o).1 j
        ≡ (if k == j then after_set mode new (view hm m j) else view hm m j)
  outcome_view_at m k old mode new o j e h =
      outcome_view m k old (combined mode (bytes_of old.data_ptr) new) o j e h
      ∙ at_key k j m (bytes_of old.data_ptr) mode new (rw e refl)
    where
      at_key :
          (k j : ℕ) (m : Map) (bs : List ℕ) (mode : ℤ) (new : List ℕ)
          → view hm m k ≡ some bs
          → (if k == j then some (or_old bs (combined mode bs new)) else view hm m j)
            ≡ (if k == j then after_set mode new (view hm m j) else view hm m j)
      at_key k j m bs mode new e = elim (Bool-cases (k == j)) [
        | inl same ↦ let kj = (==_iff k j).0 same in rw (same, sym (ap (view hm m) kj), e) refl
        | inr other ↦ rw other refl
      ]

  combined_known :
      (mode : ℤ) (old new : List ℕ)
      → is_some (combined mode old new) ≡ is_some (combined mode [] new)
  unfolding combined
  combined_known mode old new = ground arith

  -- With memory, setting a property of a valid store replaces, prepends to or appends to the bytes
  -- of that property as the mode says, succeeds exactly if the property is there and the mode is
  -- known, leaves every other property alone, and keeps the store valid.
  pub set_view :
      (m : Map) (w p mode : ℤ) (new : List ℕ) (j : ℕ)
      → AllValid hm m
      → let (done, after) = qwsprop_set hm malloc_ok m w p mode new (pos (length new)) in
        (view hm after j
          ≡ (if prop_key w p == j then after_set mode new (view hm m j) else view hm m j))
        × (done ≡ (is_some (view hm m (prop_key w p)) && is_some (combined mode [] new)))
        × AllValid hm after
  unfolding qwsprop_set
  set_view m w p mode new j a =
      let k = prop_key w p in
      elim (Option-cases (get m k)) [
        | inl e ↦ rw e (ground arith, refl, a)
        | inr (old, e) ↦
            let meant = set_value-Meant malloc_ok has_memory mode new old (a.entry k old e) in
            rw e (
              outcome_view_at m k old mode new _ j e meant,
              outcome_result m k _ _ meant ∙ combined_known mode (bytes_of old.data_ptr) new,
              outcome-AllValid m k _ _ a meant,
            )
      ]
