-- ===== src/Examples/Properties.antt =====
-- The property store: proxy/property_store.c.
use qwswayland.Prelude.{
  ℕ, ◌≡◌, refl, Bool, true, false, ◌&&◌, none, some, List, [], ◌∷◌, if◌then◌else◌, ◌==◌, Bool-cases,
  inl, inr, ==_iff, subst, sym, ◌∙◌,
}
use qwswayland.Prelude.Int.{pos}
use qwswayland.HashMap.{HashMap, assoc_map}
use qwswayland.Props.{PropVal, prop_key, prop_append, is_some, qwsprop_set}
use qwswayland.Props.Store.{IsValid, combined}
use qwswayland.Props.Laws.{view, AllValid, after_set, set_view}

abbrev pub table : HashMap PropVal
table = assoc_map PropVal

abbrev pub letter : PropVal
letter = record { data_ptr = some (65 ∷ []); len = pos 1 }

-- Property 3 of window 7 holds the byte 65.
abbrev pub one_property : List (ℕ × PropVal)
one_property = (prop_key (pos 7) (pos 3), letter) ∷ []

letter-IsValid : IsValid letter
letter-IsValid = record { counted = refl }

pub found : table.get one_property (prop_key (pos 7) (pos 3)) ≡ some letter
found = rw ((==_iff (prop_key (pos 7) (pos 3)) (prop_key (pos 7) (pos 3))).1 refl) refl

some-eq : {x y : PropVal} → some x ≡ some y → x ≡ y
some-eq e = cc

no_entry : {x : PropVal} → ¬ (none ≡ some x)
no_entry e = cc

pub one-AllValid : AllValid table one_property
one-AllValid = record {
  entry = λ k v e. elim (Bool-cases (prop_key (pos 7) (pos 3) == k)) [
    | inl s ↦ subst IsValid (some-eq (sym (if_true k s) ∙ e)) letter-IsValid
    | inr s ↦ absurd (no_entry (sym (if_false k s) ∙ e))
  ];
}
  where
    if_true :
        (k : ℕ) → (prop_key (pos 7) (pos 3) == k) ≡ true → table.get one_property k ≡ some letter
    if_true k s = rw s refl

    if_false : (k : ℕ) → (prop_key (pos 7) (pos 3) == k) ≡ false → table.get one_property k ≡ none
    if_false k s = rw s refl

abbrev plenty : ℕ → Bool
plenty n = true

set_view_example :
    let (done, after) =
      qwsprop_set table plenty one_property (pos 7) (pos 3) prop_append (66 ∷ []) (pos 1) in
    (view table after (prop_key (pos 7) (pos 3)) ≡ (
      if prop_key (pos 7) (pos 3) == prop_key (pos 7) (pos 3)
      then after_set prop_append (66 ∷ []) (view table one_property (prop_key (pos 7) (pos 3)))
      else view table one_property (prop_key (pos 7) (pos 3))))
    × (done ≡ (
        is_some (view table one_property (prop_key (pos 7) (pos 3)))
        && is_some (combined prop_append [] (66 ∷ []))))
    × AllValid table after
set_view_example =
    set_view table plenty (λ n. refl) one_property (pos 7) (pos 3) prop_append (66 ∷ [])
      (prop_key (pos 7) (pos 3)) one-AllValid
