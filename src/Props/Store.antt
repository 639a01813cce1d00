-- ===== src/Props/Store.antt =====
-- What the property store (proxy/property_store.c) holds for each window and property.
use mathlib.Core.List.{append-nil}
use qwswayland.Prelude.{
  ℕ, suc, lt→ltb, ◌+◌, ◌≡◌, refl, sym, ap, ◌∙◌, Bool, true, false, Option, none, some, List, [],
  ◌∷◌, ◌++◌, if◌then◌else◌, take, length, arith, length-append, Bool-cases, inl, inr,
}
use qwswayland.Prelude.Int.{
  ℤ, pos, ◌+ℤ◌, ltb_ℤ, eqb_ℤ, to_word, of_word, to_word-lt, of_word-to_word, InInt32,
}
use qwswayland.Wire.Packet.{to_size}
use qwswayland.Wire.Reader.Phases.{take_all}
use qwswayland.Props.{
  PropVal, prop_key, prop_replace, prop_prepend, prop_append, bytes_of, Outcome, store, give_up,
  set_value, replace_value, prepend_value, append_value,
}

-- Two pairs of 32-bit ids with the same key are the same pair.
pub prop_key-injective :
    (w p w' p' : ℤ)
    → InInt32 w
    → InInt32 p
    → InInt32 w'
    → InInt32 p'
    → prop_key w p ≡ prop_key w' p'
    → (w ≡ w') × (p ≡ p')
unfolding prop_key
prop_key-injective w p w' p' iw ip iw' ip' e =
    let windows : to_word w ≡ to_word w' = omega (arith, to_word-lt p, to_word-lt p') in
    let properties : to_word p ≡ to_word p' = omega (arith, to_word-lt p, to_word-lt p') in
    (
      sym (of_word-to_word w iw) ∙ ap of_word windows ∙ of_word-to_word w' iw',
      sym (of_word-to_word p ip) ∙ ap of_word properties ∙ of_word-to_word p' ip',
    )

-- A stored value: `len` counts the bytes, and NULL stands for none.
pub record IsValid (v : PropVal) : Type 0 where
  pub counted : v.len ≡ pos (length (bytes_of v.data_ptr))

-- What a mode means for the bytes that are there.
unfoldable pub combined : ℤ → List ℕ → List ℕ → Option (List ℕ)
combined mode old new =
    if eqb_ℤ mode prop_replace
    then some new
    else if eqb_ℤ mode prop_prepend
    then some (new ++ old)
    else if eqb_ℤ mode prop_append
    then some (old ++ new)
    else none

abbrev pub value_of : List ℕ → PropVal
value_of [] = record { data_ptr = none; len = pos 0 }
value_of (b ∷ bs) = record { data_ptr = some (b ∷ bs); len = pos (suc (length bs)) }

-- A value that a mode makes is valid, and holds the bytes that the mode means.
abbrev pub Makes : List ℕ → Outcome → Type 0
Makes bs (store v) = IsValid v × (bytes_of v.data_ptr ≡ bs)
Makes bs (give_up b) = ⊥

abbrev pub Meant : Option (List ℕ) → Outcome → Type 0
Meant none o = o ≡ give_up false
Meant (some bs) o = Makes bs o

pos_add : (a b c : ℕ) → a + b ≡ c → pos a +ℤ pos b ≡ pos c
unfolding ◌+ℤ◌
pos_add a b c e = ground arith

module _ (malloc_ok : ℕ → Bool) (has_memory : (n : ℕ) → malloc_ok n ≡ true) where
  whole : (bs : List ℕ) → take (length bs) bs ≡ bs
  whole bs = take_all (length bs) bs (omega arith)

  replace-Makes :
      (new : List ℕ) (v : PropVal) → Makes new (replace_value malloc_ok new (pos (length new)) v)
  unfolding replace_value
  replace-Makes [] v = (record { counted = refl }, refl)
  replace-Makes (b ∷ new) v =
      rw (lt→ltb 0 (suc (length new) + 0) (omega arith), has_memory (suc (length new)), whole new)
        (record { counted = refl }, refl)

  optional :
      (bs : List ℕ) (len : ℤ)
      → len ≡ pos (length bs)
      → (if ltb_ℤ (pos 0) len then take (to_size len) bs else []) ≡ bs
  optional [] len e = rw e
  optional (b ∷ bs) len e =
      rw (e, lt→ltb 0 (suc (length bs) + 0) (omega arith)) (ap (λ l. b ∷ l) (whole bs))

  prepend-Makes :
      (new : List ℕ) (v : PropVal)
      → IsValid v
      → Makes (new ++ bytes_of v.data_ptr) (prepend_value malloc_ok new (pos (length new)) v)
  unfolding prepend_value
  prepend-Makes [] v h = (h, refl)
  prepend-Makes (b ∷ new) v h =
      rw
        (
          lt→ltb 0 (suc (length new) + 0) (omega arith),
          has_memory (to_size (pos (suc (length new)) +ℤ v.len)),
          whole new,
          optional (bytes_of v.data_ptr) v.len h.counted,
        )
        (
          record {
            counted =
                rw (h.counted, length-append new (bytes_of v.data_ptr))
                  (pos_add (suc (length new)) _ _ (omega arith));
          },
          refl,
        )

  append-Makes :
      (new : List ℕ) (v : PropVal)
      → IsValid v
      → Makes (bytes_of v.data_ptr ++ new) (append_value malloc_ok new (pos (length new)) v)
  unfolding append_value
  append-Makes [] v h = (h, sym (append-nil (bytes_of v.data_ptr)))
  append-Makes (b ∷ new) v h =
      rw
        (
          lt→ltb 0 (suc (length new) + 0) (omega arith),
          has_memory (to_size (v.len +ℤ pos (suc (length new)))),
          whole new,
          h.counted,
          whole (bytes_of v.data_ptr),
        )
        (
          record {
            counted =
                rw (length-append (bytes_of v.data_ptr) (b ∷ new))
                  (pos_add _ (suc (length new)) _ refl);
          },
          refl,
        )

  pub set_value-Meant :
      (mode : ℤ) (new : List ℕ) (v : PropVal)
      → IsValid v
      → Meant
          (combined mode (bytes_of v.data_ptr) new)
          (set_value malloc_ok mode new (pos (length new)) v)
  unfolding set_value combined
  set_value-Meant mode new v h = elim (Bool-cases (eqb_ℤ mode prop_replace)) [
    | inl r ↦ rw r (replace-Makes new v)
    | inr r ↦ elim (Bool-cases (eqb_ℤ mode prop_prepend)) [
      | inl p ↦ rw (r, p) (prepend-Makes new v h)
      | inr p ↦ elim (Bool-cases (eqb_ℤ mode prop_append)) [
        | inl a ↦ rw (r, p, a) (append-Makes new v h)
        | inr a ↦ rw (r, p, a) refl
      ]
    ]
  ]
