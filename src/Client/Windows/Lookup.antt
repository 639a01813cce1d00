-- ===== src/Client/Windows/Lookup.antt =====
-- Windows found by id, and subscriptions, in proxy/client.c.
use qwswayland.Prelude.{
  ℕ, ◌≡◌, refl, sym, ap, ap₂, ◌∙◌, Bool, true, false, not, ◌&&◌, ◌||◌, Option, none, some, List, [],
  ◌∷◌, ◌==◌, if◌then◌else◌, arith, Bool-cases, Option-cases, inl, inr, ==_iff,
}
use qwswayland.Prelude.Int.{ℤ, pos, ltb_ℤ, to_word, eqb_ℤ, eqb_ℤ_iff, InInt32}
use qwswayland.HashMap.{HashMap}
use qwswayland.Props.{prop_key}
use qwswayland.Props.Store.{prop_key-injective}
use qwswayland.Client.{
  Window, qwswl_allocate_window_with_id, push_window_to_stack, insert_at_boundary,
}
use qwswayland.Client.Stack.{IsDistinct}
use qwswayland.Client.Order.{others, distinct_erase}
use qwswayland.Client.Windows.{
  Present, present, Client, qwswl_client_subscribe, qwswl_client_unsubscribe,
  qwswl_client_is_subscribed, qwswl_find_or_allocate_window, qwswl_remove_window_from_client,
}

-- The window is in the stack.
abbrev pub stands : ℕ → List Window → Bool
stands address [] = false
stands address (w ∷ ws) = (w.address == address) || stands address ws

pub insert-stands :
    (ws : List Window) (w : Window) → stands w.address (insert_at_boundary ws w) ≡ true
unfolding insert_at_boundary
insert-stands [] w = rw ((==_iff w.address w.address).1 refl) refl
insert-stands (v ∷ ws) w = ground (arith, insert-stands ws w, (==_iff w.address w.address).1 refl)

pub self_eq : (k : ℕ) → (k == k) ≡ true
self_eq k = (==_iff k k).1 refl

module _ {V : Type 0} (hm : HashMap V) where
  erase_others :
      (m : hm.Map) (k j : ℕ) → (if k == j then Unit else hm.get (hm.erase m k) j ≡ hm.get m j)
  erase_others m k j = elim (Bool-cases (k == j)) [
    | inl s ↦ rw s tt
    | inr s ↦ rw s (hm.get-erase m k j ∙ rw s refl)
  ]

and_left : (a b : Bool) → a && b ≡ true → a ≡ true
and_left a b e = ground arith

and_right : (a b : Bool) → a && b ≡ true → b ≡ true
and_right a b e = ground arith

same_keys :
    (w p w' p' : ℤ)
    → InInt32 w
    → InInt32 p
    → InInt32 w'
    → InInt32 p'
    → (prop_key w p == prop_key w' p') ≡ (eqb_ℤ w w' && eqb_ℤ p p')
same_keys w p w' p' iw ip iw' ip' = elim (Bool-cases (prop_key w p == prop_key w' p')) [
  | inl s ↦
      let (a, b) =
        prop_key-injective w p w' p' iw ip iw' ip' ((==_iff (prop_key w p) (prop_key w' p')).0 s) in
      rw (s, (eqb_ℤ_iff w w').1 a, (eqb_ℤ_iff p p').1 b) refl
  | inr s ↦ elim (Bool-cases (eqb_ℤ w w' && eqb_ℤ p p')) [
    | inl t ↦
        let same : prop_key w p ≡ prop_key w' p' =
          ap₂ prop_key ((eqb_ℤ_iff w w').0 (and_left (eqb_ℤ w w') (eqb_ℤ p p') t))
            ((eqb_ℤ_iff p p').0 (and_right (eqb_ℤ w w') (eqb_ℤ p p') t)) in
        ap (λ k. k == prop_key w' p') same ∙ self_eq (prop_key w' p') ∙ sym t
    | inr t ↦ s ∙ sym t
  ]
]

unchanged : (b : Bool) (a : Option ℕ) → (if b then Unit else a ≡ a)
unchanged true a = tt
unchanged false a = refl

pub push-stands :
    (ws : List Window) (fresh : ℕ) (id : ℤ)
    → stands fresh (push_window_to_stack ws (qwswl_allocate_window_with_id fresh id)) ≡ true
unfolding push_window_to_stack qwswl_allocate_window_with_id
push-stands ws fresh id = insert-stands ws (qwswl_allocate_window_with_id fresh id)

module _ (windows : HashMap ℕ) (interests : HashMap Present) where
  -- The window of an id, as the client's map has it.
  abbrev pub window_of : Client windows interests → ℤ → Option ℕ
  window_of cl id = windows.get cl.window_map (to_word id)

  pub found_known :
      (cl : Client windows interests) (fresh : ℕ) (id : ℤ) (address : ℕ)
      → ltb_ℤ (pos 0) id ≡ true
      → window_of cl id ≡ some address
      → qwswl_find_or_allocate_window windows interests cl fresh id ≡ some (address, cl)
  unfolding qwswl_find_or_allocate_window
  found_known cl fresh id address positive e = rw (positive, e) refl

  -- The client with a new window.
  abbrev pub with_new : Client windows interests → ℕ → ℤ → Client windows interests
  with_new cl fresh id = record cl {
    window_map = windows.insert cl.window_map (to_word id) fresh;
    window_stack = push_window_to_stack cl.window_stack (qwswl_allocate_window_with_id fresh id);
  }

  pub found_new :
      (cl : Client windows interests) (fresh : ℕ) (id : ℤ)
      → ltb_ℤ (pos 0) id ≡ true
      → window_of cl id ≡ none
      → qwswl_find_or_allocate_window windows interests cl fresh id
        ≡ some (fresh, with_new cl fresh id)
  unfolding qwswl_find_or_allocate_window
  found_new cl fresh id positive e = ground (arith, positive, e)

  -- For a stack without repetition, removing a window takes the id out of the map and the window
  -- out of the stack, keeps the order of the other windows and the windows of the ids with another
  -- bit pattern, and keeps the stack for an unknown id.
  pub remove_window_lem :
      (cl : Client windows interests) (id other : ℤ)
      → IsDistinct cl.window_stack
      → let after = qwswl_remove_window_from_client windows interests cl id in
        (window_of after id ≡ none)
        × (if to_word id == to_word other then Unit else window_of after other ≡ window_of cl other)
        × (after.window_stack ≡ (elim (window_of cl id) [
          | none ↦ cl.window_stack
          | some address ↦ others address cl.window_stack
        ]))
  unfolding qwswl_remove_window_from_client
  remove_window_lem cl id other d = elim (Option-cases (window_of cl id)) [
    | inl e ↦ rw e (e, unchanged (to_word id == to_word other) (window_of cl other), refl)
    | inr (address, e) ↦ rw e (
      rw (windows.get-erase cl.window_map (to_word id) (to_word id), self_eq (to_word id)) refl,
      erase_others windows cl.window_map (to_word id) (to_word other),
      distinct_erase address cl.window_stack d,
    )
  ]

  -- For 32-bit ids, a client is subscribed to a property once it has subscribed, and no longer once
  -- it has unsubscribed; all its other subscriptions stay as they were.
  pub subscriptions_lem :
      (cl : Client windows interests) (w p w' p' : ℤ)
      → InInt32 w
      → InInt32 p
      → InInt32 w'
      → InInt32 p'
      → let same = eqb_ℤ w w' && eqb_ℤ p p' in
        let subscribed = qwswl_client_is_subscribed windows interests in
        (subscribed (qwswl_client_subscribe windows interests cl w p) w' p'
          ≡ (same || subscribed cl w' p'))
        × (subscribed (qwswl_client_unsubscribe windows interests cl w p) w' p'
            ≡ (not same && subscribed cl w' p'))
  unfolding qwswl_client_subscribe qwswl_client_unsubscribe qwswl_client_is_subscribed
  subscriptions_lem cl w p w' p' iw ip iw' ip' =
      let keys = same_keys w p w' p' iw ip iw' ip' in
      (
        ground (
          arith,
          interests.get-insert cl.subscriptions (prop_key w p) (prop_key w' p') present,
          keys,
        ),
        ground (arith, interests.get-erase cl.subscriptions (prop_key w p) (prop_key w' p'), keys),
      )
