-- ===== src/Dispatch/Notices.antt =====
-- What clients get to know of properties through the commands in proxy/proxy.c.
use qwswayland.Prelude.{
  ℕ, zero, suc, ◌≡◌, refl, sym, subst, ap, ◌∙◌, Bool, true, false, Option, none, some, List, [],
  ◌∷◌, if◌then◌else◌, get_elem?, length, Bool-cases, inl, inr, ==_iff, ◌⊎◌,
}
use qwswayland.Prelude.Int.{ℤ, pos, negsuc, InInt32, eqb_ℤ_iff}
use qwswayland.HashMap.{HashMap}
use qwswayland.Props.{PropVal, prop_key, prop_replace, bytes_of, Answer, qwsprop_set, qwsprop_get}
use qwswayland.Props.Store.{combined}
use qwswayland.Props.Laws.{view, AllValid, set_view}
use qwswayland.Props.Entries.{get_view}
use qwswayland.Client.Windows.{Present, Client, qwswl_client_subscribe, qwswl_client_is_subscribed}
use qwswayland.Client.Windows.Lookup.{subscriptions_lem}
use qwswayland.Dispatch.{
  Effect, notify, reply, add_property, set_property, get_property, is_clipboard, update_at, Server,
  qwswl_broadcast_property_notify, reply_answer, client_id_at, dispatch_property, notify_changed,
}

some_eq : {A : Type 0} {x y : A} → some x ≡ some y → x ≡ y
some_eq e = cc

no_entry : {A : Type 0} {x : A} → ¬ (some x ≡ none)
no_entry e = cc

-- The effect is one of the list.
abbrev pub Among : Effect → List Effect → Type 0
Among e [] = ⊥
Among e (f ∷ fs) = (e ≡ f) ⊎ Among e fs

module _ (store : HashMap PropVal) (windows : HashMap ℕ) (interests : HashMap Present) where
  -- A reply with these bytes.
  abbrev pub RepliesWith : ℤ → ℤ → ℤ → List ℕ → List Effect → Type 0
  RepliesWith client w p bytes effects =
      (data_out : Option (List ℕ)) × (effects ≡ reply client w p data_out (pos (length bytes)) ∷ [])
      × (bytes_of data_out ≡ bytes)

  replied :
      (client w p : ℤ) (bytes : List ℕ) (found : Answer)
      → some bytes ≡ (if found.found then some (bytes_of found.data_out) else none)
      → found.len_out ≡ (if found.found then pos (length (bytes_of found.data_out)) else negsuc 0)
      → RepliesWith client w p bytes (reply_answer store windows interests client w p found)
  replied client w p bytes found e l = elim (Bool-cases found.found) [
    | inl f ↦
        let same =
          some_eq
            (subst (λ b. some bytes ≡ (if b then some (bytes_of found.data_out) else none)) f e) in
        let len =
          subst
            (λ b. found.len_out ≡ (if b then pos (length (bytes_of found.data_out)) else negsuc 0))
            f l in
        (
          found.data_out,
          ap (λ n. reply client w p found.data_out n ∷ [])
              (len ∙ ap (λ bs. pos (length bs)) (sym same)),
          sym same,
        )
    | inr f ↦ absurd (
        no_entry
          (subst (λ b. some bytes ≡ (if b then some (bytes_of found.data_out) else none)) f e))
  ]

  pub replaced :
      (malloc_ok : ℕ → Bool) (has_memory : (n : ℕ) → malloc_ok n ≡ true) (m : store.Map) (w p : ℤ)
      (old bytes : List ℕ)
      → AllValid store m
      → view store m (prop_key w p) ≡ some old
      → let after = (qwsprop_set store malloc_ok m w p prop_replace bytes (pos (length bytes))).1 in
        (view store after (prop_key w p) ≡ some bytes) × AllValid store after
  unfolding combined
  replaced malloc_ok has_memory m w p old bytes a v =
      let (seen, done, valid) =
        set_view store malloc_ok has_memory m w p prop_replace bytes (prop_key w p) a in
      (seen ∙ rw ((==_iff (prop_key w p) (prop_key w p)).1 refl, v) refl, valid)

  -- With memory, a property that is there, in a valid store, and is not the clipboard, is read by
  -- any client as it was last replaced by any client: the get sends one reply with those bytes and
  -- their number.
  pub set_then_get :
      (table_ok : Bool) (malloc_ok : ℕ → Bool) (s : Server store windows interests) (i j : ℕ)
      (w p : ℤ) (old bytes : List ℕ)
      → ((n : ℕ) → malloc_ok n ≡ true)
      → AllValid store s.prop_store
      → view store s.prop_store (prop_key w p) ≡ some old
      → is_clipboard w p ≡ false
      → let run = dispatch_property store windows interests table_ok malloc_ok in
        let after = (run s i (set_property w p prop_replace bytes (pos (length bytes)))).0 in
        RepliesWith
          (client_id_at store windows interests s.clients j)
          w
          p
          bytes
          (run after j (get_property w p)).1
  unfolding dispatch_property
  set_then_get table_ok malloc_ok s i j w p old bytes has_memory a v c =
      let (seen, valid) = replaced malloc_ok has_memory s.prop_store w p old bytes a v in
      let m' =
        (qwsprop_set store malloc_ok s.prop_store w p prop_replace bytes (pos (length bytes))).1 in
      let (found, same, len) = get_view store m' w p valid in
      rw c (
        replied (client_id_at store windows interests s.clients j) w p bytes
          (qwsprop_get store m' w p) (sym seen ∙ same) len)

  broadcast_reaches :
      (clients : List (Client windows interests)) (i : ℕ) (cl : Client windows interests)
      (w p state : ℤ)
      → get_elem? clients i ≡ some cl
      → qwswl_client_is_subscribed windows interests cl w p ≡ true
      → Among
          (notify cl.client_id w p state)
          (qwswl_broadcast_property_notify store windows interests clients w p state)
  unfolding qwswl_broadcast_property_notify
  broadcast_reaches [] i cl w p state e h = cc
  broadcast_reaches (c ∷ clients) zero cl w p state e h =
      let rest = qwswl_broadcast_property_notify store windows interests clients w p state in
      subst
        (λ d. Among (notify cl.client_id w p state) (
          if qwswl_client_is_subscribed windows interests d w p
          then notify d.client_id w p state ∷ rest
          else rest))
        (sym (some_eq e)) (rw h (inl refl))
  broadcast_reaches (c ∷ clients) (suc i) cl w p state e h =
      elim (Bool-cases (qwswl_client_is_subscribed windows interests c w p)) [
        | inl t ↦ rw t (inr (broadcast_reaches clients i cl w p state e h))
        | inr t ↦ rw t (broadcast_reaches clients i cl w p state e h)
      ]

  get-update_at :
      {A : Type 0} (f : A → A) (xs : List A) (i : ℕ) (x : A)
      → get_elem? xs i ≡ some x
      → get_elem? (update_at i f xs) i ≡ some (f x)
  get-update_at f [] i x e = cc
  get-update_at f (y ∷ xs) zero x e = cc
  get-update_at f (y ∷ xs) (suc i) x e = get-update_at f xs i x e

  -- For 32-bit ids, a client that has added a property other than the clipboard is notified, under
  -- its own id, when any client sets the property next, whatever the mode and the bytes.
  pub subscriber_notified :
      (table_ok : Bool) (malloc_ok : ℕ → Bool) (s : Server store windows interests) (i j : ℕ)
      (cl : Client windows interests) (w p mode : ℤ) (bytes : List ℕ) (len : ℤ)
      → InInt32 w
      → InInt32 p
      → get_elem? s.clients i ≡ some cl
      → is_clipboard w p ≡ false
      → let run = dispatch_property store windows interests table_ok malloc_ok in
        let after = (run s i (add_property w p)).0 in
        Among
          (notify cl.client_id w p notify_changed)
          (run after j (set_property w p mode bytes len)).1
  unfolding dispatch_property qwswl_client_subscribe
  subscriber_notified table_ok malloc_ok s i j cl w p mode bytes len iw ip at c =
      let subscribed = (subscriptions_lem windows interests cl w p w p iw ip iw ip).0 in
      rw c (
        broadcast_reaches _ i (qwswl_client_subscribe windows interests cl w p) w p notify_changed
          (get-update_at (λ d. qwswl_client_subscribe windows interests d w p) s.clients i cl at)
          (subscribed ∙ rw ((eqb_ℤ_iff w w).1 refl, (eqb_ℤ_iff p p).1 refl) refl))
