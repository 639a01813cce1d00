-- ===== src/Clipboard/Reads.antt =====
-- What the clients read from the clipboard: qwswl_clipboard_get of proxy/clipboard.c after a client
-- has set it.
use qwswayland.Prelude.{
  ℕ, ◌≡◌, refl, sym, ap, subst, ◌∙◌, Bool, true, none, some, List, [], if◌then◌else◌, length, arith,
  Option-cases, inl, inr, ==_iff, some-inj,
}
use qwswayland.Prelude.Int.{ℤ, pos, negsuc}
use qwswayland.HashMap.{HashMap}
use qwswayland.Props.{
  PropVal, Answer, prop_key, bytes_of, is_some, qwsprop_add, qwsprop_remove, qwsprop_get,
}
use qwswayland.Props.Laws.{view, AllValid}
use qwswayland.Props.Entries.{or_empty, add_view, get_view}
use qwswayland.Client.Windows.{Present}
use qwswayland.Dispatch.{text_clipboard}
use qwswayland.Clipboard.{Converters, Board, qwswl_clipboard_get}

abbrev pub clipboard_key : ℕ
clipboard_key = prop_key (pos 0) text_clipboard

-- An answer with these bytes and their number.
abbrev pub Reads : Answer → List ℕ → Type 0
Reads reply bytes = (bytes_of reply.data_out ≡ bytes) × (reply.len_out ≡ pos (length bytes))

module _ (store : HashMap PropVal) (windows : HashMap ℕ) (interests : HashMap Present) where
  pub remove-AllValid :
      (m : store.Map) (w p : ℤ) → AllValid store m → AllValid store (qwsprop_remove store m w p).1
  unfolding qwsprop_remove
  remove-AllValid m w p a = record {
    entry = λ k v e. ground (arith, store.get-erase m (prop_key w p) k, a.entry k v);
  }

  -- A property of a valid store, with its bytes.
  unfoldable pub Holds : store.Map → List ℕ → Type 0
  Holds m bytes = (view store m clipboard_key ≡ some bytes) × AllValid store m

  reply-Reads :
      (reply : Answer) (bytes : List ℕ)
      → reply.found ≡ true
      → some bytes ≡ (if reply.found then some (bytes_of reply.data_out) else none)
      → reply.len_out ≡ (if reply.found then pos (length (bytes_of reply.data_out)) else negsuc 0)
      → Reads reply bytes
  reply-Reads reply bytes f e l =
      let same =
        some-inj
          (subst (λ b. some bytes ≡ (if b then some (bytes_of reply.data_out) else none)) f e) in
      let len =
        subst
          (λ b. reply.len_out ≡ (if b then pos (length (bytes_of reply.data_out)) else negsuc 0)) f
          l in
      (sym same, len ∙ ap (λ bs. pos (length bs)) (sym same))

  get-Reads :
      (m : store.Map) (bytes : List ℕ)
      → Holds m bytes
      → let reply = qwsprop_get store m (pos 0) text_clipboard in
        (reply.found ≡ true) × Reads reply bytes
  unfolding Holds
  get-Reads m bytes (v, a) =
      let (found, same, len) = get_view store m (pos 0) text_clipboard a in
      let there = found ∙ ap is_some v in
      (
        there,
        reply-Reads (qwsprop_get store m (pos 0) text_clipboard) bytes there (sym v ∙ same) len,
      )

  pub added :
      (m : store.Map)
      → AllValid store m
      → (old : List ℕ) × Holds (qwsprop_add store true m (pos 0) text_clipboard).1 old
  unfolding Holds
  added m a =
      let (done, seen, valid) = add_view store true m (pos 0) text_clipboard clipboard_key a in
      let here =
        seen
        ∙ ap (λ b. if b then or_empty (view store m clipboard_key) else view store m clipboard_key)
            ((==_iff clipboard_key clipboard_key).1 refl) in
      elim (Option-cases (view store m clipboard_key)) [
        | inl e ↦ ([], (here ∙ ap or_empty e, valid))
        | inr (old, e) ↦ (old, (here ∙ ap or_empty e, valid))
      ]

  module _ (conversions : Converters) (malloc_ok : ℕ → Bool)
      (has_memory : (n : ℕ) → malloc_ok n ≡ true) where
    pub cached_get :
        (s : Board store windows interests) (bytes : List ℕ)
        → Holds s.prop_store bytes
        → let (s', reply) =
            qwswl_clipboard_get store windows interests conversions true malloc_ok s in
          (s' ≡ s) × (reply.found ≡ true) × Reads reply bytes
    unfolding qwswl_clipboard_get
    cached_get s bytes h =
        let (there, reads) = get-Reads s.prop_store bytes h in rw there (refl, there, reads)
