-- ===== src/Clipboard/Receives.antt =====
-- What the clients read from the clipboard after another program has set it, in proxy/clipboard.c.
use qwswayland.Prelude.{
  ℕ, ◌+◌, ◌*◌, ◌/◌, ◌≡◌, refl, ap, ap₂, ◌∙◌, Bool, true, false, not, ◌&&◌, ◌||◌, none, some, List,
  ◌==◌, leb, if◌then◌else◌, length, arith, Option-cases, inl, inr,
}
use qwswayland.Prelude.Int.{pos, negsuc}
use qwswayland.Wire.Packet.{to_size}
use qwswayland.HashMap.{HashMap}
use qwswayland.Props.{
  PropVal, Answer, bytes_of, qwsprop_add, qwsprop_remove, qwsprop_get, qwsprop_replace_internal,
}
use qwswayland.Props.Entries.{remove_view}
use qwswayland.Client.Windows.{Present}
use qwswayland.Dispatch.{Effect, text_clipboard}
use qwswayland.Clipboard.{
  Converters, Transfer, Board, memfd_reset, qws_convert_from_utf16, qws_convert_to_utf16, broadcast,
  with_property, read_map, converted, qwswl_clipboard_set, qwswl_clipboard_get,
}
use qwswayland.Clipboard.Reads.{clipboard_key, Reads}

module _ (store : HashMap PropVal) (windows : HashMap ℕ) (interests : HashMap Present) where
  module _ (conversions : Converters) (malloc_ok : ℕ → Bool)
      (has_memory : (n : ℕ) → malloc_ok n ≡ true) where
    -- A selection from another program, of text, that is received completely.
    pub record Received (s : Board store windows interests) (t : Transfer) (text : List ℕ)
        : Type 0 where
      pub no_source : s.clipboard.source ≡ none
      pub pipe_made : t.pipe_ok ≡ true
      pub file_made : t.memfd_ok ≡ true
      pub mapped : t.mmap_ok ≡ true
      pub some_bytes : (length t.received == 0) ≡ false
      pub text_is : conversions.utf8_to_utf16 t.received ≡ some text
      pub short : leb (length text) (length t.received * 2 + 2) ≡ true
      pub allocated : conversions.calloc_ok ≡ true

    received_board : Board store windows interests → Transfer → Board store windows interests
    received_board s t = record s {
      prop_store = (qwsprop_remove store s.prop_store (pos 0) text_clipboard).1;
      clipboard = record s.clipboard { memfd = true; memfd_map = some t.received };
    }

    -- The board after the first read of a board whose property is not there.
    cached_board : Board store windows interests → List ℕ → Board store windows interests
    cached_board s bytes = record s {
      clipboard = record s.clipboard { memfd_map = none };
      prop_store =
          (qwsprop_replace_internal store
            (qwsprop_add store true s.prop_store (pos 0) text_clipboard).1 (pos 0) text_clipboard
            (some bytes) (pos (length bytes))).1;
    }

    uncached_get :
        (s : Board store windows interests) (utf8 bytes : List ℕ)
        → s.clipboard.device ≡ true
        → s.clipboard.memfd_map ≡ some utf8
        → qwsprop_get store s.prop_store (pos 0) text_clipboard
          ≡ record { found = false; data_out = none; len_out = negsuc 0 }
        → qws_convert_to_utf16 conversions utf8 ≡ some bytes
        → qwswl_clipboard_get store windows interests conversions true malloc_ok s ≡ (
          cached_board s bytes,
          record { found = false; data_out = some bytes; len_out = pos (length bytes) },
        )
    unfolding qwswl_clipboard_get cached_board memfd_reset
    uncached_get s utf8 bytes dev map missing conv =
        let no_entry : Answer = record { found = false; data_out = none; len_out = negsuc 0 } in
        ap₂
          (λ (c : Answer) (d : Bool).
            if c.found || not d
            then (s, c)
            else read_map store windows interests conversions true malloc_ok s c
                s.clipboard.memfd_map)
          missing dev
        ∙ ap (read_map store windows interests conversions true malloc_ok s no_entry) map
        ∙ ap (converted store windows interests conversions true malloc_ok s no_entry) conv

    -- What QWS_CMD_REMOVE_PROPERTY does to the clipboard's property.
    abbrev pub without_property : Board store windows interests → Board store windows interests
    without_property s = record s {
      prop_store = (qwsprop_remove store s.prop_store (pos 0) text_clipboard).1;
    }

    removed-Reads :
        (s : Board store windows interests) (old stale : List ℕ)
        → s.clipboard.device ≡ true
        → s.clipboard.memfd_map ≡ some old
        → qws_convert_to_utf16 conversions old ≡ some stale
        → Reads
            (qwswl_clipboard_get store windows interests conversions true malloc_ok
              (without_property s)).1
            stale
    removed-Reads s old stale dev map conv =
        let (was, missing, gone) =
          remove_view store s.prop_store (pos 0) text_clipboard clipboard_key in
        let g = uncached_get (without_property s) old stale dev map missing conv in
        (ap (λ p. bytes_of p.1.data_out) g, ap (λ p. p.1.len_out) g)

    -- With a data device, after a client has set the clipboard and its property has been removed, a
    -- read gives the text of an earlier selection whose mapping is still there and converts,
    -- whatever has been set.
    pub stale_after_remove :
        (s : Board store windows interests) (src : ℕ) (bytes old stale : List ℕ)
        → s.clipboard.manager && s.clipboard.device ≡ true
        → s.clipboard.memfd_map ≡ some old
        → qws_convert_to_utf16 conversions old ≡ some stale
        → (s' : Board store windows interests) × (es : List Effect) × (qwswl_clipboard_set store
              windows interests conversions true malloc_ok s src bytes
              (pos (length bytes))
            ≡ some (s', es))
          × Reads
              (qwswl_clipboard_get store windows interests conversions true malloc_ok
                (without_property s')).1
              stale
    unfolding qwswl_clipboard_set
    stale_after_remove s src bytes old stale there map conv =
        let s1 =
          with_property store windows interests conversions true malloc_ok s bytes
            (pos (length bytes)) in
        let es = broadcast store windows interests s in
        let dev : s.clipboard.device ≡ true = ground (arith, there) in
        elim (Option-cases
          (qws_convert_from_utf16 conversions bytes (to_size (pos (length bytes)) / 2))) [
            | inl e ↦ (s1, es, rw e refl, removed-Reads s1 old stale dev map conv)
            | inr (utf8, e) ↦
                let s2 : Board store windows interests = record s1 {
                  clipboard = record s.clipboard { utf8 = some utf8; source = some src };
                } in
                (s2, es, rw (e, there) refl, removed-Reads s2 old stale dev map conv)
          ]
