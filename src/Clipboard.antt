-- ===== src/Clipboard.antt =====
-- The clipboard: proxy/clipboard.c and proxy/clipboard.h, and the conversions of
-- libqwsproto/qws_unicode.c. iconv, the pipes and the compositor are arguments. A file or mapping is
-- its bytes; Wayland objects are numbers or only there. `none` is a read through a NULL pointer.
pub mod Reads
pub mod Receives
pub mod Limits
pub mod Sends
use qwswayland.Prelude.{
  ℕ, ◌+◌, ◌*◌, ◌/◌, Bool, true, false, not, ◌&&◌, ◌||◌, Option, none, some, List, [], ◌∷◌, ◌++◌,
  ◌==◌, leb, ltb, if◌then◌else◌, ◌>>=◌, length, take, drop, replicate,
}
use qwswayland.Prelude.Int.{ℤ, pos}
use qwswayland.Wire.Packet.{to_size}
use qwswayland.HashMap.{HashMap}
use qwswayland.Props.{
  PropVal, Answer, is_some, prop_replace, qwsprop_add, qwsprop_set, qwsprop_remove, qwsprop_get,
  qwsprop_replace_internal,
}
use qwswayland.Client.Windows.{Present, Client}
use qwswayland.Dispatch.{Effect, text_clipboard, notify_changed, qwswl_broadcast_property_notify}

-- run_iconv on bytes that are converted completely or not at all: the result with the zeros behind it
-- that count as its end. iconv makes at most two bytes of one here, which the buffer allows for.
unfoldable pub run_iconv : (List ℕ → Option (List ℕ)) → Bool → List ℕ → ℕ → Option (List ℕ)
run_iconv iconv calloc_ok in_buf char_bytes =
    if calloc_ok
    then (iconv in_buf >>= λ out.
        if leb (length out) (length in_buf * 2 + char_bytes)
        then some (out ++ replicate char_bytes 0)
        else none)
    else none

-- The conversions, with the arguments that they are given here: little-endian code units.
pub record Converters : Type 0 where
  pub utf16_to_utf8 : List ℕ → Option (List ℕ)
  pub utf8_to_utf16 : List ℕ → Option (List ℕ)
  pub calloc_ok : Bool

unfoldable pub qws_convert_from_utf16 : Converters → List ℕ → ℕ → Option (List ℕ)
unfolding run_iconv
qws_convert_from_utf16 c src src_len =
    run_iconv c.utf16_to_utf8 c.calloc_ok (take (src_len * 2) src) 1

unfoldable pub qws_convert_to_utf16 : Converters → List ℕ → Option (List ℕ)
unfolding run_iconv
qws_convert_to_utf16 c src = run_iconv c.utf8_to_utf16 c.calloc_ok src 2

-- The types that a selection offers.
pub data MimeType : Type 0 where
  text_plain_utf8 text_plain other : MimeType

-- The user data of an offer: the type that is preferred so far.
unfoldable pub offer_offer : Option MimeType → MimeType → Option MimeType
offer_offer (some preferred) mime = some preferred
offer_offer none other = none
offer_offer none text_plain_utf8 = some text_plain_utf8
offer_offer none text_plain = some text_plain

-- qwswl_clipboard_t: the length of `utf8` is that of the bytes, and so is `memfd_size`.
pub record Clipboard : Type 0 where
  pub manager : Bool
  pub device : Bool
  pub source : Option ℕ
  pub utf8 : Option (List ℕ)
  pub memfd : Bool
  pub memfd_map : Option (List ℕ)

unfoldable pub memfd_reset : Clipboard → Clipboard
memfd_reset cb = record cb { memfd_map = none }

-- Two calls, since the seat and the manager may come in either order.
unfoldable pub qwswl_clipboard_init : Bool → Clipboard → Clipboard
qwswl_clipboard_init has_seat cb =
    if cb.manager && (has_seat && not cb.device) then record cb { device = true } else cb

unfoldable pub source_cancelled : Clipboard → ℕ → Clipboard
source_cancelled cb src = elim cb.source [
  | none ↦ cb
  | some s ↦ if s == src then record cb { source = none } else cb
]

unfoldable pub qwswl_clipboard_destroy : Clipboard → Clipboard
unfolding memfd_reset
qwswl_clipboard_destroy cb = record (memfd_reset cb) {
  source = none;
  device = false;
  utf8 = none;
  memfd = false;
  manager = false;
}

-- How a selection is received: whether the pipe, the file and the mapping can be made, and the bytes
-- that come through the pipe.
pub record Transfer : Type 0 where
  pub pipe_ok : Bool
  pub memfd_ok : Bool
  pub mmap_ok : Bool
  pub received : List ℕ

module _ (store : HashMap PropVal) (windows : HashMap ℕ) (interests : HashMap Present) where
  -- The members of qwswl_state_t that the clipboard uses.
  pub record Board : Type 0 where
    pub prop_store : store.Map
    pub clients : List (Client windows interests)
    pub clipboard : Clipboard

  abbrev pub broadcast : Board → List Effect
  broadcast s =
      qwswl_broadcast_property_notify store windows interests s.clients (pos 0) text_clipboard
        notify_changed

  -- From the removal of the cached property on.
  abbrev pub keep_received : Board → Transfer → Board × List Effect
  keep_received s t =
      let reset : Board = record s {
        prop_store = (qwsprop_remove store s.prop_store (pos 0) text_clipboard).1;
        clipboard = memfd_reset (record s.clipboard { memfd = true });
      } in
      if (length t.received == 0) || not t.mmap_ok then (reset, []) else (
        record reset { clipboard = record reset.clipboard { memfd_map = some t.received } },
        broadcast s,
      )

  -- `offer` is NULL or has a preferred type or not.
  unfoldable pub data_device_selection :
      Board → Option (Option MimeType) → Transfer → Board × List Effect
  unfolding memfd_reset qwsprop_remove qwswl_broadcast_property_notify
  data_device_selection s none t = (s, [])
  data_device_selection s (some none) t = (s, [])
  data_device_selection s (some (some mime)) t =
      if is_some s.clipboard.source || (not t.pipe_ok || not (s.clipboard.memfd || t.memfd_ok))
      then (s, [])
      else keep_received s t

  module _ (conversions : Converters) (table_ok : Bool) (malloc_ok : ℕ → Bool) where
    -- The property with the bytes, which the clients then hear of.
    abbrev pub with_property : Board → List ℕ → ℤ → Board
    with_property s utf16le len = record s {
      prop_store =
          (qwsprop_set store malloc_ok
            (qwsprop_add store table_ok s.prop_store (pos 0) text_clipboard).1 (pos 0)
            text_clipboard prop_replace utf16le len).1;
    }

    -- The new source, `src`, takes the place of the old one.
    abbrev pub offered : Board → ℕ → List Effect → Option (List ℕ) → Option (Board × List Effect)
    offered s src effects none = some (s, effects)
    offered s src effects (some utf8) =
        if s.clipboard.manager && s.clipboard.device
        then some (
          record s { clipboard = record s.clipboard { utf8 = some utf8; source = some src } },
          effects,
        )
        else none

    unfoldable pub qwswl_clipboard_set : Board → ℕ → List ℕ → ℤ → Option (Board × List Effect)
    unfolding qwsprop_add qwsprop_set qwswl_broadcast_property_notify qws_convert_from_utf16
    qwswl_clipboard_set s src utf16le len =
        offered (with_property s utf16le len) src (broadcast s)
          (qws_convert_from_utf16 conversions utf16le (to_size len / 2))

    abbrev pub converted : Board → Answer → Option (List ℕ) → Board × Answer
    converted s missing none = (s, missing)
    converted s missing (some utf16) =
        let len = pos (length utf16) in
        (
          record s {
            clipboard = memfd_reset s.clipboard;
            prop_store =
                (qwsprop_replace_internal store
                  (qwsprop_add store table_ok s.prop_store (pos 0) text_clipboard).1 (pos 0)
                  text_clipboard (some utf16) len).1;
          },
          record missing { data_out = some utf16; len_out = len },
        )

    abbrev pub read_map : Board → Answer → Option (List ℕ) → Board × Answer
    read_map s missing none = (s, missing)
    read_map s missing (some utf8) = converted s missing (qws_convert_to_utf16 conversions utf8)

    -- What it writes to `*data_out` and `*len_out`; `found` is that of the property store.
    unfoldable pub qwswl_clipboard_get : Board → Board × Answer
    unfolding qwsprop_get qwsprop_add qwsprop_replace_internal memfd_reset qws_convert_to_utf16
    qwswl_clipboard_get s =
        let cached = qwsprop_get store s.prop_store (pos 0) text_clipboard in
        if cached.found || not s.clipboard.device
        then (s, cached)
        else read_map s cached s.clipboard.memfd_map
