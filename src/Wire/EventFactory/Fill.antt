-- ===== src/Wire/EventFactory/Fill.antt =====
-- What the common part of libqwsproto/qws_event_factory.c makes of a packet.
use mathlib.Core.List.{append-nil}
use qwswayland.Prelude.{
  ℕ, zero, suc, ◌≤◌, ◌<◌, ◌^◌, ◌≡◌, refl, sym, ap, ◌∙◌, Bool, true, false, some, List, [], ◌∷◌,
  ◌++◌, length, drop, replicate, arith, length-replicate, lt→ltb,
}
use qwswayland.Prelude.Int.{ℤ, pos}
use qwswayland.Wire.Layout.{CType, sizeof, encode, length-encode, decode, decode-encode, Fits}
use qwswayland.Wire.Packet.{
  Packet, of_size, alloc_buffer, qws_packet_alloc, alloc_raw, alloc_simple, sizeof_packet,
  qws_packet_wire_size, qws_packet_serialize,
}
use qwswayland.Wire.Event.{
  Event, no_event, connected, mouse, focus, key, region, creation, property_notify, property_reply,
  selection_clear, selection_request, selection_notify, max_window_rect, qcop_message,
  window_operation, im_event, im_query, im_init, embed, font, screen_transform, code, len_of,
  of_type-code, qws_event_simple_len, simple_len_or_unknown,
}
use qwswayland.Wire.Reader.{known_len}
use qwswayland.Wire.Reader.Parse.{buffer, parse}
use qwswayland.Wire.RoundTrip.{packet, parse-serialize}
use qwswayland.Props.{bytes_of}
use qwswayland.Wire.EventFactory.{overwrite, make_event}

drop_all : (n : ℕ) (bs : List ℕ) → length bs ≤ n → drop n bs ≡ []
drop_all zero [] h = refl
drop_all zero (b ∷ bs) h = let bad : ⊥ = omega arith in absurd bad
drop_all (suc n) [] h = refl
drop_all (suc n) (b ∷ bs) h = drop_all n bs (omega arith)

code_small : (e : Event) → code e < 2 ^ 31
unfolding code
code_small no_event = omega arith
code_small connected = omega arith
code_small mouse = omega arith
code_small focus = omega arith
code_small key = omega arith
code_small region = omega arith
code_small creation = omega arith
code_small property_notify = omega arith
code_small property_reply = omega arith
code_small selection_clear = omega arith
code_small selection_request = omega arith
code_small selection_notify = omega arith
code_small max_window_rect = omega arith
code_small qcop_message = omega arith
code_small window_operation = omega arith
code_small im_event = omega arith
code_small im_query = omega arith
code_small im_init = omega arith
code_small embed = omega arith
code_small font = omega arith
code_small screen_transform = omega arith

of_size_small : (n : ℕ) → n < 2 ^ 31 → of_size n ≡ pos n
unfolding of_size
of_size_small n h = ground arith

module _ (calloc_ok : ℕ → Bool) (has_memory : (n : ℕ) → calloc_ok n ≡ true) where
  alloc_lem :
      (type : ℤ) (simple_len raw_len : ℕ)
      → simple_len < 2 ^ 31
      → raw_len < 2 ^ 31
      → qws_packet_alloc calloc_ok type simple_len raw_len
        ≡ some (record {
          header = record { type = type; raw_len = pos raw_len; simple_len = pos simple_len };
          simple_data = buffer (replicate simple_len 0);
          raw_data = buffer (replicate raw_len 0);
        })
  unfolding qws_packet_alloc alloc_simple alloc_raw alloc_buffer
  alloc_lem type zero zero hs hr = rw (has_memory sizeof_packet, of_size_small zero hs) refl
  alloc_lem type zero (suc r) hs hr =
      rw
        (
          has_memory sizeof_packet,
          lt→ltb 0 (suc r) (omega arith),
          has_memory (suc r),
          of_size_small zero hs,
          of_size_small (suc r) hr,
        )
        refl
  alloc_lem type (suc s) zero hs hr =
      rw
        (
          has_memory sizeof_packet,
          lt→ltb 0 (suc s) (omega arith),
          has_memory (suc s),
          of_size_small (suc s) hs,
          of_size_small zero hr,
        )
        refl
  alloc_lem type (suc s) (suc r) hs hr =
      rw
        (
          has_memory sizeof_packet,
          lt→ltb 0 (suc s) (omega arith),
          has_memory (suc s),
          lt→ltb 0 (suc r) (omega arith),
          has_memory (suc r),
          of_size_small (suc s) hs,
          of_size_small (suc r) hr,
        )
        refl

  overwrite_zeros :
      (bytes : List ℕ) → overwrite bytes (buffer (replicate (length bytes) 0)) ≡ buffer bytes
  overwrite_zeros [] = refl
  overwrite_zeros (b ∷ bs) =
      ap (λ l. some (b ∷ l))
        (ap (λ l. bs ++ l)
            (drop_all (length bs) (replicate (length bs) 0)
              (omega (arith, length-replicate {0} {A = ℕ} (length bs) 0)))
          ∙ append-nil bs)

  -- With memory, the packet has the members' bytes and the raw bytes.
  pub make_event_lem :
      (event : Event) (members : List CType) (values raw : List ℕ)
      → sizeof members < 2 ^ 31
      → length raw < 2 ^ 31
      → make_event calloc_ok event members values (length raw) raw
        ≡ some (packet (pos (code event)) (encode members values) raw)
  unfolding make_event
  make_event_lem event members values raw hs hr =
      let size : sizeof members ≡ length (encode members values) =
        sym (length-encode members values) in
      rw
        (
          alloc_lem (pos (code event)) (sizeof members) (length raw) hs hr,
          size,
          overwrite_zeros (encode members values),
          overwrite_zeros raw,
        )
        refl

known_len-event :
    (event : Event) (n : ℕ) → len_of event ≡ pos n → known_len false (pos (code event)) ≡ pos n
unfolding known_len qws_event_simple_len simple_len_or_unknown
known_len-event event n e = rw (of_type-code event, e) (ground arith)

-- What the receiver of an event reads: the packet is the next one of the stream, and its members and
-- its payload are those that went in.
pub record IsReadAs (members : List CType) (values raw rest : List ℕ) (pkt : Packet) : Type 0 where
  pub read_back :
      parse false (qws_packet_serialize pkt (qws_packet_wire_size pkt) ++ rest) ≡ some (pkt, rest)
  pub members_read : decode members (bytes_of pkt.simple_data) ≡ values
  pub payload_read : bytes_of pkt.raw_data ≡ raw

bytes_of-buffer : (bs : List ℕ) → bytes_of (buffer bs) ≡ bs
bytes_of-buffer [] = refl
bytes_of-buffer (b ∷ bs) = refl

pub packet-IsReadAs :
    (event : Event) (members : List CType) (values raw rest : List ℕ)
    → len_of event ≡ pos (sizeof members)
    → sizeof members < 2 ^ 31
    → length raw < 2 ^ 31
    → Fits members values
    → IsReadAs members values raw rest (packet (pos (code event)) (encode members values) raw)
packet-IsReadAs event members values raw rest e hs hr f = record {
  read_back =
      parse-serialize false (pos (code event)) (encode members values) raw rest
        (qws_packet_wire_size (packet (pos (code event)) (encode members values) raw))
        (record {
          type_fits = (code_small event, omega arith);
          raw_fits = hr;
          simple_known =
              known_len-event event (length (encode members values))
                (e ∙ ap pos (sym (length-encode members values)));
          simple_fits = rw (length-encode members values) hs;
        })
        (omega arith);
  members_read = rw (bytes_of-buffer (encode members values)) (decode-encode members values f);
  payload_read = bytes_of-buffer raw;
}
