-- ===== src/Wire/RoundTrip.antt =====
-- Serialising a packet and reading it back (qws_packet_serialize, qws_reader_feed).
use mathlib.Core.List.{append_assoc, flatten}
use qwswayland.Prelude.{
  ℕ, suc, ◌+◌, ◌≤◌, ◌<◌, ◌^◌, ◌≡◌, refl, sym, ap, Bool, true, some, List, [], ◌∷◌, ◌++◌, length,
  arith, length-append, map, lt→ltb,
}
use qwswayland.Prelude.Int.{ℤ, pos, to_word, to_word-lt, of_word-to_word, InInt32}
use qwswayland.Wire.Bytes.{le_bytes, length-le_bytes, le_value-le_bytes}
use qwswayland.Wire.Packet.{Packet, copy_if_set, qws_packet_wire_size, qws_packet_serialize}
use qwswayland.Wire.Reader.{fresh, hdr_type, hdr_raw_len, known_len, derived_len}
use qwswayland.Wire.Reader.Parse.{raw_size, buffer, start, parse}
use qwswayland.Wire.Reader.Cuts.{
  ltb-false, cut_take, cut_drop, parse-header, parse_simple-append, parse_raw-some,
}
use qwswayland.Wire.Reader.Phases.{take_all}
use qwswayland.Wire.Reader.Stream.{
  Parses, stop, more, Parses-unique, handle_chunks, handle_chunks-Reads,
}

-- The header bytes of a packet.
abbrev pub header_bytes : ℤ → ℤ → List ℕ
header_bytes type raw_len = le_bytes 4 (to_word type) ++ le_bytes 4 (to_word raw_len)

-- A packet that the program can send in the direction `commands`: its lengths are those of its
-- payloads, the fixed one is that of its type, and a missing payload is NULL.
pub record IsSendable (commands : Bool) (type : ℤ) (simple raw : List ℕ) : Type 0 where
  pub type_fits : InInt32 type
  pub raw_fits : length raw < 2 ^ 31
  pub simple_known : known_len commands type ≡ pos (length simple)
  pub simple_fits : length simple < 2 ^ 31

abbrev pub packet : ℤ → List ℕ → List ℕ → Packet
packet type simple raw = record {
  header = record { type = type; raw_len = pos (length raw); simple_len = pos (length simple) };
  simple_data = buffer simple;
  raw_data = buffer raw;
}

length-header_bytes : (type raw_len : ℤ) → length (header_bytes type raw_len) ≡ 8
length-header_bytes type raw_len = omega (
  arith,
  length-append {0} (le_bytes 4 (to_word type)) (le_bytes 4 (to_word raw_len)),
  length-le_bytes 4 (to_word type),
  length-le_bytes 4 (to_word raw_len),
)

hdr_type-header_bytes :
    (type raw_len : ℤ) → InInt32 type → hdr_type (header_bytes type raw_len) ≡ type
unfolding hdr_type
hdr_type-header_bytes type raw_len h =
    rw
      (
        cut_take 4 (le_bytes 4 (to_word type)) (le_bytes 4 (to_word raw_len)) (length-le_bytes 4 _),
        le_value-le_bytes 4 (to_word type) (to_word-lt type),
      )
      (of_word-to_word type h)

hdr_raw_len-header_bytes :
    (type raw_len : ℤ) → InInt32 raw_len → hdr_raw_len (header_bytes type raw_len) ≡ raw_len
unfolding hdr_raw_len
hdr_raw_len-header_bytes type raw_len h =
    rw
      (
        cut_drop 4 (le_bytes 4 (to_word type)) (le_bytes 4 (to_word raw_len)) (length-le_bytes 4 _),
        take_all 4 (le_bytes 4 (to_word raw_len))
            (omega (arith, length-le_bytes 4 (to_word raw_len))),
        le_value-le_bytes 4 (to_word raw_len) (to_word-lt raw_len),
      )
      (of_word-to_word raw_len h)

copied : (bs : List ℕ) → copy_if_set (pos (length bs)) (buffer bs) ≡ bs
unfolding copy_if_set
copied [] = refl
copied (b ∷ bs) =
    rw (lt→ltb 0 (suc (length bs) + 0) (omega arith))
      (ap (λ l. b ∷ l) (take_all (length bs) bs (omega arith)))

-- The wire form of a sendable packet.
serialize_lem :
    (commands : Bool) (type : ℤ) (simple raw : List ℕ) (buflen : ℕ)
    → IsSendable commands type simple raw
    → qws_packet_wire_size (packet type simple raw) ≤ buflen
    → qws_packet_serialize (packet type simple raw) buflen
      ≡ header_bytes type (pos (length raw)) ++ (simple ++ raw)
unfolding qws_packet_serialize
serialize_lem commands type simple raw buflen s l =
    rw
      (
        ltb-false buflen (qws_packet_wire_size (packet type simple raw)) l,
        copied simple,
        copied raw,
      )
      (sym (append_assoc (le_bytes 4 (to_word type)) _ _))

parse-wire :
    (commands : Bool) (type : ℤ) (simple raw rest : List ℕ)
    → IsSendable commands type simple raw
    → parse commands ((header_bytes type (pos (length raw)) ++ (simple ++ raw)) ++ rest)
      ≡ some (packet type simple raw, rest)
parse-wire commands type simple raw rest s =
    let h = header_bytes type (pos (length raw)) in
    let eh : length h ≡ 8 = length-header_bytes type (pos (length raw)) in
    let et : hdr_type h ≡ type = hdr_type-header_bytes type (pos (length raw)) s.type_fits in
    let er : hdr_raw_len h ≡ pos (length raw) =
      hdr_raw_len-header_bytes type (pos (length raw)) (s.raw_fits, omega arith) in
    let ed : derived_len commands h ≡ pos (length simple) =
      unfold derived_len in rw et s.simple_known in
    let size : raw_size h ≡ length raw = rw er (ground arith) in
    rw (
      append_assoc h (simple ++ raw) rest,
      append_assoc simple raw rest,
      parse-header commands h (simple ++ (raw ++ rest)) eh,
      parse_simple-append commands h simple (raw ++ rest) (rw ed),
      parse_raw-some commands h simple (raw ++ rest) (omega (arith, length-append raw rest)),
      cut_take (raw_size h) raw rest (sym size),
      cut_drop (raw_size h) raw rest (sym size),
      et,
      er,
      ed,
    )

-- A sendable packet is read back from its serialisation into a buffer that is large enough,
-- whatever follows it.
pub parse-serialize :
    (commands : Bool) (type : ℤ) (simple raw rest : List ℕ) (buflen : ℕ)
    → IsSendable commands type simple raw
    → qws_packet_wire_size (packet type simple raw) ≤ buflen
    → parse commands (qws_packet_serialize (packet type simple raw) buflen ++ rest)
      ≡ some (packet type simple raw, rest)
parse-serialize commands type simple raw rest buflen s l =
    rw (serialize_lem commands type simple raw buflen s l)
      (parse-wire commands type simple raw rest s)

-- The serialisation of a sendable packet fills a buffer of its wire size exactly.
pub length-serialize :
    (commands : Bool) (type : ℤ) (simple raw : List ℕ)
    → IsSendable commands type simple raw
    → length (
        qws_packet_serialize
          (packet type simple raw)
          (qws_packet_wire_size (packet type simple raw)))
      ≡ qws_packet_wire_size (packet type simple raw)
length-serialize commands type simple raw s =
    rw
      (serialize_lem commands type simple raw (qws_packet_wire_size (packet type simple raw)) s
        (omega arith))
      (unfold qws_packet_wire_size in
        omega (
          arith,
          length-header_bytes type (pos (length raw)),
          length-append {0} simple raw,
          length-append {0} (header_bytes type (pos (length raw))) (simple ++ raw),
          s,
        ))

-- A message in one direction, and its packet.
pub record Message : Type 0 where
  pub type : ℤ
  pub simple : List ℕ
  pub raw : List ℕ

abbrev pub packet_of_message : Message → Packet
packet_of_message m = packet m.type m.simple m.raw

abbrev pub AllSendable : Bool → List Message → Type 0
AllSendable commands [] = Unit
AllSendable commands (m ∷ ms) = IsSendable commands m.type m.simple m.raw × AllSendable commands ms

-- What the other side writes, one qws_write_packet for each message.
unfoldable pub written : List Message → List ℕ
written [] = []
written (m ∷ ms) =
    qws_packet_serialize (packet_of_message m) (qws_packet_wire_size (packet_of_message m))
    ++ written ms

Parses-written :
    (commands : Bool) (ms : List Message)
    → AllSendable commands ms
    → Parses commands (written ms) (map packet_of_message ms) []
unfolding written parse
Parses-written commands [] a = stop refl
Parses-written commands (m ∷ ms) a =
    more
      (parse-serialize commands m.type m.simple m.raw (written ms)
        (qws_packet_wire_size (packet_of_message m)) a.0 (omega arith))
      (Parses-written commands ms a.1)

-- Sendable messages that are written one after the other, and read in any chunks by a fresh reader
-- with memory, are dispatched in their order, each once and unchanged.
pub delivered :
    (calloc_ok : ℕ → Bool) (commands : Bool) (ms : List Message) (chunks : List (List ℕ))
    → ((n : ℕ) → calloc_ok n ≡ true)
    → AllSendable commands ms
    → flatten chunks ≡ written ms
    → (handle_chunks calloc_ok (fresh commands) chunks).packets ≡ map packet_of_message ms
delivered calloc_ok commands ms chunks has_memory a e =
    let (q, v, same, p) =
      handle_chunks-Reads calloc_ok has_memory commands start chunks (omega arith) in
    let p' : Parses commands (flatten chunks) (map packet_of_message ms) [] =
      rw e (Parses-written commands ms a) in
    (Parses-unique commands p p').0
