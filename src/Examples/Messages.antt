-- ===== src/Examples/Messages.antt =====
-- Packets in both directions: libqwsproto/qws_proto.c and qws_event_factory.c.
use qwswayland.Prelude.{
  ℕ, ◌≡◌, refl, ◌≤◌, Bool, true, false, some, List, [], ◌∷◌, ◌++◌, arith, flatten, map,
}
use qwswayland.Prelude.Int.{pos, to_word}
use qwswayland.Wire.Bytes.{le_bytes}
use qwswayland.Wire.Command.{qws_command_simple_len}
use qwswayland.Wire.Packet.{Packet, qws_packet_wire_size, qws_packet_serialize, copy_if_set}
use qwswayland.Wire.Reader.{fresh, known_len, qws_reader_feed}
use qwswayland.Wire.Reader.Parse.{Partial, in_header, received, reader_of, Agrees, parse}
use qwswayland.Wire.Reader.Feed.{feed-Agrees}
use qwswayland.Wire.Reader.Stream.{handle_chunks, chunks_irrelevant}
use qwswayland.Wire.RoundTrip.{
  IsSendable, Message, packet, packet_of_message, written, parse-serialize, delivered,
}
use qwswayland.Wire.EventFactory.Sent.{EventCall, call_key}

abbrev plenty : ℕ → Bool
plenty n = true

-- QWS_CMD_CREATE for one id, and a command with a payload.
abbrev create_one : Message
create_one = record { type = pos 1; simple = 1 ∷ 0 ∷ 0 ∷ 0 ∷ []; raw = [] }

abbrev create_more : Message
create_more = record { type = pos 1; simple = 7 ∷ 0 ∷ 0 ∷ 0 ∷ []; raw = 65 ∷ 66 ∷ [] }

create_one-IsSendable : IsSendable true create_one.type create_one.simple create_one.raw
unfolding known_len qws_command_simple_len
create_one-IsSendable = record {
  type_fits = (omega arith, omega arith);
  raw_fits = omega arith;
  simple_known = refl;
  simple_fits = omega arith;
}

create_more-IsSendable : IsSendable true create_more.type create_more.simple create_more.raw
unfolding known_len qws_command_simple_len
create_more-IsSendable = record {
  type_fits = (omega arith, omega arith);
  raw_fits = omega arith;
  simple_known = refl;
  simple_fits = omega arith;
}

abbrev two_commands : List Message
two_commands = create_one ∷ create_more ∷ []

abbrev two_written : List ℕ
two_written =
    1 ∷ 0 ∷ 0 ∷ 0 ∷ 0 ∷ 0 ∷ 0 ∷ 0 ∷ 1 ∷ 0 ∷ 0 ∷ 0 ∷ 1 ∷ 0 ∷ 0 ∷ 0 ∷ 2 ∷ 0 ∷ 0 ∷ 0 ∷ 7 ∷ 0 ∷ 0 ∷ 0
    ∷ 65 ∷ 66 ∷ []

-- The two commands in two reads, cut inside a header.
abbrev two_reads : List (List ℕ)
two_reads =
    (1 ∷ 0 ∷ 0 ∷ 0 ∷ 0 ∷ 0 ∷ 0 ∷ 0 ∷ 1 ∷ 0 ∷ 0 ∷ 0 ∷ 1 ∷ 0 ∷ 0 ∷ [])
    ∷ (0 ∷ 2 ∷ 0 ∷ 0 ∷ 0 ∷ 7 ∷ 0 ∷ 0 ∷ 0 ∷ 65 ∷ 66 ∷ [])
    ∷ []

written_two : flatten two_reads ≡ written two_commands
unfolding written qws_packet_serialize qws_packet_wire_size flatten le_bytes to_word copy_if_set
written_two = refl

delivered_example :
    (handle_chunks plenty (fresh true) two_reads).packets ≡ map packet_of_message two_commands
delivered_example =
    delivered plenty true two_commands two_reads (λ n. refl)
      (create_one-IsSendable, (create_more-IsSendable, tt)) written_two

chunks_irrelevant_example :
    (handle_chunks plenty (fresh true) two_reads).packets
    ≡ (handle_chunks plenty (fresh true) (two_written ∷ [])).packets
unfolding flatten
chunks_irrelevant_example =
    chunks_irrelevant plenty (λ n. refl) true two_reads (two_written ∷ []) refl

-- Three bytes of a header are there, and the rest of a command comes.
abbrev three_in : Partial
three_in = in_header (1 ∷ 0 ∷ 0 ∷ []) (0 ∷ 0 ∷ 0 ∷ 0 ∷ 0 ∷ [])

abbrev the_rest : List ℕ
the_rest = 0 ∷ 0 ∷ 0 ∷ 0 ∷ 0 ∷ 9 ∷ 0 ∷ 0 ∷ 0 ∷ 1 ∷ []

feed-Agrees_example :
    Agrees true
      (received three_in ++ the_rest)
      (parse true (received three_in ++ the_rest))
      (qws_reader_feed plenty (reader_of true three_in) the_rest)
feed-Agrees_example =
    feed-Agrees plenty (λ n. refl) true three_in the_rest (omega arith, omega arith)

wire_size_fits :
    qws_packet_wire_size (packet create_more.type create_more.simple create_more.raw) ≤ 14
unfolding qws_packet_wire_size
wire_size_fits = omega arith

parse-serialize_example :
    parse true (
      qws_packet_serialize (packet create_more.type create_more.simple create_more.raw) 14
      ++ (5 ∷ []))
    ≡ some (packet create_more.type create_more.simple create_more.raw, 5 ∷ [])
parse-serialize_example =
    parse-serialize true create_more.type create_more.simple create_more.raw (5 ∷ []) 14
      create_more-IsSendable wire_size_fits

-- The key A goes down in window 1001.
abbrev key_down : EventCall
key_down = call_key (pos 1001) 97 65 0 true false
