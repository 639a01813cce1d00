-- ===== src/Wire/Reader/Stream.antt =====
-- The read loop of qwswl_handle_client_data (proxy/proxy.c), which cuts a chunk of bytes into
-- packets, and sequences of such chunks.
use mathlib.Core.List.{append-nil, append_assoc, flatten}
use qwswayland.Prelude.{
  ℕ, zero, suc, ◌≤◌, ◌<◌, ◌≡◌, refl, sym, subst, Bool, true, false, Option, none, some, List, [],
  ◌∷◌, ◌++◌, ◌==◌, length, arith, inl, inr, Option-cases,
}
use qwswayland.Wire.Packet.{Packet}
use qwswayland.Wire.Reader.{Reader, Fed, fresh, qws_reader_feed}
use qwswayland.Wire.Reader.Parse.{Partial, reader_of, received, start, IsValid, parse}
use qwswayland.Wire.Reader.Feed.{feed-Agrees}
use qwswayland.Wire.Reader.Rest.{completes, parse_extend}

-- What is left of a client's read: its reader, and the packets to dispatch, in order.
pub record Drained : Type 0 where
  pub reader : Reader
  pub packets : List Packet

abbrev pub cons_out : Option Packet → List Packet → List Packet
cons_out none pkts = pkts
cons_out (some pkt) pkts = pkt ∷ pkts

module _ (calloc_ok : ℕ → Bool) where
  -- while (offset < n) { feed; if (consumed == 0) break; ... }
  unfoldable pub drain : ℕ → Reader → List ℕ → Drained
  drain zero r src = record { reader = r; packets = [] }
  drain (suc fuel) r [] = record { reader = r; packets = [] }
  drain (suc fuel) r (b ∷ src) =
      let fed = qws_reader_feed calloc_ok r (b ∷ src) in
      elim (length fed.rest == length (b ∷ src)) [
        | true ↦ record { reader = fed.reader; packets = [] }
        | false ↦
            let later = drain fuel fed.reader fed.rest in
            record later { packets = cons_out fed.out later.packets }
      ]

  -- One read of qwswl_handle_client_data.
  unfoldable pub handle_chunk : Reader → List ℕ → Drained
  unfolding drain
  handle_chunk r src = drain (length src) r src

  unfoldable pub handle_chunks : Reader → List (List ℕ) → Drained
  handle_chunks r [] = record { reader = r; packets = [] }
  handle_chunks r (c ∷ cs) =
      let first = handle_chunk r c in
      let later = handle_chunks first.reader cs in
      record later { packets = first.packets ++ later.packets }

-- The packets of a stream, and the incomplete rest.
pub data Parses (commands : Bool) : List ℕ → List Packet → List ℕ → Type 0 where
  stop : {bs : List ℕ} → parse commands bs ≡ none → Parses commands bs [] bs
  more :
      {bs rest left : List ℕ} {pkt : Packet} {pkts : List Packet}
      → parse commands bs ≡ some (pkt, rest)
      → Parses commands rest pkts left
      → Parses commands bs (pkt ∷ pkts) left

module _ (commands : Bool) where
  -- The packets of a stream and of the bytes that come behind it.
  pub Parses-append :
      {bs left : List ℕ} {pkts : List Packet} (later : List ℕ) {pkts' : List Packet}
      {left' : List ℕ}
      → Parses commands bs pkts left
      → Parses commands (left ++ later) pkts' left'
      → Parses commands (bs ++ later) (pkts ++ pkts') left'
  Parses-append later (stop e) q = q
  Parses-append later (more {bs = bs} {rest = rest} {pkt = pkt} e p) q =
      more (parse_extend commands bs later pkt rest e) (Parses-append later p q)

  -- A stream has one reading.
  pub Parses-unique :
      {bs left left' : List ℕ} {pkts pkts' : List Packet}
      → Parses commands bs pkts left
      → Parses commands bs pkts' left'
      → (pkts ≡ pkts') × (left ≡ left')
  Parses-unique (stop e) (stop f) = (refl, refl)
  Parses-unique (stop e) (more f q) = cc
  Parses-unique (more e p) (stop f) = cc
  Parses-unique {bs} {left} {left'} (more {rest = rest} e p)
        (more {rest = rest'} {pkts = pkts'} f q) =
      let same : rest ≡ rest' = cc in
      let u = Parses-unique p (subst (λ r. Parses commands r pkts' left') (sym same) q) in
      (cc u.0, u.1)

-- From here on every `calloc` succeeds.
module _ (calloc_ok : ℕ → Bool) (has_memory : (n : ℕ) → calloc_ok n ≡ true) (commands : Bool) where
  -- A run of the loop hands out the packets of the stream, and keeps the incomplete rest.
  abbrev pub Reads : List ℕ → Drained → Type 0
  Reads stream d =
      (q : Partial) × IsValid commands q
      × (d.reader ≡ reader_of commands q)
      × Parses commands stream d.packets (received q)

  start-IsValid : IsValid commands start
  start-IsValid = omega arith

  incomplete : (q : Partial) → IsValid commands q → parse commands (received q ++ []) ≡ none
  incomplete q v = elim (Option-cases (parse commands (received q ++ []))) [
    | inl e ↦ e
    | inr ((pkt, rest), e) ↦ absurd (omega (arith, completes commands q [] pkt rest v e))
  ]

  drain_step :
      (fuel : ℕ) (r : Reader) (b : ℕ) (c : List ℕ) (fed : Fed)
      → qws_reader_feed calloc_ok r (b ∷ c) ≡ fed
      → length fed.rest < suc (length c)
      → drain calloc_ok (suc fuel) r (b ∷ c) ≡ (
          let later = drain calloc_ok fuel fed.reader fed.rest in
          record later { packets = cons_out fed.out later.packets })
  unfolding drain
  drain_step fuel r b c fed e l =
      let test : (length fed.rest == suc (length c)) ≡ false = ground arith in
      rw (e, drain) (rw test (rw e))

  drain-nil :
      (fuel : ℕ) (r : Reader) → drain calloc_ok fuel r [] ≡ record { reader = r; packets = [] }
  unfolding drain
  drain-nil zero r = refl
  drain-nil (suc fuel) r = refl

  drain-Reads :
      (fuel : ℕ) (q : Partial) (c : List ℕ)
      → IsValid commands q
      → length c ≤ fuel
      → Reads (received q ++ c) (drain calloc_ok fuel (reader_of commands q) c)
  drain-Reads fuel q [] v l = rw (drain-nil fuel (reader_of commands q)) (
    q,
    v,
    refl,
    rw (append-nil (received q)) (stop (rw (append-nil (received q)) at (incomplete q v))),
  )
  drain-Reads zero q (b ∷ c) v l = absurd (omega arith)
  drain-Reads (suc fuel) q (b ∷ c) v l =
      let agrees = feed-Agrees calloc_ok has_memory commands q (b ∷ c) v in
      elim (Option-cases (parse commands (received q ++ b ∷ c))) [
        | inl e ↦
            let (q', same, v', fed) = rw e at agrees in
            rw
              (
                drain_step fuel (reader_of commands q) b c _ fed (omega arith),
                drain-nil fuel (reader_of commands q'),
              )
              (q', v', refl, rw same (stop e))
        | inr ((pkt, rest), e) ↦
            let (q', v', same, p) =
              drain-Reads fuel start rest start-IsValid
                (omega (arith, completes commands q (b ∷ c) pkt rest v e)) in
            rw
              (drain_step fuel (reader_of commands q) b c _ (rw e at agrees)
                (completes commands q (b ∷ c) pkt rest v e))
              (q', v', same, more e p)
      ]

  regroup :
      (a b c : List ℕ) {pkts : List Packet} {left : List ℕ}
      → Parses commands ((a ++ b) ++ c) pkts left
      → Parses commands (a ++ (b ++ c)) pkts left
  regroup a b c {pkts} {left} p = subst (λ l. Parses commands l pkts left) (append_assoc a b c) p

  -- Any number of reads, from any state of the reader.
  pub handle_chunks-Reads :
      (q : Partial) (chunks : List (List ℕ))
      → IsValid commands q
      → Reads (received q ++ flatten chunks) (handle_chunks calloc_ok (reader_of commands q) chunks)
  unfolding handle_chunks handle_chunk flatten
  handle_chunks-Reads q [] v = (
    q,
    v,
    refl,
    rw (append-nil (received q)) (stop (rw (append-nil (received q)) at (incomplete q v))),
  )
  handle_chunks-Reads q (c ∷ cs) v =
      let (q', v', same, p) = drain-Reads (length c) q c v (omega arith) in
      let (q'', v'', same', p') = handle_chunks-Reads q' cs v' in
      rw same (
        q'',
        v'',
        same',
        regroup (received q) c (flatten cs) (Parses-append commands (flatten cs) p p'),
      )

  -- With memory, two ways to cut the same stream into chunks dispatch the same packets.
  pub chunks_irrelevant :
      (cs ds : List (List ℕ))
      → flatten cs ≡ flatten ds
      → (handle_chunks calloc_ok (fresh commands) cs).packets
        ≡ (handle_chunks calloc_ok (fresh commands) ds).packets
  chunks_irrelevant cs ds e =
      let (q, v, same, p) = handle_chunks-Reads start cs start-IsValid in
      let (q', v', same', p') = handle_chunks-Reads start ds start-IsValid in
      (Parses-unique commands p (
        subst
          (λ l.
            Parses commands l (handle_chunks calloc_ok (fresh commands) ds).packets (received q'))
          (sym e) p')).0
