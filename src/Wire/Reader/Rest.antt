-- ===== src/Wire/Reader/Rest.antt =====
-- What the stream specification leaves behind a packet: less than it was given, and the same when
-- more bytes follow.
use mathlib.Core.List.{append_assoc}
use qwswayland.Prelude.{
  ℕ, zero, suc, ◌+◌, ◌≤◌, ◌<◌, ◌≡◌, refl, sym, ap, ◌∙◌, Bool, some, List, [], ◌∷◌, ◌++◌, take, drop,
  length, arith, length-append, length-drop,
}
use qwswayland.Wire.Packet.{Packet}
use qwswayland.Wire.Reader.Parse.{
  simple_size, raw_size, Partial, in_header, in_simple, in_raw, received, IsValid, parse,
  parse_simple, parse_raw,
}
use qwswayland.Wire.Reader.Cuts.{parse-header, parse_simple-append}

module _ {ℓ} {A : Type ℓ} where
  take_append_le : (n : ℕ) (xs ys : List A) → n ≤ length xs → take n (xs ++ ys) ≡ take n xs
  take_append_le zero xs ys h = refl
  take_append_le (suc n) [] ys h = absurd (omega arith)
  take_append_le (suc n) (x ∷ xs) ys h = ap (λ l. x ∷ l) (take_append_le n xs ys (omega arith))

  drop_append_le : (n : ℕ) (xs ys : List A) → n ≤ length xs → drop n (xs ++ ys) ≡ drop n xs ++ ys
  drop_append_le zero xs ys h = refl
  drop_append_le (suc n) [] ys h = absurd (omega arith)
  drop_append_le (suc n) (x ∷ xs) ys h = drop_append_le n xs ys (omega arith)

module _ (commands : Bool) where
  raw_rest :
      (h s bs : List ℕ) (pkt : Packet) (rest : List ℕ)
      → parse_raw commands h s bs ≡ some (pkt, rest)
      → length rest + raw_size h ≤ length bs
  unfolding parse_raw
  raw_rest h s bs pkt rest e = ground (arith, length-drop (raw_size h) bs)

  simple_rest :
      (h bs : List ℕ) (pkt : Packet) (rest : List ℕ)
      → parse_simple commands h bs ≡ some (pkt, rest)
      → length rest + simple_size commands h ≤ length bs
  unfolding parse_simple
  simple_rest h bs pkt rest e =
      let s = take (simple_size commands h) bs in
      let w = drop (simple_size commands h) bs in
      ground (arith, length-drop (simple_size commands h) bs, raw_rest h s w pkt rest)

  parse_rest :
      (bs : List ℕ) (pkt : Packet) (rest : List ℕ)
      → parse commands bs ≡ some (pkt, rest)
      → length rest + 8 ≤ length bs
  unfolding parse
  parse_rest bs pkt rest e =
      ground (arith, length-drop 8 bs, simple_rest (take 8 bs) (drop 8 bs) pkt rest)

  -- A packet that is completed by a chunk uses some of it.
  pub completes :
      (q : Partial) (c : List ℕ) (pkt : Packet) (rest : List ℕ)
      → IsValid commands q
      → parse commands (received q ++ c) ≡ some (pkt, rest)
      → length rest < length c
  completes (in_header p junk) c pkt rest v e =
      omega (arith, length-append p c, parse_rest (p ++ c) pkt rest e)
  completes (in_simple h s junk) c pkt rest v e =
      let cut : parse commands ((h ++ s) ++ c) ≡ parse_simple commands h (s ++ c) =
        rw (append_assoc h s c) (parse-header commands h (s ++ c) v.0) in
      omega (arith, length-append s c, simple_rest h (s ++ c) pkt rest (sym cut ∙ e))
  completes (in_raw h s w junk) c pkt rest v e =
      let cut : parse commands ((h ++ (s ++ w)) ++ c) ≡ parse_raw commands h s (w ++ c) =
        rw (append_assoc h (s ++ w) c, append_assoc s w c)
          (parse-header commands h (s ++ (w ++ c)) v.0
            ∙ parse_simple-append commands h s (w ++ c) v.1) in
      omega (arith, length-append w c, raw_rest h s (w ++ c) pkt rest (sym cut ∙ e))

  raw_extend :
      (h s bs later : List ℕ) (pkt : Packet) (rest : List ℕ)
      → parse_raw commands h s bs ≡ some (pkt, rest)
      → parse_raw commands h s (bs ++ later) ≡ some (pkt, rest ++ later)
  unfolding parse_raw
  raw_extend h s bs later pkt rest e = ground (
    arith,
    length-append bs later,
    take_append_le (raw_size h) bs later,
    drop_append_le (raw_size h) bs later,
  )

  simple_extend :
      (h bs later : List ℕ) (pkt : Packet) (rest : List ℕ)
      → parse_simple commands h bs ≡ some (pkt, rest)
      → parse_simple commands h (bs ++ later) ≡ some (pkt, rest ++ later)
  unfolding parse_simple
  simple_extend h bs later pkt rest e =
      let n = simple_size commands h in
      ground (
        arith,
        length-append bs later,
        take_append_le n bs later,
        drop_append_le n bs later,
        raw_extend h (take n bs) (drop n bs) later pkt rest,
      )

  -- More bytes at the end do not change the packet at the front.
  pub parse_extend :
      (bs later : List ℕ) (pkt : Packet) (rest : List ℕ)
      → parse commands bs ≡ some (pkt, rest)
      → parse commands (bs ++ later) ≡ some (pkt, rest ++ later)
  unfolding parse
  parse_extend bs later pkt rest e = ground (
    arith,
    length-append bs later,
    take_append_le 8 bs later,
    drop_append_le 8 bs later,
    simple_extend (take 8 bs) (drop 8 bs) later pkt rest,
  )
