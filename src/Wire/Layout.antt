-- ===== src/Wire/Layout.antt =====
-- The memory layout of the fixed-size structs of libqwsproto/qws_proto.h (`simpleData`): a struct is
-- the list of its members' types, laid out with C's natural alignment on the supported targets.
-- A member's value is its bit pattern. Padding bytes are zero, since packets come from `calloc`.
use qwswayland.Prelude.{
  ℕ, ◌+◌, ◌-◌, ◌%◌, ◌<◌, ◌≡◌, refl, ap, ap₂, sym, ◌∙◌, max, List, [], ◌∷◌, ◌++◌, arith, length,
  take, drop, replicate, length-append, length-replicate,
}
use mathlib.Core.List.{append_assoc}
use qwswayland.Wire.Bytes.{
  le_bytes, le_value, length-le_bytes, capacity, le_value-le_bytes, take-append, drop-append,
}

pub data CType : Type 0 where
  u8 u16 i32 : CType

abbrev pub size : CType → ℕ
size u8 = 1
size u16 = 2
size i32 = 4

-- The zero bytes before a member of alignment a at offset n.
unfoldable pub padding : ℕ → ℕ → ℕ
padding n a = (a - n % a) % a

unfoldable pub alignment : List CType → ℕ
alignment [] = 1
alignment (t ∷ ts) = max (size t) (alignment ts)

-- The offset behind the last member, from the offset `off`.
unfoldable pub end_offset : ℕ → List CType → ℕ
end_offset off [] = off
end_offset off (t ∷ ts) = end_offset (off + padding off (size t) + size t) ts

unfoldable pub sizeof : List CType → ℕ
unfolding padding alignment end_offset
sizeof ts = end_offset 0 ts + padding (end_offset 0 ts) (alignment ts)

-- The members' bytes from the offset `off`; a missing value is zero.
encode_from : ℕ → List CType → List ℕ → List ℕ
encode_from off [] vs = []
encode_from off (t ∷ ts) [] =
    replicate (padding off (size t)) 0
    ++ (le_bytes (size t) 0 ++ encode_from (off + padding off (size t) + size t) ts [])
encode_from off (t ∷ ts) (v ∷ vs) =
    replicate (padding off (size t)) 0
    ++ (le_bytes (size t) v ++ encode_from (off + padding off (size t) + size t) ts vs)

unfoldable pub encode : List CType → List ℕ → List ℕ
unfolding encode_from padding alignment end_offset le_bytes
encode ts vs = encode_from 0 ts vs ++ replicate (padding (end_offset 0 ts) (alignment ts)) 0

decode_from : ℕ → List CType → List ℕ → List ℕ
decode_from off [] bs = []
decode_from off (t ∷ ts) bs =
    let rest = drop (padding off (size t)) bs in
    le_value (take (size t) rest)
    ∷ decode_from (off + padding off (size t) + size t) ts (drop (size t) rest)

-- Reading the members through a struct pointer cast onto the bytes.
unfoldable pub decode : List CType → List ℕ → List ℕ
unfolding decode_from padding le_value
decode ts bs = decode_from 0 ts bs

-- One value for each member, within the member's width.
abbrev pub Fits : List CType → List ℕ → Type 0
Fits [] [] = Unit
Fits [] (v ∷ vs) = ⊥
Fits (t ∷ ts) [] = ⊥
Fits (t ∷ ts) (v ∷ vs) = (v < capacity (size t)) × Fits ts vs

length-encode_from :
    (off : ℕ) (ts : List CType) (vs : List ℕ)
    → off + length (encode_from off ts vs) ≡ end_offset off ts
unfolding encode_from end_offset
length-encode_from off [] vs = omega arith
length-encode_from off (t ∷ ts) [] = omega (
  arith,
  length-append {0} (replicate (padding off (size t)) 0)
      (le_bytes (size t) 0 ++ encode_from (off + padding off (size t) + size t) ts []),
  length-append {0} (le_bytes (size t) 0) (encode_from (off + padding off (size t) + size t) ts []),
  length-replicate {0} {A = ℕ} (padding off (size t)) 0,
  length-le_bytes (size t) 0,
  length-encode_from (off + padding off (size t) + size t) ts [],
)
length-encode_from off (t ∷ ts) (v ∷ vs) = omega (
  arith,
  length-append {0} (replicate (padding off (size t)) 0)
      (le_bytes (size t) v ++ encode_from (off + padding off (size t) + size t) ts vs),
  length-append {0} (le_bytes (size t) v) (encode_from (off + padding off (size t) + size t) ts vs),
  length-replicate {0} {A = ℕ} (padding off (size t)) 0,
  length-le_bytes (size t) v,
  length-encode_from (off + padding off (size t) + size t) ts vs,
)

-- The bytes of a struct are as many as `sizeof` says.
pub length-encode : (ts : List CType) (vs : List ℕ) → length (encode ts vs) ≡ sizeof ts
unfolding encode sizeof
length-encode ts vs = omega (
  arith,
  length-append {0} (encode_from 0 ts vs) (replicate (padding (end_offset 0 ts) (alignment ts)) 0),
  length-encode_from 0 ts vs,
  length-replicate {0} {A = ℕ} (padding (end_offset 0 ts) (alignment ts)) 0,
)

drop_padding : (n : ℕ) (bs : List ℕ) → drop n (replicate n 0 ++ bs) ≡ bs
drop_padding n bs =
    sym (ap (λ k. drop k (replicate n 0 ++ bs)) (length-replicate n 0))
    ∙ drop-append (replicate n 0) bs

take_member : (k v : ℕ) (bs : List ℕ) → take k (le_bytes k v ++ bs) ≡ le_bytes k v
take_member k v bs =
    sym (ap (λ n. take n (le_bytes k v ++ bs)) (length-le_bytes k v))
    ∙ take-append (le_bytes k v) bs

drop_member : (k v : ℕ) (bs : List ℕ) → drop k (le_bytes k v ++ bs) ≡ bs
drop_member k v bs =
    sym (ap (λ n. drop n (le_bytes k v ++ bs)) (length-le_bytes k v))
    ∙ drop-append (le_bytes k v) bs

decode_from-encode_from :
    (off : ℕ) (ts : List CType) (vs tail : List ℕ)
    → Fits ts vs
    → decode_from off ts (encode_from off ts vs ++ tail) ≡ vs
unfolding decode_from encode_from
decode_from-encode_from off [] [] tail h = refl
decode_from-encode_from off [] (v ∷ vs) tail h = absurd h
decode_from-encode_from off (t ∷ ts) [] tail h = absurd h
decode_from-encode_from off (t ∷ ts) (v ∷ vs) tail h =
    simp (append_assoc, drop_padding, take_member, drop_member)
      (ap₂ (λ a l. a ∷ l) (le_value-le_bytes (size t) v h.0)
        (decode_from-encode_from (off + padding off (size t) + size t) ts vs tail h.1))

pub decode-encode : (ts : List CType) (vs : List ℕ) → Fits ts vs → decode ts (encode ts vs) ≡ vs
unfolding decode encode
decode-encode ts vs h = decode_from-encode_from 0 ts vs _ h
