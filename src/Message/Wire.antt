-- ===== src/Message/Wire.antt =====
-- What EncodeReq, DecodeReq, EncodeResp and DecodeResp of rpc/message share: the fixed part of a
-- header, Go's slices and their bounds checks, and the cursor `cur` of the two encoders.
pub mod Laws
use emicro.Common.{
  ℕ, zero, suc, ◌+◌, ◌-◌, ◌*◌, ◌/◌, ◌%◌, ◌^◌, ◌&&◌, Option, none, some, List, [], ◌∷◌, ◌++◌, ltb,
  leb, ◌==◌, if◌then◌else◌, length, take, drop, set, get_elem?, Outcome, ok, panic, must, ◌>>=◌,
  ◌>>◌,
}
use emicro.Common.Maps.{Bytes}

abbrev pub splitter : ℕ
splitter = b'\n'

abbrev pub pair_splitter : ℕ
pair_splitter = b'\r'

-- binary.BigEndian: the four bytes of a uint32, the highest first.
abbrev pub u32_bytes : ℕ → Bytes
u32_bytes v = (v / 2 ^ 24 % 256) ∷ (v / 2 ^ 16 % 256) ∷ (v / 2 ^ 8 % 256) ∷ (v % 256) ∷ []

abbrev pub bytes_u32 : Bytes → ℕ
bytes_u32 (a ∷ b ∷ c ∷ d ∷ rest) = a * 2 ^ 24 + b * 2 ^ 16 + c * 2 ^ 8 + d
bytes_u32 _ = 0

-- copy(dst, src): as many bytes as both have.
abbrev pub overlay : Bytes → Bytes → Bytes
overlay [] dst = dst
overlay (s ∷ src) [] = []
overlay (s ∷ src) (d ∷ dst) = s ∷ overlay src dst

abbrev pub write_at : ℕ → Bytes → Bytes → Bytes
write_at zero src bs = overlay src bs
write_at (suc i) src [] = []
write_at (suc i) src (b ∷ bs) = b ∷ write_at i src bs

-- binary.BigEndian.PutUint32(bs[i:i+4], v)
unfoldable pub put_u32 : ℕ → ℕ → Bytes → Outcome Bytes
put_u32 i v bs = do must (leb (i + 4) (length bs)); ok (write_at i (u32_bytes v) bs)

-- bs[i] = b
unfoldable pub put_byte : ℕ → ℕ → Bytes → Outcome Bytes
put_byte i b bs = do must (ltb i (length bs)); ok (set bs i b)

-- bs[lo:hi], for a slice whose capacity is its length
unfoldable pub slice : ℕ → ℕ → Bytes → Outcome Bytes
slice lo hi bs = do must (leb lo hi && leb hi (length bs)); ok (take (hi - lo) (drop lo bs))

-- binary.BigEndian.Uint32(bs[i:i+4])
unfoldable pub get_u32 : ℕ → Bytes → Outcome ℕ
unfolding slice
get_u32 i bs = do part ← slice i (i + 4) bs; ok (bytes_u32 part)

-- bs[i]
unfoldable pub get_byte : ℕ → Bytes → Outcome ℕ
get_byte i bs = elim (get_elem? bs i) [ none ↦ panic | some b ↦ ok b ]

-- bytes.IndexByte; `none` is -1
abbrev pub index_byte : Bytes → ℕ → Option ℕ
index_byte [] c = none
index_byte (b ∷ bs) c =
    if b == c then some 0 else elim (index_byte bs c) [ none ↦ none | some i ↦ some (suc i) ]

-- index := bytes.IndexByte(bs, c); bs[:index]; bs[index+1:]. The slice bs[:-1] panics.
unfoldable pub cut : Bytes → ℕ → Outcome (Bytes × Bytes)
cut bs c = elim (index_byte bs c) [ none ↦ panic | some i ↦ ok (take i bs, drop (suc i) bs) ]

-- The buffer of an encoder in two parts: what stands before `cur`, and `cur`, which aliases its end.
pub record Cursor : Type 0 where
  pub done : Bytes
  pub cur : Bytes

-- copy(cur, src)
abbrev pub copy_in : Bytes → Cursor → Cursor
copy_in src c = record c { cur = overlay src c.cur }

-- cur = cur[n:]
unfoldable pub advance : ℕ → Cursor → Outcome Cursor
advance n c = do
  must (leb n (length c.cur))
  ok (record { done = c.done ++ take n c.cur; cur = drop n c.cur })

-- cur[0] = b
unfoldable pub mark : ℕ → Cursor → Outcome Cursor
mark b c = do must (ltb 0 (length c.cur)); ok (record c { cur = set c.cur 0 b })

-- copy(cur, src); cur = cur[len(src):]; cur[0] = sep; cur = cur[1:]
unfoldable pub write_field : Bytes → ℕ → Cursor → Outcome Cursor
write_field src sep c = do c₁ ← advance (length src) (copy_in src c); c₂ ← mark sep c₁; advance 1 c₂

-- The six fields that open both headers, in the order in which they are written.
unfoldable pub put_fixed : ℕ → ℕ → ℕ → ℕ → ℕ → ℕ → Bytes → Outcome Bytes
unfolding put_u32 put_byte
put_fixed head_length body_length message_id version compresser serializer bs = do
  b₁ ← put_u32 0 head_length bs
  b₂ ← put_u32 4 body_length b₁
  b₃ ← put_u32 8 message_id b₂
  b₄ ← put_byte 12 version b₃
  b₅ ← put_byte 13 compresser b₄
  put_byte 14 serializer b₅
