-- ===== src/Message/Wire/Laws.antt =====
-- Laws of the shared wire routines: a write that fits, a read of what was written.
use emicro.Common.{
  ℕ, zero, suc, ◌+◌, ◌-◌, ◌^◌, ◌≤◌, ◌<◌, ◌≡◌, refl, ap, true, false, some, [], ◌∷◌, ◌++◌, leb, ◌==◌,
  le→leb, length, drop, replicate, All, length-append, length-replicate, length-drop, take-append,
  drop-append, ok, panic, ◌>>=◌, arith,
}
use mathlib.Core.List.{append_assoc}
use emicro.Common.Maps.{Bytes}
use emicro.Message.Wire.{
  u32_bytes, bytes_u32, overlay, put_fixed, slice, get_u32, get_byte, cut, index_byte, advance,
  mark, write_field,
}

-- The fixed part of a header, as bytes.
abbrev pub fixed_bytes : ℕ → ℕ → ℕ → ℕ → ℕ → ℕ → Bytes
fixed_bytes h b m v c s = u32_bytes h ++ (u32_bytes b ++ (u32_bytes m ++ (v ∷ c ∷ s ∷ [])))

pub bytes_u32-u32_bytes : (v : ℕ) → v < 2 ^ 32 → bytes_u32 (u32_bytes v) ≡ v
bytes_u32-u32_bytes v h = omega arith

-- A byte of the list is none of `c`.
abbrev pub Free : ℕ → Bytes → Type 0
Free c = All (λ b. (b == c) ≡ false)

pub index_byte-append :
    (xs ys : Bytes) (c : ℕ) → Free c xs → index_byte (xs ++ c ∷ ys) c ≡ some (length xs)
index_byte-append [] ys c h = ground arith
index_byte-append (x ∷ xs) ys c h = rw (h.0, index_byte-append xs ys c h.1)

pub index_byte_lt : (xs : Bytes) (c i : ℕ) → index_byte xs c ≡ some i → i < length xs
index_byte_lt [] c i h = cc
index_byte_lt (x ∷ xs) c zero h = omega arith
index_byte_lt (x ∷ xs) c (suc i) h = ground (arith, index_byte_lt xs c i)

-- A fresh buffer takes a write that fits; `k` bytes are left.
pub overlay-replicate :
    (src : Bytes) (n k : ℕ)
    → n ≡ length src + k
    → overlay src (replicate n 0) ≡ src ++ replicate k 0
overlay-replicate [] n k e = let e' : n ≡ k = omega arith in rw e'
overlay-replicate (s ∷ src) zero k e = absurd (omega arith)
overlay-replicate (s ∷ src) (suc n) k e = ap (◌∷◌ s) (overlay-replicate src n k (omega arith))

leb-length-append : (xs ys : Bytes) → leb (length xs) (length (xs ++ ys)) ≡ true
leb-length-append xs ys = le→leb _ _ (omega (arith, length-append xs ys))

pub advance_lem :
    (src rest done : Bytes)
    → advance (length src) (record { done = done; cur = src ++ rest })
      ≡ ok (record { done = done ++ src; cur = rest })
unfolding advance
advance_lem src rest done =
    rw (leb-length-append src rest, take-append src rest, drop-append src rest)

mark-advance :
    (x sep : ℕ) (done rest : Bytes)
    → (mark sep (record { done = done; cur = x ∷ rest }) >>= λ c. advance 1 c)
      ≡ ok (record { done = done ++ sep ∷ []; cur = rest })
unfolding mark advance
mark-advance x sep done rest = ground arith

-- A field and its separator, written into a fresh buffer that has room for them.
pub write_field_lem :
    (src : Bytes) (sep n k : ℕ) (done : Bytes)
    → n ≡ length src + suc k
    → write_field src sep (record { done = done; cur = replicate n 0 })
      ≡ ok (record { done = done ++ (src ++ sep ∷ []); cur = replicate k 0 })
unfolding write_field
write_field_lem src sep n k done e =
    rw (overlay-replicate src n (suc k) e, advance_lem, mark-advance, append_assoc)

pub length-overlay : (src dst : Bytes) → length (overlay src dst) ≡ length dst
length-overlay [] dst = refl
length-overlay (s ∷ src) [] = refl
length-overlay (s ∷ src) (d ∷ dst) = ap suc (length-overlay src dst)

-- A field of another length than the room: the encoder panics.
pub write_field_panics :
    (src : Bytes) (sep n : ℕ) (done : Bytes)
    → n ≤ length src
    → write_field src sep (record { done = done; cur = replicate n 0 }) ≡ panic
unfolding write_field advance mark
write_field_panics src sep n done h = ground (
  arith,
  length-overlay src (replicate n 0),
  length-replicate {A = ℕ} n 0,
  length-drop (length src) (overlay src (replicate n 0)),
)

pub put_fixed_lem :
    (h b m v c s n k : ℕ)
    → n ≡ 15 + k
    → put_fixed h b m v c s (replicate n 0) ≡ ok (fixed_bytes h b m v c s ++ replicate k 0)
unfolding put_fixed
put_fixed_lem h b m v c s n k e =
    let e' : n
        ≡ suc
            (suc (suc (suc (suc (suc (suc (suc (suc (suc (suc (suc (suc (suc (suc k)))))))))))))) =
      omega arith in
    rw e' (ground arith)

-- The bytes 15 and up of a buffer that begins with a fixed part.
pub read_fixed_lem :
    (h b m v c s : ℕ) (rest : Bytes)
    → h < 2 ^ 32
    → b < 2 ^ 32
    → m < 2 ^ 32
    → let bs = fixed_bytes h b m v c s ++ rest in
      (get_u32 0 bs ≡ ok h)
      × (get_u32 4 bs ≡ ok b)
      × (get_u32 8 bs ≡ ok m)
      × (get_byte 12 bs ≡ ok v)
      × (get_byte 13 bs ≡ ok c)
      × (get_byte 14 bs ≡ ok s)
unfolding get_u32 get_byte
read_fixed_lem h b m v c s rest hh hb hm =
    (ground arith, ground arith, ground arith, refl, refl, refl)

pub drop-suc-append : (xs ys : Bytes) (c : ℕ) → drop (suc (length xs)) (xs ++ c ∷ ys) ≡ ys
drop-suc-append [] ys c = refl
drop-suc-append (x ∷ xs) ys c = drop-suc-append xs ys c

pub cut_lem : (xs ys : Bytes) (c : ℕ) → Free c xs → cut (xs ++ c ∷ ys) c ≡ ok (xs, ys)
unfolding cut
cut_lem xs ys c h =
    rw (index_byte-append xs ys c h, cut) (rw (take-append xs (c ∷ ys), drop-suc-append xs ys c))

pub slice_lem :
    (pre mid post : Bytes) (lo hi : ℕ)
    → lo ≡ length pre
    → hi ≡ length pre + length mid
    → slice lo hi (pre ++ (mid ++ post)) ≡ ok mid
unfolding slice
slice_lem pre mid post lo hi e e' =
    rw (e, e', le→leb (length pre) (length pre + length mid) (omega arith), fits, difference)
      (rw (drop-append pre (mid ++ post), take-append mid post))
  where
    fits : leb (length pre + length mid) (length (pre ++ (mid ++ post))) ≡ true
    fits = le→leb _ _ (omega (arith, length-append pre (mid ++ post), length-append mid post))

    difference : length pre + length mid - length pre ≡ length mid
    difference = omega arith
