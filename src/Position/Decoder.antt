-- ===== src/Position/Decoder.antt =====
-- A decoder of UTF-8 for the examples: the length of the first byte, and that many bytes of
-- continuation.
use slang_server_verilator.Position.Utf8.{Utf8, IsDecoder, four_bytes}
use slang_server_verilator.Prelude.{
  ℕ, suc, ◌≤◌, Bool, not, ◌&&◌, ◌||◌, [], ◌∷◌, ◌++◌, ◌≡◌, refl, arith, if◌then◌else◌, ltb, leb,
  Bytes, length, get_or,
}

abbrev pub first_len : ℕ → ℕ
first_len c =
    if ltb c 128
    then 1
    else if ltb c 192
    then 0
    else if ltb c 224
    then 2
    else if ltb c 240
    then 3
    else 4

abbrev continues : ℕ → Bool
continues c = leb 128 c && ltb c 192

abbrev pub broken : ℕ → ℕ → ℕ → ℕ → Bool
broken n c d e =
    (leb 2 n && not (continues c))
    || (leb 3 n && not (continues d))
    || (leb 4 n && not (continues e))

abbrev pub decoder : Utf8
decoder = record {
  len = first_len;
  fails = λ s. broken (first_len (get_or s 0 0)) (get_or s 1 0) (get_or s 2 0) (get_or s 3 0);
  decoded = λ s. first_len (get_or s 0 0);
}

first_len-bound : (c : ℕ) → first_len c ≤ 4
first_len-bound c = ground arith

broken-one : (n c d e c' d' e' : ℕ) → n ≤ 1 → broken n c d e ≡ broken n c' d' e'
broken-one n c d e c' d' e' h = ground (arith, h)

broken-two : (n c d e d' e' : ℕ) → n ≤ 2 → broken n c d e ≡ broken n c d' e'
broken-two n c d e d' e' h = ground (arith, h)

broken-three : (n c d e e' : ℕ) → n ≤ 3 → broken n c d e ≡ broken n c d e'
broken-three n c d e e' h = ground (arith, h)

byte : Bytes → ℕ → ℕ
unfolding four_bytes
byte s i = get_or (four_bytes s) i 0

local :
    (c : ℕ) (s t : Bytes)
    → first_len c ≤ suc (length s)
    → decoder.fails (four_bytes (c ∷ (s ++ t))) ≡ decoder.fails (four_bytes (c ∷ s))
unfolding four_bytes byte
local c [] t h =
    broken-one (first_len c) (byte (c ∷ t) 1) (byte (c ∷ t) 2) (byte (c ∷ t) 3) (byte (c ∷ []) 1)
      (byte (c ∷ []) 2) (byte (c ∷ []) 3) h
local c (x ∷ []) t h =
    broken-two (first_len c) x (byte (c ∷ x ∷ t) 2) (byte (c ∷ x ∷ t) 3) (byte (c ∷ x ∷ []) 2)
      (byte (c ∷ x ∷ []) 3) h
local c (x ∷ y ∷ []) t h =
    broken-three (first_len c) x y (byte (c ∷ x ∷ y ∷ t) 3) (byte (c ∷ x ∷ y ∷ []) 3) h
local c (x ∷ y ∷ z ∷ s) t h = refl

pub decoder-IsDecoder : IsDecoder decoder
unfolding four_bytes
decoder-IsDecoder = record {
  at_most_four = first_len-bound;
  decoded_len = λ c s h. refl;
  fails_local = local;
}
