-- ===== src/Rpc/Feeds.antt =====
-- include/lsp/JsonRpc.h: the lines of an input whose last byte is a line feed.
use slang_server_verilator.Prelude.{
  ℕ, zero, suc, ◌+◌, ◌<◌, Bool, true, [], ◌∷◌, ◌≡◌, refl, arith, Option, some, ◌==◌, Bytes, length,
  drop, Bool-cases, inl, inr,
}
use slang_server_verilator.Rpc.Input.{split_line}

-- The text is empty or its last byte is a line feed.
unfoldable pub ends_line : Bytes → Bool
ends_line [] = true
ends_line (c ∷ []) = c == b'\n'
ends_line (c ∷ d ∷ s) = ends_line (d ∷ s)

pub ends_line-tail : (c : ℕ) (s : Bytes) → ends_line (c ∷ s) ≡ true → ends_line s ≡ true
unfolding ends_line
ends_line-tail c [] h = refl
ends_line-tail c (d ∷ s) h = h

pub ends_line-drop : (n : ℕ) (s : Bytes) → ends_line s ≡ true → ends_line (drop n s) ≡ true
unfolding ends_line
ends_line-drop zero s h = h
ends_line-drop (suc n) [] h = refl
ends_line-drop (suc n) (c ∷ s) h = ends_line-drop n s (ends_line-tail c s h)

-- What is read of such a text: nothing is left behind the line feed that is shorter
pub data GoodSplit (s : Bytes) : Bytes × Option Bytes → Type 0 where
  at_feed :
      (line rest : Bytes)
      → ends_line rest ≡ true
      → length line + length rest < length s
      → GoodSplit s (line, some rest)

pub cons-split :
    (c : ℕ) (s : Bytes) (p : Bytes × Option Bytes)
    → GoodSplit s p
    → GoodSplit (c ∷ s) (c ∷ p.0, p.1)
cons-split c s _ (at_feed line rest e h) = at_feed (c ∷ line) rest e (omega arith)

pub good_split :
    (c : ℕ) (s : Bytes) → ends_line (c ∷ s) ≡ true → GoodSplit (c ∷ s) (split_line (c ∷ s))
unfolding split_line ends_line
good_split c [] h = rw h (at_feed [] [] refl (omega arith))
good_split c (d ∷ s) h = elim (Bool-cases (c == b'\n')) [
  | inl e ↦ rw e (at_feed [] (d ∷ s) h (omega arith))
  | inr e ↦ rw e (cons-split c (d ∷ s) (split_line (d ∷ s)) (good_split d s h))
]

-- The same, with its parts named
pub record Front (s : Bytes) (p : Bytes × Option Bytes) : Type 0 where
  pub line : Bytes
  pub rest : Bytes
  pub split : p ≡ (line, some rest)
  pub ends : ends_line rest ≡ true
  pub shorter : length line + length rest < length s

pub line-Front : (s : Bytes) (p : Bytes × Option Bytes) → GoodSplit s p → Front s p
line-Front s _ (at_feed line rest e h) = record {
  line = line;
  rest = rest;
  split = refl;
  ends = e;
  shorter = h;
}
