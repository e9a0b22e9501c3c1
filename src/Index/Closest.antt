-- ===== src/Index/Closest.antt =====
-- src/Indexer.cpp: `nearestFiles` finds the candidates nearest to the source, all of them.
use mathlib.Core.List.{Memᴰ}
use mathlib.Core.List.Memᴰ
use mathlib.Core.Logic.{⊎_elim}
use slang_server_verilator.Index.Nearest.{
  Paths, distance, located, keep_nearest, consider, scan_nearest,
}
use slang_server_verilator.Index.Types.{FilePath}
use slang_server_verilator.Prelude.{
  ℕ, ◌≤◌, ◌<◌, List, [], ◌∷◌, ◌++◌, ◌≡◌, refl, sym, ◌∙◌, ap, subst, ◌⊎◌, inl, inr, Option, none,
  some, arith, ltb, ◌==◌, Bool-cases, append-nil, append_assoc,
}

module _ {T : Type 0} (k : Paths) (get_path : T → Option FilePath) (source : FilePath) where
  -- A candidate with its canonical path, at most so far from the source
  pub record IsAt (best : ℕ) (p : FilePath) (x : T) : Type 0 where
    pub on_path : located k get_path source x ≡ some p
    pub far : distance source p ≡ best

  -- What the scan has kept of the candidates that it has read
  pub record Scanned (read : List T) (s : ℕ × List (FilePath × T)) : Type 0 where
    pub sound : (p : FilePath) (x : T) → Memᴰ (p, x) s.1 → Memᴰ x read × IsAt s.0 p x
    pub nearest :
        (p : FilePath) (x : T)
        → Memᴰ x read
        → located k get_path source x ≡ some p
        → s.0 ≤ distance source p
    pub complete : (p : FilePath) (x : T) → Memᴰ x read → IsAt s.0 p x → Memᴰ (p, x) s.1

  Memᴰ-last : {A : Type 0} (y x : A) (xs : List A) → Memᴰ y (xs ++ x ∷ []) → Memᴰ y xs ⊎ (y ≡ x)
  Memᴰ-last y x xs m = ⊎_elim inl (λ e. inr (Memᴰ.eq_of_singleton e)) (Memᴰ.append_cases xs m)

  pair_path : {q p : FilePath} {y x : T} → q ≡ p → y ≡ x → ◌≡◌ {A = FilePath × T} (q, y) (p, x)
  pair_path a b = cc (a, b)

  path_of :
      (p q : FilePath) (x y : T)
      → located k get_path source x ≡ some p
      → located k get_path source y ≡ some q
      → y ≡ x
      → q ≡ p
  path_of p q x y e f same =
      let both : some q ≡ some p = sym f ∙ (ap (located k get_path source) same ∙ e) in
      ground (arith, both)

  -- What is read last is at its distance.
  nearest_last :
      (read : List T) (p : FilePath) (x : T) (n : ℕ)
      → located k get_path source x ≡ some p
      → n ≤ distance source p
      → ((q : FilePath) (y : T)
          → Memᴰ y read
          → located k get_path source y ≡ some q
          → n ≤ distance source q)
      → (q : FilePath) (y : T) → Memᴰ y (read ++ x ∷ [])
      → located k get_path source y ≡ some q
      → n ≤ distance source q
  nearest_last read p x n e d h q y m f =
      ⊎_elim (λ old. h q y old f)
        (λ same. subst (λ z. n ≤ distance source z) (sym (path_of p q x y e f same)) d)
        (Memᴰ-last y x read m)

  module _ (read : List T) (p : FilePath) (x : T) (best : ℕ) (kept : List (FilePath × T))
      (e : located k get_path source x ≡ some p) (h : Scanned read (best, kept)) where
    nearer : distance source p < best → Scanned (read ++ x ∷ []) (distance source p, (p, x) ∷ [])
    nearer d = record {
      sound = λ q y m.
          let same : (q, y) ≡ (p, x) = Memᴰ.eq_of_singleton m in
          (
            Memᴰ.append_right read (Memᴰ.head (ap (λ z. z.1) same)),
            record {
              on_path =
                  ap (λ z. located k get_path source z.1) same
                  ∙ (e ∙ ap (λ z. some z.0) (sym same));
              far = ap (λ z. distance source z.0) same;
            },
          );
      nearest =
          nearest_last read p x (distance source p) e (omega arith)
            (λ q y m f. omega (arith, h.nearest q y m f));
      complete = λ q y m at.
          ⊎_elim (λ old. absurd (omega (arith, h.nearest q y old at.on_path, at.far)))
            (λ same. Memᴰ.head (pair_path (path_of p q x y e at.on_path same) same))
            (Memᴰ-last y x read m);
    }

    farther : best < distance source p → Scanned (read ++ x ∷ []) (best, kept)
    farther d = record {
      sound = λ q y m. (Memᴰ.append_left (x ∷ []) (h.sound q y m).0, (h.sound q y m).1);
      nearest = nearest_last read p x best e (omega arith) h.nearest;
      complete = λ q y m at.
          ⊎_elim (λ old. h.complete q y old at)
            (λ same.
              absurd (
                omega (arith, at.far, d, ap (distance source) (path_of p q x y e at.on_path same))))
            (Memᴰ-last y x read m);
    }

    as_near : distance source p ≡ best → Scanned (read ++ x ∷ []) (best, kept ++ (p, x) ∷ [])
    as_near d = record {
      sound = λ q y m.
          ⊎_elim (λ old. (Memᴰ.append_left (x ∷ []) (h.sound q y old).0, (h.sound q y old).1))
            (λ same. (
              Memᴰ.append_right read (Memᴰ.head (ap (λ z. z.1) same)),
              record {
                on_path =
                    ap (λ z. located k get_path source z.1) same
                    ∙ (e ∙ ap (λ z. some z.0) (sym same));
                far = ap (λ z. distance source z.0) same ∙ d;
              },
            ))
            (Memᴰ-last (q, y) (p, x) kept m);
      nearest = nearest_last read p x best e (omega (arith, d)) h.nearest;
      complete = λ q y m at.
          ⊎_elim (λ old. Memᴰ.append_left ((p, x) ∷ []) (h.complete q y old at))
            (λ same.
              Memᴰ.append_right kept
                (Memᴰ.head (pair_path (path_of p q x y e at.on_path same) same)))
            (Memᴰ-last y x read m);
    }

  keep_nearest-Scanned :
      (read : List T) (p : FilePath) (x : T) (s : ℕ × List (FilePath × T))
      → located k get_path source x ≡ some p
      → Scanned read s
      → Scanned (read ++ x ∷ []) (keep_nearest k get_path (distance source p) p x s)
  unfolding keep_nearest
  keep_nearest-Scanned read p x (best, kept) e h =
      elim (Bool-cases (ltb (distance source p) best)) [
        | inl y ↦ rw (y) (nearer read p x best kept e h (ground (arith, y)))
        | inr y ↦ elim (Bool-cases (distance source p == best)) [
          | inl z ↦ rw (y, z) (as_near read p x best kept e h (ground (arith, z)))
          | inr z ↦ rw (y, z) (farther read p x best kept e h (ground (arith, y, z)))
        ]
      ]

  consider-Scanned :
      (read : List T) (o : Option FilePath) (x : T) (s : ℕ × List (FilePath × T))
      → located k get_path source x ≡ o
      → Scanned read s
      → Scanned (read ++ x ∷ []) (consider k get_path source o x s)
  unfolding consider
  consider-Scanned read (some p) x s e h = keep_nearest-Scanned read p x s e h
  consider-Scanned read none x s e h = record {
    sound = λ q y m. (Memᴰ.append_left (x ∷ []) (h.sound q y m).0, (h.sound q y m).1);
    nearest = λ q y m f.
        ⊎_elim (λ old. h.nearest q y old f) (λ same. absurd (nowhere q y same f))
          (Memᴰ-last y x read m);
    complete = λ q y m at.
        ⊎_elim (λ old. h.complete q y old at) (λ same. absurd (nowhere q y same at.on_path))
          (Memᴰ-last y x read m);
  }
    where
      nowhere : (q : FilePath) (y : T) → y ≡ x → located k get_path source y ≡ some q → ⊥
      nowhere q y same f =
          let both : none ≡ some q = sym e ∙ (ap (located k get_path source) (sym same) ∙ f) in
          ground (arith, both)

  pub scan_nearest-Scanned :
      (xs read : List T) (s : ℕ × List (FilePath × T))
      → Scanned read s
      → Scanned (read ++ xs) (scan_nearest k get_path source xs s)
  unfolding scan_nearest
  scan_nearest-Scanned [] read s h = rw (append-nil read) h
  scan_nearest-Scanned (x ∷ xs) read s h =
      subst
        (λ r. Scanned r (
          scan_nearest k get_path source xs
            (consider k get_path source (located k get_path source x) x s)))
        (append_assoc read (x ∷ []) xs)
        (scan_nearest-Scanned xs (read ++ x ∷ []) _
          (consider-Scanned read (located k get_path source x) x s refl h))

  pub Scanned-nil : (n : ℕ) → Scanned [] (n, [])
  Scanned-nil n = record {
    sound = λ p x m. absurd (Memᴰ.not-nil m);
    nearest = λ p x m e. absurd (Memᴰ.not-nil m);
    complete = λ p x m e. absurd (Memᴰ.not-nil m);
  }
