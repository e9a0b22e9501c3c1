-- ===== src/Assoc.antt =====
-- `std::unordered_map` as an association list, and `std::unordered_set` as a list, over a key
-- type with an equality test. The order of iteration is not specified in C++: here it is the
-- order of the list, and the theorems do not depend on it.
pub mod Multi
use slang_server_verilator.Prelude.{
  Bool, true, false, ◌||◌, List, [], ◌∷◌, ◌≡◌, refl, Option, none, some, arith, if◌then◌else◌, Eq,
  map,
}

module _ {ℓ κ} {K : Type ℓ} {V : Type κ} ⦃e : Eq K⦄ where
  unfoldable pub find : K → List (K × V) → Option V
  find k [] = none
  find k ((j, v) ∷ m) = if e.eqb j k then some v else find k m

  -- `map[k] = v`
  unfoldable pub assign : K → V → List (K × V) → List (K × V)
  assign k v [] = (k, v) ∷ []
  assign k v ((j, w) ∷ m) = if e.eqb j k then (k, v) ∷ m else (j, w) ∷ assign k v m

  unfoldable pub erase : K → List (K × V) → List (K × V)
  erase k [] = []
  erase k ((j, w) ∷ m) = let rest = erase k m in if e.eqb j k then rest else (j, w) ∷ rest

  abbrev pub keys : List (K × V) → List K
  keys = map (λ p. p.0)

  pub find-assign :
      (k j : K) (v : V) (m : List (K × V))
      → find j (assign k v m) ≡ (if e.eqb k j then some v else find j m)
  unfolding find assign
  find-assign k j v [] = refl
  find-assign k j v ((i, w) ∷ m) =
      ground (arith, e.eqb_iff k j, e.eqb_iff i k, e.eqb_iff i j, find-assign k j v m)

  pub find-erase :
      (k j : K) (m : List (K × V)) → find j (erase k m) ≡ (if e.eqb k j then none else find j m)
  unfolding find erase
  find-erase k j [] = ground arith
  find-erase k j ((i, w) ∷ m) =
      ground (arith, e.eqb_iff k j, e.eqb_iff i k, e.eqb_iff i j, find-erase k j m)

module _ {ℓ} {K : Type ℓ} ⦃e : Eq K⦄ where
  unfoldable pub contains : K → List K → Bool
  contains k [] = false
  contains k (j ∷ s) = e.eqb j k || contains k s

  -- `set.emplace(k)`
  unfoldable pub add : K → List K → List K
  add k s = if contains k s then s else k ∷ s

  -- `set.erase(k)`, and `std::erase(vector, k)`
  unfoldable pub remove : K → List K → List K
  remove k [] = []
  remove k (j ∷ s) = let rest = remove k s in if e.eqb j k then rest else j ∷ rest

  pub contains-add : (k j : K) (s : List K) → contains j (add k s) ≡ (e.eqb k j || contains j s)
  unfolding contains add
  contains-add k j s = ground (arith, e.eqb_iff k j)

  pub contains-remove :
      (k j : K) (s : List K) → contains j (remove k s) ≡ (if e.eqb k j then false else contains j s)
  unfolding contains remove
  contains-remove k j [] = ground arith
  contains-remove k j (i ∷ s) =
      ground (arith, e.eqb_iff k j, e.eqb_iff i k, e.eqb_iff i j, contains-remove k j s)

  pub eqb_refl : (k : K) → e.eqb k k ≡ true
  eqb_refl k = (e.eqb_iff k k).1 refl

module _ {ℓ κ} {K : Type ℓ} {V : Type κ} ⦃e : Eq K⦄ where
  -- A key of the map is found.
  pub find-none_of_keys : (k : K) (m : List (K × V)) → contains k (keys m) ≡ false → find k m ≡ none
  unfolding find contains
  find-none_of_keys k [] h = refl
  find-none_of_keys k ((j, w) ∷ m) h = ground (arith, find-none_of_keys k m)
