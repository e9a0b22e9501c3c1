-- ===== src/Assoc/Multi.antt =====
-- A hash table from keys to vectors that keeps no empty vector, as the tables of the indexer are.
use slang_server_verilator.Assoc.{
  find, assign, erase, contains, remove, find-assign, find-erase, contains-remove,
}
use slang_server_verilator.Prelude.{
  Bool, false, ◌&&◌, ◌||◌, List, [], ◌∷◌, ◌++◌, ◌≡◌, refl, Option, none, some, arith, if◌then◌else◌,
  Option-cases, inl, inr, Eq,
}

abbrev pub items {ℓ} : {V : Type ℓ} → Option (List V) → List V
items none = []
items (some l) = l

module _ {ℓ} {V : Type ℓ} ⦃d : Eq V⦄ where
  pub contains-concat :
      (v w : V) (l : List V) → contains w (l ++ v ∷ []) ≡ (contains w l || d.eqb v w)
  unfolding contains
  contains-concat v w [] = ground arith
  contains-concat v w (x ∷ l) = ground (arith, contains-concat v w l)

module _ {ℓ} {K : Type ℓ} {V : Type ℓ} ⦃e : Eq K⦄ ⦃d : Eq V⦄ where
  -- `table[k]`, empty for a missing key
  unfoldable pub at : K → List (K × List V) → List V
  at k m = items (find k m)

  -- `v` stands under `k`.
  abbrev pub listed : K → V → List (K × List V) → Bool
  listed k v m = contains v (at k m)

  -- `table[k].push_back(v)`
  unfoldable pub push : K → V → List (K × List V) → List (K × List V)
  push k v m = assign k (at k m ++ v ∷ []) m

  set_items : K → List V → List (K × List V) → List (K × List V)
  set_items k [] m = erase k m
  set_items k (x ∷ xs) m = assign k (x ∷ xs) m

  drop_from : Option (List V) → K → V → List (K × List V) → List (K × List V)
  drop_from none k v m = m
  drop_from (some l) k v m = set_items k (remove v l) m

  -- Remove `v` from the vector of `k`, and the key if nothing is left.
  unfoldable pub drop : K → V → List (K × List V) → List (K × List V)
  unfolding drop_from set_items
  drop k v m = drop_from (find k m) k v m

  unfoldable pub push_all : List K → V → List (K × List V) → List (K × List V)
  push_all [] v m = m
  push_all (k ∷ ks) v m = push_all ks v (push k v m)

  unfoldable pub drop_all : List K → V → List (K × List V) → List (K × List V)
  drop_all [] v m = m
  drop_all (k ∷ ks) v m = drop_all ks v (drop k v m)

  pub listed-push :
      (k j : K) (v w : V) (m : List (K × List V))
      → listed j w (push k v m) ≡ (listed j w m || (e.eqb k j && d.eqb v w))
  unfolding push at
  listed-push k j v w m =
      ground
        (arith, e.eqb_iff k j, find-assign k j (at k m ++ v ∷ []) m, contains-concat v w (at k m))

  at-set_items :
      (k j : K) (l : List V) (m : List (K × List V))
      → at j (set_items k l m) ≡ (if e.eqb k j then l else at j m)
  unfolding set_items at
  at-set_items k j [] m = ground (arith, find-erase k j m)
  at-set_items k j (x ∷ xs) m = ground (arith, find-assign k j (x ∷ xs) m)

  pub at-drop :
      (k j : K) (v : V) (m : List (K × List V))
      → at j (drop k v m) ≡ (if e.eqb k j then remove v (at k m) else at j m)
  unfolding drop at
  at-drop k j v m = elim (Option-cases (find k m)) [
    | inl h ↦ rw (h, drop_from) (ground (arith, e.eqb_iff k j, remove_nil v))
    | inr (l, h) ↦ rw (h, drop_from) (at-set_items k j (remove v l) m)
  ]
    where
      remove_nil : (v : V) → remove v [] ≡ []
      remove_nil v = unfold remove in refl

  pub listed-drop :
      (k j : K) (v w : V) (m : List (K × List V))
      → listed j w (drop k v m) ≡ (if e.eqb k j && d.eqb v w then false else listed j w m)
  listed-drop k j v w m =
      ground (arith, e.eqb_iff k j, at-drop k j v m, contains-remove v w (at k m))

  pub listed-push_all :
      (ks : List K) (j : K) (v w : V) (m : List (K × List V))
      → listed j w (push_all ks v m) ≡ (listed j w m || (contains j ks && d.eqb v w))
  unfolding push_all contains
  listed-push_all [] j v w m = ground arith
  listed-push_all (k ∷ ks) j v w m =
      ground (arith, listed-push k j v w m, listed-push_all ks j v w (push k v m))

  pub listed-drop_all :
      (ks : List K) (j : K) (v w : V) (m : List (K × List V))
      → listed j w (drop_all ks v m) ≡ (if contains j ks && d.eqb v w then false else listed j w m)
  unfolding drop_all contains
  listed-drop_all [] j v w m = ground arith
  listed-drop_all (k ∷ ks) j v w m =
      ground (arith, listed-drop k j v w m, listed-drop_all ks j v w (drop k v m))
