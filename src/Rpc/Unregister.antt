-- ===== src/Rpc/Unregister.antt =====
-- include/lsp/JsonRpcServer.h: what `unregisterContext` leaves in the two tables.
use slang_server_verilator.Assoc.{find, find-erase}
use slang_server_verilator.Prelude.{
  true, List, [], ◌∷◌, ◌++◌, ◌≡◌, ◌≢◌, ◌⊎◌, inl, inr, refl, Option, none, some, arith, Bytes,
  list_eq, list_eqb_iff,
}
use slang_server_verilator.Rpc.Register.{
  unregister_active, unregister_pending, unregister_context, did_change_key,
}
use slang_server_verilator.Rpc.Steps.{entries}
use slang_server_verilator.Rpc.Types.{RpcId, id_eq, id_eqb_iff, Request, Context, Routes, Server}

abbrev pub Any {ℓ} : {A : Type ℓ} → (A → Type 0) → List A → Type 0
Any P [] = ⊥
Any P (x ∷ xs) = P x ⊎ Any P xs

pub Any-append_left {ℓ} :
    {A : Type ℓ} (P : A → Type 0) (xs ys : List A) → Any P xs → Any P (xs ++ ys)
Any-append_left P [] ys a = absurd a
Any-append_left P (x ∷ xs) ys (inl a) = inl a
Any-append_left P (x ∷ xs) ys (inr a) = inr (Any-append_left P xs ys a)

pub Any-append_right {ℓ} :
    {A : Type ℓ} (P : A → Type 0) (xs ys : List A) → Any P ys → Any P (xs ++ ys)
Any-append_right P [] ys a = a
Any-append_right P (x ∷ xs) ys a = inr (Any-append_right P xs ys a)

-- Message `e` is the one of request `i`, with the context `c`.
abbrev pub IsFor : RpcId → Context → Request × Context → Type 0
IsFor i c e = (e.0.id ≡ some i) × (e.1.serial ≡ c.serial)

-- Message `e` is a change of document `u`, with the context `c`.
abbrev pub IsChange : Routes → Bytes → Context → Request × Context → Type 0
IsChange ro u c e =
    (did_change_key ro e.0 ≡ some u) × (e.1.supports ≡ true) × (e.1.serial ≡ c.serial)

pub record Tracked (ro : Routes) (s : Server) : Type 0 where
  pub active_entry :
      (i : RpcId) (c : Context) → find i s.active ≡ some c → Any (IsFor i c) (entries s)
  pub pending_entry :
      (u : Bytes) (c : Context) → find u s.pending ≡ some c → Any (IsChange ro u c) (entries s)

-- What `unregister_context` leaves is older, and is no entry of the context itself.
pub unregister_active_lem :
    (o : Option RpcId) (c : Context) (s : Server) (i : RpcId) (x : Context)
    → find i (unregister_active o c s).active ≡ some x
    → (find i s.active ≡ some x) × (o ≡ some i → c.serial ≢ x.serial)
unfolding unregister_active
unregister_active_lem none c s i x h = (h, λ e. cc)
unregister_active_lem (some j) c s i x h = (
  ground (arith, find-erase j i s.active),
  λ e n. ground (arith, find-erase j i s.active, id_eqb_iff j i),
)

pub unregister_pending_lem :
    (o : Option Bytes) (c : Context) (s : Server) (u : Bytes) (x : Context)
    → find u (unregister_pending o c s).pending ≡ some x
    → (find u s.pending ≡ some x) × (o ≡ some u → c.serial ≢ x.serial)
unfolding unregister_pending
unregister_pending_lem none c s u x h = (h, λ e. cc)
unregister_pending_lem (some j) c s u x h = (
  ground (arith, find-erase j u s.pending),
  λ e n. ground (arith, find-erase j u s.pending, list_eqb_iff j u),
)

pub unregister_active-keeps :
    (o : Option RpcId) (c : Context) (s : Server)
    → ((unregister_active o c s).pending ≡ s.pending)
      × ((unregister_active o c s).queue ≡ s.queue)
      × ((unregister_active o c s).worker ≡ s.worker)
unfolding unregister_active
unregister_active-keeps none c s = (refl, refl, refl)
unregister_active-keeps (some i) c s = ground arith

pub unregister_pending-keeps :
    (o : Option Bytes) (c : Context) (s : Server)
    → ((unregister_pending o c s).active ≡ s.active)
      × ((unregister_pending o c s).queue ≡ s.queue)
      × ((unregister_pending o c s).worker ≡ s.worker)
unfolding unregister_pending
unregister_pending-keeps none c s = (refl, refl, refl)
unregister_pending-keeps (some u) c s = ground arith

pub unregister_context-entries :
    (ro : Routes) (r : Request) (c : Context) (s : Server)
    → entries (unregister_context ro r c s) ≡ entries s
unfolding unregister_context
unregister_context-entries ro r c s = ground (
  arith,
  unregister_active-keeps r.id c s,
  unregister_pending-keeps (did_change_key ro r) c (unregister_active r.id c s),
)

pub unregister_context-active :
    (ro : Routes) (r : Request) (c : Context) (s : Server) (i : RpcId) (x : Context)
    → find i (unregister_context ro r c s).active ≡ some x
    → (find i s.active ≡ some x) × (r.id ≡ some i → c.serial ≢ x.serial)
unfolding unregister_context
unregister_context-active ro r c s i x h = (
  ground (
    arith,
    unregister_active_lem r.id c s i x,
    unregister_pending-keeps (did_change_key ro r) c (unregister_active r.id c s),
  ),
  λ e n. ground (
    arith,
    unregister_active_lem r.id c s i x,
    unregister_pending-keeps (did_change_key ro r) c (unregister_active r.id c s),
  ),
)

pub unregister_context-pending :
    (ro : Routes) (r : Request) (c : Context) (s : Server) (u : Bytes) (x : Context)
    → find u (unregister_context ro r c s).pending ≡ some x
    → (find u s.pending ≡ some x)
      × (did_change_key ro r ≡ some u → c.supports ≡ true → c.serial ≢ x.serial)
unfolding unregister_context
unregister_context-pending ro r c s u x h = (
  ground (
    arith,
    unregister_active-keeps r.id c s,
    unregister_pending_lem (did_change_key ro r) c (unregister_active r.id c s) u x,
  ),
  λ e b n. ground (
    arith,
    unregister_active-keeps r.id c s,
    unregister_pending_lem (did_change_key ro r) c (unregister_active r.id c s) u x,
  ),
)
