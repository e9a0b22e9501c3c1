-- ===== src/Rpc/Later.antt =====
-- JsonRpcServer.h: what each operation keeps of the shared states of older contexts, of the counter
-- and of the worker.
use slang_server_verilator.Assoc.{find, assign, find-assign}
use slang_server_verilator.Prelude.{
  suc, ◌<◌, ◌^◌, true, false, ◌≡◌, inl, inr, refl, ◌∙◌, Option, none, some, arith, Bytes, nat_eq,
  list_eq, Option-cases,
}
use slang_server_verilator.Rpc.Register.{
  create_context, register_context, cancel_request, cancel, mark_started, register_active,
  register_pending, supersede, unregister_active, unregister_pending, unregister_context,
  did_change_key,
}
use slang_server_verilator.Rpc.Types.{
  RpcId, id_eq, Request, Context, Routes, Server, flags_of, is_cancelled,
}

-- No step clears the cancelled flag of an older context, and the counter does not fall.
abbrev pub Later : Context → Server → Server → Type 0
Later c s t = (is_cancelled c s ≡ true → is_cancelled c t ≡ true) × (t.next_id ≡ s.next_id)

pub cancel-Later : (c d : Context) (s : Server) → Later c s (cancel d s)
unfolding cancel is_cancelled
cancel-Later c d s = (
  λ h.
      ground
        (arith, find-assign d.serial c.serial (record (flags_of d s) { cancelled = true }) s.flags),
  ground arith,
)

pub mark_started-Later : (c d : Context) (s : Server) → Later c s (mark_started d s)
unfolding mark_started is_cancelled
mark_started-Later c d s = (
  λ h.
      ground
        (arith, find-assign d.serial c.serial (record (flags_of d s) { started = true }) s.flags),
  ground arith,
)

pub create_context_lem :
    (ro : Routes) (r : Request) (c : Context) (s : Server)
    → c.serial < s.next_id
    → suc s.next_id < 2 ^ 64
    → (is_cancelled c (create_context ro r s).1 ≡ is_cancelled c s)
      × ((create_context ro r s).1.next_id ≡ suc s.next_id)
unfolding create_context is_cancelled
create_context_lem ro r c s h w = (
  ground (
    arith,
    find-assign s.next_id c.serial (record { cancelled = false; started = false }) s.flags,
  ),
  omega arith,
)

-- `t` has the shared states, the counter, the worker and the output of `s`.
abbrev pub SameState : Server → Server → Type 0
SameState t s =
    (t.flags ≡ s.flags) × (t.next_id ≡ s.next_id) × (t.worker ≡ s.worker) × (t.sent ≡ s.sent)

pub unregister-SameState :
    (ro : Routes) (r : Request) (c : Context) (s : Server)
    → SameState (unregister_context ro r c s) s
unfolding unregister_context unregister_active unregister_pending
unregister-SameState ro r c s = ground arith

pub register_active-SameState :
    (o : Option RpcId) (c : Context) (s : Server) → SameState (register_active o c s) s
unfolding register_active
register_active-SameState none c s = (refl, refl, refl, refl)
register_active-SameState (some i) c s = (refl, refl, refl, refl)

pub is_cancelled_cong :
    (c : Context) (s t : Server) → t.flags ≡ s.flags → is_cancelled c t ≡ is_cancelled c s
unfolding is_cancelled
is_cancelled_cong c s t e = ground arith

pub supersede-Later :
    (o : Option Context) (c d : Context) (s : Server) → Later c s (supersede o d s)
unfolding supersede
supersede-Later none c d s = (λ h. h, refl)
supersede-Later (some old) c d s =
    (λ h. ground (arith, (cancel-Later c old s).0 h), ground (arith, cancel-Later c old s))

pub register_pending-Later :
    (o : Option Bytes) (c d : Context) (s : Server) → Later c s (register_pending o d s)
unfolding register_pending
register_pending-Later none c d s = (λ h. h, refl)
register_pending-Later (some u) c d s =
    let s1 = supersede (find u s.pending) d s in
    let later = supersede-Later (find u s.pending) c d s in
    (
      λ h. is_cancelled_cong c s1 (record s1 { pending = assign u d s1.pending }) refl ∙ later.0 h,
      later.1,
    )

pub register_context-Later :
    (ro : Routes) (r : Request) (c d : Context) (s : Server) → Later c s (register_context ro r d s)
unfolding register_context
register_context-Later ro r c d s =
    let s1 = register_active r.id d s in
    let same = register_active-SameState r.id d s in
    let later = register_pending-Later (did_change_key ro r) c d s1 in
    (
      λ h.
          let h1 : is_cancelled c s1 ≡ true = is_cancelled_cong c s s1 same.0 ∙ h in
          let h2 = later.0 h1 in ground arith,
      ground (arith, same, later.1),
    )

pub cancel_request-Later : (i : RpcId) (c : Context) (s : Server) → Later c s (cancel_request i s)
unfolding cancel_request
cancel_request-Later i c s = elim (Option-cases (find i s.active)) [
  | inl e ↦ rw (e, cancel_request) (λ h. h, refl)
  | inr (d, e) ↦
      rw (e, cancel_request)
        (λ h. ground (arith, (cancel-Later c d s).0 h), ground (arith, cancel-Later c d s))
]

-- `register_context` leaves the worker and the output as they are.
pub cancel-SameOutput :
    (c : Context) (s : Server) → ((cancel c s).worker ≡ s.worker) × ((cancel c s).sent ≡ s.sent)
unfolding cancel
cancel-SameOutput c s = ground arith

pub register_pending-worker :
    (o : Option Bytes) (c : Context) (s : Server) → (register_pending o c s).worker ≡ s.worker
unfolding register_pending supersede
register_pending-worker none c s = refl
register_pending-worker (some u) c s = elim (Option-cases (find u s.pending)) [
  | inl e ↦ rw (e, supersede)
  | inr (d, e) ↦ rw (e, supersede) (ground (arith, cancel-SameOutput d s))
]

pub register_context-worker :
    (ro : Routes) (r : Request) (c : Context) (s : Server)
    → (register_context ro r c s).worker ≡ s.worker
unfolding register_context
register_context-worker ro r c s = ground (
  arith,
  register_active-SameState r.id c s,
  register_pending-worker (did_change_key ro r) c (register_active r.id c s),
)

pub cancel_request-worker : (i : RpcId) (s : Server) → (cancel_request i s).worker ≡ s.worker
unfolding cancel_request
cancel_request-worker i s = elim (Option-cases (find i s.active)) [
  | inl e ↦ rw (e, cancel_request)
  | inr (d, e) ↦ rw (e, cancel_request) (ground (arith, cancel-SameOutput d s))
]
