-- ===== src/Rpc/Keeps.antt =====
-- JsonRpcServer.h: what each operation keeps of the two tables and of the unfinished messages.
use slang_server_verilator.Assoc.{find, find-assign}
use slang_server_verilator.Prelude.{
  true, ◌≡◌, ◌⊎◌, inl, inr, refl, Option, none, some, arith, Bytes, list_eq, list_eqb_iff,
  Option-cases,
}
use slang_server_verilator.Rpc.Process.{
  Outcome, returns, raises, raises_unknown, begin_by_id, finish_by_id, send_response, send_failure,
  send, close,
}
use slang_server_verilator.Text.{codes}
use slang_server_verilator.Rpc.Register.{
  create_context, register_context, cancel_request, cancel, mark_started, register_active,
  register_pending, supersede, unregister_active, unregister_pending, unregister_context,
  did_change_key,
}
use slang_server_verilator.Rpc.Steps.{handle_cancel, cancel_message, entries}
use slang_server_verilator.Rpc.Types.{
  ErrorCode, Sent, reports_error, request_cancelled, internal_error, RpcId, id_eq, id_eqb_iff,
  Request, Context, running, Routes, Server,
}

-- `t` is `s` but for the shared states and the output.
abbrev pub SameWork : Server → Server → Type 0
SameWork t s =
    (t.active ≡ s.active) × (t.pending ≡ s.pending) × (t.queue ≡ s.queue) × (t.worker ≡ s.worker)

pub cancel-SameWork : (c : Context) (s : Server) → SameWork (cancel c s) s
unfolding cancel
cancel-SameWork c s = ground arith

pub cancel_request-SameWork : (i : RpcId) (s : Server) → SameWork (cancel_request i s) s
unfolding cancel_request
cancel_request-SameWork i s = elim (Option-cases (find i s.active)) [
  | inl e ↦ rw (e, cancel_request) (refl, refl, refl, refl)
  | inr (c, e) ↦ rw (e, cancel_request) (ground (arith, cancel-SameWork c s))
]

pub handle_cancel-SameWork :
    (ro : Routes) (i : RpcId) (s : Server) → SameWork (handle_cancel ro i s) s
unfolding handle_cancel create_context
handle_cancel-SameWork ro i s =
    ground (arith, cancel_request-SameWork i (create_context ro cancel_message s).1)

pub send_response-SameWork :
    (ro : Routes) (i : RpcId) (value : Bytes) (s : Server) → SameWork (send_response ro i value s) s
unfolding send_response
send_response-SameWork ro i value s = ground arith

pub send_failure-SameWork :
    (ro : Routes) (i : RpcId) (e : ErrorCode) (m : Bytes) (s : Server)
    → SameWork (send_failure ro i e m s) s
unfolding send_failure
send_failure-SameWork ro i e m s = ground arith

pub begin_cases :
    (ro : Routes) (r : Request) (c : Context) (s : Server) (o : Option RpcId)
    → SameWork (begin_by_id o ro r c s) (record s { worker = running r c })
      ⊎ SameWork (begin_by_id o ro r c s) (close ro r c s)
unfolding begin_by_id mark_started
begin_cases ro r c s none = ground arith
begin_cases ro r c s (some i) = ground (
  arith,
  send_failure-SameWork ro i request_cancelled (codes "Request cancelled") (close ro r c s),
)

-- The hook's message does not change what is closed.
pub close-send :
    (ro : Routes) (r : Request) (c : Context) (m : Sent) (s : Server)
    → SameWork (close ro r c (send m s)) (close ro r c s)
unfolding unregister_context unregister_active unregister_pending
close-send ro r c m s = ground arith

pub failure-after-hook :
    (ro : Routes) (r : Request) (c : Context) (i : RpcId) (what : Bytes) (m : Sent) (s : Server)
    → SameWork (send_failure ro i internal_error what (close ro r c (send m s))) (close ro r c s)
failure-after-hook ro r c i what m s = ground (
  arith,
  send_failure-SameWork ro i internal_error what (close ro r c (send m s)),
  close-send ro r c m s,
)

pub finish-SameWork :
    (ro : Routes) (r : Request) (c : Context) (s : Server) (o : Option RpcId) (out : Outcome)
    → SameWork (finish_by_id o out ro r c s) (close ro r c s)
unfolding finish_by_id
finish-SameWork ro r c s none (returns v) = ground arith
finish-SameWork ro r c s none Outcome.cancels = ground arith
finish-SameWork ro r c s none (raises w) = close-send ro r c (reports_error r.method w) s
finish-SameWork ro r c s none raises_unknown =
    close-send ro r c (reports_error r.method (codes "unknown exception")) s
finish-SameWork ro r c s (some i) (returns v) = ground (
  arith,
  send_failure-SameWork ro i request_cancelled (codes "Request cancelled") (close ro r c s),
  send_response-SameWork ro i v (close ro r c s),
)
finish-SameWork ro r c s (some i) Outcome.cancels =
    send_failure-SameWork ro i request_cancelled (codes "Request cancelled") (close ro r c s)
finish-SameWork ro r c s (some i) (raises w) =
    failure-after-hook ro r c i w (reports_error r.method w) s
finish-SameWork ro r c s (some i) raises_unknown =
    failure-after-hook ro r c i (codes "Unknown exception")
      (reports_error r.method (codes "unknown exception")) s

pub supersede-keeps : (o : Option Context) (c : Context) (s : Server) → SameWork (supersede o c s) s
unfolding supersede
supersede-keeps none c s = (refl, refl, refl, refl)
supersede-keeps (some old) c s = ground (arith, cancel-SameWork old s)

pub register_active_lem :
    (o : Option RpcId) (c : Context) (s : Server) (i : RpcId) (x : Context)
    → find i (register_active o c s).active ≡ some x
    → ((o ≡ some i) × (x ≡ c)) ⊎ (find i s.active ≡ some x)
unfolding register_active
register_active_lem none c s i x h = inr h
register_active_lem (some j) c s i x h = ground (arith, find-assign j i c s.active, id_eqb_iff j i)

pub register_active-keeps :
    (o : Option RpcId) (c : Context) (s : Server)
    → ((register_active o c s).pending ≡ s.pending) × (entries (register_active o c s) ≡ entries s)
unfolding register_active
register_active-keeps none c s = (refl, refl)
register_active-keeps (some i) c s = (refl, refl)

pub register_pending_lem :
    (o : Option Bytes) (c : Context) (s : Server) (u : Bytes) (x : Context)
    → find u (register_pending o c s).pending ≡ some x
    → ((o ≡ some u) × (x ≡ c)) ⊎ (find u s.pending ≡ some x)
unfolding register_pending
register_pending_lem none c s u x h = inr h
register_pending_lem (some v) c s u x h = ground (
  arith,
  supersede-keeps (find v s.pending) c s,
  list_eqb_iff v u,
  find-assign v u c (supersede (find v s.pending) c s).pending,
)

pub register_pending-keeps :
    (o : Option Bytes) (c : Context) (s : Server)
    → ((register_pending o c s).active ≡ s.active) × (entries (register_pending o c s) ≡ entries s)
unfolding register_pending
register_pending-keeps none c s = (refl, refl)
register_pending-keeps (some v) c s = ground (arith, supersede-keeps (find v s.pending) c s)

pub register_context_lem :
    (ro : Routes) (r : Request) (c : Context) (s : Server)
    → ((i : RpcId) (x : Context)
        → find i (register_context ro r c s).active ≡ some x
        → ((r.id ≡ some i) × (x ≡ c)) ⊎ (find i s.active ≡ some x))
      × ((u : Bytes) (x : Context)
          → find u (register_context ro r c s).pending ≡ some x
          → ((did_change_key ro r ≡ some u) × (c.supports ≡ true) × (x ≡ c))
            ⊎ (find u s.pending ≡ some x))
      × (entries (register_context ro r c s) ≡ entries s)
unfolding register_context
register_context_lem ro r c s =
    let s1 = register_active r.id c s in
    let k = did_change_key ro r in
    (
      λ i x h. ground (arith, register_active_lem r.id c s i x, register_pending-keeps k c s1),
      λ u x h. ground (arith, register_active-keeps r.id c s, register_pending_lem k c s1 u x),
      ground (arith, register_active-keeps r.id c s, register_pending-keeps k c s1),
    )
