-- ===== src/Rpc/Cancel.antt =====
-- JsonRpcServer.h: what a cancellation does to a request that waits.
use slang_server_verilator.Assoc.{find, find-assign}
use slang_server_verilator.Prelude.{
  suc, ◌<◌, ◌^◌, true, false, ◌∷◌, ◌≡◌, ◌≢◌, refl, sym, ◌∙◌, some, arith, nat_eq, list_eq,
}
use slang_server_verilator.Rpc.Later.{create_context_lem, cancel-Later, cancel-SameOutput}
use slang_server_verilator.Rpc.Process.{begin, send_failure}
use slang_server_verilator.Rpc.Register.{create_context, cancel_request, cancel}
use slang_server_verilator.Rpc.Steps.{Reach, handle_cancel, cancel_message}
use slang_server_verilator.Rpc.Types.{
  request_cancelled, failure, RpcId, id_eq, Request, Context, idle, running, Routes, Server,
  flags_of, is_cancelled, has_started,
}
use slang_server_verilator.Text.{codes}
use slang_server_verilator.Rpc.Stopped.{IsStopped, close-idle, Reach-IsStopped}

pub cancel-is_cancelled :
    (c : Context) (i : RpcId) (s : Server) → c.rpc_id ≡ some i → is_cancelled c (cancel c s) ≡ true
unfolding cancel is_cancelled
cancel-is_cancelled c i s o =
    ground
      (arith, find-assign c.serial c.serial (record (flags_of c s) { cancelled = true }) s.flags)

pub cancel_request_waiting :
    (i : RpcId) (c : Context) (s : Server)
    → find i s.active ≡ some c
    → has_started c s ≡ false
    → cancel_request i s ≡ cancel c s
unfolding cancel_request
cancel_request_waiting i c s a h = rw (a, cancel_request) (rw h refl)

pub create_context-has_started :
    (ro : Routes) (c : Context) (s : Server)
    → c.serial < s.next_id
    → has_started c (create_context ro cancel_message s).1 ≡ has_started c s
unfolding create_context has_started
create_context-has_started ro c s h =
    ground (
      arith,
      find-assign s.next_id c.serial (record { cancelled = false; started = false }) s.flags,
    )

-- `cancel_request` finds the request, and it has not started.
pub waiting-IsStopped :
    (ro : Routes) (r : Request) (c : Context) (i : RpcId) (s : Server)
    → find i s.active ≡ some c
    → c.rpc_id ≡ some i
    → c.serial < s.next_id
    → suc s.next_id < 2 ^ 64
    → has_started c s ≡ false
    → s.worker ≢ running r c
    → IsStopped r c (handle_cancel ro i s)
unfolding handle_cancel create_context
waiting-IsStopped ro r c i s a o h w st nr =
    let s1 = (create_context ro cancel_message s).1 in
    let found = cancel_request_waiting i c s1 a (create_context-has_started ro c s h ∙ st) in
    rw found (record {
      cancelled = cancel-is_cancelled c i s1 o;
      older =
          omega (arith, (cancel-Later c c s1).1, (create_context_lem ro cancel_message c s h w).1);
      not_running = λ e. nr (sym (cancel-SameOutput c s1).0 ∙ e);
    })

pub begin_cancelled :
    (ro : Routes) (r : Request) (c : Context) (i : RpcId) (s : Server)
    → r.id ≡ some i
    → is_cancelled c s ≡ true
    → ro.has_request r.method ≡ true
    → ro.can_write (codes "Request cancelled") ≡ true
    → ((begin ro r c s).worker ≡ idle)
      × ((begin ro r c s).sent ≡ failure i request_cancelled (codes "Request cancelled") ∷ s.sent)
unfolding begin send_failure
begin_cancelled ro r c i s e k route can = rw e (ground (arith, close-idle ro r c s))

-- A request that waits when its cancellation arrives never gets to its handler, whatever else
-- happens; and when the worker begins it, the one reply is the error `RequestCancelled`.
pub cancelled_never_runs :
    (ro : Routes) (r : Request) (c : Context) (i : RpcId) (s : Server) {t : Server}
    → r.id ≡ some i
    → find i s.active ≡ some c
    → c.rpc_id ≡ some i
    → c.serial < s.next_id
    → suc s.next_id < 2 ^ 64
    → has_started c s ≡ false
    → s.worker ≢ running r c
    → ro.has_request r.method ≡ true
    → ro.can_write (codes "Request cancelled") ≡ true
    → Reach ro (handle_cancel ro i s) t
    → (t.worker ≢ running r c)
      × ((begin ro r c t).worker ≡ idle)
      × ((begin ro r c t).sent ≡ failure i request_cancelled (codes "Request cancelled") ∷ t.sent)
cancelled_never_runs ro r c i s {t} e a o h w st nr route can l =
    let k = Reach-IsStopped ro r c i e (waiting-IsStopped ro r c i s a o h w st nr) l in
    let (idles, sends) = begin_cancelled ro r c i t e k.cancelled route can in
    (k.not_running, idles, sends)
