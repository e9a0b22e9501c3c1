-- ===== src/Rpc/Stopped.antt =====
-- JsonRpcServer.h: a request that is cancelled while it waits stays so, whatever step is made.
use slang_server_verilator.Prelude.{
  suc, ◌<◌, ◌^◌, Bool, true, false, [], ◌∷◌, ◌++◌, ◌≡◌, ◌≢◌, ◌⊎◌, inl, inr, refl, sym, ap, ◌∙◌,
  Option, none, some, arith, Bytes, nat_eq, list_eq, Bool-cases,
}
use slang_server_verilator.Rpc.Later.{
  create_context_lem, mark_started-Later, unregister-SameState, is_cancelled_cong,
  register_context-Later, cancel_request-Later, register_context-worker, cancel_request-worker,
}
use slang_server_verilator.Rpc.Process.{
  Outcome, returns, raises, raises_unknown, begin, begin_by_id, finish, finish_by_id, send_response,
  send_failure, send, close,
}
use slang_server_verilator.Rpc.Register.{create_context, register_context, mark_started}
use slang_server_verilator.Rpc.Steps.{
  Step, enqueues, cancels, takes, begins, finishes, Reach, here, next, enqueue, handle_cancel,
  cancel_message,
}
use slang_server_verilator.Rpc.Types.{
  ErrorCode, reports_error, RpcId, id_eq, Request, Context, Worker, idle, taken, running, Routes,
  Server, is_cancelled,
}
use slang_server_verilator.Text.{codes}

pub send_failure-SameState :
    (ro : Routes) (i : RpcId) (e : ErrorCode) (m : Bytes) (s : Server)
    → ((send_failure ro i e m s).flags ≡ s.flags)
      × ((send_failure ro i e m s).next_id ≡ s.next_id)
      × ((send_failure ro i e m s).worker ≡ s.worker)
unfolding send_failure
send_failure-SameState ro i e m s = ground arith

pub send_response-SameState :
    (ro : Routes) (i : RpcId) (v : Bytes) (s : Server)
    → ((send_response ro i v s).flags ≡ s.flags)
      × ((send_response ro i v s).next_id ≡ s.next_id)
      × ((send_response ro i v s).worker ≡ s.worker)
unfolding send_response
send_response-SameState ro i v s = ground arith

-- Request `r` of context `c` is cancelled, and its handler does not run.
pub record IsStopped (r : Request) (c : Context) (s : Server) : Type 0 where
  pub cancelled : is_cancelled c s ≡ true
  pub older : c.serial < s.next_id
  pub not_running : s.worker ≢ running r c

-- What a step leaves of the shared states, if its worker ends idle
pub IsStopped-idle :
    (r : Request) (c : Context) (s t : Server)
    → t.flags ≡ s.flags
    → t.next_id ≡ s.next_id
    → t.worker ≡ idle
    → IsStopped r c s
    → IsStopped r c t
IsStopped-idle r c s t f n w k = record {
  cancelled = is_cancelled_cong c s t f ∙ k.cancelled;
  older = rw n k.older;
  not_running = λ e. cc (sym w ∙ e);
}

pub close-idle :
    (ro : Routes) (r : Request) (c : Context) (s : Server)
    → ((close ro r c s).flags ≡ s.flags)
      × ((close ro r c s).next_id ≡ s.next_id)
      × ((close ro r c s).worker ≡ idle)
      × ((close ro r c s).sent ≡ s.sent)
close-idle ro r c s = unregister-SameState ro r c (record s { worker = idle })

-- `finish` leaves the shared states as they are, and an idle worker.
pub finish-idle :
    (ro : Routes) (r : Request) (c : Context) (s : Server) (o : Option RpcId) (out : Outcome)
    → ((finish_by_id o out ro r c s).flags ≡ s.flags)
      × ((finish_by_id o out ro r c s).next_id ≡ s.next_id)
      × ((finish_by_id o out ro r c s).worker ≡ idle)
unfolding finish_by_id send_failure send_response
finish-idle ro r c s none (returns v) = ground (arith, close-idle ro r c s)
finish-idle ro r c s none Outcome.cancels = ground (arith, close-idle ro r c s)
finish-idle ro r c s none (raises w) =
    ground (arith, close-idle ro r c (send (reports_error r.method w) s))
finish-idle ro r c s none raises_unknown =
    ground (arith, close-idle ro r c (send (reports_error r.method (codes "unknown exception")) s))
finish-idle ro r c s (some i) (returns v) = ground (arith, close-idle ro r c s)
finish-idle ro r c s (some i) Outcome.cancels = ground (arith, close-idle ro r c s)
finish-idle ro r c s (some i) (raises w) =
    ground (arith, close-idle ro r c (send (reports_error r.method w) s))
finish-idle ro r c s (some i) raises_unknown =
    ground (arith, close-idle ro r c (send (reports_error r.method (codes "unknown exception")) s))

-- Where `begin` of a message leads: into its handler, of a request not cancelled, or to its end.
pub begin-ends :
    (ro : Routes) (r : Request) (c : Context) (s : Server) (o : Option RpcId)
    → (((begin_by_id o ro r c s).worker ≡ running r c)
        × (o ≢ none → is_cancelled c s ≡ false)
        × ((begin_by_id o ro r c s).next_id ≡ s.next_id)
        × (((begin_by_id o ro r c s).flags ≡ s.flags)
            ⊎ ((begin_by_id o ro r c s).flags ≡ (mark_started c s).flags)))
      ⊎ (((begin_by_id o ro r c s).flags ≡ s.flags)
          × ((begin_by_id o ro r c s).next_id ≡ s.next_id)
          × ((begin_by_id o ro r c s).worker ≡ idle))
unfolding begin_by_id send_failure mark_started
begin-ends ro r c s none = elim (Bool-cases (ro.has_notification r.method)) [
  | inl e ↦ rw e (inl (refl, λ n. absurd (n refl), refl, inl refl))
  | inr e ↦ rw e (inr (ground (arith, close-idle ro r c s)))
]
begin-ends ro r c s (some i) = elim (Bool-cases (ro.has_request r.method)) [
  | inl e ↦ rw e (elim (Bool-cases (is_cancelled c s)) [
    | inl k ↦ rw k (inr (ground (arith, close-idle ro r c s)))
    | inr k ↦ rw k (inl (refl, λ n. refl, ground arith, inr refl))
  ])
  | inr e ↦ rw e (inr (ground (arith, close-idle ro r c s)))
]

abbrev pub worker_id : Worker → Option RpcId
worker_id (running r c) = r.id
worker_id _ = none

abbrev pub worker_cancelled : Worker → Server → Bool
worker_cancelled (running r c) s = is_cancelled c s
worker_cancelled _ s = false

pub create_context-worker :
    (ro : Routes) (r : Request) (s : Server) → ((create_context ro r s).1.worker ≡ s.worker)
unfolding create_context
create_context-worker ro r s = refl

pub begin-IsStopped :
    (ro : Routes) (r q : Request) (c d : Context) (i : RpcId) (s : Server)
    → r.id ≡ some i
    → IsStopped r c s
    → IsStopped r c (begin ro q d s)
unfolding begin
begin-IsStopped ro r q c d i s e k = elim (begin-ends ro q d s q.id) [
  | inl (w, live, n, f) ↦ record {
    cancelled = elim f [
      | inl same ↦ is_cancelled_cong c s (begin_by_id q.id ro q d s) same ∙ k.cancelled
      | inr marked ↦
          is_cancelled_cong c (mark_started d s) (begin_by_id q.id ro q d s) marked
          ∙ (mark_started-Later c d s).0 k.cancelled
    ];
    older = rw n k.older;
    not_running = λ h.
        let same : running q d ≡ running r c = sym w ∙ h in
        let dq : q.id ≡ some i = ap (λ w. worker_id w) same ∙ e in
        let dc : is_cancelled d s ≡ true = ap (λ w. worker_cancelled w s) same ∙ k.cancelled in
        cc (live (λ z. cc (sym z ∙ dq)), dc);
  }
  | inr (f, n, w) ↦ IsStopped-idle r c s (begin_by_id q.id ro q d s) f n w k
]

pub enqueue-IsStopped :
    (ro : Routes) (r q : Request) (c : Context) (s : Server)
    → suc s.next_id < 2 ^ 64
    → IsStopped r c s
    → IsStopped r c (enqueue ro q s)
unfolding enqueue
enqueue-IsStopped ro r q c s h k =
    let (d, s1) = create_context ro q s in
    let made = create_context_lem ro q c s k.older h in
    let later = register_context-Later ro q c d s1 in
    let s2 = register_context ro q d s1 in
    record {
      cancelled =
          is_cancelled_cong c s2 (record s2 { queue = s2.queue ++ (q, d) ∷ [] }) refl
          ∙ later.0 (made.0 ∙ k.cancelled);
      older = omega (arith, later.1, made.1, k.older);
      not_running = λ e.
          k.not_running
            (sym (create_context-worker ro q s) ∙ sym (register_context-worker ro q d s1) ∙ e);
    }

pub handle_cancel-IsStopped :
    (ro : Routes) (r : Request) (c : Context) (i : RpcId) (s : Server)
    → suc s.next_id < 2 ^ 64
    → IsStopped r c s
    → IsStopped r c (handle_cancel ro i s)
unfolding handle_cancel
handle_cancel-IsStopped ro r c i s h k =
    let s1 = (create_context ro cancel_message s).1 in
    let made = create_context_lem ro cancel_message c s k.older h in
    let later = cancel_request-Later i c s1 in
    record {
      cancelled = later.0 (made.0 ∙ k.cancelled);
      older = omega (arith, later.1, made.1, k.older);
      not_running = λ e.
          k.not_running (
            sym (create_context-worker ro cancel_message s) ∙ sym (cancel_request-worker i s1) ∙ e);
    }

pub Step-IsStopped :
    (ro : Routes) (r : Request) (c : Context) (i : RpcId) {s t : Server}
    → r.id ≡ some i
    → Step ro s t
    → IsStopped r c s
    → IsStopped r c t
Step-IsStopped ro r c i e (enqueues s q h) k = enqueue-IsStopped ro r q c s h k
Step-IsStopped ro r c i e (cancels s j h) k = handle_cancel-IsStopped ro r c j s h k
Step-IsStopped ro r c i e (takes s q d rest w l) k = record {
  cancelled =
      is_cancelled_cong c s (record s { queue = rest; worker = taken q d }) refl ∙ k.cancelled;
  older = k.older;
  not_running = λ h. cc h;
}
Step-IsStopped ro r c i e (begins s q d w) k = begin-IsStopped ro r q c d i s e k
Step-IsStopped ro r c i e (finishes s q d out w) k =
    unfold finish in
    let (f, n, w') = finish-idle ro q d s q.id out in
    IsStopped-idle r c s (finish_by_id q.id out ro q d s) f n w' k

pub Reach-IsStopped :
    (ro : Routes) (r : Request) (c : Context) (i : RpcId) {s t : Server}
    → r.id ≡ some i
    → IsStopped r c s
    → Reach ro s t
    → IsStopped r c t
Reach-IsStopped ro r c i e k here = k
Reach-IsStopped ro r c i e k (next l st) =
    Step-IsStopped ro r c i e st (Reach-IsStopped ro r c i e k l)
