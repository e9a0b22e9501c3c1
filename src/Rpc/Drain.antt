-- ===== src/Rpc/Drain.antt =====
-- JsonRpcServer.h, the worker thread of `run`: what is queued is worked off.
use slang_server_verilator.Prelude.{
  ℕ, suc, ◌+◌, ◌*◌, ◌≤◌, ◌<◌, List, [], ◌∷◌, ◌≡◌, ◌⊎◌, inl, inr, refl, arith, length,
}
use slang_server_verilator.Rpc.Keeps.{begin_cases, finish-SameWork}
use slang_server_verilator.Rpc.Process.{Outcome, begin, finish, close}
use slang_server_verilator.Rpc.Register.{unregister_context, unregister_active, unregister_pending}
use slang_server_verilator.Rpc.Types.{
  Request, Context, Worker, idle, taken, running, Routes, Server,
}

-- The steps that are left at most: to take, to begin and to finish a message
abbrev pub worker_steps : Worker → ℕ
worker_steps idle = 0
worker_steps (taken r c) = 2
worker_steps (running r c) = 1

abbrev pub steps_left : Server → ℕ
steps_left s = 3 * length s.queue + worker_steps s.worker

-- A step of the worker alone
pub data WorkerStep (ro : Routes) (s : Server) : Server → Type 0 where
  takes :
      (r : Request) (c : Context) (rest : List (Request × Context))
      → s.worker ≡ idle
      → s.queue ≡ (r, c) ∷ rest
      → WorkerStep ro s (record s { queue = rest; worker = taken r c })
  begins : (r : Request) (c : Context) → s.worker ≡ taken r c → WorkerStep ro s (begin ro r c s)
  finishes :
      (r : Request) (c : Context) (o : Outcome)
      → s.worker ≡ running r c
      → WorkerStep ro s (finish ro r c o s)

-- `n` steps of the worker
pub data WorkerRun (ro : Routes) (s : Server) : ℕ → Server → Type 0 where
  rests : WorkerRun ro s 0 s
  works : {n : ℕ} {t u : Server} → WorkerRun ro s n t → WorkerStep ro t u → WorkerRun ro s (suc n) u

pub close-steps :
    (ro : Routes) (r : Request) (c : Context) (s : Server)
    → ((close ro r c s).queue ≡ s.queue) × ((close ro r c s).worker ≡ idle)
unfolding unregister_context unregister_active unregister_pending
close-steps ro r c s = ground arith

begin-steps :
    (ro : Routes) (r : Request) (c : Context) (s : Server)
    → s.worker ≡ taken r c
    → steps_left (begin ro r c s) < steps_left s
unfolding begin
begin-steps ro r c s w = elim (begin_cases ro r c s r.id) [
  | inl same ↦ rw (same.2, same.3, w) (omega arith)
  | inr same ↦
      rw (same.2, same.3, (close-steps ro r c s).0, (close-steps ro r c s).1, w) (omega arith)
]

finish-steps :
    (ro : Routes) (r : Request) (c : Context) (o : Outcome) (s : Server)
    → s.worker ≡ running r c
    → steps_left (finish ro r c o s) < steps_left s
unfolding finish
finish-steps ro r c o s w =
    let same = finish-SameWork ro r c s r.id o in
    rw (same.2, same.3, (close-steps ro r c s).0, (close-steps ro r c s).1, w) (omega arith)

WorkerStep-steps : (ro : Routes) (s t : Server) → WorkerStep ro s t → steps_left t < steps_left s
WorkerStep-steps ro s _ (takes r c rest w q) = rw (w, q) (omega arith)
WorkerStep-steps ro s _ (begins r c w) = begin-steps ro r c s w
WorkerStep-steps ro s _ (finishes r c o w) = finish-steps ro r c o s w

WorkerRun-steps :
    (ro : Routes) (s : Server) {n : ℕ} {t : Server}
    → WorkerRun ro s n t
    → n + steps_left t ≤ steps_left s
WorkerRun-steps ro s rests = omega arith
WorkerRun-steps ro s (works {t = t} {u = u} run step) =
    omega (arith, WorkerRun-steps ro s run, WorkerStep-steps ro t u step)

next_step :
    (ro : Routes) (s : Server) (w : Worker) (queue : List (Request × Context))
    → s.worker ≡ w
    → s.queue ≡ queue
    → ((s.queue ≡ []) × (s.worker ≡ idle)) ⊎ ((u : Server) × WorkerStep ro s u)
next_step ro s idle [] e q = inl (q, e)
next_step ro s idle ((r, c) ∷ rest) e q = inr (_, takes r c rest e q)
next_step ro s (taken r c) queue e q = inr (_, begins r c e)
next_step ro s (running r c) queue e q = inr (_, finishes r c Outcome.cancels e)

-- Any steps of the worker from a state, while the reader queues nothing, are at most three for each
-- queued message and two for the one in hand, and after any of them either the queue is empty and the
-- worker idle, or a further step is there.
pub worker_drains :
    (ro : Routes) (s : Server) (n : ℕ) (t : Server)
    → WorkerRun ro s n t
    → (n ≤ 3 * length s.queue + 2)
      × (((t.queue ≡ []) × (t.worker ≡ idle)) ⊎ ((u : Server) × WorkerStep ro t u))
worker_drains ro s n t run = (
  omega (arith, WorkerRun-steps ro s run, in_hand s.worker),
  next_step ro t t.worker t.queue refl refl,
)
  where
    in_hand : (w : Worker) → worker_steps w ≤ 2
    in_hand idle = omega arith
    in_hand (taken r c) = omega arith
    in_hand (running r c) = omega arith
