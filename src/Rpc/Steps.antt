-- ===== src/Rpc/Steps.antt =====
-- JsonRpcServer.h, `run`: the steps of the reader and of the worker, in any order. A step is what
-- happens under one lock, or between two points where the other thread can be seen; but for the step
-- that queues a message, which registers the context under one lock and pushes it under another.
use slang_server_verilator.Prelude.{suc, ◌<◌, ◌^◌, List, [], ◌∷◌, ◌++◌, ◌≡◌, none}
use slang_server_verilator.Rpc.Process.{Outcome, begin, finish}
use slang_server_verilator.Rpc.Register.{create_context, register_context, cancel_request}
use slang_server_verilator.Rpc.Types.{
  RpcId, Request, Context, Worker, idle, taken, running, Routes, Server,
}
use slang_server_verilator.Text.{codes}

-- The lambda `enqueue`
unfoldable pub enqueue : Routes → Request → Server → Server
enqueue ro r s =
    let (c, s1) = create_context ro r s in
    let s2 = register_context ro r c s1 in record s2 { queue = s2.queue ++ (r, c) ∷ [] }

abbrev pub cancel_message : Request
cancel_message = record { id = none; method = codes "$/cancelRequest"; params = none }

-- `handleCancelRequest` on a well-formed message: it is handled at once, by the reader.
unfoldable pub handle_cancel : Routes → RpcId → Server → Server
handle_cancel ro i s = cancel_request i (create_context ro cancel_message s).1

abbrev pub start_server : Server
start_server = record {
  next_id = 1;
  flags = [];
  active = [];
  pending = [];
  queue = [];
  worker = idle;
  sent = [];
}

-- The reader queues a message or handles a cancellation; the worker takes the oldest message,
-- begins it, and finishes it with any outcome. The counter of contexts does not wrap.
pub data Step (ro : Routes) : Server → Server → Type 0 where
  enqueues : (s : Server) (r : Request) → suc s.next_id < 2 ^ 64 → Step ro s (enqueue ro r s)
  cancels : (s : Server) (i : RpcId) → suc s.next_id < 2 ^ 64 → Step ro s (handle_cancel ro i s)
  takes :
      (s : Server) (r : Request) (c : Context) (rest : List (Request × Context))
      → s.worker ≡ idle
      → s.queue ≡ (r, c) ∷ rest
      → Step ro s (record s { queue = rest; worker = taken r c })
  begins :
      (s : Server) (r : Request) (c : Context) → s.worker ≡ taken r c → Step ro s (begin ro r c s)
  finishes :
      (s : Server) (r : Request) (c : Context) (o : Outcome)
      → s.worker ≡ running r c
      → Step ro s (finish ro r c o s)

pub data Reach (ro : Routes) (s : Server) : Server → Type 0 where
  here : Reach ro s s
  next : {t u : Server} → Reach ro s t → Step ro t u → Reach ro s u

-- The messages that the server has accepted and not yet finished, the oldest first
abbrev pub worker_entries : Worker → List (Request × Context)
worker_entries idle = []
worker_entries (taken r c) = (r, c) ∷ []
worker_entries (running r c) = (r, c) ∷ []

abbrev pub entries : Server → List (Request × Context)
entries s = worker_entries s.worker ++ s.queue
