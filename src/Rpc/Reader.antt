-- ===== src/Rpc/Reader.antt =====
-- JsonRpcServer.h, `run`: what the reader does with the messages, from the wait for `initialize` to the
-- end of the input. What the worker does meanwhile is left to Rpc/Steps.
use slang_server_verilator.Prelude.{
  ℕ, suc, Bool, List, [], ◌∷◌, if◌then◌else◌, ltb, Bytes, list_eqb,
}
use slang_server_verilator.Rpc.Process.{Outcome, begin, finish, send}
use slang_server_verilator.Rpc.Register.{create_context, register_context}
use slang_server_verilator.Rpc.Steps.{cancel_message, enqueue, handle_cancel}
use slang_server_verilator.Rpc.Types.{
  RpcId, Request, Context, Worker, running, invalid_request, server_not_initialized, refuses,
  reports_error, Routes, Server, has_id,
}
use slang_server_verilator.Text.{codes}

-- What `readJson` gives the reader, in order; the input is closed behind the last
pub data Event : Type 0 where
  received : Request → Event
  unreadable : Event

-- Where the reader is: before `initialize`, in the main loop with the failures in a row, behind
-- `shutdown`, at its end, or left by an exception that `run` does not catch
pub data Phase : Type 0 where
  initializing : Phase
  serving : ℕ → Phase
  shutting_down finished thrown : Phase

-- What the JSON library makes of the parameters of a cancellation: an id, or what is wrong with them
pub data CancelTarget : Type 0 where
  target : RpcId → CancelTarget
  malformed : Bytes → CancelTarget

-- How the handler of `initialize` ends, and the parameters of a cancellation
pub record Handlers : Type 0 where
  pub initialize : Request → Outcome
  pub cancel_target : Request → CancelTarget

unfoldable pub has_method : Request → Bytes → Bool
has_method r name = list_eqb r.method name

-- The handler of a request that `begin` has let run
unfoldable pub run_handler : Routes → Request → Context → Outcome → Server → Worker → Server
run_handler ro r c o s (running _ _) = finish ro r c o s
run_handler ro r c o s _ = s

-- `handleMessage`, on the reader's thread: the worker is not there yet.
unfoldable pub handle_message : Routes → Outcome → Request → Server → Server
handle_message ro o r s =
    let (c, s1) = create_context ro r s in
    let s2 = begin ro r c (register_context ro r c s1) in run_handler ro r c o s2 s2.worker

-- The notification `$/cancelRequest`
unfoldable pub notify_cancel : Routes → CancelTarget → Server → Server
notify_cancel ro (malformed what) s =
    send (reports_error (codes "$/cancelRequest") what) (create_context ro cancel_message s).1
notify_cancel ro (target i) s = handle_cancel ro i s

-- The lambda `handleCancelRequest`. A cancellation that has an id is looked up among the requests,
-- where there is none of its name, so it is dropped.
unfoldable pub handle_cancel_request : Routes → Request → CancelTarget → Server → Server
handle_cancel_request ro r t s =
    if has_id r.id then (create_context ro r s).1 else notify_cancel ro t s

unfoldable pub read_initial : Routes → Handlers → Request → Server → Phase × Server
read_initial ro h r s =
    if has_method r (codes "initialize")
    then (serving 0, handle_message ro (h.initialize r) r s)
    else (
      initializing,
      send (refuses r.id server_not_initialized (codes "Server not initialized")) s,
    )

unfoldable pub read_main : Routes → Handlers → Request → Server → Phase × Server
read_main ro h r s = (
  if has_method r (codes "shutdown") then shutting_down else serving 0,
  if has_method r (codes "$/cancelRequest")
      then handle_cancel_request ro r (h.cancel_target r) s
      else enqueue ro r s,
)

unfoldable pub read_last : Routes → Handlers → Request → Server → Phase × Server
read_last ro h r s =
    if has_method r (codes "exit")
    then (finished, s)
    else if has_method r (codes "$/cancelRequest")
    then (shutting_down, handle_cancel_request ro r (h.cancel_target r) s)
    else (shutting_down, send (refuses r.id invalid_request (codes "Invalid Request")) s)

-- What the reader does with one event
unfoldable pub read_event : Routes → Handlers → Event → Phase → Server → Phase × Server
unfolding read_initial read_main read_last
read_event ro h (received r) initializing s = read_initial ro h r s
read_event ro h unreadable initializing s = (thrown, s)
read_event ro h (received r) (serving n) s = read_main ro h r s
read_event ro h unreadable (serving n) s = (if ltb 5 (suc n) then finished else serving (suc n), s)
read_event ro h (received r) shutting_down s = read_last ro h r s
read_event ro h unreadable shutting_down s = (finished, s)
read_event ro h e finished s = (finished, s)
read_event ro h e thrown s = (thrown, s)

-- `run`, of the reader, while the worker does nothing
unfoldable pub read_events : Routes → Handlers → List Event → Phase → Server → Phase × Server
read_events ro h [] p s = (p, s)
read_events ro h (e ∷ es) p s = let (p', s') = read_event ro h e p s in read_events ro h es p' s'
