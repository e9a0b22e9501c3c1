-- ===== src/Rpc/Process.antt =====
-- JsonRpcServer.h: `startRequest`, `processMessage` and `handleMessage`, cut where the handler runs,
-- so that the reader can act in between. A handler is not modelled: it ends with an `Outcome`.
use slang_server_verilator.Prelude.{◌∷◌, Option, none, some, if◌then◌else◌, Bytes}
use slang_server_verilator.Rpc.Register.{mark_started, unregister_context}
use slang_server_verilator.Rpc.Types.{
  RpcId, Request, Context, ErrorCode, request_cancelled, internal_error, Sent, response, failure,
  reports_error, idle, running, Routes, Server, is_cancelled,
}
use slang_server_verilator.Text.{codes}

-- How a handler ends: with a value, by `RequestCancelled`, by another exception, or by a value that
-- is thrown and is no `std::exception`.
pub data Outcome : Type 0 where
  returns raises : Bytes → Outcome
  cancels raises_unknown : Outcome

abbrev pub send : Sent → Server → Server
send m s = record s { sent = m ∷ s.sent }

-- `sendMessage` in `handleMessage`: a reply that cannot be written becomes an error.
unfoldable pub send_response : Routes → RpcId → Bytes → Server → Server
send_response ro i value s =
    if ro.can_write value
    then send (response i value) s
    else send (failure i internal_error (codes "Failed to serialize the response")) s

unfoldable pub send_failure : Routes → RpcId → ErrorCode → Bytes → Server → Server
send_failure ro i code message s =
    if ro.can_write message
    then send (failure i code message) s
    else send (failure i internal_error (codes "Failed to serialize the response")) s

-- The end of `handleMessage`: the context is unregistered before the reply is written.
abbrev pub close : Routes → Request → Context → Server → Server
close ro r c s = unregister_context ro r c (record s { worker = idle })

abbrev pub reply_cancelled : Routes → Request → RpcId → Context → Server → Server
reply_cancelled ro r i c s =
    send_failure ro i request_cancelled (codes "Request cancelled") (close ro r c s)

-- `processMessage` up to the call of the handler. A request of an unknown method is dropped, with
-- no reply; a cancelled one is answered by an error; a notification is not checked.
unfoldable pub begin_request : Routes → Request → RpcId → Context → Server → Server
begin_request ro r i c s =
    if ro.has_request r.method
    then (if is_cancelled c s
        then reply_cancelled ro r i c s
        else record (mark_started c s) { worker = running r c })
    else close ro r c s

unfoldable pub begin_notification : Routes → Request → Context → Server → Server
begin_notification ro r c s =
    if ro.has_notification r.method then record s { worker = running r c } else close ro r c s

unfoldable pub begin_by_id : Option RpcId → Routes → Request → Context → Server → Server
unfolding begin_request begin_notification
begin_by_id none ro r c s = begin_notification ro r c s
begin_by_id (some i) ro r c s = begin_request ro r i c s

unfoldable pub begin : Routes → Request → Context → Server → Server
unfolding begin_by_id
begin ro r c s = begin_by_id r.id ro r c s

-- `processMessage` from the return of the handler, and the rest of `handleMessage`. The hook
-- `onInternalError` runs before the context is unregistered.
unfoldable pub finish_request : Outcome → Routes → Request → RpcId → Context → Server → Server
finish_request (returns value) ro r i c s =
    if is_cancelled c s
    then reply_cancelled ro r i c s
    else send_response ro i value (close ro r c s)
finish_request cancels ro r i c s = reply_cancelled ro r i c s
finish_request (raises what) ro r i c s =
    send_failure ro i internal_error what (close ro r c (send (reports_error r.method what) s))
finish_request raises_unknown ro r i c s =
    send_failure ro i internal_error (codes "Unknown exception")
      (close ro r c (send (reports_error r.method (codes "unknown exception")) s))

unfoldable pub finish_notification : Outcome → Routes → Request → Context → Server → Server
finish_notification (returns value) ro r c s = close ro r c s
finish_notification cancels ro r c s = close ro r c s
finish_notification (raises what) ro r c s = close ro r c (send (reports_error r.method what) s)
finish_notification raises_unknown ro r c s =
    close ro r c (send (reports_error r.method (codes "unknown exception")) s)

unfoldable pub finish_by_id : Option RpcId → Outcome → Routes → Request → Context → Server → Server
unfolding finish_request finish_notification
finish_by_id none o ro r c s = finish_notification o ro r c s
finish_by_id (some i) o ro r c s = finish_request o ro r i c s

unfoldable pub finish : Routes → Request → Context → Outcome → Server → Server
unfolding finish_by_id
finish ro r c o s = finish_by_id r.id o ro r c s
