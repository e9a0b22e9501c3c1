-- ===== src/Rpc/Replies.antt =====
-- JsonRpcServer.h, `handleMessage`: how often a message is answered.
use slang_server_verilator.Prelude.{
  ℕ, ◌+◌, ◌&&◌, List, [], ◌∷◌, ◌≡◌, Option, none, some, arith, if◌then◌else◌, Bytes,
}
use slang_server_verilator.Rpc.Process.{
  Outcome, returns, raises, raises_unknown, begin_by_id, finish, finish_by_id, send_response,
  send_failure, send, close,
}
use slang_server_verilator.Rpc.Register.{mark_started}
use slang_server_verilator.Rpc.Stopped.{close-idle}
use slang_server_verilator.Rpc.Types.{
  ErrorCode, Sent, response, failure, refuses, reports_error, RpcId, id_eqb, Request, Context,
  Routes, Server, is_cancelled,
}
use slang_server_verilator.Text.{codes}

-- A request is owed one reply, a notification none.
abbrev pub owed : Option RpcId → RpcId → ℕ
owed none i = 0
owed (some j) i = if id_eqb j i then 1 else 0

-- The number of replies to request `i` in the output
abbrev pub reply_count : RpcId → List Sent → ℕ
reply_count i [] = 0
reply_count i (response j v ∷ l) = (if id_eqb j i then 1 else 0) + reply_count i l
reply_count i (failure j e m ∷ l) = (if id_eqb j i then 1 else 0) + reply_count i l
reply_count i (refuses j e m ∷ l) = owed j i + reply_count i l
reply_count i (reports_error a b ∷ l) = reply_count i l

send_failure-count :
    (ro : Routes) (j : RpcId) (e : ErrorCode) (m : Bytes) (s : Server) (i : RpcId)
    → reply_count i (send_failure ro j e m s).sent ≡ owed (some j) i + reply_count i s.sent
unfolding send_failure
send_failure-count ro j e m s i = ground arith

send_response-count :
    (ro : Routes) (j : RpcId) (v : Bytes) (s : Server) (i : RpcId)
    → reply_count i (send_response ro j v s).sent ≡ owed (some j) i + reply_count i s.sent
unfolding send_response
send_response-count ro j v s i = ground arith

finish-count :
    (ro : Routes) (r : Request) (c : Context) (s : Server) (i : RpcId) (o : Option RpcId)
    (out : Outcome)
    → reply_count i (finish_by_id o out ro r c s).sent ≡ owed o i + reply_count i s.sent
unfolding finish_by_id
finish-count ro r c s i none (returns v) = ground (arith, close-idle ro r c s)
finish-count ro r c s i none Outcome.cancels = ground (arith, close-idle ro r c s)
finish-count ro r c s i none (raises w) =
    ground (arith, close-idle ro r c (send (reports_error r.method w) s))
finish-count ro r c s i none raises_unknown =
    ground (arith, close-idle ro r c (send (reports_error r.method (codes "unknown exception")) s))
finish-count ro r c s i (some j) (returns v) = ground (
  arith,
  close-idle ro r c s,
  send_response-count ro j v (close ro r c s) i,
  send_failure-count ro j ErrorCode.request_cancelled (codes "Request cancelled") (close ro r c s)
      i,
)
finish-count ro r c s i (some j) Outcome.cancels = ground (
  arith,
  close-idle ro r c s,
  send_failure-count ro j ErrorCode.request_cancelled (codes "Request cancelled") (close ro r c s)
      i,
)
finish-count ro r c s i (some j) (raises w) =
    let hooked = send (reports_error r.method w) s in
    ground (
      arith,
      close-idle ro r c hooked,
      send_failure-count ro j ErrorCode.internal_error w (close ro r c hooked) i,
    )
finish-count ro r c s i (some j) raises_unknown =
    let hooked = send (reports_error r.method (codes "unknown exception")) s in
    ground (
      arith,
      close-idle ro r c hooked,
      send_failure-count ro j ErrorCode.internal_error (codes "Unknown exception")
          (close ro r c hooked) i,
    )

-- When a handler ends, in any of the four ways, its request has got exactly one reply, a
-- notification none, and no other request any; also if the value cannot be written as JSON.
pub finish_replies :
    (ro : Routes) (r : Request) (c : Context) (out : Outcome) (s : Server) (i : RpcId)
    → reply_count i (finish ro r c out s).sent ≡ owed r.id i + reply_count i s.sent
unfolding finish
finish_replies ro r c out s i = finish-count ro r c s i r.id out

begin-count :
    (ro : Routes) (r : Request) (c : Context) (s : Server) (i : RpcId) (o : Option RpcId)
    → reply_count i (begin_by_id o ro r c s).sent
      ≡ (if ro.has_request r.method && is_cancelled c s then owed o i else 0) + reply_count i s.sent
unfolding begin_by_id mark_started
begin-count ro r c s i none = ground (arith, close-idle ro r c s)
begin-count ro r c s i (some j) = ground (
  arith,
  close-idle ro r c s,
  send_failure-count ro j ErrorCode.request_cancelled (codes "Request cancelled") (close ro r c s)
      i,
)
