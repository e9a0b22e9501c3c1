-- ===== src/Rpc/Types.antt =====
-- Messages (include/lsp/JsonRpc.h), contexts (RequestContext.h) and the state of the server.
use slang_server_verilator.Assoc.{find}
use slang_server_verilator.Prelude.Int.{ℤ, pos, negsuc}
use slang_server_verilator.Prelude.{
  ℕ, Bool, true, false, ◌&&◌, ◌||◌, List, ◌≡◌, ◌↔◌, Option, none, some, arith, ◌==◌, Bytes, Eq,
  nat_eq, list_eq, list_eqb, list_eqb_iff,
}

-- `ID_t`
pub data RpcId : Type 0 where
  number : ℤ → RpcId
  text : Bytes → RpcId

unfoldable pub id_eqb : RpcId → RpcId → Bool
id_eqb (number (pos a)) (number (pos b)) = a == b
id_eqb (number (negsuc a)) (number (negsuc b)) = a == b
id_eqb (text a) (text b) = list_eqb a b
id_eqb _ _ = false

pub id_eqb_iff : (a b : RpcId) → (id_eqb a b ≡ true) ↔ (a ≡ b)
unfolding id_eqb
id_eqb_iff (number (pos a)) (number (pos b)) = ground arith
id_eqb_iff (text a) (text b) = ground (arith, list_eqb_iff a b)
id_eqb_iff _ _ = ground arith

instance abbrev pub id_eq : Eq RpcId
id_eq = record { eqb = id_eqb; eqb_iff = id_eqb_iff }

-- `RpcRequest`: a request if it has an id, else a notification. A JSON value is its text.
pub record Request : Type 0 where
  pub id : Option RpcId
  pub method : Bytes
  pub params : Option Bytes

-- `RequestContext`: the number, the method, the id of its request and the route's support.
pub record Context : Type 0 where
  pub serial : ℕ
  pub method : Bytes
  pub rpc_id : Option RpcId
  pub supports : Bool

-- `RequestContext::State`, shared by the copies of a context
pub record Flags : Type 0 where
  pub cancelled : Bool
  pub started : Bool

abbrev pub fresh_flags : Flags
fresh_flags = record { cancelled = false; started = false }

pub data ErrorCode : Type 0 where
  request_cancelled internal_error invalid_request server_not_initialized : ErrorCode

-- What is written to the output
pub data Sent : Type 0 where
  response : RpcId → Bytes → Sent
  failure : RpcId → ErrorCode → Bytes → Sent
  -- an error that the reader answers by itself, with the id if there is one
  refuses : Option RpcId → ErrorCode → Bytes → Sent
  -- the hook `onInternalError`
  reports_error : Bytes → Bytes → Sent

-- The worker thread: waiting, holding a message that it took, or inside that message's handler
pub data Worker : Type 0 where
  idle : Worker
  taken running : Request → Context → Worker

-- The registered methods, and what the JSON library makes of a value
pub record Routes : Type 0 where
  pub has_request : Bytes → Bool
  pub has_notification : Bytes → Bool
  pub cancellable : Bytes → Bool
  -- the URI of well-formed `textDocument/didChange` parameters
  pub change_uri : Bytes → Option Bytes
  -- whether a value or a message can be written as JSON
  pub can_write : Bytes → Bool

pub record Server : Type 0 where
  -- `s_nextId`
  pub next_id : ℕ
  -- the shared states, by the number of the context
  pub flags : List (ℕ × Flags)
  -- `activeRequests`, `pendingDocumentChanges` and `queue`
  pub active : List (RpcId × Context)
  pub pending : List (Bytes × Context)
  pub queue : List (Request × Context)
  pub worker : Worker
  -- the output, the newest message first
  pub sent : List Sent

abbrev pub has_id : Option RpcId → Bool
has_id none = false
has_id (some i) = true

-- `m_state` is null for a notification that cannot be cancelled.
abbrev pub has_state : Context → Bool
has_state c = has_id c.rpc_id || c.supports

abbrev pub flags_or : Option Flags → Flags
flags_or none = fresh_flags
flags_or (some f) = f

unfoldable pub flags_of : Context → Server → Flags
flags_of c s = flags_or (find c.serial s.flags)

unfoldable pub is_cancelled : Context → Server → Bool
unfolding flags_of
is_cancelled c s = has_state c && (flags_of c s).cancelled

unfoldable pub has_started : Context → Server → Bool
unfolding flags_of
has_started c s = has_state c && (flags_of c s).started
