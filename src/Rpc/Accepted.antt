-- ===== src/Rpc/Accepted.antt =====
-- JsonRpcServer.h, `run`: which messages are queued.
use slang_server_verilator.Prelude.{
  ℕ, List, [], ◌∷◌, ◌++◌, append_assoc, append-nil, ◌≡◌, refl, sym, ap, ◌∙◌, arith, Option, none,
  some, if◌then◌else◌, Bytes, list_eq, map, Bool-cases, inl, inr,
}
use slang_server_verilator.Assoc.{find}
use slang_server_verilator.Rpc.Drain.{close-steps}
use slang_server_verilator.Rpc.Keeps.{
  supersede-keeps, handle_cancel-SameWork, begin_cases, finish-SameWork,
}
use slang_server_verilator.Rpc.Process.{Outcome, begin, finish}
use slang_server_verilator.Rpc.Reader.{
  Event, received, initializing, serving, shutting_down, finished, CancelTarget, target, malformed,
  Handlers, has_method, run_handler, handle_message, notify_cancel, handle_cancel_request,
  read_initial, read_main, read_last, read_event, read_events,
}
use slang_server_verilator.Rpc.Register.{
  create_context, register_context, register_active, register_pending, did_change_key,
}
use slang_server_verilator.Rpc.Steps.{enqueue}
use slang_server_verilator.Rpc.Types.{
  RpcId, Request, Context, Worker, idle, taken, running, Routes, Server,
}
use slang_server_verilator.Text.{codes}

-- The messages behind the first `initialize`
unfoldable pub after_initialize : List Request → List Request
after_initialize [] = []
after_initialize (r ∷ rs) =
    let rest = after_initialize rs in if has_method r (codes "initialize") then rs else rest

-- The messages up to the first `shutdown`, which is one of them
unfoldable pub through_shutdown : List Request → List Request
through_shutdown [] = []
through_shutdown (r ∷ rs) =
    let rest = through_shutdown rs in if has_method r (codes "shutdown") then r ∷ [] else r ∷ rest

unfoldable pub without_cancellations : List Request → List Request
without_cancellations [] = []
without_cancellations (r ∷ rs) =
    let rest = without_cancellations rs in
    if has_method r (codes "$/cancelRequest") then rest else r ∷ rest

-- The requests in the queue, the oldest first
pub requests_of : Server → List Request
requests_of s = map (λ e. e.0) s.queue

register_active-queue :
    (o : Option RpcId) (c : Context) (s : Server) → (register_active o c s).queue ≡ s.queue
unfolding register_active
register_active-queue none c s = refl
register_active-queue (some i) c s = refl

register_pending-queue :
    (o : Option Bytes) (c : Context) (s : Server) → (register_pending o c s).queue ≡ s.queue
unfolding register_pending
register_pending-queue none c s = refl
register_pending-queue (some u) c s = ground (arith, supersede-keeps (find u s.pending) c s)

register_context-queue :
    (ro : Routes) (r : Request) (c : Context) (s : Server)
    → (register_context ro r c s).queue ≡ s.queue
unfolding register_context
register_context-queue ro r c s = ground (
  arith,
  register_active-queue r.id c s,
  register_pending-queue (did_change_key ro r) c (register_active r.id c s),
)

begin-queue :
    (ro : Routes) (r : Request) (c : Context) (s : Server) → (begin ro r c s).queue ≡ s.queue
unfolding begin
begin-queue ro r c s = elim (begin_cases ro r c s r.id) [
  | inl same ↦ same.2
  | inr same ↦ same.2 ∙ (close-steps ro r c s).0
]

finish-queue :
    (ro : Routes) (r : Request) (c : Context) (o : Outcome) (s : Server)
    → (finish ro r c o s).queue ≡ s.queue
unfolding finish
finish-queue ro r c o s = (finish-SameWork ro r c s r.id o).2 ∙ (close-steps ro r c s).0

run_handler-queue :
    (ro : Routes) (r : Request) (c : Context) (o : Outcome) (s : Server) (w : Worker)
    → (run_handler ro r c o s w).queue ≡ s.queue
unfolding run_handler
run_handler-queue ro r c o s idle = refl
run_handler-queue ro r c o s (taken _ _) = refl
run_handler-queue ro r c o s (running _ _) = finish-queue ro r c o s

handle_message-queue :
    (ro : Routes) (o : Outcome) (r : Request) (s : Server)
    → (handle_message ro o r s).queue ≡ s.queue
unfolding handle_message create_context
handle_message-queue ro o r s =
    run_handler-queue ro r _ o _ _ ∙ begin-queue ro r _ _ ∙ register_context-queue ro r _ _

notify_cancel-queue :
    (ro : Routes) (t : CancelTarget) (s : Server) → (notify_cancel ro t s).queue ≡ s.queue
unfolding notify_cancel create_context
notify_cancel-queue ro (target i) s = (handle_cancel-SameWork ro i s).2
notify_cancel-queue ro (malformed what) s = refl

handle_cancel_request-queue :
    (ro : Routes) (r : Request) (t : CancelTarget) (s : Server)
    → (handle_cancel_request ro r t s).queue ≡ s.queue
unfolding handle_cancel_request create_context
handle_cancel_request-queue ro r t s = ground (arith, notify_cancel-queue ro t s)

map-append :
    (xs ys : List (Request × Context))
    → map (λ e. e.0) (xs ++ ys) ≡ map (λ e. e.0) xs ++ map (λ e. e.0) ys
map-append [] ys = refl
map-append (x ∷ xs) ys = ap (λ z. x.0 ∷ z) (map-append xs ys)

enqueue-queued :
    (ro : Routes) (r : Request) (s : Server)
    → requests_of (enqueue ro r s) ≡ requests_of s ++ r ∷ []
unfolding requests_of enqueue create_context
enqueue-queued ro r s = rw (register_context-queue ro r _ _) (map-append s.queue _)

events : List Request → List Event
events rs = map (λ r. received r) rs

module _ (ro : Routes) (h : Handlers) where
  ended-queued : (rs : List Request) (s : Server) → (read_events ro h (events rs) finished s).1 ≡ s
  unfolding read_events read_event events
  ended-queued [] s = refl
  ended-queued (r ∷ rs) s = ended-queued rs s

  cancel-queued :
      (r : Request) (t : CancelTarget) (s : Server)
      → requests_of (handle_cancel_request ro r t s) ≡ requests_of s
  unfolding requests_of
  cancel-queued r t s = ap (λ q. map (λ e. e.0) q) (handle_cancel_request-queue ro r t s)

  handle_message-queued :
      (o : Outcome) (r : Request) (s : Server)
      → requests_of (handle_message ro o r s) ≡ requests_of s
  unfolding requests_of
  handle_message-queued o r s = ap (λ q. map (λ e. e.0) q) (handle_message-queue ro o r s)

  last-queued :
      (rs : List Request) (s : Server)
      → requests_of (read_events ro h (events rs) shutting_down s).1 ≡ requests_of s
  unfolding read_events read_event read_last events requests_of
  last-queued [] s = refl
  last-queued (r ∷ rs) s = elim (Bool-cases (has_method r (codes "exit"))) [
    | inl e ↦ rw (read_events, e) (ap requests_of (ended-queued rs s))
    | inr n ↦ elim (Bool-cases (has_method r (codes "$/cancelRequest"))) [
      | inl c ↦
          rw (read_events, n, c)
            (last-queued rs (handle_cancel_request ro r (h.cancel_target r) s)
              ∙ cancel-queued r (h.cancel_target r) s)
      | inr o ↦ rw (read_events, n, o) (last-queued rs _)
    ]
  ]

  main-queued :
      (rs : List Request) (n : ℕ) (s : Server)
      → requests_of (read_events ro h (events rs) (serving n) s).1
        ≡ requests_of s ++ without_cancellations (through_shutdown rs)
  unfolding read_events read_event read_main events through_shutdown without_cancellations
  main-queued [] n s = sym (append-nil (requests_of s))
  main-queued (r ∷ rs) n s = elim (Bool-cases (has_method r (codes "shutdown"))) [
    | inl e ↦ elim (Bool-cases (has_method r (codes "$/cancelRequest"))) [
      | inl c ↦
          rw (read_events, e, c)
            (last-queued rs (handle_cancel_request ro r (h.cancel_target r) s)
              ∙ cancel-queued r (h.cancel_target r) s
              ∙ sym (append-nil (requests_of s)))
      | inr o ↦ rw (read_events, e, o) (last-queued rs (enqueue ro r s) ∙ enqueue-queued ro r s)
    ]
    | inr m ↦ elim (Bool-cases (has_method r (codes "$/cancelRequest"))) [
      | inl c ↦
          rw (read_events, m, c)
            (main-queued rs 0 (handle_cancel_request ro r (h.cancel_target r) s)
              ∙ ap (λ q. q ++ without_cancellations (through_shutdown rs))
                  (cancel-queued r (h.cancel_target r) s))
      | inr o ↦
          rw (read_events, m, o)
            (main-queued rs 0 (enqueue ro r s)
              ∙ ap (λ q. q ++ without_cancellations (through_shutdown rs)) (enqueue-queued ro r s)
              ∙ append_assoc (requests_of s) (r ∷ []) (without_cancellations (through_shutdown rs)))
    ]
  ]

  -- When the reader gets the messages `rs`, all readable, and the worker takes none meanwhile, what is
  -- added to the queue is, in order and once each, the messages behind the first `initialize` through
  -- the first `shutdown`, without the cancellations, and nothing else.
  pub read_events-accepted :
      (rs : List Request) (s : Server)
      → requests_of (read_events ro h (map (λ r. received r) rs) initializing s).1
        ≡ requests_of s ++ without_cancellations (through_shutdown (after_initialize rs))
  unfolding read_events read_event read_initial events after_initialize through_shutdown
      without_cancellations requests_of
  read_events-accepted [] s = sym (append-nil (requests_of s))
  read_events-accepted (r ∷ rs) s = elim (Bool-cases (has_method r (codes "initialize"))) [
    | inl e ↦
        rw (read_events, e)
          (main-queued rs 0 (handle_message ro (h.initialize r) r s)
            ∙ ap (λ q. q ++ without_cancellations (through_shutdown rs))
                (handle_message-queued (h.initialize r) r s))
    | inr n ↦ rw (read_events, n) (read_events-accepted rs _)
  ]
