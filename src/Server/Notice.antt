-- ===== src/Server/Notice.antt =====
-- src/SlangServer.cpp: `onInternalError`. Times are counted in nanoseconds since the epoch of the
-- steady clock, where `m_lastInternalErrorNotice` starts.
use slang_server_verilator.Prelude.{
  ℕ, ◌+◌, ◌*◌, ◌≤◌, List, [], ◌∷◌, ◌≡◌, arith, if◌then◌else◌, ltb, Bytes,
}

-- `lsp::InternalErrorParams`, with the time at which it is sent
pub record Notice : Type 0 where
  pub time : ℕ
  pub method : Bytes
  pub message : Bytes

-- `m_lastInternalErrorNotice`, and the notices sent, the newest first
pub record Notices : Type 0 where
  pub last : ℕ
  pub sent : List Notice

-- `std::chrono::minutes(5)`
abbrev pub five_minutes : ℕ
five_minutes = 5 * 60 * 1000000000

-- `onInternalError`
unfoldable pub on_internal_error : Notice → Notices → Notices
on_internal_error n s =
    if ltb n.time (s.last + five_minutes) then s else record { last = n.time; sent = n ∷ s.sent }

-- Failures, in their order
unfoldable pub report_all : List Notice → Notices → Notices
report_all [] s = s
report_all (n ∷ ns) s = report_all ns (on_internal_error n s)

-- Each notice is sent five minutes or more after the one before.
abbrev pub Spaced : List Notice → Type 0
Spaced [] = Unit
Spaced (n ∷ []) = Unit
Spaced (n ∷ m ∷ ns) = (m.time + five_minutes ≤ n.time) × Spaced (m ∷ ns)

abbrev pub Newest : ℕ → List Notice → Type 0
Newest last [] = Unit
Newest last (n ∷ ns) = n.time ≡ last

on_internal_error-Spaced :
    (n : Notice) (last : ℕ) (sent : List Notice)
    → Newest last sent
    → Spaced sent
    → let s = on_internal_error n (record { last = last; sent = sent }) in
      Newest s.last s.sent × Spaced s.sent
unfolding on_internal_error
on_internal_error-Spaced n last [] h p = ground arith
on_internal_error-Spaced n last (m ∷ ns) h p = ground arith

report_all-Spaced_from :
    (ns : List Notice) (s : Notices)
    → Newest s.last s.sent
    → Spaced s.sent
    → Spaced (report_all ns s).sent
unfolding report_all
report_all-Spaced_from [] s h p = p
report_all-Spaced_from (n ∷ ns) s h p =
    let (h', p') = on_internal_error-Spaced n s.last s.sent h p in
    report_all-Spaced_from ns (on_internal_error n s) h' p'

-- However many failures there are, from the start of the server, any two notices that follow one
-- another are sent five minutes or more apart.
pub report_all-Spaced :
    (ns : List Notice) → Spaced (report_all ns (record { last = 0; sent = [] })).sent
report_all-Spaced ns = report_all-Spaced_from ns (record { last = 0; sent = [] }) tt tt
