-- ===== src/Gateway/Sessions.antt =====
-- core-exchange/unified-access-gateway/unified_access_gateway.cpp: the sessions.
use collections.Prelude.{
  ℕ, suc, Bool, true, false, ◌&&◌, none, some, [], ◌∷◌, if◌then◌else◌, string_eq,
}
use collections.Prelude.Int.{ℤ, ◌-ℤ◌, ltb_ℤ}
use collections.Prelude.Dict.{Dict, lookup, insert}
use collections.Gateway.Types.{Protocol, SessionState, Gateway}
use Prim.Native.String.{String}

unfoldable pub open_session : String → Protocol → ℤ → ℤ → Gateway → Gateway
open_session session_id protocol heartbeat_timeout_ms timestamp_ms g =
    let state : SessionState = record {
      protocol = protocol;
      heartbeat_timeout_ms = heartbeat_timeout_ms;
      last_heartbeat_ms = timestamp_ms;
      is_live = true;
    } in
    record g { sessions = insert session_id state g.sessions }

unfoldable pub record_heartbeat : String → ℤ → Gateway → Gateway × Bool
record_heartbeat session_id timestamp_ms g = elim (lookup session_id g.sessions) [
  | none ↦ (g, false)
  | some state ↦
      if state.is_live
      then (
        record g {
          sessions =
              insert session_id (record state { last_heartbeat_ms = timestamp_ms }) g.sessions;
        },
        true,
      )
      else (g, false)
]

-- The test of the loop of `close_stale_sessions`.
unfoldable pub is_stale : ℤ → SessionState → Bool
is_stale now_ms state =
    state.is_live && ltb_ℤ state.heartbeat_timeout_ms (now_ms -ℤ state.last_heartbeat_ms)

unfoldable pub close_loop : ℤ → Dict String SessionState → Dict String SessionState × ℕ
unfolding is_stale
close_loop now_ms [] = ([], 0)
close_loop now_ms ((session_id, state) ∷ sessions) =
    let (rest, closed) = close_loop now_ms sessions in
    if is_stale now_ms state
    then ((session_id, record state { is_live = false }) ∷ rest, suc closed)
    else ((session_id, state) ∷ rest, closed)

unfoldable pub close_stale_sessions : ℤ → Gateway → Gateway × ℕ
unfolding close_loop
close_stale_sessions now_ms g =
    let (sessions, closed) = close_loop now_ms g.sessions in
    (record g { sessions = sessions }, closed)

unfoldable pub count_live : Dict String SessionState → ℕ
count_live [] = 0
count_live ((session_id, state) ∷ sessions) =
    if state.is_live then suc (count_live sessions) else count_live sessions

unfoldable pub live_session_count : Gateway → ℕ
unfolding count_live
live_session_count g = count_live g.sessions
