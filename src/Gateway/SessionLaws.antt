-- ===== src/Gateway/SessionLaws.antt =====
-- core-exchange/unified-access-gateway: what closing the stale sessions does.
use collections.Prelude.{ℕ, ◌+◌, ◌≡◌, refl, ap, true, false, Bool-cases, [], ◌∷◌, inl, inr, arith}
use collections.Prelude.Int.{ℤ}
use collections.Prelude.Dict.{Dict}
use collections.Gateway.Types.{SessionState, Gateway}
use collections.Gateway.Sessions.{
  is_stale, close_loop, close_stale_sessions, count_live, live_session_count,
}
use Prim.Native.String.{String}

stale→live :
    (now_ms : ℤ) (state : SessionState) → is_stale now_ms state ≡ true → state.is_live ≡ true
unfolding is_stale
stale→live now_ms state h = elim (Bool-cases state.is_live) [
  | inl e ↦ e
  | inr e ↦ absurd (cc (rw (e) at h))
]

close_loop-counts :
    (now_ms : ℤ) (sessions : Dict String SessionState)
    → count_live (close_loop now_ms sessions).0 + (close_loop now_ms sessions).1
      ≡ count_live sessions
unfolding close_loop count_live
close_loop-counts now_ms [] = refl
close_loop-counts now_ms ((id, state) ∷ sessions) =
    let ih = close_loop-counts now_ms sessions in
    elim (Bool-cases (is_stale now_ms state)) [
      | inl e ↦ rw (e, stale→live now_ms state e) (omega (arith, ih))
      | inr e ↦ elim (Bool-cases state.is_live) [
        | inl live ↦ rw (e, live) (omega (arith, ih))
        | inr dead ↦ rw (e, dead) ih
      ]
    ]

close_loop_again :
    (now_ms : ℤ) (sessions : Dict String SessionState)
    → close_loop now_ms (close_loop now_ms sessions).0 ≡ ((close_loop now_ms sessions).0, 0)
unfolding close_loop is_stale
close_loop_again now_ms [] = refl
close_loop_again now_ms ((id, state) ∷ sessions) =
    let ih = close_loop_again now_ms sessions in
    elim (Bool-cases (is_stale now_ms state)) [
      | inl e ↦
          rw (e, closed (record state { is_live = false }) refl)
            (ap
              (λ (x : Dict String SessionState × ℕ).
                ((id, record state { is_live = false }) ∷ x.0, x.1))
              ih)
      | inr e ↦
          rw (e) (rw (e) (ap (λ (x : Dict String SessionState × ℕ). ((id, state) ∷ x.0, x.1)) ih))
    ]
  where
    closed : (s : SessionState) → s.is_live ≡ false → is_stale now_ms s ≡ false
    closed s h = rw (h) refl

-- Closing the stale sessions answers by how many the live sessions have become fewer.
pub close_stale_sessions-counts :
    (now_ms : ℤ) (g : Gateway)
    → live_session_count (close_stale_sessions now_ms g).0 + (close_stale_sessions now_ms g).1
      ≡ live_session_count g
unfolding close_stale_sessions live_session_count
close_stale_sessions-counts now_ms g = close_loop-counts now_ms g.sessions

-- To close the stale sessions a second time at the same time closes none and changes nothing.
pub close_stale_sessions_again :
    (now_ms : ℤ) (g : Gateway)
    → close_stale_sessions now_ms (close_stale_sessions now_ms g).0
      ≡ ((close_stale_sessions now_ms g).0, 0)
unfolding close_stale_sessions
close_stale_sessions_again now_ms g =
    ap (λ (x : Dict String SessionState × ℕ). (record g { sessions = x.0 }, x.1))
      (close_loop_again now_ms g.sessions)
