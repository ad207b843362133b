-- ===== src/Server/Listener/Held.antt =====
-- How many tasks the set holds: none is ever joined while connections are accepted.
use iot_ftp_upload_gateway.Base.{
  ℕ, ◌+◌, ◌≡◌, refl, ◌∙◌, List, [], ◌∷◌, Option, none, some, arith, length,
}
use iot_ftp_upload_gateway.Server.IpLimiter.{IpConnectionLimiter, IpConnectionGuard, try_acquire}
use iot_ftp_upload_gateway.Server.Listener.{
  Task, Gateway, Event, accept_failed, accepted, session_ends, Outcome, nothing, rejected, started,
  admit, finish, release, step, run, active_sessions,
}
use iot_ftp_upload_gateway.Server.Listener.Tasks.{Finished, absent, ended, finish-Finished}

abbrev pub count_started : List Outcome → ℕ
count_started [] = 0
count_started (started id backend ∷ outcomes) = count_started outcomes + 1
count_started (nothing ∷ outcomes) = count_started outcomes
count_started (rejected ∷ outcomes) = count_started outcomes

admit-sessions :
    (r : Option IpConnectionGuard × IpConnectionLimiter) (g : Gateway)
    → length (admit r g).1.sessions ≡ length g.sessions + count_started ((admit r g).0 ∷ [])
admit-sessions (none, limiter) g = omega arith
admit-sessions (some guard, limiter) g = omega arith

release-sessions :
    (id : ℕ) (r : Option (IpConnectionGuard × List Task)) (g : Gateway)
    → Finished id g.sessions r
    → length (release r g).sessions ≡ length g.sessions
release-sessions id none g (absent e) = refl
release-sessions id (some (guard, after)) g (ended e w c l) = l

step-sessions :
    (event : Event) (g : Gateway)
    → length (step event g).1.sessions ≡ length g.sessions + count_started ((step event g).0 ∷ [])
unfolding step
step-sessions (accept_failed kind) g = omega arith
step-sessions (accepted peer) g = admit-sessions (try_acquire peer.ip g.ip_limiter) g
step-sessions (session_ends id) g =
    release-sessions id (finish id g.sessions) g (finish-Finished id g.sessions) ∙ omega arith

count_started-cons :
    (o : Outcome) (outcomes : List Outcome)
    → count_started (o ∷ outcomes) ≡ count_started (o ∷ []) + count_started outcomes
count_started-cons nothing outcomes = omega arith
count_started-cons rejected outcomes = omega arith
count_started-cons (started id backend) outcomes = omega arith

-- The number of sessions that is given at the shutdown is that of all that were ever started: the
-- set keeps each of them, and a session that is over leaves it no smaller.
pub active_sessions-run :
    (events : List Event) (g : Gateway)
    → active_sessions (run events g).1 ≡ active_sessions g + count_started (run events g).0
unfolding active_sessions run
active_sessions-run [] g = omega arith
active_sessions-run (event ∷ events) g =
    let after = (step event g).1 in
    active_sessions-run events after
    ∙ omega (arith, step-sessions event g, count_started-cons (step event g).0 (run events after).0)
