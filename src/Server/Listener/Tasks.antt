-- ===== src/Server/Listener/Tasks.antt =====
-- The tasks of the set that still run, as sessions and as guards.
use iot_ftp_upload_gateway.Base.{
  ℕ, suc, ◌≡◌, refl, ap, true, false, List, [], ◌∷◌, Option, none, some, arith, if◌then◌else◌,
  if_cases, length, All, Bool-cases, inl, inr,
}
use iot_ftp_upload_gateway.Net.{IpAddr}
use iot_ftp_upload_gateway.Server.IpLimiter.{IpConnectionGuard}
use iot_ftp_upload_gateway.Server.IpLimiter.Counting.{live, Without, front, behind}
use iot_ftp_upload_gateway.Server.Listener.{Task, is_running, with_task, finish}
use iot_ftp_upload_gateway.Server.Listener.Spec.{Session, count, remove}

abbrev pub session_of : Task → Session
session_of task = record { session_id = task.session_id; ip = task.ip_guard.ip }

abbrev pub sessions_of : List Task → List Session
sessions_of [] = []
sessions_of (task ∷ tasks) =
    let rest = sessions_of tasks in if task.finished then rest else session_of task ∷ rest

abbrev pub guards_of : List Task → List IpConnectionGuard
guards_of [] = []
guards_of (task ∷ tasks) =
    let rest = guards_of tasks in if task.finished then rest else task.ip_guard ∷ rest

-- Where there is a limit, every guard holds a share of the table.
abbrev pub AllCounted : List Task → Type 0
AllCounted = All (λ (task : Task). task.ip_guard.counted ≡ true)

pub live-guards_of :
    (ip : IpAddr) (tasks : List Task)
    → AllCounted tasks
    → live ip (guards_of tasks) ≡ count ip (sessions_of tasks)
unfolding live
live-guards_of ip [] h = refl
live-guards_of ip (task ∷ tasks) h = ground (arith, h.0, live-guards_of ip tasks h.1)

-- What `finish` does to the tasks.
pub data Finished (id : ℕ) (tasks : List Task)
    : Option (IpConnectionGuard × List Task) → Type 0 where
  absent : remove id (sessions_of tasks) ≡ sessions_of tasks → Finished id tasks none
  ended :
      {guard : IpConnectionGuard} {after : List Task}
      → sessions_of after ≡ remove id (sessions_of tasks)
      → Without guard (guards_of tasks) (guards_of after)
      → (AllCounted tasks → AllCounted after)
      → length after ≡ length tasks
      → Finished id tasks (some (guard, after))

finish-rest :
    (id : ℕ) (task : Task) (tasks : List Task) (r : Option (IpConnectionGuard × List Task))
    → is_running id task ≡ false
    → Finished id tasks r
    → Finished id (task ∷ tasks) (with_task task r)
finish-rest id task tasks none other (absent e) = absent (ground (arith, other, e))
finish-rest id task tasks (some (guard, after)) other (ended e w c l) =
    ended (ground (arith, other, e))
      (elim (Bool-cases task.finished) [
        | inl over ↦ rw over w
        | inr running ↦ rw running (behind task.ip_guard w)
      ])
      (λ h. (h.0, c h.1)) (ap suc l)

pub finish-Finished : (id : ℕ) (tasks : List Task) → Finished id tasks (finish id tasks)
unfolding finish
finish-Finished id [] = absent refl
finish-Finished id (task ∷ tasks) =
    if_cases (Finished id (task ∷ tasks)) (is_running id task) _ _
      (λ found.
        let running : task.finished ≡ false = ground (arith, found) in
        ended (ground (arith, found)) (rw running front) (λ h. h) refl)
      (λ other. finish-rest id task tasks (finish id tasks) other (finish-Finished id tasks))
