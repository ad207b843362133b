-- ===== src/Backend/Tls/Replies.antt =====
-- What a wait for a reply, and a command with its reply, do to the world.
use iot_ftp_upload_gateway.Base.{
  ℕ, zero, suc, ◌+◌, ◌≤◌, ◌≡◌, refl, ◌∙◌, ◌∷◌, ◌++◌, Option, none, Text, crlf, arith,
}
use iot_ftp_upload_gateway.Io.{IoResult, ok, err}
use iot_ftp_upload_gateway.Run.{World, to_backend, ◌>>=◌, pure, write_backend}
use iot_ftp_upload_gateway.Run.Moves.{Moves, chain_moves}
use iot_ftp_upload_gateway.Backend.Tls.{
  Progress, broken, finished, more, progress_of, read_reply, expect, max_reply_lines,
  command_expecting,
}

-- A wait for replies: nothing is sent, and time passes.
pub record Waits (lines : ℕ) (u v : World) : Type 0 where
  pub trace_eq : v.trace ≡ u.trace
  pub secured_eq : v.secured ≡ u.secured
  pub time_le : v.time ≤ u.time + lines

after_line :
    (lines : ℕ)
    → ((code : Option Text) → Moves (Waits lines) (read_reply lines code))
    → (p : Progress)
    → Moves {A = IoResult Text} (Waits lines) (elim p [
      | broken kind ↦ pure (err kind)
      | finished reply ↦ pure (ok reply)
      | more code' ↦ read_reply lines code'
    ])
after_line lines next (broken kind) = record {
  from = λ env w. record { trace_eq = refl; secured_eq = refl; time_le = omega arith };
}
after_line lines next (finished reply) = record {
  from = λ env w. record { trace_eq = refl; secured_eq = refl; time_le = omega arith };
}
after_line lines next (more code) = next code

one_more :
    (lines : ℕ) (u v : World)
    → Waits lines (record u { time = u.time + 1 }) v
    → Waits (suc lines) u v
one_more lines u v h = record {
  trace_eq = h.trace_eq;
  secured_eq = h.secured_eq;
  time_le = omega (arith, h.time_le);
}

pub read_reply-Waits :
    (lines : ℕ) (code : Option Text) → Moves (Waits lines) (read_reply lines code)
unfolding read_reply
read_reply-Waits zero code = record {
  from = λ env w. record { trace_eq = refl; secured_eq = refl; time_le = omega arith };
}
read_reply-Waits (suc lines) code = record {
  from = λ env w. one_more lines w _ (
      (after_line lines (read_reply-Waits lines) (progress_of code (env.backend_read w.time))).from
        env (record w { time = w.time + 1 }));
}

-- The command is all that was sent.
pub record Sent (text : Text) (u v : World) : Type 0 where
  pub trace_eq : v.trace ≡ to_backend u.secured text ∷ u.trace
  pub secured_eq : v.secured ≡ u.secured

both-Waits : (m n : ℕ) (u v w : World) → Waits m u v → Waits n v w → Waits (m + n) u w
both-Waits m n u v w h k = record {
  trace_eq = k.trace_eq ∙ h.trace_eq;
  secured_eq = k.secured_eq ∙ h.secured_eq;
  time_le = omega (arith, h.time_le, k.time_le);
}

unmoved : (m : ℕ) (u : World) → Waits m u u
unmoved m u = record { trace_eq = refl; secured_eq = refl; time_le = omega arith }

after_command :
    (expected : Text) (x : IoResult (Unit {0}))
    → Moves {A = IoResult (Unit {0})} (Waits (max_reply_lines + 0)) (elim x [
      | err kind ↦ pure (err kind)
      | ok _ ↦ do code ← read_reply max_reply_lines none; pure (expect expected code)
    ])
after_command expected (err kind) = record { from = λ env w. unmoved _ w }
after_command expected (ok _) =
    chain_moves (λ u v h. h) (both-Waits max_reply_lines 0) (read_reply-Waits max_reply_lines none)
      (λ code. record { from = λ env w. unmoved 0 w })

write_backend-Sent : (text : Text) → Moves (Sent text) (write_backend text)
write_backend-Sent text = record { from = λ env w. record { trace_eq = refl; secured_eq = refl } }

pub command_expecting-Sent :
    (command expected : Text) → Moves (Sent (command ++ crlf)) (command_expecting command expected)
unfolding command_expecting
command_expecting-Sent command expected =
    chain_moves {S = Waits max_reply_lines} (λ u v h. h)
      (λ u v w h k. record {
        trace_eq = k.trace_eq ∙ h.trace_eq;
        secured_eq = k.secured_eq ∙ h.secured_eq;
      })
      (write_backend-Sent (command ++ crlf)) (after_command expected)
