-- ===== src/Gexec.antt =====
-- gexec/session.go and gexec/exit_matcher.go: a session and the Exit matcher. The process, what its
-- Wait returns and the delivery of signals are the operating system's.
pub mod Laws
mod Examples
use gomega.Base.{
  ℕ, ◌+◌, ◌==◌, Bool, true, false, not, ◌&&◌, Option, none, some, List, [], ◌∷◌, ◌++◌,
  if◌then◌else◌,
}
use gomega.Base.Int.{ℤ, pos, negsuc}

-- The unsuccessful exit code -1.
abbrev pub minus_one : ℤ
minus_one = negsuc 0

abbrev pub int_eq : ℤ → ℤ → Bool
int_eq (pos m) (pos n) = m == n
int_eq (negsuc m) (negsuc n) = m == n
int_eq m n = false

-- Session: the exit code, whether Out and Err and the channel Exited are closed, whether the command
-- has a process, and the signals that were sent to it. `ended` is whether the goroutine of the session
-- has gone past the section of monitorForExit in which it holds the lock.
pub record Session : Type 0 where
  pub exit_code : ℤ
  pub out_closed : Bool
  pub err_closed : Bool
  pub exited : Bool
  pub ended : Bool
  pub has_process : Bool
  pub sent : List ℕ

-- Start, by whether `command.Start` succeeds.
unfoldable pub start : Bool → Session
start ok = record {
  exit_code = minus_one;
  out_closed = false;
  err_closed = false;
  exited = false;
  ended = false;
  has_process = ok;
  sent = [];
}

unfoldable pub process_is_alive : Session → Bool
process_is_alive s = int_eq s.exit_code minus_one && s.has_process

-- Signal; Kill, Interrupt and Terminate are Signal with a signal of their own.
unfoldable pub signal : ℕ → Session → Session
unfolding process_is_alive
signal n s = if process_is_alive s then record s { sent = s.sent ++ n ∷ [] } else s

-- What the status of an ended process says.
pub data WaitStatus : Type 0 where
  signaled : ℕ → WaitStatus
  exit_status : ℤ → WaitStatus

-- The exit code that monitorForExit sets, with whether Wait gave an error.
unfoldable pub set_exit_code : WaitStatus → Bool → Session → Session
set_exit_code (signaled n) err s = record s { exit_code = pos (128 + n) }
set_exit_code (exit_status k) err s =
    let s' = if int_eq k minus_one && err then record s { exit_code = pos 254 } else s in
    record s' { exit_code = k }

-- monitorForExit once Wait returned, while it holds the lock.
unfoldable pub monitor_for_exit : WaitStatus → Bool → Session → Session
unfolding set_exit_code
monitor_for_exit st err s =
    record (set_exit_code st err (record s { out_closed = true; err_closed = true })) {
      ended = true;
    }

-- `close(exited)`, without the lock.
unfoldable pub close_exited : Session → Session
close_exited s = record s { exited = true }

-- The package's Signal, Kill, Interrupt and Terminate over the tracked sessions.
unfoldable pub signal_all : ℕ → List Session → List Session
signal_all n [] = []
signal_all n (s ∷ ss) = signal n s ∷ signal_all n ss

-- Exit: the code that is asked for, -1 without one.
unfoldable pub exit : Option ℤ → ℤ
exit none = minus_one
exit (some k) = k

-- Match of the Exit matcher on a session.
unfoldable pub exit_match : ℤ → Session → Bool
exit_match k s =
    if int_eq s.exit_code minus_one
    then false
    else if int_eq k minus_one
    then true
    else int_eq k s.exit_code

unfoldable pub exit_may_change : Session → Bool
exit_may_change s = int_eq s.exit_code minus_one

-- A signal, or a step of the one goroutine of the session: the end of the process, and then the close of
-- the channel Exited.
pub data Happening : Type 0 where
  signals : ℕ → Happening
  ends : WaitStatus → Bool → Happening
  closes_exited : Happening

unfoldable pub happen : Happening → Session → Session
unfolding signal monitor_for_exit close_exited
happen (signals n) s = signal n s
happen (ends st err) s = if s.ended then s else monitor_for_exit st err s
happen closes_exited s = if s.ended then close_exited s else s

unfoldable pub run : List Happening → Session → Session
unfolding happen
run [] s = s
run (h ∷ hs) s = run hs (happen h s)
