-- ===== src/Errors.antt =====
-- internal/polling_signal_error.go, with the chains of Go errors that `errors.As` walks.
-- A duration is its number of nanoseconds. The text of a message is kept as written, and the text
-- that `fmt` builds for a failed poll is kept as the data that it is built from.
use gomega.Base.Int.{ℤ, pos}
use gomega.Base.{String, Bool, true, false, Option, none, some, List, [], ◌∷◌, ◌++◌, ℕ}

pub data SignalType : Type 0 where
  stop_trying try_again_after : SignalType

pub record Attachment : Type 0 where
  pub description : String
  pub object : ℕ

-- PollingSignalErrorImpl, less its wrapped error.
pub record Signal : Type 0 where
  pub message : String
  pub signal_type : SignalType
  pub duration : ℤ
  pub attachments : List Attachment

-- What asyncPolledActualError.message says.
pub data PolledMessage : Type 0 where
  no_values : PolledMessage
  unexpected_value : ℕ → PolledMessage
  assertion_failed : String → PolledMessage

-- An `error`, with what its `Unwrap` method gives.
pub data GoError : Type 0 where
  plain : String → GoError
  polled_actual : PolledMessage → GoError
  wrapping : String → GoError → GoError
  signal : Signal → GoError
  signal_wrapping : Signal → GoError → GoError

unfoldable pub stop_trying_error : String → Signal
stop_trying_error m = record {
  message = m;
  signal_type = stop_trying;
  duration = pos 0;
  attachments = [];
}

unfoldable pub try_again_error : String → ℤ → Signal
try_again_error m d = record {
  message = m;
  signal_type = try_again_after;
  duration = d;
  attachments = [];
}

-- The error that `s.Wrap(err)` leaves behind, whatever `s` wrapped before.
unfoldable pub wrap : Signal → GoError → GoError
wrap s e = signal_wrapping s e

unfoldable pub attach : Signal → Attachment → Signal
attach s a = record s { attachments = s.attachments ++ a ∷ [] }

unfoldable pub is_stop_trying : Signal → Bool
is_stop_trying s = elim s.signal_type [ stop_trying ↦ true | try_again_after ↦ false ]

unfoldable pub is_try_again_after : Signal → Bool
is_try_again_after s = elim s.signal_type [ stop_trying ↦ false | try_again_after ↦ true ]

unfoldable pub as_polling_signal_error : GoError → Option Signal
as_polling_signal_error (plain m) = none
as_polling_signal_error (polled_actual m) = none
as_polling_signal_error (wrapping m e) = as_polling_signal_error e
as_polling_signal_error (signal s) = some s
as_polling_signal_error (signal_wrapping s e) = some s

-- `AsPollingSignalError(nil)` finds nothing.
unfoldable pub signal_of : Option GoError → Option Signal
unfolding as_polling_signal_error
signal_of none = none
signal_of (some e) = as_polling_signal_error e
