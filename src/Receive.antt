-- ===== src/Receive.antt =====
-- matchers/receive_matcher.go: the Receive matcher and the channel that it is about, which is the values
-- that can be received from it at once and whether it is closed.
pub mod Steps
pub mod Settled
mod Examples
use gomega.Base.{ℕ, Bool, true, false, not, Option, none, some, List, [], ◌∷◌, ◌++◌, if◌then◌else◌}
use gomega.Errors.{GoError}
use gomega.Matchers.{Verdict}

pub record Channel (V : Type 0) : Type 0 where
  pub values : List V
  pub is_closed : Bool

-- What Match is called on.
pub data Actual (V : Type 0) : Type 0 where
  no_channel send_only : Actual V
  channel : Channel V → Actual V

-- What an assignment of a value to the target of a pointer does; a target or a value that is nil makes
-- reflection panic.
pub data Assignment (V : Type 0) : Type 0 where
  assigns : V → Assignment V
  refuses panics : Assignment V

-- What Receive is called with: nothing, a matcher, a value that is no pointer, or a pointer, with what
-- the assignment of a value does, and that of what the value holds if it is an interface.
pub data ReceiveArg (V : Type 0) : Type 0 where
  no_arg : ReceiveArg V
  sub_matcher : (V → Verdict) → ReceiveArg V
  no_pointer : ReceiveArg V
  pointer : (V → Assignment V) → (V → Assignment V) → ReceiveArg V

-- The errors of Match, with its panic.
pub data Failed (V : Type 0) : Type 0 where
  expects_channel cannot_be_send_only needs_pointer panicked : Failed V
  cannot_assign : V → Failed V
  of_sub_matcher : GoError → Failed V

-- The fields of a ReceiveMatcher that Match sets, and what the pointer points to.
pub record Receiver (V : Type 0) : Type 0 where
  pub received_value : Option V
  pub channel_closed : Bool
  pub target : Option V

-- What reflect.Select with a default gives: a value, that the channel is closed, or nothing.
pub data Selected (V : Type 0) : Type 0 where
  received : V → Selected V
  closed nothing : Selected V

-- What Match returns, and what it leaves of the matcher and the channel.
pub record Outcome (V : Type 0) : Type 0 where
  pub success : Bool
  pub err : Option (Failed V)
  pub after : Receiver V
  pub left : Channel V

module _ {V : Type 0} where
  abbrev pub select : Channel V → Selected V × Channel V
  select ch = from ch.values ch.is_closed
    where
      from : List V → Bool → Selected V × Channel V
      from [] true = (closed, record { values = []; is_closed = true })
      from [] false = (nothing, record { values = []; is_closed = false })
      from (v ∷ vs) b = (received v, record { values = vs; is_closed = b })

  abbrev failure_of : Option GoError → Option (Failed V)
  failure_of none = none
  failure_of (some e) = some (of_sub_matcher e)

  -- The assignment to a pointer.
  abbrev pub assigned : Assignment V → Assignment V → V → Receiver V → Channel V → Outcome V
  assigned (assigns w) inner v r ch = record {
    success = true;
    err = none;
    after = record r { target = some w };
    left = ch;
  }
  assigned panics inner v r ch = record {
    success = false;
    err = some panicked;
    after = r;
    left = ch;
  }
  assigned refuses (assigns w) v r ch = record {
    success = true;
    err = none;
    after = record r { target = some w };
    left = ch;
  }
  assigned refuses panics v r ch = record {
    success = false;
    err = some panicked;
    after = r;
    left = ch;
  }
  assigned refuses refuses v r ch = record {
    success = false;
    err = some (cannot_assign v);
    after = r;
    left = ch;
  }

  -- Match after a value has been received.
  abbrev pub on_value : ReceiveArg V → V → Receiver V → Channel V → Outcome V
  on_value no_arg v r ch = record { success = true; err = none; after = r; left = ch }
  on_value no_pointer v r ch = record {
    success = false;
    err = some needs_pointer;
    after = r;
    left = ch;
  }
  on_value (sub_matcher match) v r ch = record {
    success = (match v).0;
    err = failure_of (match v).1;
    after = record r { received_value = some v };
    left = ch;
  }
  on_value (pointer whole inner) v r ch = assigned (whole v) (inner v) v r ch

  abbrev pub on_selected : ReceiveArg V → Selected V × Channel V → Receiver V → Outcome V
  on_selected arg (received v, ch) r = on_value arg v (record r { channel_closed = false }) ch
  on_selected arg (closed, ch) r = record {
    success = false;
    err = none;
    after = record r { channel_closed = true };
    left = ch;
  }
  on_selected arg (nothing, ch) r = record {
    success = false;
    err = none;
    after = record r { channel_closed = false };
    left = ch;
  }

  abbrev pub is_no_pointer : ReceiveArg V → Bool
  is_no_pointer no_arg = false
  is_no_pointer (sub_matcher match) = false
  is_no_pointer no_pointer = true
  is_no_pointer (pointer whole inner) = false

  -- Match on a channel that can be received from.
  unfoldable pub match_channel : ReceiveArg V → Channel V → Receiver V → Outcome V
  match_channel arg ch r =
      if is_no_pointer arg
      then record { success = false; err = some needs_pointer; after = r; left = ch }
      else on_selected arg (select ch) r

  -- Match. What is no channel to receive from is left as a channel without values.
  unfoldable pub match_receive : ReceiveArg V → Actual V → Receiver V → Outcome V
  unfolding match_channel
  match_receive arg no_channel r = record {
    success = false;
    err = some expects_channel;
    after = r;
    left = record { values = []; is_closed = false };
  }
  match_receive arg send_only r = record {
    success = false;
    err = some cannot_be_send_only;
    after = r;
    left = record { values = []; is_closed = false };
  }
  match_receive arg (channel ch) r = match_channel arg ch r

  -- MatchMayChangeInTheFuture.
  unfoldable pub receive_may_change : Actual V → Receiver V → Bool
  receive_may_change no_channel r = false
  receive_may_change send_only r = not r.channel_closed
  receive_may_change (channel ch) r = not r.channel_closed
