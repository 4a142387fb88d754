-- ===== src/Receive/Steps.antt =====
-- The steps in which a channel is sent to, closed and matched.
use gomega.Base.{true, false, List, [], ◌∷◌, ◌++◌, if◌then◌else◌}
use gomega.Receive.{
  Channel, ReceiveArg, Receiver, Selected, received, closed, nothing, select, is_no_pointer,
  match_channel,
}

-- What happens to a channel: other goroutines send and close, and the matcher is called on it. To send on
-- a closed channel is a panic, and sends nothing.
pub data Event (V : Type 0) : Type 0 where
  sends : V → Event V
  closes matches : Event V

-- The channel and the matcher, with what has been sent and what Match has taken from the channel.
pub record History (V : Type 0) : Type 0 where
  pub ch : Channel V
  pub matcher : Receiver V
  pub sent : List V
  pub taken : List V

module _ {V : Type 0} where
  abbrev pub sent_to : V → History V → History V
  sent_to v h = if h.ch.is_closed then h else record h {
    ch = record { values = h.ch.values ++ v ∷ []; is_closed = false };
    sent = h.sent ++ v ∷ [];
  }

  abbrev pub taken_by : Selected V → List V
  taken_by (received v) = v ∷ []
  taken_by closed = []
  taken_by nothing = []

  abbrev pub event : ReceiveArg V → Event V → History V → History V
  event arg (sends v) h = sent_to v h
  event arg closes h = record h { ch = record { values = h.ch.values; is_closed = true } }
  event arg matches h =
      let o = match_channel arg h.ch h.matcher in
      record h {
        ch = o.left;
        matcher = o.after;
        taken = h.taken ++ (if is_no_pointer arg then [] else taken_by (select h.ch).0);
      }

  abbrev pub events : ReceiveArg V → List (Event V) → History V → History V
  events arg [] h = h
  events arg (e ∷ es) h = events arg es (event arg e h)

  abbrev pub new_history : Receiver V → History V
  new_history r = record {
    ch = record { values = []; is_closed = false };
    matcher = r;
    sent = [];
    taken = [];
  }
