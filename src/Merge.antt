-- ===== src/Merge.antt =====
-- lab0/merge_channels.go: two channels, or two fetchers, merged into one channel. A schedule is a list
-- of events: a step of a sender, the choice of a ready case by `select`, or the next step of a
-- goroutine; an event that cannot happen changes nothing.
pub mod Flow
pub mod Channels
pub mod Ends
pub mod Cancel
pub mod Fetches
mod Tests
use cs.Base.{ℕ, Bool, true, false, not, ◌&&◌, List, [], ◌∷◌, ◌++◌}
use cs.Base.Tests.{if◌then◌else◌}

-- The two channels, `a` and `b`.
pub data Side : Type 0 where
  left right : Side

abbrev pub put : {B : Type 0} → (Side → B) → Side → B → Side → B
put f left b left = b
put f left b right = f right
put f right b left = f left
put f right b right = b

-- A channel that is merged: what was sent on it, what of that is not received yet, whether the sender
-- closed it, and whether the local variable was set to nil.
pub record Input (A : Type 0) : Type 0 where
  pub sent : List A
  pub waiting : List A
  pub closed : Bool
  pub gone : Bool

-- Where the function stands: in `select`, in `out <- val`, or returned, which closes `out`.
pub data Pc (A : Type 0) : Type 0 where
  selecting returned : Pc A
  sending : A → Pc A

pub record State (A : Type 0) : Type 0 where
  pub input : Side → Input A
  pub out : List A
  pub pc : Pc A

pub data Event (A : Type 0) : Type 0 where
  sends : Side → A → Event A
  closes receives : Side → Event A
  delivers : Event A

module _ {A : Type 0} where
  pub new_merge : State A
  new_merge = record {
    input = λ c. record { sent = []; waiting = []; closed = false; gone = false };
    out = [];
    pc = selecting;
  }

  -- A value that a sender sends; on a closed channel it does not.
  pub send_to : Bool → A → Input A → Input A
  send_to true x i = i
  send_to false x i = record i { sent = i.sent ++ x ∷ []; waiting = i.waiting ++ x ∷ [] }

  -- The test at the end of a round.
  pub after_round : (Side → Input A) → Pc A
  after_round input = if (input left).gone && (input right).gone then returned else selecting

  -- The end of a channel, which is ready if it was closed and all of it was received.
  pub receive_end : Bool → Side → State A → State A
  unfolding after_round
  receive_end false c s = s
  receive_end true c s =
      let input' = put s.input c (record (s.input c) { gone = true }) in
      record s { input = input'; pc = after_round input' }

  -- A case of the `select`: the next value, or the end.
  pub receive_case : List A → Side → State A → State A
  unfolding receive_end
  receive_case [] c s = receive_end (s.input c).closed c s
  receive_case (x ∷ rest) c s = record s {
    input = put s.input c (record (s.input c) { waiting = rest });
    pc = sending x;
  }

  -- A channel that is nil is never ready.
  pub receive : Bool → Side → State A → State A
  unfolding receive_case
  receive true c s = s
  receive false c s = receive_case (s.input c).waiting c s

  -- `out <- val`; the channel of the value is not nil, so that the loop goes on.
  pub step_at : Pc A → Event A → State A → State A
  unfolding send_to receive
  step_at pc (sends c x) s = record s {
    input = put s.input c (send_to (s.input c).closed x (s.input c));
  }
  step_at pc (closes c) s = record s {
    input = put s.input c (record (s.input c) { closed = true });
  }
  step_at selecting (receives c) s = receive (s.input c).gone c s
  step_at returned (receives c) s = s
  step_at (sending x) (receives c) s = s
  step_at selecting delivers s = s
  step_at returned delivers s = s
  step_at (sending x) delivers s = record s { out = s.out ++ x ∷ []; pc = selecting }

  pub step : Event A → State A → State A
  unfolding step_at
  step e s = step_at s.pc e s

  pub run : List (Event A) → State A → State A
  unfolding step
  run [] s = s
  run (e ∷ events) s = run events (step e s)
