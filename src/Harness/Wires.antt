-- ===== src/Harness/Wires.antt =====
-- The part of `config` of lab3/raft/config.go that joins the servers to the network: `start1`, `crash1`,
-- `connect` and `disconnect`, as far as they change the network, `connected` and `endnames`.
pub mod Ends
pub mod Closed
pub mod Fresh
pub mod Current
pub mod Stale
pub mod Made
mod Tests
use cs.Base.{ℕ, zero, suc, Bool, true, false, Option, none, some, List, [], ◌∷◌}
use cs.Base.Tests.{if◌then◌else◌}
use cs.Base.Range.{update, for_range}
use cs.Rpc.Network.{
  Network, make_network, set_reliable, set_long_delays, make_end, add_server, delete_server,
  connect_end, enable,
}

-- `endnames` of a server is none while it is nil.
pub record Wires : Type 0 where
  pub net : Network
  pub connected : ℕ → Bool
  pub endnames : ℕ → Option (ℕ → ℕ)

-- What `connect` does with one end: an index of a nil slice ends the test.
pub enable_at : Option (ℕ → ℕ) → ℕ → Network → Option Network
enable_at none j net = none
enable_at (some names) j net = some (enable (names j) true net)

pub enable_next : Bool → Option (ℕ → ℕ) → ℕ → Option Network → Option Network
unfolding enable_at
enable_next on names j none = none
enable_next false names j (some net) = some net
enable_next true names j (some net) = enable_at names j net

-- The loops over the outgoing and the incoming ends.
pub enable_out : ℕ → ℕ → (ℕ → Bool) → (ℕ → Option (ℕ → ℕ)) → Option Network → Option Network
unfolding enable_next
enable_out n i connected endnames r =
    for_range n (λ j r. enable_next (connected j) (endnames i) j r) r

pub enable_in : ℕ → ℕ → (ℕ → Bool) → (ℕ → Option (ℕ → ℕ)) → Option Network → Option Network
unfolding enable_next
enable_in n i connected endnames r =
    for_range n (λ j r. enable_next (connected j) (endnames j) i r) r

-- The configuration with the network of the result.
pub with_net : Wires → Option Network → Option Wires
with_net w none = none
with_net w (some net) = some (record w { net = net })

pub connect : ℕ → ℕ → Wires → Option Wires
unfolding enable_out enable_in with_net
connect n i w =
    let connected = update w.connected i true in
    with_net (record w { connected = connected })
      (enable_in n i connected w.endnames (enable_out n i connected w.endnames (some w.net)))

-- What `disconnect` does with one end: there is none in a nil slice.
pub disable_at : Option (ℕ → ℕ) → ℕ → Network → Network
disable_at none j net = net
disable_at (some names) j net = enable (names j) false net

pub disconnect : ℕ → ℕ → Wires → Wires
unfolding disable_at
disconnect n i w =
    let out = for_range n (λ j net. disable_at (w.endnames i) j net) w.net in
    record w {
      connected = update w.connected i false;
      net = for_range n (λ j net. disable_at (w.endnames j) i net) out;
    }

pub unplug : ℕ → ℕ → Wires → Wires
unfolding disconnect
unplug n i w = let w' = disconnect n i w in record w' { net = delete_server i w'.net }

-- The two calls for one fresh name: none is the end of the program in `MakeEnd`.
pub link_end : ℕ → ℕ → Option Network → Option Network
link_end name j none = none
link_end name j (some net) = some (connect_end name j net)

pub open_end : ℕ → ℕ → Option Network → Option Network
unfolding link_end
open_end name j none = none
open_end name j (some net) = link_end name j (make_end name net)

pub open_ends : ℕ → (ℕ → ℕ) → Option Network → Option Network
unfolding open_end
open_ends n names r = for_range n (λ j r. open_end (names j) j r) r

pub serve : ℕ → ℕ → Option Network → Option Network
serve i server none = none
serve i server (some net) = some (add_server i server net)

-- `names` are what `randstring` returns, and `server` is the new server.
pub start : ℕ → ℕ → (ℕ → ℕ) → ℕ → Wires → Option Wires
unfolding unplug open_ends serve with_net
start n i names server w =
    let w' = unplug n i w in
    with_net (record w' { endnames = update w'.endnames i (some names) })
      (serve i server (open_ends n names (some w'.net)))

pub data Action : Type 0 where
  starts : (i : ℕ) → (names : ℕ → ℕ) → (server : ℕ) → Action
  crashes : (i : ℕ) → Action
  connects : (i : ℕ) → Action
  disconnects : (i : ℕ) → Action

-- The server that an action is about.
abbrev pub target : Action → ℕ
target (starts i names server) = i
target (crashes i) = i
target (connects i) = i
target (disconnects i) = i

pub act : ℕ → Action → Wires → Option Wires
unfolding start unplug connect disconnect
act n (starts i names server) w = start n i names server w
act n (crashes i) w = some (unplug n i w)
act n (connects i) w = connect n i w
act n (disconnects i) w = some (disconnect n i w)

-- None is a test that ended.
pub act_all : ℕ → List Action → Option Wires → Option Wires
unfolding act
act_all n actions none = none
act_all n [] (some w) = some w
act_all n (a ∷ actions) (some w) = act_all n actions (act n a w)

-- The first lines of `make_config`.
pub new_wires : Bool → Wires
new_wires unreliable = record {
  net = set_long_delays true (set_reliable (if unreliable then false else true) make_network);
  connected = λ i. false;
  endnames = λ i. none;
}

-- The operation on a test that goes on.
pub act_next : ℕ → Action → Option Wires → Option Wires
unfolding act
act_next n a none = none
act_next n a (some w) = act n a w

-- `make_config`'s two loops, with the names and the servers that they make.
pub start_all : ℕ → ℕ → (ℕ → ℕ → ℕ) → (ℕ → ℕ) → Option Wires → Option Wires
unfolding act_next
start_all k n names servers r = for_range k (λ i r. act_next n (starts i (names i) (servers i)) r) r

pub connect_all : ℕ → ℕ → Option Wires → Option Wires
unfolding act_next
connect_all k n r = for_range k (λ i r. act_next n (connects i) r) r

pub make_config : ℕ → Bool → (ℕ → ℕ → ℕ) → (ℕ → ℕ) → Option Wires
unfolding start_all connect_all new_wires
make_config n unreliable names servers =
    connect_all n n (start_all n n names servers (some (new_wires unreliable)))
