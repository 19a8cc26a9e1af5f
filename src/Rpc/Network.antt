-- ===== src/Rpc/Network.antt =====
-- The tables of `Network` in lab3/labrpc/labrpc.go. Names of ends and of servers are numbers, and so is
-- the pointer of a server; a map's missing key and its nil value are both none.
use cs.Base.{ℕ, ◌+◌, ◌%◌, ◌^◌, Bool, true, false, not, Option, none, some}
use cs.Base.Tests.{if◌then◌else◌, ◌==◌}
use cs.Base.Range.{update}

pub record Network : Type 0 where
  pub reliable : Bool
  pub long_delays : Bool
  pub long_reordering : Bool
  -- Whether the name has a `ClientEnd`.
  pub ends : ℕ → Bool
  pub enabled : ℕ → Bool
  pub servers : ℕ → Option ℕ
  pub connections : ℕ → Option ℕ
  -- The bits of an int32 and of an int64.
  pub count : ℕ
  pub bytes : ℕ

unfoldable pub make_network : Network
make_network = record {
  reliable = true;
  long_delays = false;
  long_reordering = false;
  ends = λ x. false;
  enabled = λ x. false;
  servers = λ x. none;
  connections = λ x. none;
  count = 0;
  bytes = 0;
}

-- What the network's own goroutine does with a request of that many bytes, before `processReq`.
unfoldable pub count_request : ℕ → Network → Network
count_request size rn = record rn {
  count = (rn.count + 1) % 2 ^ 32;
  bytes = (rn.bytes + size) % 2 ^ 64;
}

unfoldable pub set_reliable : Bool → Network → Network
set_reliable on rn = record rn { reliable = on }

unfoldable pub set_long_reordering : Bool → Network → Network
set_long_reordering on rn = record rn { long_reordering = on }

unfoldable pub set_long_delays : Bool → Network → Network
set_long_delays on rn = record rn { long_delays = on }

pub record EndnameInfo : Type 0 where
  pub is_enabled : Bool
  pub servername : Option ℕ
  pub server : Option ℕ
  pub is_reliable : Bool
  pub is_long_reordering : Bool

-- The server of a name, if there is a name.
unfoldable pub server_of : Option ℕ → (ℕ → Option ℕ) → Option ℕ
server_of none servers = none
server_of (some servername) servers = servers servername

unfoldable pub read_endname_info : ℕ → Network → EndnameInfo
unfolding server_of
read_endname_info endname rn = record {
  is_enabled = rn.enabled endname;
  servername = rn.connections endname;
  server = server_of (rn.connections endname) rn.servers;
  is_reliable = rn.reliable;
  is_long_reordering = rn.long_reordering;
}

-- Whether the pointer in the table is another one.
abbrev pub is_other : Option ℕ → ℕ → Bool
is_other none server = true
is_other (some current) server = not (current == server)

unfoldable pub is_server_dead : ℕ → ℕ → ℕ → Network → Bool
is_server_dead endname servername server rn =
    if not (rn.enabled endname) then true else is_other (rn.servers servername) server

-- None is the end of the program, when the name exists.
unfoldable pub make_end : ℕ → Network → Option Network
make_end endname rn =
    if rn.ends endname
    then none
    else some (record rn {
      ends = update rn.ends endname true;
      enabled = update rn.enabled endname false;
      connections = update rn.connections endname none;
    })

unfoldable pub add_server : ℕ → ℕ → Network → Network
add_server servername rs rn = record rn { servers = update rn.servers servername (some rs) }

unfoldable pub delete_server : ℕ → Network → Network
delete_server servername rn = record rn { servers = update rn.servers servername none }

unfoldable pub connect_end : ℕ → ℕ → Network → Network
connect_end endname servername rn = record rn {
  connections = update rn.connections endname (some servername);
}

unfoldable pub enable : ℕ → Bool → Network → Network
enable endname enabled rn = record rn { enabled = update rn.enabled endname enabled }
