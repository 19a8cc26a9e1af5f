-- ===== src/Rpc/Request.antt =====
-- `processReq` of lab3/labrpc/labrpc.go: what becomes of one request. What the other goroutines do meanwhile is in the
-- arguments: the network at each of its reads, and what the loop's `select` receives.
pub mod Alive
pub mod Delivered
pub mod Returns
mod Tests
use cs.Base.{
  ℕ, zero, suc, ◌+◌, ◌%◌, ◌^◌, Bool, true, false, not, ◌&&◌, Option, none, some, List, [], ◌∷◌,
}
use cs.Base.Tests.{if◌then◌else◌, ltb}
use cs.Base.Lists.{length}
use cs.Rpc.Network.{Network, EndnameInfo, read_endname_info, is_server_dead}

-- The bytes of a reply are numbers.
pub record ReplyMsg : Type 0 where
  pub ok : Bool
  pub reply : List ℕ

-- The values of `rand` of the two drops, and of the delay.
pub record Rolls : Type 0 where
  pub drop_request : ℕ
  pub drop_reply : ℕ
  pub delay_reply : ℕ

-- What one `select` receives: the handler's reply, or after 100 ms the network of that time.
pub data Turn : Type 0 where
  replies : (reply : List ℕ) → Turn
  polls : (net : Network) → Turn

-- The message to `replyCh`, whether the handler was started, and whether a timer sends the message.
pub record Processed : Type 0 where
  pub answer : ReplyMsg
  pub has_run : Bool
  pub is_delayed : Bool

abbrev pub failure : ReplyMsg
failure = record { ok = false; reply = [] }

-- The loop: none is a loop that goes on after the turns, and no reply one that found the server dead.
pub wait_reply : ℕ → ℕ → ℕ → List Turn → Option (Option (List ℕ))
wait_reply endname servername server [] = none
wait_reply endname servername server (replies reply ∷ turns) = some (some reply)
wait_reply endname servername server (polls net ∷ turns) =
    let rest = wait_reply endname servername server turns in
    if is_server_dead endname servername server net then some none else rest

-- Whether an unreliable network drops the message.
pub is_dropped : Bool → ℕ → Bool
is_dropped reliable roll = not reliable && ltb (roll % 1000) 100

-- The end, after the last look at the network.
pub reply_at : EndnameInfo → Rolls → Bool → Option (List ℕ) → Processed
unfolding is_dropped
reply_at info rolls dead none = record { answer = failure; has_run = true; is_delayed = false }
reply_at info rolls true (some reply) = record {
  answer = failure;
  has_run = true;
  is_delayed = false;
}
reply_at info rolls false (some reply) =
    if is_dropped info.is_reliable rolls.drop_reply
    then record { answer = failure; has_run = true; is_delayed = false }
    else record {
      answer = record { ok = true; reply = reply };
      has_run = true;
      is_delayed = info.is_long_reordering && ltb rolls.delay_reply 600;
    }

pub reply_after : EndnameInfo → Rolls → Bool → Option (Option (List ℕ)) → Option Processed
unfolding reply_at
reply_after info rolls dead none = none
reply_after info rolls dead (some r) = some (reply_at info rolls dead r)

-- The request that an unreliable network drops.
pub dispatch_at : Bool → Option Processed → Option Processed
dispatch_at true rest = some (record { answer = failure; has_run = false; is_delayed = false })
dispatch_at false rest = rest

-- The test of the info.
pub process_at :
    ℕ → EndnameInfo → Rolls → List Turn → Network → Bool → Option ℕ → Option ℕ → Option Processed
unfolding wait_reply reply_after dispatch_at is_dropped
process_at endname info rolls turns last true (some servername) (some server) =
    dispatch_at (is_dropped info.is_reliable rolls.drop_request) (
      reply_after info rolls (is_server_dead endname servername server last)
        (wait_reply endname servername server turns))
process_at endname info rolls turns last true (some servername) none =
    some (record { answer = failure; has_run = false; is_delayed = true })
process_at endname info rolls turns last true none server =
    some (record { answer = failure; has_run = false; is_delayed = true })
process_at endname info rolls turns last false servername server =
    some (record { answer = failure; has_run = false; is_delayed = true })

-- `last` is the network after the loop. None is a request that still waits for its handler.
pub process_req : ℕ → Rolls → Network → List Turn → Network → Option Processed
unfolding process_at
process_req endname rolls net turns last =
    let info = read_endname_info endname net in
    process_at endname info rolls turns last info.is_enabled info.servername info.server

-- A reply's bytes are counted when it is sent.
pub send_reply : Processed → Network → Network
send_reply p rn =
    if p.answer.ok then record rn { bytes = (rn.bytes + length p.answer.reply) % 2 ^ 64 } else rn
