-- ===== src/Harness/Wires/Stale.antt =====
-- Requests on old ends of the network of lab3/raft/config.go.
use cs.Base.{ℕ, ◌<◌, ◌≡◌, Bool, true, false, some, List, inl, inr}
use cs.Base.Tests.{Bool-cases}
use cs.Base.All.{All}
use cs.Rpc.Network.{Network}
use cs.Rpc.Request.{Rolls, Turn, failure, process_req}
use cs.Rpc.Request.Returns.{process_req_disabled}
use cs.Harness.Wires.{Wires, Action, target, act_all, new_wires}
use cs.Harness.Wires.Current.{Live}
use cs.Harness.Wires.Current.Started.{act_all-IsWired, new_wires-IsWired}

-- In a test of `n` servers after any starts, crashes, connections and disconnections, a request on a name that is not
-- the current end from one connected server to another is answered with failure, and no handler runs for it.
pub process_req-act_all :
    (n : ℕ) (unreliable : Bool) (actions : List Action) (w : Wires) (endname : ℕ) (rolls : Rolls)
    (turns : List Turn) (last : Network)
    → All (λ a. target a < n) actions
    → act_all n actions (some (new_wires unreliable)) ≡ some w
    → ¬ Live n w endname
    → process_req endname rolls w.net turns last
      ≡ some (record { answer = failure; has_run = false; is_delayed = true })
process_req-act_all n unreliable actions w endname rolls turns last ls h stale =
    let v =
      act_all-IsWired n actions (new_wires unreliable) w ls (new_wires-IsWired n unreliable) h in
    elim (Bool-cases (w.net.enabled endname)) [
      | inl t ↦ absurd (stale (v.live endname t))
      | inr f ↦ process_req_disabled endname rolls w.net turns last f
    ]
