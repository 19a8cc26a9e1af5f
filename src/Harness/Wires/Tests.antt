-- ===== src/Harness/Wires/Tests.antt =====
-- Two servers, of which the first is restarted.
use cs.Base.{
  ℕ, ◌+◌, ◌*◌, ◌<◌, ◌≡◌, refl, Bool, true, false, Option, none, some, List, [], ◌∷◌, arith,
}
use cs.Base.All.{All}
use cs.Rpc.Network.{
  make_network, set_reliable, set_long_delays, make_end, add_server, delete_server, connect_end,
  enable,
}
use cs.Harness.Wires.{
  Wires, enable_at, enable_next, enable_out, enable_in, with_net, connect, disable_at, disconnect,
  unplug, link_end, open_end, open_ends, serve, start, Action, starts, crashes, connects, target,
  act, act_all, new_wires, make_config,
}
use cs.Rpc.Request.{failure, replies, process_req}
use cs.Harness.Wires.Made.{AreDistinct, make_config_returns}
use cs.Harness.Wires.Stale.{process_req-act_all}
use cs.Harness.Wires.Current.{Live, IsWired}
use cs.Harness.Wires.Current.Started.{act_all-IsWired, new_wires-IsWired}

abbrev batch : ℕ → ℕ → ℕ
batch b j = b * 10 + j

abbrev restart : List Action
restart =
    starts 0 (batch 0) 50
    ∷ starts 1 (batch 1) 51
    ∷ connects 0
    ∷ connects 1
    ∷ crashes 0
    ∷ starts 0 (batch 2) 52
    ∷ connects 0
    ∷ []

-- Whether an end is enabled, of a test that goes on.
abbrev enabled_at : Option Wires → ℕ → Option Bool
enabled_at none x = none
enabled_at (some w) x = some (w.net.enabled x)

abbrev after : Option Wires
after = act_all 2 restart (some (new_wires true))

-- The end of the restarted server is enabled, and that of its old instance is not.
new_end : enabled_at after 21 ≡ some true
unfolding act_all act start connect unplug disconnect disable_at open_ends open_end link_end serve
    with_net enable_out enable_in enable_next enable_at new_wires make_network set_reliable
    set_long_delays make_end add_server delete_server connect_end enable
new_end = refl

old_end : enabled_at after 1 ≡ some false
unfolding act_all act start connect unplug disconnect disable_at open_ends open_end link_end serve
    with_net enable_out enable_in enable_next enable_at new_wires make_network set_reliable
    set_long_delays make_end add_server delete_server connect_end enable
old_end = refl

-- The same names again end the program.
same_names : act_all 2 (starts 0 (batch 1) 53 ∷ []) after ≡ none
unfolding act_all act start connect unplug disconnect disable_at open_ends open_end link_end serve
    with_net enable_out enable_in enable_next enable_at new_wires make_network set_reliable
    set_long_delays make_end add_server delete_server connect_end enable
same_names = refl

-- The state that a test left.
abbrev left : Option Wires → Wires
left none = new_wires true
left (some w) = w

returned : act_all 2 restart (some (new_wires true)) ≡ some (left after)
unfolding act_all act start connect unplug disconnect disable_at open_ends open_end link_end serve
    with_net enable_out enable_in enable_next enable_at new_wires make_network set_reliable
    set_long_delays make_end add_server delete_server connect_end enable
returned = refl

of_two : All {A = Action} (λ a. target a < 2) restart
of_two = (
  omega arith,
  (omega arith, (omega arith, (omega arith, (omega arith, (omega arith, (omega arith, tt)))))),
)

act_all-IsWired_example : IsWired 2 (left after)
act_all-IsWired_example =
    act_all-IsWired 2 restart (new_wires true) (left after) of_two (new_wires-IsWired 2 true)
      returned

off : (left after).net.enabled 1 ≡ false
unfolding act_all act start connect unplug disconnect disable_at open_ends open_end link_end serve
    with_net enable_out enable_in enable_next enable_at new_wires make_network set_reliable
    set_long_delays make_end add_server delete_server connect_end enable
off = refl

-- End 1 is that of server 0's first instance to server 1.
not-Live : ¬ Live 2 (left after) 1
not-Live k =
    let on =
      (act_all-IsWired 2 restart (new_wires true) (left after) of_two (new_wires-IsWired 2 true)
          returned).up
        1 k in
    let off' = off in cc

process_req-act_all_example :
    process_req 1
      (record { drop_request = 0; drop_reply = 0; delay_reply = 0 })
      (left after).net
      (replies [] ∷ [])
      (left after).net
    ≡ some (record { answer = failure; has_run = false; is_delayed = true })
process_req-act_all_example =
    process_req-act_all 2 true restart (left after) 1
      (record { drop_request = 0; drop_reply = 0; delay_reply = 0 }) (replies [] ∷ [])
      (left after).net of_two returned not-Live

batches-AreDistinct : AreDistinct 2 batch
batches-AreDistinct = λ i j i' j' a b a' b' q. (omega (arith, q), omega (arith, q))

make_config_returns_example :
    (w : Wires) × (make_config 2 false batch (λ i. i + 50) ≡ some w)
    × IsWired 2 w
    × ((i j : ℕ)
        → i < 2
        → j < 2
        → (w.endnames i ≡ some (batch i))
          × (w.net.enabled (batch i j) ≡ true)
          × (w.net.connections (batch i j) ≡ some j))
make_config_returns_example = make_config_returns 2 false batch (λ i. i + 50) batches-AreDistinct
