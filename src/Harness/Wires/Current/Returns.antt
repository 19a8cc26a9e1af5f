-- ===== src/Harness/Wires/Current/Returns.antt =====
-- The operations of lab3/raft/config.go on the network return.
use cs.Base.{ℕ, ◌<◌, ◌≡◌, refl, sym, ap, subst, ◌∙◌, ◌⊎◌, inl, inr, true, false, some}
use cs.Base.Range.{update, update_self, update_cases, for_range}
use cs.Rpc.Network.{delete_server, add_server}
use cs.Harness.Wires.{
  Wires, connect, disconnect, disable_at, unplug, start, enable_out, enable_in, with_net, serve,
  Action, starts, crashes, connects, disconnects, target, act,
}
use cs.Harness.Wires.Ends.{enable_all_some}
use cs.Harness.Wires.Closed.{disable_all-Disables}
use cs.Harness.Wires.Fresh.{open_ends_new}
use cs.Harness.Wires.Current.{IsWired}

unplug-ends : (n i : ℕ) (w : Wires) (x : ℕ) → (unplug n i w).net.ends x ≡ w.net.ends x
unfolding unplug disconnect delete_server
unplug-ends n i w x =
    let out = for_range n (λ j net. disable_at (w.endnames i) j net) w.net in
    (disable_all-Disables n w.endnames (λ j. i) out).same_ends x
    ∙ (disable_all-Disables n (λ j. w.endnames i) (λ j. j) w.net).same_ends x

-- The ends after a start are those from before and the new ones.
pub start_returns :
    (n i : ℕ) (names : ℕ → ℕ) (server : ℕ) (w : Wires)
    → ((j : ℕ) → j < n → w.net.ends (names j) ≡ false)
    → ((i j : ℕ) → i < n → j < n → names i ≡ names j → i ≡ j)
    → ((w' : Wires) × (start n i names server w ≡ some w')
        × ((x : ℕ)
            → w'.net.ends x ≡ true
            → (w.net.ends x ≡ true) ⊎ ((j : ℕ) × (j < n) × (names j ≡ x)))
        × (w'.endnames ≡ update w.endnames i (some names)))
unfolding start with_net serve add_server unplug disconnect
start_returns n i names server w new dist =
    let u = unplug n i w in
    let (net, e, only) =
      open_ends_new n names u.net (λ j l. unplug-ends n i w (names j) ∙ new j l) dist in
    (
      record u { endnames = update u.endnames i (some names); net = add_server i server net },
      ap
          (λ r.
            with_net (record u { endnames = update u.endnames i (some names) }) (serve i server r))
          e,
      λ x h. elim (only x h) [ inl k ↦ inl (sym (unplug-ends n i w x) ∙ k) | inr k ↦ inr k ],
      refl,
    )

pub connect_returns :
    (n i : ℕ) (w : Wires)
    → ((j : ℕ) → update w.connected i true j ≡ true → ((e : ℕ → ℕ) × (w.endnames j ≡ some e)))
    → ((w' : Wires) × (connect n i w ≡ some w')
        × (w'.connected ≡ update w.connected i true)
        × (w'.endnames ≡ w.endnames))
unfolding connect with_net enable_out enable_in
connect_returns n i w named =
    let on = update w.connected i true in
    let (e, q) = named i (update_self w.connected i true) in
    let (mid, f) = enable_all_some n on (λ j. w.endnames i) (λ j. j) w.net (λ j l h. (e, q)) in
    let (net, g) = enable_all_some n on w.endnames (λ j. i) mid (λ j l h. named j h) in
    (
      record w { connected = on; net = net },
      ap (λ r. with_net (record w { connected = on }) (enable_in n i on w.endnames r)) f
          ∙ ap (with_net (record w { connected = on })) g,
      refl,
      refl,
    )

-- What an action needs: fresh names, or a server that has been started.
abbrev pub IsReady : ℕ → Wires → Action → Type 0
IsReady n w (starts i names server) =
    ((j : ℕ) → j < n → w.net.ends (names j) ≡ false)
    × ((i j : ℕ) → i < n → j < n → names i ≡ names j → i ≡ j)
IsReady n w (crashes i) = Unit
IsReady n w (connects i) = (e : ℕ → ℕ) × (w.endnames i ≡ some e)
IsReady n w (disconnects i) = Unit

-- An action on wires in order does not end the test: a start with names that no end has and that differ, the connection of a
-- server that has been started, any crash and any disconnection.
pub act_returns :
    (n : ℕ) (a : Action) (w : Wires)
    → target a < n
    → IsWired n w
    → IsReady n w a
    → ((w' : Wires) × (act n a w ≡ some w'))
unfolding act
act_returns n (starts i names server) w l v (new, dist) =
    let (w', e, only, same) = start_returns n i names server w new dist in (w', e)
act_returns n (crashes i) w l v r = (unplug n i w, refl)
act_returns n (connects i) w l v (e, q) =
    let (w', f, on, same) = connect_returns n i w (λ a h. elim (update_cases w.connected i true a) [
      | inl (p, f) ↦ (e, subst (λ z. w.endnames z ≡ some e) p q)
      | inr f ↦ v.started a (sym f ∙ h)
    ]) in
    (w', f)
act_returns n (disconnects i) w l v r = (disconnect n i w, refl)
