-- ===== src/Harness/Wires/Current/Started.antt =====
-- `start1` of lab3/raft/config.go on the network, and the operations of a test in any order.
use cs.Base.{
  ℕ, ◌<◌, ◌≡◌, ◌≢◌, refl, sym, ap, subst, ◌∙◌, ◌⊎◌, inl, inr, Bool, true, false, Option, none, some,
  List, [], ◌∷◌,
}
use cs.Base.Tests.{Option-cases, of_some}
use cs.Base.All.{All}
use cs.Base.Range.{update, update_other, update_cases}
use cs.Rpc.Network.{Network, add_server, make_network, set_reliable, set_long_delays}
use cs.Harness.Wires.{
  Wires, unplug, start, serve, open_ends, Action, starts, crashes, connects, disconnects, target,
  act, act_all, new_wires,
}
use cs.Harness.Wires.Fresh.{Opens, open_ends-Opens}
use cs.Harness.Wires.Current.{Live, IsWired}
use cs.Harness.Wires.Current.Kept.{with_net-cases, connect-IsWired}
use cs.Harness.Wires.Current.Off.{disconnect-IsWired, unplug-IsWired, unplug-off, same_wires}

-- Server `i`, which is not connected, has fresh ends.
opened-IsWired :
    (n i : ℕ) (names : ℕ → ℕ) (w : Wires) (net : Network)
    → i < n
    → w.connected i ≡ false
    → IsWired n w
    → Opens n names w.net net
    → IsWired n (record w { endnames = update w.endnames i (some names); net = net })
opened-IsWired n i names w net l off v o = record {
  live = λ x h.
      let k = v.live x (o.only x h) in
      record {
        from = k.from;
        to = k.to;
        names = k.names;
        from_below = k.from_below;
        to_below = k.to_below;
        current =
            update_other w.endnames i k.from (some names) (other k.from k.from_on) ∙ k.current;
        named = k.named;
        from_on = k.from_on;
        to_on = k.to_on;
      };
  up = λ x k.
      let old =
        sym (update_other w.endnames i k.from (some names) (other k.from k.from_on)) ∙ k.current in
      let before : Live n w x = record {
        from = k.from;
        to = k.to;
        names = k.names;
        from_below = k.from_below;
        to_below = k.to_below;
        current = old;
        named = k.named;
        from_on = k.from_on;
        to_on = k.to_on;
      } in
      let there =
        subst (λ z. w.net.ends z ≡ true) k.named
          (v.known k.from k.to k.names k.from_below k.to_below old).0 in
      o.keeps_enabled x there ∙ v.up x before;
  known = λ a b e la lb h. elim (at_cases a e h) [
    | inl (p, q) ↦ (
      subst (λ f. net.ends (f b) ≡ true) q (o.has_ends b lb),
      subst (λ f. net.connections (f b) ≡ some b) q (o.linked b lb),
    )
    | inr h' ↦
        let (p, q) = v.known a b e la lb h' in
        (o.keeps_ends (e b) p, o.keeps_connections (e b) p ∙ q)
  ];
  distinct = λ a b a' b' e e' la lb la' lb' h h' q. elim (at_cases a e h) [
    | inl (p, f) ↦ elim (at_cases a' e' h') [
      | inl (p', f') ↦
          (sym p ∙ p', o.are_distinct b b' lb lb' (ap (λ g. g b) f ∙ q ∙ sym (ap (λ g. g b') f')))
      | inr k ↦ absurd (clash b lb (e' b') (v.known a' b' e' la' lb' k).0 (ap (λ g. g b) f ∙ q))
    ]
    | inr k ↦ elim (at_cases a' e' h') [
      | inl (p', f') ↦
          absurd (clash b' lb' (e b) (v.known a b e la lb k).0 (ap (λ g. g b') f' ∙ sym q))
      | inr k' ↦ v.distinct a b a' b' e e' la lb la' lb' k k' q
    ]
  ];
  started = λ a h.
      let (e, q) = v.started a h in (e, update_other w.endnames i a (some names) (other a h) ∙ q);
}
  where
    other : (a : ℕ) → w.connected a ≡ true → i ≢ a
    other a h p = let off' : w.connected a ≡ false = subst (λ z. w.connected z ≡ false) p off in cc

    at_cases :
        (a : ℕ) (e : ℕ → ℕ)
        → update w.endnames i (some names) a ≡ some e
        → ((i ≡ a) × (names ≡ e)) ⊎ (w.endnames a ≡ some e)
    at_cases a e h = elim (update_cases w.endnames i (some names) a) [
      | inl (p, q) ↦ inl (p, of_some (sym q ∙ h))
      | inr q ↦ inr (sym q ∙ h)
    ]

    clash : (j : ℕ) → j < n → (x : ℕ) → w.net.ends x ≡ true → names j ≢ x
    clash j l x h q =
        let new : w.net.ends x ≡ false = subst (λ z. w.net.ends z ≡ false) q (o.were_new j l) in cc

serve-cases :
    (i server : ℕ) (r : Option Network) (net' : Network)
    → serve i server r ≡ some net'
    → ((net : Network) × (r ≡ some net) × (add_server i server net ≡ net'))
unfolding serve
serve-cases i server none net' h = cc
serve-cases i server (some net) net' h = (net, refl, of_some h)

start-IsWired :
    (n i : ℕ) (names : ℕ → ℕ) (server : ℕ) (w w' : Wires)
    → i < n
    → IsWired n w
    → start n i names server w ≡ some w'
    → IsWired n w'
unfolding start add_server
start-IsWired n i names server w w' l v h =
    let u = unplug n i w in
    let (net', e, q) =
      with_net-cases (record u { endnames = update u.endnames i (some names) })
        (serve i server (open_ends n names (some u.net))) w' h in
    let (net, f, g) = serve-cases i server (open_ends n names (some u.net)) net' e in
    let opened =
      opened-IsWired n i names u net l (unplug-off n i w) (unplug-IsWired n i w l v)
        (open_ends-Opens n names u.net net f) in
    subst (IsWired n) q (
      subst (λ z. IsWired n (record u { endnames = update u.endnames i (some names); net = z })) g
        (same_wires n (record u { endnames = update u.endnames i (some names); net = net })
          (update net.servers i (some server)) opened))

pub act-IsWired :
    (n : ℕ) (a : Action) (w w' : Wires)
    → target a < n
    → IsWired n w
    → act n a w ≡ some w'
    → IsWired n w'
unfolding act
act-IsWired n (starts i names server) w w' l v h = start-IsWired n i names server w w' l v h
act-IsWired n (crashes i) w w' l v h = subst (IsWired n) (of_some h) (unplug-IsWired n i w l v)
act-IsWired n (connects i) w w' l v h = connect-IsWired n i w w' l v h
act-IsWired n (disconnects i) w w' l v h =
    subst (IsWired n) (of_some h) (disconnect-IsWired n i w l v)

act_all-none : (n : ℕ) (actions : List Action) → act_all n actions none ≡ none
unfolding act_all
act_all-none n [] = refl
act_all-none n (a ∷ actions) = refl

-- After any starts, crashes, connections and disconnections of `n` servers that the test survives, an end of the network
-- is enabled exactly if it is the current end from one connected server to another: so no end of a crashed or
-- restarted instance can send. Every current end leads to its own server, under a name of its own.
pub act_all-IsWired :
    (n : ℕ) (actions : List Action) (w w' : Wires)
    → All (λ a. target a < n) actions
    → IsWired n w
    → act_all n actions (some w) ≡ some w'
    → IsWired n w'
unfolding act_all
act_all-IsWired n [] w w' ls v h = subst (IsWired n) (of_some h) v
act_all-IsWired n (a ∷ actions) w w' (l, ls) v h = elim (Option-cases (act n a w)) [
  | inl e ↦
      let h' : none ≡ some w' = sym (ap (act_all n actions) e ∙ act_all-none n actions) ∙ h in
      absurd cc
  | inr (mid, e) ↦
      act_all-IsWired n actions mid w' ls (act-IsWired n a w mid l v e)
        (sym (ap (act_all n actions) e) ∙ h)
]

pub new_wires-IsWired : (n : ℕ) (unreliable : Bool) → IsWired n (new_wires unreliable)
unfolding new_wires make_network set_reliable set_long_delays
new_wires-IsWired n unreliable = record {
  live = λ x h. absurd cc;
  up = λ x k. let h = k.from_on in absurd cc;
  known = λ i j e l l' h. absurd cc;
  distinct = λ i j i' j' e e' a b c d h h' q. absurd cc;
  started = λ i h. absurd cc;
}
