-- ===== src/Harness/Wires/Current/Kept.antt =====
-- `connect` of lab3/raft/config.go keeps the enabled ends current.
use cs.Base.{ℕ, ◌<◌, ◌≡◌, refl, sym, ap, subst, ◌∙◌, inl, inr, true, Option, none, some}
use cs.Base.Tests.{Option-cases, of_some}
use cs.Base.Range.{update, update_self, update_cases}
use cs.Rpc.Network.{Network}
use cs.Harness.Wires.{Wires, connect, enable_out, enable_in, with_net}
use cs.Harness.Wires.Ends.{Enables, enable_all-Enables, enable_all_none}
use cs.Harness.Wires.Current.{IsWired, on_keeps}

pub with_net-cases :
    (w : Wires) (r : Option Network) (w' : Wires)
    → with_net w r ≡ some w'
    → ((net : Network) × (r ≡ some net) × (record w { net = net } ≡ w'))
unfolding with_net
with_net-cases w none w' h = cc
with_net-cases w (some net) w' h = (net, refl, of_some h)

-- Server `i` is connected by two loops that enable its ends.
connected-IsWired :
    (n i : ℕ) (w : Wires) (mid net : Network)
    → i < n
    → IsWired n w
    → Enables n (update w.connected i true) (λ j. w.endnames i) (λ j. j) w.net mid
    → Enables n (update w.connected i true) w.endnames (λ j. i) mid net
    → IsWired n (record w { connected = update w.connected i true; net = net })
connected-IsWired n i w mid net l v out ins = record {
  live = λ x h. elim (ins.only x h) [
    | inr k ↦ record {
      from = k.at;
      to = i;
      names = k.names;
      from_below = k.at_below;
      to_below = l;
      current = k.in_table;
      named = k.named;
      from_on = k.is_on;
      to_on = update_self w.connected i true;
    }
    | inl h' ↦ elim (out.only x h') [
      | inr k ↦ record {
        from = i;
        to = k.at;
        names = k.names;
        from_below = l;
        to_below = k.at_below;
        current = k.in_table;
        named = k.named;
        from_on = update_self w.connected i true;
        to_on = k.is_on;
      }
      | inl h0 ↦
          let k = v.live x h0 in
          record {
            from = k.from;
            to = k.to;
            names = k.names;
            from_below = k.from_below;
            to_below = k.to_below;
            current = k.current;
            named = k.named;
            from_on = on_keeps w.connected i k.from k.from_on;
            to_on = on_keeps w.connected i k.to k.to_on;
          }
    ]
  ];
  up = λ x k. elim (update_cases w.connected i true k.from) [
    | inl (p, e) ↦ ins.keeps x (
        out.hits x record {
          at = k.to;
          names = k.names;
          at_below = k.to_below;
          is_on = k.to_on;
          in_table = subst (λ z. w.endnames z ≡ some k.names) (sym p) k.current;
          named = k.named;
        })
    | inr e ↦ elim (update_cases w.connected i true k.to) [
      | inl (p, e') ↦ ins.hits x record {
        at = k.from;
        names = k.names;
        at_below = k.from_below;
        is_on = k.from_on;
        in_table = k.current;
        named = ap k.names p ∙ k.named;
      }
      | inr e' ↦ ins.keeps x (
          out.keeps x (
            v.up x record {
              from = k.from;
              to = k.to;
              names = k.names;
              from_below = k.from_below;
              to_below = k.to_below;
              current = k.current;
              named = k.named;
              from_on = sym e ∙ k.from_on;
              to_on = sym e' ∙ k.to_on;
            }))
    ]
  ];
  known = λ a b e la lb h.
      let (p, q) = v.known a b e la lb h in
      (
        ins.same_ends (e b) ∙ out.same_ends (e b) ∙ p,
        ins.same_connections (e b) ∙ out.same_connections (e b) ∙ q,
      );
  distinct = v.distinct;
  started = λ a h. elim (update_cases w.connected i true a) [
    | inl (p, e) ↦
        let (names, q) = out.present i l (update_self w.connected i true) in
        (names, subst (λ z. w.endnames z ≡ some names) p q)
    | inr e ↦ v.started a (sym e ∙ h)
  ];
}

pub connect-IsWired :
    (n i : ℕ) (w w' : Wires) → i < n → IsWired n w → connect n i w ≡ some w' → IsWired n w'
unfolding connect enable_out enable_in
connect-IsWired n i w w' l v h =
    let on = update w.connected i true in
    let (net, e, q) =
      with_net-cases (record w { connected = on })
        (enable_in n i on w.endnames (enable_out n i on w.endnames (some w.net))) w' h in
    elim (Option-cases (enable_out n i on w.endnames (some w.net))) [
      | inl f ↦
          let e' : none ≡ some net =
            sym (ap (enable_in n i on w.endnames) f ∙ enable_all_none n on w.endnames (λ j. i))
            ∙ e in
          absurd cc
      | inr (mid, f) ↦ subst (IsWired n) q (
          connected-IsWired n i w mid net l v
            (enable_all-Enables n on (λ j. w.endnames i) (λ j. j) w.net mid f)
            (enable_all-Enables n on w.endnames (λ j. i) mid net
              (sym (ap (enable_in n i on w.endnames) f) ∙ e)))
    ]
