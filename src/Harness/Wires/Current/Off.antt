-- ===== src/Harness/Wires/Current/Off.antt =====
-- `disconnect` and `crash1` of lab3/raft/config.go keep the enabled ends current.
use cs.Base.{ℕ, ◌<◌, ◌≡◌, refl, sym, ap, subst, ◌∙◌, false, Option, none, some}
use cs.Base.Range.{update, update_self, update_other, for_range}
use cs.Rpc.Network.{Network, delete_server}
use cs.Harness.Wires.{Wires, disconnect, unplug, disable_at}
use cs.Harness.Wires.Closed.{Disables, disable_all-Disables}
use cs.Harness.Wires.Current.{Live, IsWired, on_after}

-- Server `i` is off, and its ends are disabled by two loops.
disconnected-IsWired :
    (n i : ℕ) (w : Wires) (mid net : Network)
    → i < n
    → IsWired n w
    → Disables n (λ j. w.endnames i) (λ j. j) w.net mid
    → Disables n w.endnames (λ j. i) mid net
    → IsWired n (record w { connected = update w.connected i false; net = net })
disconnected-IsWired n i w mid net l v out ins = record {
  live = λ x h.
      let (h', not_in) = ins.only x h in
      let (h0, not_out) = out.only x h' in
      let k = v.live x h0 in
      record {
        from = k.from;
        to = k.to;
        names = k.names;
        from_below = k.from_below;
        to_below = k.to_below;
        current = k.current;
        named = k.named;
        from_on =
            update_other w.connected i k.from false (λ p. not_out record {
              at = k.to;
              names = k.names;
              at_below = k.to_below;
              is_on = refl;
              in_table = subst (λ z. w.endnames z ≡ some k.names) (sym p) k.current;
              named = k.named;
            })
            ∙ k.from_on;
        to_on =
            update_other w.connected i k.to false (λ p. not_in record {
              at = k.from;
              names = k.names;
              at_below = k.from_below;
              is_on = refl;
              in_table = k.current;
              named = ap k.names p ∙ k.named;
            })
            ∙ k.to_on;
      };
  up = λ x k.
      let (a, from_on) = on_after w.connected i k.from k.from_on in
      let (b, to_on) = on_after w.connected i k.to k.to_on in
      let before : Live n w x = record {
        from = k.from;
        to = k.to;
        names = k.names;
        from_below = k.from_below;
        to_below = k.to_below;
        current = k.current;
        named = k.named;
        from_on = from_on;
        to_on = to_on;
      } in
      ins.keeps x
        (out.keeps x (v.up x before) (λ hit.
          a
            (v.distinct i hit.at k.from k.to hit.names k.names l hit.at_below k.from_below
              k.to_below hit.in_table k.current (hit.named ∙ sym k.named)).0))
        (λ hit.
          b
            (v.distinct hit.at i k.from k.to hit.names k.names hit.at_below l k.from_below
              k.to_below hit.in_table k.current (hit.named ∙ sym k.named)).1);
  known = λ a b e la lb h.
      let (p, q) = v.known a b e la lb h in
      (
        ins.same_ends (e b) ∙ out.same_ends (e b) ∙ p,
        ins.same_connections (e b) ∙ out.same_connections (e b) ∙ q,
      );
  distinct = v.distinct;
  started = λ a h. v.started a (on_after w.connected i a h).1;
}

pub disconnect-IsWired : (n i : ℕ) (w : Wires) → i < n → IsWired n w → IsWired n (disconnect n i w)
unfolding disconnect
disconnect-IsWired n i w l v =
    let out = for_range n (λ j net. disable_at (w.endnames i) j net) w.net in
    disconnected-IsWired n i w out (for_range n (λ j net. disable_at (w.endnames j) i net) out) l v
      (disable_all-Disables n (λ j. w.endnames i) (λ j. j) w.net)
      (disable_all-Disables n w.endnames (λ j. i) out)

-- The servers' table is not read.
pub same_wires :
    (n : ℕ) (w : Wires) (s : ℕ → Option ℕ)
    → IsWired n w
    → IsWired n (record w { net = record w.net { servers = s } })
same_wires n w s v = record {
  live = λ x h. as_live (v.live x h);
  up = λ x k. v.up x (of_live k);
  known = v.known;
  distinct = v.distinct;
  started = v.started;
}
  where
    as_live : {x : ℕ} → Live n w x → Live n (record w { net = record w.net { servers = s } }) x
    as_live k = record {
      from = k.from;
      to = k.to;
      names = k.names;
      from_below = k.from_below;
      to_below = k.to_below;
      current = k.current;
      named = k.named;
      from_on = k.from_on;
      to_on = k.to_on;
    }

    of_live : {x : ℕ} → Live n (record w { net = record w.net { servers = s } }) x → Live n w x
    of_live k = record {
      from = k.from;
      to = k.to;
      names = k.names;
      from_below = k.from_below;
      to_below = k.to_below;
      current = k.current;
      named = k.named;
      from_on = k.from_on;
      to_on = k.to_on;
    }

pub unplug-IsWired : (n i : ℕ) (w : Wires) → i < n → IsWired n w → IsWired n (unplug n i w)
unfolding unplug delete_server
unplug-IsWired n i w l v =
    let w' = disconnect n i w in
    same_wires n w' (update w'.net.servers i none) (disconnect-IsWired n i w l v)

pub unplug-off : (n i : ℕ) (w : Wires) → (unplug n i w).connected i ≡ false
unfolding unplug disconnect
unplug-off n i w = update_self w.connected i false
