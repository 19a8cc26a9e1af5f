-- ===== src/Harness/Wires/Made.antt =====
-- `make_config` of lab3/raft/config.go.
use cs.Base.{
  ℕ, zero, suc, ◌≤◌, ◌<◌, ◌≡◌, ◌≢◌, refl, sym, ap, subst, ◌∙◌, ◌⊎◌, inl, inr, Bool, true, false,
  some, arith,
}
use cs.Base.Tests.{Bool-cases}
use cs.Base.Range.{update, update_self, update_other, update_cases}
use cs.Rpc.Network.{make_network, set_reliable, set_long_delays}
use cs.Harness.Wires.{
  Wires, act, starts, connects, act_next, start_all, connect_all, new_wires, make_config,
}
use cs.Harness.Wires.Current.{IsWired}
use cs.Harness.Wires.Current.Started.{new_wires-IsWired, act-IsWired}
use cs.Harness.Wires.Current.Returns.{start_returns, connect_returns}

-- The first `k` servers have been started, with their names.
record AreStarted (k n : ℕ) (names : ℕ → ℕ → ℕ) (w : Wires) : Type 0 where
  wired : IsWired n w
  named : (i : ℕ) → i < k → w.endnames i ≡ some (names i)
  only : (x : ℕ) → w.net.ends x ≡ true → ((i : ℕ) × (j : ℕ) × (i < k) × (j < n) × (names i j ≡ x))

-- All names differ.
abbrev pub AreDistinct : ℕ → (ℕ → ℕ → ℕ) → Type 0
AreDistinct n names =
    (i j i' j' : ℕ)
    → i < n
    → j < n
    → i' < n
    → j' < n
    → names i j ≡ names i' j'
    → (i ≡ i') × (j ≡ j')

below : (j n : ℕ) → j < suc n → (j < n) ⊎ (j ≡ n)
below j n l = ground arith

start_all-AreStarted :
    (k n : ℕ) (unreliable : Bool) (names : ℕ → ℕ → ℕ) (servers : ℕ → ℕ)
    → k ≤ n
    → AreDistinct n names
    → ((w : Wires) × (start_all k n names servers (some (new_wires unreliable)) ≡ some w)
        × AreStarted k n names w)
unfolding start_all new_wires make_network set_reliable set_long_delays act_next act
start_all-AreStarted zero n unreliable names servers l d = (
  new_wires unreliable,
  refl,
  record {
    wired = new_wires-IsWired n unreliable;
    named = λ i m. absurd (omega arith);
    only = λ x h. absurd (no_ends x h);
  },
)
  where
    no_ends : (x : ℕ) → (new_wires unreliable).net.ends x ≢ true
    no_ends x h = cc
start_all-AreStarted (suc k) n unreliable names servers l d =
    let (w, e, v) = start_all-AreStarted k n unreliable names servers (omega arith) d in
    let fresh : (j : ℕ) → j < n → w.net.ends (names k j) ≡ false = λ j m.
      elim (Bool-cases (w.net.ends (names k j))) [
        | inr f ↦ f
        | inl t ↦
            let (i, j', a, b, q) = v.only (names k j) t in
            absurd (omega (arith, a, (d i j' k j (omega (arith, a)) b (omega arith) m q).0))
      ] in
    let (w', f, ends, same) =
      start_returns n k (names k) (servers k) w fresh
        (λ i j a b q. (d k i k j (omega arith) a (omega arith) b q).1) in
    (
      w',
      ap (act_next n (starts k (names k) (servers k))) e ∙ f,
      record {
        wired = act-IsWired n (starts k (names k) (servers k)) w w' (omega arith) v.wired f;
        named = λ i m. ap (λ g. g i) same ∙ elim (below i k m) [
          | inl b ↦
              update_other w.endnames k i (some (names k)) (λ q. omega (arith, b, q)) ∙ v.named i b
          | inr q ↦
              subst (λ z. update w.endnames k (some (names k)) z ≡ some (names z)) (sym q)
                (update_self w.endnames k (some (names k)))
        ];
        only = λ x h. elim (ends x h) [
          | inl o ↦ let (i, j, a, b, q) = v.only x o in (i, j, omega (arith, a), b, q)
          | inr (j, b, q) ↦ (k, j, omega arith, b, q)
        ];
      },
    )

-- The first `k` of the started servers are connected.
record AreConnected (k n : ℕ) (names : ℕ → ℕ → ℕ) (w : Wires) : Type 0 where
  wired : IsWired n w
  named : (i : ℕ) → i < n → w.endnames i ≡ some (names i)
  connected : (i : ℕ) → i < k → w.connected i ≡ true

connect_all-AreConnected :
    (k n : ℕ) (names : ℕ → ℕ → ℕ) (w : Wires)
    → k ≤ n
    → AreConnected zero n names w
    → ((w' : Wires) × (connect_all k n (some w) ≡ some w') × AreConnected k n names w')
unfolding connect_all act_next act
connect_all-AreConnected zero n names w l v = (w, refl, v)
connect_all-AreConnected (suc k) n names w l v =
    let (mid, e, m) = connect_all-AreConnected k n names w (omega arith) v in
    let ready : (j : ℕ)
        → update mid.connected k true j ≡ true
        → ((f : ℕ → ℕ) × (mid.endnames j ≡ some f)) =
      λ j h. elim (update_cases mid.connected k true j) [
        | inl (q, r) ↦ (names j, m.named j (omega (arith, q)))
        | inr r ↦ m.wired.started j (sym r ∙ h)
      ] in
    let (w', f, on, same) = connect_returns n k mid ready in
    (
      w',
      ap (act_next n (connects k)) e ∙ f,
      record {
        wired = act-IsWired n (connects k) mid w' (omega arith) m.wired f;
        named = λ i b. ap (λ g. g i) same ∙ m.named i b;
        connected = λ i b. ap (λ g. g i) on ∙ elim (below i k b) [
          | inr q ↦
              subst (λ z. update mid.connected k true z ≡ true) (sym q)
                (update_self mid.connected k true)
          | inl c ↦ update_other mid.connected k i true (λ q. omega (arith, c, q)) ∙ m.connected i c
        ];
      },
    )

-- The start of a test whose random names all differ returns; then every server has its own names, and all its ends are enabled and
-- lead to their servers.
pub make_config_returns :
    (n : ℕ) (unreliable : Bool) (names : ℕ → ℕ → ℕ) (servers : ℕ → ℕ)
    → AreDistinct n names
    → ((w : Wires) × (make_config n unreliable names servers ≡ some w)
        × IsWired n w
        × ((i j : ℕ)
            → i < n
            → j < n
            → (w.endnames i ≡ some (names i))
              × (w.net.enabled (names i j) ≡ true)
              × (w.net.connections (names i j) ≡ some j)))
unfolding make_config
make_config_returns n unreliable names servers d =
    let (mid, e, s) = start_all-AreStarted n n unreliable names servers (omega arith) d in
    let (w, f, c) =
      connect_all-AreConnected n n names mid (omega arith)
        record { wired = s.wired; named = s.named; connected = λ i l. absurd (omega arith) } in
    (
      w,
      ap (connect_all n n) e ∙ f,
      c.wired,
      λ i j a b. (
        c.named i a,
        c.wired.up (names i j) record {
          from = i;
          to = j;
          names = names i;
          from_below = a;
          to_below = b;
          current = c.named i a;
          named = refl;
          from_on = c.connected i a;
          to_on = c.connected j b;
        },
        (c.wired.known i j (names i) a b (c.named i a)).1,
      ),
    )
