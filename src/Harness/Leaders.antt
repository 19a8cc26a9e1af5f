-- ===== src/Harness/Leaders.antt =====
-- `checkOneLeader`, `checkTerms` and `checkNoLeader` of lab3/raft/config.go. What `GetState` returns is an argument, for
-- each try; a term is a natural number, and none stands for -1.
pub mod Tables
pub mod One
pub mod Chosen
pub mod Terms
mod Tests
use cs.Base.{
  ℕ, zero, suc, ◌+◌, Bool, true, false, not, ◌&&◌, Option, none, some, List, [], ◌∷◌, ◌++◌,
}
use cs.Base.Tests.{if◌then◌else◌, ltb, ◌==◌}
use cs.Base.Lists.{length}
use cs.Base.Range.{update, for_range}

-- How a check fails the test; `index_out` is a panic.
pub data Failure : Type 0 where
  many_leaders : (term count : ℕ) → Failure
  no_leader : Failure
  index_out : Failure
  terms_differ : Failure
  leads : (server : ℕ) → Failure

pub data Checked (A : Type 0) : Type 0 where
  returns : A → Checked A
  fails : Failure → Checked A

-- `leaders`: the lists of the map, and its keys, which are the terms whose list is not empty.
pub record Leaders : Type 0 where
  pub table : ℕ → List ℕ
  pub terms : List ℕ

pub no_leaders : Leaders
no_leaders = record { table = λ t. []; terms = [] }

-- The keys after a list has grown.
pub with_term : List ℕ → ℕ → List ℕ → List ℕ
with_term [] term terms = term ∷ terms
with_term (i ∷ is) term terms = terms

pub add_leader : ℕ → ℕ → Leaders → Leaders
unfolding with_term
add_leader term i l = record {
  table = update l.table term (l.table term ++ i ∷ []);
  terms = with_term (l.table term) term l.terms;
}

-- One server of a try.
pub ask : Bool → ℕ × Bool → ℕ → Leaders → Leaders
unfolding add_leader
ask true (term, true) i l = add_leader term i l
ask true (term, false) i l = l
ask false state i l = l

pub collect_leaders : ℕ → (ℕ → Bool) → (ℕ → ℕ × Bool) → Leaders
unfolding ask no_leaders
collect_leaders n connected state = for_range n (λ i l. ask (connected i) (state i) i l) no_leaders

pub later : ℕ → Option ℕ → Option ℕ
later term none = some term
later term (some last) = if ltb last term then some term else some last

-- The loop over the map, in the order of `terms`, the one in which they were first seen; Go leaves
-- the order open.
pub last_term : (ℕ → List ℕ) → List ℕ → Option ℕ → Checked (Option ℕ)
unfolding later
last_term table [] last = returns last
last_term table (term ∷ terms) last =
    let rest = last_term table terms (later term last) in
    if ltb 1 (length (table term)) then fails (many_leaders term (length (table term))) else rest

-- `leaders[lastTermWithLeader][0]`
pub first_of : List ℕ → Checked (Option ℕ)
first_of [] = fails index_out
first_of (i ∷ is) = returns (some i)

pub choose : Leaders → Checked (Option ℕ) → Checked (Option ℕ)
unfolding first_of
choose l (fails e) = fails e
choose l (returns none) = fails index_out
choose l (returns (some term)) = first_of (l.table term)

-- A try with no leader is followed by another.
pub try_at : Leaders → List ℕ → Checked (Option ℕ)
unfolding choose last_term
try_at l [] = returns none
try_at l (term ∷ terms) = choose l (last_term l.table l.terms none)

pub try_once : ℕ → (ℕ → Bool) → (ℕ → ℕ × Bool) → Checked (Option ℕ)
unfolding collect_leaders try_at
try_once n connected state = let l = collect_leaders n connected state in try_at l l.terms

pub next_try : Checked (Option ℕ) → Checked ℕ → Checked ℕ
next_try (fails e) rest = fails e
next_try (returns none) rest = rest
next_try (returns (some i)) rest = returns i

-- `states` are the tries' states, which are ten.
pub check_one_leader : ℕ → (ℕ → Bool) → List (ℕ → ℕ × Bool) → Checked ℕ
unfolding try_once next_try
check_one_leader n connected [] = fails no_leader
check_one_leader n connected (state ∷ states) =
    next_try (try_once n connected state) (check_one_leader n connected states)

-- One server of `checkTerms`.
pub compare_term : Bool → ℕ → Checked (Option ℕ) → Checked (Option ℕ)
compare_term connected xterm (fails e) = fails e
compare_term false xterm (returns term) = returns term
compare_term true xterm (returns none) = returns (some xterm)
compare_term true xterm (returns (some term)) =
    if term == xterm then returns (some term) else fails terms_differ

pub check_terms : ℕ → (ℕ → Bool) → (ℕ → ℕ × Bool) → Checked (Option ℕ)
unfolding compare_term
check_terms n connected state =
    for_range n (λ i r. compare_term (connected i) (state i).0 r) (returns none)

pub check_server : Bool → Bool → ℕ → Checked (Unit {0}) → Checked (Unit {0})
check_server connected is_leader i (fails e) = fails e
check_server connected is_leader i (returns u) =
    if connected && is_leader then fails (leads i) else returns u

pub check_no_leader : ℕ → (ℕ → Bool) → (ℕ → ℕ × Bool) → Checked (Unit {0})
unfolding check_server
check_no_leader n connected state =
    for_range n (λ i r. check_server (connected i) (state i).1 i r) (returns tt)
