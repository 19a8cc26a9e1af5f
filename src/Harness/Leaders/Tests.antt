-- ===== src/Harness/Leaders/Tests.antt =====
-- Three servers after a try with no leader.
use cs.Base.{ℕ, ◌≡◌, refl, Bool, true, false, [], ◌∷◌}
use cs.Base.Tests.{if◌then◌else◌, ltb, ◌==◌}
use cs.Harness.Leaders.{
  returns, fails, many_leaders, terms_differ, leads, no_leaders, with_term, add_leader, ask,
  collect_leaders, later, last_term, first_of, choose, try_at, try_once, next_try, check_one_leader,
  compare_term, check_terms, check_server, check_no_leader,
}
use cs.Harness.Leaders.Chosen.{Judged, check_one_leader-Judged}

abbrev on : ℕ → Bool
on j = true

abbrev nobody : ℕ → ℕ × Bool
nobody j = (1, false)

-- Server 0 still leads term 1, and server 2 leads term 3.
abbrev old_and_new : ℕ → ℕ × Bool
old_and_new j = if j == 0 then (1, true) else if j == 2 then (3, true) else (3, false)

abbrev split : ℕ → ℕ × Bool
split j = (4, ltb 0 j)

finds_new : check_one_leader 3 on (nobody ∷ old_and_new ∷ split ∷ []) ≡ returns 2
unfolding check_one_leader try_once next_try try_at choose first_of last_term later collect_leaders
    ask add_leader with_term no_leaders
finds_new = refl

finds_split : check_one_leader 3 on (nobody ∷ split ∷ []) ≡ fails (many_leaders 4 2)
unfolding check_one_leader try_once next_try try_at choose first_of last_term later collect_leaders
    ask add_leader with_term no_leaders
finds_split = refl

terms_of : check_terms 3 on old_and_new ≡ fails terms_differ
unfolding check_terms compare_term
terms_of = refl

first_leader : check_no_leader 3 on split ≡ fails (leads 1)
unfolding check_no_leader check_server
first_leader = refl

check_one_leader-Judged_example :
    Judged 3 on (nobody ∷ old_and_new ∷ []) (check_one_leader 3 on (nobody ∷ old_and_new ∷ []))
check_one_leader-Judged_example = check_one_leader-Judged 3 on (nobody ∷ old_and_new ∷ [])
