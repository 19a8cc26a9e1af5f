-- ===== src/Lookup.antt =====
-- The loop with which `GetUser` and `GetVideo` of lab1 collect the records of a request's ids. The two
-- handlers share its text, up to the names.
pub mod Laws
use cs.Base.{ℕ, Option, none, some, List, [], ◌∷◌, ◌++◌}
use cs.Grpc.{Result, ok, err, Status, Message, missing_id, Code}

abbrev pub not_found : ℕ → Status
not_found id = record { code = Code.not_found; message = missing_id id }

-- `table` is a Go map: `none` is a key that it lacks. `found` are the records appended so far.
pub collect : {V : Type 0} → (ℕ → Option V) → List ℕ → List V → Result (List V)
collect table [] found = ok found
collect table (id ∷ ids) found = elim (table id) [
  | some info ↦ collect table ids (found ++ info ∷ [])
  | none ↦ err (not_found id)
]
