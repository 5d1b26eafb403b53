-- ===== src/Job.antt =====
-- src/job_type.hpp: the kinds of jobs and their names in the tables.
use Prim.Native.String.{◌++◌}
use pgquarry.Base.{String, ◌≡◌, ◌↔◌, arith, str_eq, eq_iff, Result, ok, err, if◌then◌else◌}

pub data JobType : Type 0 where
  embed generate : JobType

unfoldable pub to_string : JobType → String
to_string generate = "generate"
to_string embed = "embed"

unfoldable pub job_type_from_string : String → Result JobType
job_type_from_string s =
    if str_eq s "embed"
    then ok embed
    else if str_eq s "generate"
    then ok generate
    else err ("job_type_from_string: unknown job_type '" ++ (s ++ "'"))

-- `job_type_from_string` returns a job type for exactly the text that `to_string` prints for that
-- job type, and for no other text.
job_type_from_string_iff :
    (s : String) (t : JobType) → (job_type_from_string s ≡ ok t) ↔ (s ≡ to_string t)
unfolding job_type_from_string to_string
job_type_from_string_iff s embed =
    (λ h. ground (arith, eq_iff s "embed", eq_iff s "generate"), λ e. rw e)
job_type_from_string_iff s generate =
    (λ h. ground (arith, eq_iff s "embed", eq_iff s "generate"), λ e. rw e)
