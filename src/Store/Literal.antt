-- ===== src/Store/Literal.antt =====
-- `vector_literal` of src/job_store.cpp. A float is its bit pattern; how a stream prints it is a
-- parameter.
use Prim.Native.String.{◌++◌}
use pgquarry.Base.{ℕ, String, List, [], ◌∷◌}

abbrev pub Float : Type 0
Float = ℕ

-- The rounds of the loop after the first.
pub following : (Float → String) → List Float → String
following print [] = ""
following print (x ∷ xs) = "," ++ (print x ++ following print xs)

pub elements : (Float → String) → List Float → String
elements print [] = ""
elements print (x ∷ xs) = print x ++ following print xs

unfoldable pub vector_literal : (Float → String) → List Float → String
unfolding elements following
vector_literal print embedding = "[" ++ (elements print embedding ++ "]")
