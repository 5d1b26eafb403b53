-- ===== src/Lifetime.antt =====
-- The resources that the worker takes from llama.cpp and libpq and gives back: the calls that do so,
-- by the handle they return or are given.
use pgquarry.Base.{ℕ, sym, subst, Bool, true, false, Option, none, some, List, [], ◌∷◌, ◌++◌, ap}
use mathlib.Core.List.{append_assoc, append-nil}

pub data Call : Type 0 where
  -- `llama_backend_init` and `llama_backend_free`
  backend_init backend_free : Call
  -- `llama_model_load_from_file` and `llama_model_free`
  load_model free_model : ℕ → Call
  -- `llama_init_from_model` and `llama_free`
  make_context free_context : ℕ → Call
  -- `PQconnectdb` and `PQfinish`
  connect finish : ℕ → Call

-- A call that takes a resource, and the one that gives it back.
pub data Closes : Call → Call → Type 0 where
  backend : Closes backend_init backend_free
  model : (m : ℕ) → Closes (load_model m) (free_model m)
  context : (c : ℕ) → Closes (make_context c) (free_context c)
  connection : (c : ℕ) → Closes (connect c) (finish c)

-- Every resource taken is given back once, the last one taken first.
pub data IsReleased : List Call → Type 0 where
  nothing : IsReleased []
  one :
      {taking giving : Call} {inner later : List Call}
      → Closes taking giving
      → IsReleased inner
      → IsReleased later
      → IsReleased (taking ∷ inner ++ giving ∷ later)

-- A resource held around other calls.
pub around :
    {taking giving : Call} {inner : List Call}
    → Closes taking giving
    → IsReleased inner
    → IsReleased (taking ∷ inner ++ giving ∷ [])
around c i = one c i nothing

-- Calls before and after others, which give back between them all that they take.
abbrev pub Encloses : List Call → List Call → Type 0
Encloses before after =
    (inner : List Call) → IsReleased inner → IsReleased (before ++ inner ++ after)

abbrev pub freed : (ℕ → Call) → Option ℕ → List Call
freed free none = []
freed free (some h) = free h ∷ []

-- How `init` of a provider ends: whether it returned, the model and the context that the provider
-- then has, and the calls. Nothing is held where it has thrown.
pub data IsLife : Bool → Option ℕ → Option ℕ → List Call → Type 0 where
  no_model : IsLife false none none []
  given_up : (m : ℕ) → IsLife false none none (load_model m ∷ free_model m ∷ [])
  held : (m c : ℕ) → IsLife true (some m) (some c) (load_model m ∷ make_context c ∷ [])

nothing_after : (inner : List Call) → IsReleased inner → IsReleased (inner ++ [])
nothing_after inner i = subst IsReleased (sym (append-nil inner)) i

-- With the frees of the destructor, all is given back.
pub IsLife-Encloses :
    (b : Bool) (m c : Option ℕ) (calls : List Call)
    → IsLife b m c calls
    → Encloses calls (freed free_context c ++ freed free_model m)
IsLife-Encloses _ _ _ _ no_model inner i = nothing_after inner i
IsLife-Encloses _ _ _ _ (given_up m) inner i =
    one {inner = []} (model m) nothing (nothing_after inner i)
IsLife-Encloses _ _ _ _ (held m c) inner i =
    subst (λ cs. IsReleased (load_model m ∷ cs))
      (ap (λ cs. make_context c ∷ cs)
        (append_assoc inner (free_context c ∷ []) (free_model m ∷ [])))
      (around (model m) (around (context c) i))
