-- ===== src/Watch/Keys.antt =====
-- The keys of the cache tell the pairs of a source and a job type apart.
use Prim.Native.Char.{Char, code}
use Prim.Native.String.{◌∷◌, ◌++◌}
use pgquarry.Base.{
  String, ◌≡◌, ◌≢◌, ◌⊎◌, inl, inr, refl, sym, ap, subst, ◌∙◌, ◌&&◌, arith, str_eq, eq_iff,
}
use mathlib.Core.Path.{ap₂}
use pgquarry.Watch.{mapping_key}
use text.Mathlib.TextLemmas.{nil-append, cons-append, head-eq_of_cons-eq, tail-eq_of_cons-eq}

-- The character "\x1f" does not occur.
abbrev NoSeparator : String → Type 0
NoSeparator String.[] = Unit {0}
NoSeparator (String.◌∷◌ c s) = (code c ≢ 31) × NoSeparator s

-- What the CHECK constraint of the column job_type admits.
abbrev pub IsKind : String → Type 0
IsKind t = (t ≡ "embed") ⊎ (t ≡ "generate")

abbrev separator : Char
separator = "\u{1f}"

not-NoSeparator : (b u : String) → ¬ NoSeparator (b ++ (separator ∷ u))
not-NoSeparator String.[] u h = (rw nil-append at h).0 refl
not-NoSeparator (String.◌∷◌ c b) u h = not-NoSeparator b u (rw cons-append at h).1

split_key :
    (a b t u : String)
    → NoSeparator t
    → NoSeparator u
    → a ++ (separator ∷ t) ≡ b ++ (separator ∷ u)
    → (a ≡ b) × (t ≡ u)
split_key String.[] String.[] t u h k e =
    (refl, tail-eq_of_cons-eq (rw (nil-append, nil-append) at e))
split_key String.[] (String.◌∷◌ d b) t u h k e = absurd (
    not-NoSeparator b u
      (subst NoSeparator (tail-eq_of_cons-eq (rw (nil-append, cons-append) at e)) h))
split_key (String.◌∷◌ c a) String.[] t u h k e = absurd (
    not-NoSeparator a t
      (subst NoSeparator (tail-eq_of_cons-eq (sym (rw (nil-append, cons-append) at e))) k))
split_key (String.◌∷◌ c a) (String.◌∷◌ d b) t u h k e =
    let e' : c ∷ (a ++ (separator ∷ t)) ≡ d ∷ (b ++ (separator ∷ u)) =
      rw (cons-append, cons-append) at e in
    let (same, kinds) = split_key a b t u h k (tail-eq_of_cons-eq e') in
    (ap₂ (λ x y. x ∷ y) (head-eq_of_cons-eq e') same, kinds)

separator_cons : (t : String) → "\u{1f}" ++ t ≡ separator ∷ t
separator_cons t = cons-append separator "" t ∙ ap (λ s. separator ∷ s) (nil-append t)

NoSeparator-of_IsKind : (t : String) → IsKind t → NoSeparator t
NoSeparator-of_IsKind t (inl e) = rw e (omega arith)
NoSeparator-of_IsKind t (inr e) = rw e (omega arith)

mapping_key_inj :
    (a b t u : String) → IsKind t → IsKind u → mapping_key a t ≡ mapping_key b u → (a ≡ b) × (t ≡ u)
unfolding mapping_key
mapping_key_inj a b t u h k e =
    split_key a b t u (NoSeparator-of_IsKind t h) (NoSeparator-of_IsKind u k)
      (rw (separator_cons t, separator_cons u) at e)

-- Two keys are equal as texts exactly when the sources are and the job types are.
pub key_eq :
    (a b t u : String)
    → IsKind t
    → IsKind u
    → str_eq (mapping_key a t) (mapping_key b u) ≡ (str_eq a b && str_eq t u)
key_eq a b t u h k = ground (
  arith,
  eq_iff (mapping_key a t) (mapping_key b u),
  eq_iff a b,
  eq_iff t u,
  λ (e : mapping_key a t ≡ mapping_key b u). mapping_key_inj a b t u h k e,
)
