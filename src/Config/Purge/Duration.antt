-- ===== src/Config/Purge/Duration.antt =====
-- What a retention period is, and that `parse_purge_after` accepts exactly those.
use Prim.Native.Char.{Char, code}
use Prim.Native.String.{◌∷◌, ◌++◌, len}
use pgquarry.Base.{
  ◌≤◌, ◌<◌, String, ◌≡◌, ◌≢◌, ◌↔◌, ◌⊎◌, inl, inr, refl, ap, true, false, Option, none, some, arith,
  str_eq, eq_iff, ltb, ◌==◌, Bool-cases, Option-cases,
}
use pgquarry.Base.Text.{unsnoc, all, unsnoc-append, append_of_unsnoc, len-pos}
use pgquarry.Config.Purge.{is_digit, unit_name, interval, split_unit, parse_purge_after}
use text.Mathlib.TextEquality.{Char-path}
use text.Mathlib.TextPositions.{len-append}

-- The unit letters, and the words that Postgres reads.
pub data UnitWord (letter word : String) : Type 0 where
  seconds : letter ≡ "s" → word ≡ "seconds" → UnitWord letter word
  minutes : letter ≡ "m" → word ≡ "minutes" → UnitWord letter word
  hours : letter ≡ "h" → word ≡ "hours" → UnitWord letter word
  days : letter ≡ "d" → word ≡ "days" → UnitWord letter word

-- Every character is one of 0 to 9.
abbrev pub AreDigits : String → Type 0
AreDigits String.[] = Unit {0}
AreDigits (String.◌∷◌ c s) = (b'0' ≤ code c) × (code c ≤ b'9') × AreDigits s

-- `raw` stands for the Postgres interval `out`.
pub data Duration (raw out : String) : Type 0 where
  off : (raw ≡ "") ⊎ (raw ≡ "0") → out ≡ "0 seconds" → Duration raw out
  span :
      (digits letter word : String)
      → AreDigits digits
      → digits ≢ ""
      → UnitWord letter word
      → raw ≡ digits ++ letter
      → out ≡ digits ++ (" " ++ word)
      → Duration raw out

all-AreDigits : (s : String) → all is_digit s ≡ true → AreDigits s
unfolding all is_digit
all-AreDigits String.[] h = tt
all-AreDigits (String.◌∷◌ c s) h = ground (arith, all-AreDigits s)

all_of_AreDigits : (s : String) → AreDigits s → all is_digit s ≡ true
unfolding all is_digit
all_of_AreDigits String.[] h = refl
all_of_AreDigits (String.◌∷◌ c s) h = ground (arith, all_of_AreDigits s h.2)

same_letter : (c d : Char) → (code c == code d) ≡ true → c ∷ "" ≡ d ∷ ""
same_letter c d h = ap (λ x. x ∷ "") (Char-path c d (ground arith))

unit_name-UnitWord : (c : Char) (word : String) → unit_name c ≡ some word → UnitWord (c ∷ "") word
unfolding unit_name
unit_name-UnitWord c word h = elim (Bool-cases (code c == b's')) [
  | inl s ↦ seconds (same_letter c "s" s) (ground arith)
  | inr s ↦ elim (Bool-cases (code c == b'm')) [
    | inl m ↦ minutes (same_letter c "m" m) (ground arith)
    | inr m ↦ elim (Bool-cases (code c == b'h')) [
      | inl q ↦ hours (same_letter c "h" q) (ground arith)
      | inr q ↦ elim (Bool-cases (code c == b'd')) [
        | inl d ↦ days (same_letter c "d" d) (ground arith)
        | inr d ↦ absurd (ground arith)
      ]
    ]
  ]
]

split_unit-Duration :
    (raw out : String) (o : Option (String × Char))
    → unsnoc raw ≡ o
    → split_unit o ≡ some out
    → Duration raw out
unfolding split_unit interval
split_unit-Duration raw out none e h = cc
split_unit-Duration raw out (some (digits, unit)) e h = elim (Option-cases (unit_name unit)) [
  | inl n ↦ absurd (ground arith)
  | inr (word, n) ↦
      span digits (unit ∷ "") word (all-AreDigits digits (ground arith))
        (ground (arith, eq_iff digits "")) (unit_name-UnitWord unit word n)
        (append_of_unsnoc raw digits unit e) (ground arith)
]

-- The last character of an accepted text is one of the four letters.
split_unit_of_UnitWord :
    (digits letter word : String)
    → AreDigits digits
    → digits ≢ ""
    → UnitWord letter word
    → split_unit (unsnoc (digits ++ letter)) ≡ some (digits ++ (" " ++ word))
unfolding split_unit interval unit_name
split_unit_of_UnitWord digits letter word a n (seconds l w) =
    rw (l, w, unsnoc-append digits "s")
      (ground (arith, eq_iff digits "", all_of_AreDigits digits a))
split_unit_of_UnitWord digits letter word a n (minutes l w) =
    rw (l, w, unsnoc-append digits "m")
      (ground (arith, eq_iff digits "", all_of_AreDigits digits a))
split_unit_of_UnitWord digits letter word a n (hours l w) =
    rw (l, w, unsnoc-append digits "h")
      (ground (arith, eq_iff digits "", all_of_AreDigits digits a))
split_unit_of_UnitWord digits letter word a n (days l w) =
    rw (l, w, unsnoc-append digits "d")
      (ground (arith, eq_iff digits "", all_of_AreDigits digits a))

len-UnitWord : (letter word : String) → UnitWord letter word → len letter ≡ 1
len-UnitWord letter word (seconds l w) = ap len l
len-UnitWord letter word (minutes l w) = ap len l
len-UnitWord letter word (hours l w) = ap len l
len-UnitWord letter word (days l w) = ap len l

differs_by_len : (s t : String) → len t < len s → str_eq s t ≡ false
differs_by_len s t h = elim (Bool-cases (str_eq s t)) [
  | inl e ↦ absurd (omega (arith, ap len ((eq_iff s t).0 e)))
  | inr e ↦ e
]

parse_purge_after_of_Duration :
    (raw out : String) → Duration raw out → parse_purge_after raw ≡ some out
unfolding parse_purge_after
parse_purge_after_of_Duration raw out (off (inl e) o) = rw (e, o)
parse_purge_after_of_Duration raw out (off (inr e) o) = rw (e, o)
parse_purge_after_of_Duration raw out (span digits letter word a n u r o) =
    let long : 2 ≤ len raw =
      rw r
        (omega (arith, len-append digits letter, len-UnitWord letter word u, len-pos digits n)) in
    let two : ltb (len raw) 2 ≡ false = ground (arith, long) in
    rw
      (
        differs_by_len raw "" (omega (arith, long)),
        differs_by_len raw "0" (omega (arith, long)),
        two,
      )
      (rw (r, o) (split_unit_of_UnitWord digits letter word a n u))

Duration-of_parse_purge_after :
    (raw out : String) → parse_purge_after raw ≡ some out → Duration raw out
unfolding parse_purge_after
Duration-of_parse_purge_after raw out h = elim (Bool-cases (str_eq raw "")) [
  | inl e ↦ off (inl ((eq_iff raw "").0 e)) (ground arith)
  | inr e ↦ elim (Bool-cases (str_eq raw "0")) [
    | inl z ↦ off (inr ((eq_iff raw "0").0 z)) (ground arith)
    | inr z ↦ split_unit-Duration raw out (unsnoc raw) refl (ground arith)
  ]
]

-- `parse_purge_after raw` returns the interval `out` exactly when `raw` is empty or "0" (the
-- interval is then "0 seconds"), or is one or more decimal digits followed by one of the letters
-- s, m, h, d (the interval is then the digits, a space and the unit's word). Nothing else is
-- accepted.
pub parse_purge_after_accepts :
    (raw out : String) → (parse_purge_after raw ≡ some out) ↔ Duration raw out
parse_purge_after_accepts raw out =
    (Duration-of_parse_purge_after raw out, parse_purge_after_of_Duration raw out)
