-- ===== src/Base/Text.antt =====
-- Texts as the code inspects them: `back`, `substr(0, size() - 1)` and a test of every character.
-- Every character that the code tests for is ASCII, one byte.
use Prim.Native.Char.{Char}
use Prim.Native.Nat.{◌<◌}
use Prim.Native.String.{String, [], ◌∷◌, ◌++◌, len}
use mathlib.Core.Path.{◌≡◌, refl}
use mathlib.Core.Logic.{◌≢◌, inl, inr}
use mathlib.Core.Bool.{Bool, true, ◌&&◌}
use mathlib.Core.Option.{Option, none, some}
use native.Mathlib.Omega.{arith}
use pgquarry.Base.Tests.{Option-cases}
use text.Mathlib.TextLemmas.{nil-append, cons-append}
use text.Mathlib.TextPositions.{len_utf8-pos}
use Prim.Native.String.len

-- All characters but the last, and the last.
unfoldable pub unsnoc : String → Option (String × Char)
unsnoc [] = none
unsnoc (c ∷ s) = elim (unsnoc s) [
  | none ↦ some ([], c)
  | some (front, last) ↦ some (c ∷ front, last)
]

unfoldable pub all : (Char → Bool) → String → Bool
all p [] = true
all p (c ∷ s) = p c && all p s

pub unsnoc-append : (s : String) (c : Char) → unsnoc (s ++ (c ∷ [])) ≡ some (s, c)
unfolding unsnoc
unsnoc-append [] c = rw (nil-append, unsnoc)
unsnoc-append (d ∷ s) c = rw (cons-append, unsnoc) (rw (unsnoc-append s c))

unsnoc-none : (s : String) → unsnoc s ≡ none → s ≡ []
unfolding unsnoc
unsnoc-none [] h = refl
unsnoc-none (c ∷ s) h = ground arith

pub append_of_unsnoc :
    (s front : String) (last : Char) → unsnoc s ≡ some (front, last) → s ≡ front ++ (last ∷ [])
unfolding unsnoc
append_of_unsnoc [] front last h = cc
append_of_unsnoc (c ∷ s) front last h = elim (Option-cases (unsnoc s)) [
  | inl e ↦ ground (arith, unsnoc-none s e, nil-append (c ∷ []))
  | inr (p, e) ↦ ground (arith, append_of_unsnoc s p.0 p.1 e, cons-append c p.0 (p.1 ∷ []))
]

pub len-pos : (s : String) → s ≢ [] → 0 < len s
len-pos [] h = absurd (h refl)
len-pos (c ∷ s) h = let (k, e) = len_utf8-pos c in omega (arith, len.cons c s, e)
