-- ===== src/Extension/Triggers.antt =====
-- The triggers of a source: which of them `watch` and `watch_generate` drop, and which fire.
use pgquarry.Base.{
  String, ◌≡◌, ◌⊎◌, inl, inr, refl, sym, ap, ◌∙◌, Bool, true, false, ◌&&◌, List, [], ◌∷◌, ◌++◌,
  arith, str_eq, eq_iff, Bool-cases, All,
}
use text.Mathlib.TextLemmas.{append_cancel_left}
use pgquarry.Extension.{Trigger, drop_trigger, embed_trigger, generate_trigger}
use pgquarry.Extension.Changes.{Change, Casts, fires}

-- Only triggers of the extension on the source call `enqueue_job`.
abbrev pub OwnTriggers : String → List Trigger → Type 0
OwnTriggers source triggers =
    All
      (λ (t : Trigger).
        t.table ≡ source → (t.name ≡ embed_trigger source) ⊎ (t.name ≡ generate_trigger source))
      triggers

abbrev is_named : String → String → Trigger → Bool
is_named name table t = str_eq t.name name && str_eq t.table table

pub drop_trigger-All :
    (P : Trigger → Type 0) (name table : String) (triggers : List Trigger)
    → All P triggers
    → All (λ t. P t × (is_named name table t ≡ false)) (drop_trigger name table triggers)
unfolding drop_trigger
drop_trigger-All P name table [] a = tt
drop_trigger-All P name table (t ∷ triggers) (p, a) = elim (Bool-cases (is_named name table t)) [
  | inl h ↦ rw h (drop_trigger-All P name table triggers a)
  | inr h ↦ rw h ((p, h), drop_trigger-All P name table triggers a)
]

pub drop_trigger-append :
    (name table : String) (triggers later : List Trigger)
    → drop_trigger name table (triggers ++ later)
      ≡ drop_trigger name table triggers ++ drop_trigger name table later
unfolding drop_trigger
drop_trigger-append name table [] later = refl
drop_trigger-append name table (t ∷ triggers) later = elim (Bool-cases (is_named name table t)) [
  | inl h ↦ rw h (drop_trigger-append name table triggers later)
  | inr h ↦ rw h (ap (λ ts. t ∷ ts) (drop_trigger-append name table triggers later))
]

pub All-quiet :
    (P Q : Trigger → Type 0)
    → ((t : Trigger) → P t → Q t)
    → (triggers : List Trigger) → All P triggers
    → All Q triggers
All-quiet P Q f [] a = tt
All-quiet P Q f (t ∷ triggers) (p, a) = (f t p, All-quiet P Q f triggers a)

-- The names of the two triggers of a source differ.
pub names_differ :
    (source : String) → str_eq (generate_trigger source) (embed_trigger source) ≡ false
names_differ source = elim (Bool-cases (str_eq (generate_trigger source) (embed_trigger source))) [
  | inr h ↦ h
  | inl h ↦
      let e =
        append_cancel_left source "_pgquarry_generate" "_pgquarry_embed"
          ((eq_iff (generate_trigger source) (embed_trigger source)).0 h) in
      absurd (ground (arith, (eq_iff "_pgquarry_generate" "_pgquarry_embed").1 e))
]

module _ (casts : Casts) (change : Change) (source : String) (table : change.table ≡ source)
    (insert : change.is_insert ≡ true) where
  -- After both drops none of the other triggers fires.
  pub dropped_quiet :
      (triggers : List Trigger)
      → OwnTriggers source triggers
      → All
          (λ t. fires casts change t ≡ false)
          (drop_trigger
            (generate_trigger source)
            source
            (drop_trigger (embed_trigger source) source triggers))
  unfolding fires
  dropped_quiet triggers a =
      All-quiet _ (λ t. fires casts change t ≡ false) (λ t ((own, e), g). quiet t own e g) _
        (drop_trigger-All _ (generate_trigger source) source _
          (drop_trigger-All _ (embed_trigger source) source triggers a))
    where
      quiet :
          (t : Trigger)
          → (t.table ≡ source
              → (t.name ≡ embed_trigger source) ⊎ (t.name ≡ generate_trigger source))
          → is_named (embed_trigger source) source t ≡ false
          → is_named (generate_trigger source) source t ≡ false
          → fires casts change t ≡ false
      quiet t own e g = elim (Bool-cases (str_eq t.table source)) [
        | inr h ↦ rw table (ground (arith, h))
        | inl h ↦ elim (own ((eq_iff t.table source).0 h)) [
          | inl n ↦ absurd (ground (arith, (eq_iff t.name (embed_trigger source)).1 n, h, e))
          | inr n ↦ absurd (ground (arith, (eq_iff t.name (generate_trigger source)).1 n, h, g))
        ]
      ]

  pub own_fires : (t : Trigger) → t.table ≡ source → fires casts change t ≡ true
  unfolding fires
  own_fires t h = ground (arith, (eq_iff t.table change.table).1 (h ∙ sym table), insert)
