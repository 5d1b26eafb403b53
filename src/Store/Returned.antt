-- ===== src/Store/Returned.antt =====
-- The rows that a statement returns, in whatever order: the same ids, each as often.
use mathlib.Core.List.{Permᴰ}
use mathlib.Core.List.Permᴰ
use pgquarry.Base.{
  ℕ, ◌≡◌, ◌≢◌, refl, sym, subst, ◌∙◌, inl, inr, leb, List, [], ◌∷◌, map, arith, All, Bool-cases,
}
use pgquarry.Database.{JobRow, contains, insert_ranked, returning}

abbrev ids : List JobRow → List ℕ
ids rows = map (λ (r : JobRow). r.id) rows

insert_ranked-Perm :
    (rank : ℕ → ℕ) (r : JobRow) (rows : List JobRow)
    → Permᴰ (ids (insert_ranked rank r rows)) (r.id ∷ ids rows)
unfolding insert_ranked
insert_ranked-Perm rank r [] = Permᴰ.refl (r.id ∷ [])
insert_ranked-Perm rank r (x ∷ rows) = elim (Bool-cases (leb (rank r.id) (rank x.id))) [
  | inl h ↦ rw h (Permᴰ.refl (r.id ∷ x.id ∷ ids rows))
  | inr h ↦
      rw h (Permᴰ.trans (Permᴰ.cons refl (insert_ranked-Perm rank r rows)) (Permᴰ.swap refl refl))
]

pub returning-Perm :
    (rank : ℕ → ℕ) (rows : List JobRow) → Permᴰ (ids (returning rank rows)) (ids rows)
unfolding returning
returning-Perm rank [] = Permᴰ.nil
returning-Perm rank (r ∷ rows) =
    Permᴰ.trans (insert_ranked-Perm rank r (returning rank rows))
      (Permᴰ.cons refl (returning-Perm rank rows))

insert_ranked-All :
    (P : JobRow → Type 0) (rank : ℕ → ℕ) (r : JobRow) (rows : List JobRow)
    → P r
    → All P rows
    → All P (insert_ranked rank r rows)
unfolding insert_ranked
insert_ranked-All P rank r [] p a = (p, tt)
insert_ranked-All P rank r (x ∷ rows) p (q, a) = elim (Bool-cases (leb (rank r.id) (rank x.id))) [
  | inl h ↦ rw h (p, (q, a))
  | inr h ↦ rw h (q, insert_ranked-All P rank r rows p a)
]

pub returning-All :
    (P : JobRow → Type 0) (rank : ℕ → ℕ) (rows : List JobRow)
    → All P rows
    → All P (returning rank rows)
unfolding returning
returning-All P rank [] a = tt
returning-All P rank (r ∷ rows) (p, a) =
    insert_ranked-All P rank r (returning rank rows) p (returning-All P rank rows a)

-- What does not depend on the order.
pub Perm-All : (P : ℕ → Type 0) {xs ys : List ℕ} → Permᴰ xs ys → All P xs → All P ys
Perm-All P Permᴰ.nil a = tt
Perm-All P (Permᴰ.cons e d) (p, a) = (subst P e p, Perm-All P d a)
Perm-All P (Permᴰ.swap e f) (p, (q, a)) = (subst P f q, (subst P e p, a))
Perm-All P (Permᴰ.trans d f) a = Perm-All P f (Perm-All P d a)

pub Perm-contains : (i : ℕ) {xs ys : List ℕ} → Permᴰ xs ys → contains xs i ≡ contains ys i
Perm-contains i Permᴰ.nil = refl
Perm-contains i (Permᴰ.cons e d) = rw (e, Perm-contains i d) refl
Perm-contains i (Permᴰ.swap e f) = rw (e, f) (ground arith)
Perm-contains i (Permᴰ.trans d f) = Perm-contains i d ∙ Perm-contains i f

-- No number twice.
abbrev pub AreSeparate : List ℕ → Type 0
AreSeparate [] = Unit {0}
AreSeparate (x ∷ xs) = All (λ y. x ≢ y) xs × AreSeparate xs

pub Perm-AreSeparate : {xs ys : List ℕ} → Permᴰ xs ys → AreSeparate xs → AreSeparate ys
Perm-AreSeparate Permᴰ.nil a = tt
Perm-AreSeparate (Permᴰ.cons {l₂ = l} e d) (n, a) =
    (subst (λ x. All (λ y. x ≢ y) l) e (Perm-All (λ y. _ ≢ y) d n), Perm-AreSeparate d a)
Perm-AreSeparate (Permᴰ.swap {l = l} e f) ((n, ns), (m, a)) = (
  (λ g. n (e ∙ sym g ∙ sym f), subst (λ x. All (λ y. x ≢ y) l) f m),
  (subst (λ x. All (λ y. x ≢ y) l) e ns, a),
)
Perm-AreSeparate (Permᴰ.trans d f) a = Perm-AreSeparate f (Perm-AreSeparate d a)
