-- ===== src/Generate/Loop.antt =====
-- The loop of `generate`: it stays within the context that was checked before it, and returns the
-- texts of at most `max_tokens` tokens.
use pgquarry.Base.{
  ℕ, zero, suc, ◌+◌, ◌≤◌, ◌≡◌, ◌⊎◌, inl, inr, refl, ℤ, pos, negsuc, true, false, List, [], ◌∷◌,
  ◌++◌, arith, ltb, length, Bool-cases, ltb_ℤ, ◌<ℤ◌, ◌≤ℤ◌, IsInt, is_int_of_IsInt,
}
use pgquarry.Generate.{
  Context, decode_failed, piece_failed, exceeds_n_ctx, Outcome, response, thrown, add_ℤ, rounds,
  piece, failed, generate_from, generate_tokens,
}

-- The tokens of a list of batches.
abbrev pub tokens_of : List (List ℕ) → ℕ
tokens_of [] = 0
tokens_of (batch ∷ batches) = length batch + tokens_of batches

-- The memory of a context, after it was cleared, holds the tokens of the batches decoded since.
abbrev pub RemembersAll : Context → Type 0
RemembersAll c = (decoded : List (List ℕ)) → c.n_ctx_used decoded ≡ tokens_of decoded

tokens_of-append :
    (xs : List (List ℕ)) (batch : List ℕ)
    → tokens_of (xs ++ batch ∷ []) ≡ tokens_of xs + length batch
tokens_of-append [] batch = omega arith
tokens_of-append (x ∷ xs) batch = omega (arith, tokens_of-append xs batch)

-- The rest of a generation of at most so many tokens: after the given batches were decoded, with a
-- batch to decode and a text so far. Each round decodes the batch and samples a token; the generation
-- ends with the text so far where no token is left or the token ends it, and with a failure where the
-- batch is not decoded or the token cannot be spelled; or else the token's text is added, and the
-- token is the next batch.
pub data Ends (c : Context) : ℕ → List (List ℕ) → List ℕ → List ℕ → Outcome → Type 0 where
  full :
      {decoded : List (List ℕ)} {batch text : List ℕ}
      → Ends c zero decoded batch text (response text)
  decodes_not :
      {n : ℕ} {decoded : List (List ℕ)} {batch text : List ℕ}
      → c.decode (decoded ++ batch ∷ []) ≡ false
      → Ends c (suc n) decoded batch text (thrown decode_failed)
  finished :
      {n : ℕ} {decoded : List (List ℕ)} {batch text : List ℕ}
      → c.decode (decoded ++ batch ∷ []) ≡ true
      → c.is_eog (c.sample (decoded ++ batch ∷ [])) ≡ true
      → Ends c (suc n) decoded batch text (response text)
  spells_not :
      {n : ℕ} {decoded : List (List ℕ)} {batch text : List ℕ}
      → c.decode (decoded ++ batch ∷ []) ≡ true
      → c.is_eog (c.sample (decoded ++ batch ∷ [])) ≡ false
      → failed c (c.to_piece (c.sample (decoded ++ batch ∷ []))) ≡ true
      → Ends c (suc n) decoded batch text (thrown piece_failed)
  one_more :
      {n : ℕ} {decoded : List (List ℕ)} {batch text : List ℕ} {o : Outcome}
      → c.decode (decoded ++ batch ∷ []) ≡ true
      → c.is_eog (c.sample (decoded ++ batch ∷ [])) ≡ false
      → failed c (c.to_piece (c.sample (decoded ++ batch ∷ []))) ≡ false
      → Ends c n
          (decoded ++ batch ∷ [])
          (c.sample (decoded ++ batch ∷ []) ∷ [])
          (text ++ piece c (c.to_piece (c.sample (decoded ++ batch ∷ []))))
          o
      → Ends c (suc n) decoded batch text o

within :
    (c : Context) (n : ℕ) (decoded : List (List ℕ)) (batch : List ℕ)
    → RemembersAll c
    → tokens_of decoded + length batch + n ≤ n + c.n_ctx
    → ltb c.n_ctx (c.n_ctx_used decoded + length batch) ≡ false
within c n decoded batch m l = ground (arith, m decoded, l)

generate_from-Ends :
    (c : Context) (n : ℕ) (decoded : List (List ℕ)) (batch before : List ℕ)
    → RemembersAll c
    → tokens_of decoded + length batch + n ≤ suc c.n_ctx
    → Ends c n decoded batch before (generate_from c n decoded batch before)
unfolding generate_from
generate_from-Ends c zero decoded batch before m l = full
generate_from-Ends c (suc n) decoded batch before m l =
    let t = c.sample (decoded ++ batch ∷ []) in
    let rest =
      generate_from-Ends c n (decoded ++ batch ∷ []) (t ∷ []) (before ++ piece c (c.to_piece t)) m
        (omega (arith, tokens_of-append decoded batch, l)) in
    let g = within c (suc n) decoded batch m (omega (arith, l)) in
    elim (Bool-cases (c.decode (decoded ++ batch ∷ []))) [
      | inr d ↦ rw (g, d) (decodes_not d)
      | inl d ↦ elim (Bool-cases (c.is_eog t)) [
        | inl e ↦ rw (g, d, e) (finished d e)
        | inr e ↦ elim (Bool-cases (failed c (c.to_piece t))) [
          | inl f ↦ rw (g, d, e, f) (spells_not d e f)
          | inr f ↦ rw (g, d, e, f) (one_more d e f rest)
        ]
      ]
    ]

loop-Ends :
    (c : Context) (prompt_tokens : List ℕ) (max_tokens : ℤ)
    → RemembersAll c
    → add_ℤ (length prompt_tokens) max_tokens ≤ℤ pos c.n_ctx
    → Ends c
        (rounds max_tokens)
        []
        prompt_tokens
        []
        (generate_from c (rounds max_tokens) [] prompt_tokens [])
unfolding generate_from
loop-Ends c prompt_tokens (pos n) m l =
    generate_from-Ends c n [] prompt_tokens [] m (omega (arith, l))
loop-Ends c prompt_tokens (negsuc n) m l = full

ltb_ℤ-cases : (a b : ℤ) → ((ltb_ℤ a b ≡ true) × (a <ℤ b)) ⊎ ((ltb_ℤ a b ≡ false) × (b ≤ℤ a))
ltb_ℤ-cases a b = ground arith

-- Where the memory of the context holds exactly the tokens decoded since it was cleared, and the sum
-- is within `int`: either the prompt and `max_tokens` exceed the context, which is thrown before
-- anything is decoded; or they fit, and the loop never finds the context exceeded. It decodes the
-- prompt and then each sampled token, and ends with the texts of the tokens sampled until one ends
-- the generation or there are `max_tokens` of them, or with the failure of a decoding or of a spelling.
pub generate_tokens_cases :
    (c : Context) (prompt_tokens : List ℕ) (max_tokens : ℤ)
    → RemembersAll c
    → IsInt (add_ℤ (length prompt_tokens) max_tokens)
    → ((generate_tokens c prompt_tokens max_tokens ≡ thrown exceeds_n_ctx)
        × (pos c.n_ctx <ℤ add_ℤ (length prompt_tokens) max_tokens))
      ⊎ ((add_ℤ (length prompt_tokens) max_tokens ≤ℤ pos c.n_ctx)
          × Ends c
              (rounds max_tokens)
              []
              prompt_tokens
              []
              (generate_tokens c prompt_tokens max_tokens))
unfolding generate_tokens
generate_tokens_cases c prompt_tokens max_tokens m i =
    let e = is_int_of_IsInt (add_ℤ (length prompt_tokens) max_tokens) i in
    elim (ltb_ℤ-cases (pos c.n_ctx) (add_ℤ (length prompt_tokens) max_tokens)) [
      | inl (h, l) ↦ inl (rw (e, h) refl, l)
      | inr (h, l) ↦ inr (l, rw (e, h) (loop-Ends c prompt_tokens max_tokens m l))
    ]
