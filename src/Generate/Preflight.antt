-- ===== src/Generate/Preflight.antt =====
-- `generate` as a whole: the check before the loop makes the one in the loop idle, as long as the sum
-- it computes is within `int`.
use pgquarry.Base.{
  ℕ, zero, suc, ◌^◌, ◌≤◌, ◌<◌, ◌≡◌, inl, inr, refl, ℤ, pos, negsuc, Bool, true, false, List, [],
  arith, length, Bool-cases, neg_part,
}
use pgquarry.Llama.{take}
use pgquarry.Llama.Isolated.{length-take}
use pgquarry.Generate.{
  Context, context_exceeded, Outcome, response, thrown, undefined, failed, generate_tokens,
  tokenize_into, tokenize_prompt, generate_templated, generate,
}
use pgquarry.Generate.Loop.{RemembersAll, Ends, generate_tokens_cases}

-- Whether a call ends with the failure of the check in the loop.
abbrev pub is_exceeded : Outcome → Bool
is_exceeded (response text) = false
is_exceeded undefined = false
is_exceeded (thrown context_exceeded) = true
is_exceeded (thrown f) = false

Ends-is_exceeded :
    (c : Context) (n : ℕ) (decoded : List (List ℕ)) (batch text : List ℕ) (o : Outcome)
    → Ends c n decoded batch text o
    → is_exceeded o ≡ false
Ends-is_exceeded c _ decoded batch text _ Ends.full = refl
Ends-is_exceeded c _ decoded batch text _ (Ends.decodes_not d) = refl
Ends-is_exceeded c _ decoded batch text _ (Ends.finished d e) = refl
Ends-is_exceeded c _ decoded batch text _ (Ends.spells_not d e f) = refl
Ends-is_exceeded c _ decoded batch text _ (Ends.one_more d e f rest) =
    Ends-is_exceeded c _ _ _ _ _ rest

module _ (c : Context) (n : ℕ) (m : RemembersAll c) (few : n ≤ 2 ^ 30) where
  generate_tokens-is_exceeded :
      (prompt_tokens : List ℕ)
      → length prompt_tokens < 2 ^ 30
      → is_exceeded (generate_tokens c prompt_tokens (pos n)) ≡ false
  generate_tokens-is_exceeded p l =
      elim (generate_tokens_cases c p (pos n) m (omega (arith, l, few))) [
        | inl (e, h) ↦ rw e refl
        | inr (h, e) ↦ Ends-is_exceeded c n [] p [] (generate_tokens c p (pos n)) e
      ]

  tokenize_into-is_exceeded :
      (templated : List ℕ) (k : ℕ)
      → k < 2 ^ 30
      → is_exceeded (tokenize_into c templated k (pos n)) ≡ false
  unfolding tokenize_into
  tokenize_into-is_exceeded templated k l = elim (Bool-cases (failed c (c.tokenize templated k))) [
    | inl h ↦ rw h refl
    | inr h ↦ rw h (
        generate_tokens-is_exceeded (take k (c.tokenize templated k).1)
          (omega (arith, l, length-take k (c.tokenize templated k).1)))
  ]

  tokenize_prompt-is_exceeded :
      (templated : List ℕ) (count : ℤ)
      → neg_part count < 2 ^ 30
      → is_exceeded (tokenize_prompt c templated count (pos n)) ≡ false
  unfolding tokenize_prompt
  tokenize_prompt-is_exceeded templated (negsuc k) l = tokenize_into-is_exceeded templated (suc k) l
  tokenize_prompt-is_exceeded templated (pos zero) l =
      tokenize_into-is_exceeded templated zero (omega arith)
  tokenize_prompt-is_exceeded templated (pos (suc k)) l = refl

  generate_templated-is_exceeded :
      ((text : List ℕ) → neg_part (c.count_tokens text) < 2 ^ 30)
      → (formatted : ℤ × List ℕ) → is_exceeded (generate_templated c formatted (pos n)) ≡ false
  unfolding generate_templated
  generate_templated-is_exceeded b (negsuc k, formatted) = refl
  generate_templated-is_exceeded b (pos k, formatted) =
      tokenize_prompt-is_exceeded (take k formatted) (c.count_tokens (take k formatted))
        (b (take k formatted))

  -- Where the memory of the context holds exactly the tokens decoded since it was cleared, no text has
  -- 2 ^ 30 tokens and `max_tokens` is at most that, `generate` never throws that the context is
  -- exceeded in the middle of a generation, for any prompt.
  pub generate-is_exceeded :
      ((text : List ℕ) → neg_part (c.count_tokens text) < 2 ^ 30)
      → (prompt : List ℕ) → is_exceeded (generate c prompt (pos n)) ≡ false
  unfolding generate
  generate-is_exceeded b prompt = generate_templated-is_exceeded b _
