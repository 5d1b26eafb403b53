-- ===== src/Examples/Generated.antt =====
-- Runs of the generation provider on a small context.
use pgquarry.Base.{
  ◌≡◌, ◌⊎◌, refl, pos, negsuc, true, false, [], ◌∷◌, arith, length, ◌<ℤ◌, ◌≤ℤ◌, ◌==◌,
}
use pgquarry.Generate.{Context, thrown, exceeds_n_ctx, generate_tokens, generate, add_ℤ}
use pgquarry.Generate.Loop.{tokens_of, Ends, generate_tokens_cases}
use pgquarry.Generate.Preflight.{is_exceeded, generate-is_exceeded}

-- It counts the tokens that it has decoded, and ends the generation at token 9.
abbrev context : Context
context = record {
  n_ctx = 16;
  apply_template = λ prompt size. (pos (length prompt), prompt);
  count_tokens = λ text. negsuc 2;
  tokenize = λ text size. (pos 3, text);
  n_ctx_used = tokens_of;
  decode = λ batches. true;
  sample = λ batches. tokens_of batches;
  is_eog = λ token. token == 9;
  to_piece = λ token. (pos 1, token ∷ []);
}

generate_tokens_cases_example :
    ((generate_tokens context (1 ∷ 2 ∷ 3 ∷ []) (pos 10) ≡ thrown exceeds_n_ctx)
      × (pos 16 <ℤ add_ℤ 3 (pos 10)))
    ⊎ ((add_ℤ 3 (pos 10) ≤ℤ pos 16)
        × Ends context 10 []
            (1 ∷ 2 ∷ 3 ∷ [])
            []
            (generate_tokens context (1 ∷ 2 ∷ 3 ∷ []) (pos 10)))
generate_tokens_cases_example =
    generate_tokens_cases context (1 ∷ 2 ∷ 3 ∷ []) (pos 10) (λ decoded. refl) (omega arith)

generate-is_exceeded_example : is_exceeded (generate context (4 ∷ 5 ∷ 6 ∷ []) (pos 10)) ≡ false
generate-is_exceeded_example =
    generate-is_exceeded context 10 (λ decoded. refl) (omega arith) (λ text. omega arith)
      (4 ∷ 5 ∷ 6 ∷ [])
