-- ===== src/Config/Validate/Accepts.antt =====
-- `validate` reports nothing exactly for the configurations that the worker can run with.
use pgquarry.Base.{
  String, ℤ, pos, ◌≤ℤ◌, ◌≡◌, ◌≢◌, ◌↔◌, ◌⊎◌, inl, inr, refl, sym, true, Option, none, some, List, [],
  ◌∷◌, arith, str_eq, eq_iff, All, Option-cases, Bool-cases,
}
use pgquarry.Config.{AppConfig}
use pgquarry.Config.Purge.{parse_purge_after}
use pgquarry.Config.Purge.Duration.{Duration, parse_purge_after_accepts}
use pgquarry.Config.Validate.{
  FileSystem, collect, model_file_error, embedding_model_error, generation_model_error, known_level,
  log_levels, fail_if, not_positive, negative, purge_error, level_error, checks, validate,
}

-- A regular file that can be read and is not empty.
pub record IsModelFile (fs : FileSystem) (path : String) : Type 0 where
  pub found : fs.exists path ≡ true
  pub regular : fs.is_regular_file path ≡ true
  pub can_read : fs.readable path ≡ true
  pub filled : fs.file_size path ≢ 0

-- The level is one of the list.
pub data OneOf (level : String) : List String → Type 0 where
  this : {l : String} {ls : List String} → level ≡ l → OneOf level (l ∷ ls)
  later : {l : String} {ls : List String} → OneOf level ls → OneOf level (l ∷ ls)

abbrev IsPositive : ℤ → Type 0
IsPositive x = pos 1 ≤ℤ x

pub record IsRunnable (fs : FileSystem) (c : AppConfig) : Type 0 where
  pub conninfo : c.conninfo ≢ ""
  pub model_given : c.embedding.model_path ≢ ""
  pub model : IsModelFile fs c.embedding.model_path
  pub dimensions : IsPositive c.embedding.dimensions
  pub n_threads : IsPositive c.embedding.n_threads
  pub n_ctx : IsPositive c.embedding.n_ctx
  pub generation_model : (c.generation.model_path ≡ "") ⊎ IsModelFile fs c.generation.model_path
  pub max_tokens : IsPositive c.generation.max_tokens
  pub generation_n_ctx : IsPositive c.generation.n_ctx
  pub generation_n_threads : IsPositive c.generation.n_threads
  pub generation_n_gpu_layers : pos 0 ≤ℤ c.generation.n_gpu_layers
  pub batch_size : IsPositive c.embedding.max_batch_size
  pub n_gpu_layers : pos 0 ≤ℤ c.embedding.n_gpu_layers
  pub poll_interval_ms : IsPositive c.poll_interval_ms
  pub purge_after : (out : String) × Duration c.retention.purge_after out
  pub log_level : OneOf c.logging.log_level log_levels
  pub max_size_mb : IsPositive c.logging.max_size_mb
  pub max_files : IsPositive c.logging.max_files

abbrev IsNone {ℓ} : {A : Type ℓ} → Option A → Type ℓ
IsNone o = o ≡ none

collect-nil : (cs : List (Option String)) → (collect cs ≡ []) ↔ All IsNone cs
unfolding collect
collect-nil [] = (λ h. tt, λ h. refl)
collect-nil (none ∷ cs) = (λ h. (refl, (collect-nil cs).0 h), λ h. (collect-nil cs).1 h.1)
collect-nil (some e ∷ cs) = (λ h. cc, λ h. cc (h.0))

IsModelFile-iff :
    (fs : FileSystem) (key path : String)
    → (model_file_error fs key path ≡ none) ↔ IsModelFile fs path
unfolding model_file_error
IsModelFile-iff fs key path = (λ h. ground arith, λ h. ground arith)

embedding_model_iff :
    (fs : FileSystem) (path : String)
    → (embedding_model_error fs path ≡ none) ↔ ((path ≢ "") × IsModelFile fs path)
unfolding embedding_model_error
embedding_model_iff fs path = (
  λ h.
      let m = IsModelFile-iff fs "model_path" path in
      elim (Bool-cases (str_eq path "")) [
        | inl e ↦ absurd (ground arith)
        | inr e ↦ (λ p. ground (arith, eq_iff path ""), m.0 (ground arith))
      ],
  λ h. let e = (IsModelFile-iff fs "model_path" path).1 h.1 in ground (arith, eq_iff path "", e),
)

generation_model_iff :
    (fs : FileSystem) (path : String)
    → (generation_model_error fs path ≡ none) ↔ ((path ≡ "") ⊎ IsModelFile fs path)
unfolding generation_model_error
generation_model_iff fs path = (
  λ h.
      let m = IsModelFile-iff fs "generation_model_path" path in
      elim (Bool-cases (str_eq path "")) [
        | inl e ↦ inl ((eq_iff path "").0 e)
        | inr e ↦ inr (m.0 (ground arith))
      ],
  elim [
    | inl e ↦ rw e
    | inr m ↦ let e = (IsModelFile-iff fs "generation_model_path" path).1 m in ground (arith, e)
  ],
)

known_of_OneOf :
    (l : String) (ls : List String) (level : String)
    → (OneOf level ls → known_level ls level ≡ true)
    → OneOf level (l ∷ ls)
    → known_level (l ∷ ls) level ≡ true
unfolding known_level
known_of_OneOf l ls level ih (this e) = ground (arith, eq_iff l level, e)
known_of_OneOf l ls level ih (later o) = ground (arith, ih o)

known_level_iff :
    (levels : List String) (level : String) → (known_level levels level ≡ true) ↔ OneOf level levels
unfolding known_level
known_level_iff [] level = (λ h. cc, λ h. elim h [ ])
known_level_iff (l ∷ ls) level = (
  λ h. elim (Bool-cases (str_eq l level)) [
    | inl e ↦ this (sym ((eq_iff l level).0 e))
    | inr e ↦ later ((known_level_iff ls level).0 (ground arith))
  ],
  λ h. known_of_OneOf l ls level (known_level_iff ls level).1 h,
)

purge_iff : (raw : String) → (purge_error raw ≡ none) ↔ ((out : String) × Duration raw out)
unfolding purge_error
purge_iff raw = elim (Option-cases (parse_purge_after raw)) [
  | inl e ↦ (
    λ h. absurd (ground arith),
    λ d. absurd (ground (arith, (parse_purge_after_accepts raw d.0).1 d.1)),
  )
  | inr (out, e) ↦ (λ h. (out, (parse_purge_after_accepts raw out).0 e), λ d. rw e)
]

level_iff : (level : String) → (level_error level ≡ none) ↔ OneOf level log_levels
unfolding level_error
level_iff level = (
  λ h. (known_level_iff log_levels level).0 (ground arith),
  λ o. rw ((known_level_iff log_levels level).1 o),
)

IsPositive-iff : (x : ℤ) (m : String) → (fail_if (not_positive x) m ≡ none) ↔ IsPositive x
IsPositive-iff x m = (λ h. ground arith, λ h. ground arith)

nonneg_iff : (x : ℤ) (m : String) → (fail_if (negative x) m ≡ none) ↔ (pos 0 ≤ℤ x)
nonneg_iff x m = (λ h. ground arith, λ h. ground arith)

given_iff : (s m : String) → (fail_if (str_eq s "") m ≡ none) ↔ (s ≢ "")
given_iff s m = (λ h e. ground (arith, eq_iff s ""), λ h. ground (arith, eq_iff s ""))

IsRunnable-of_checks :
    (fs : FileSystem) (c : AppConfig) → All IsNone (checks fs c) → IsRunnable fs c
unfolding checks
IsRunnable-of_checks fs c
      (a, (b, (d, (e, (f, (g, (h, (i, (j, (k, (l, (m, (n, (o, (p, (q, (r, _))))))))))))))))) =
    let model = (embedding_model_iff fs c.embedding.model_path).0 b in
    record {
      conninfo = (given_iff _ _).0 a;
      model_given = model.0;
      model = model.1;
      dimensions = (IsPositive-iff _ _).0 d;
      n_threads = (IsPositive-iff _ _).0 e;
      n_ctx = (IsPositive-iff _ _).0 f;
      generation_model = (generation_model_iff fs _).0 g;
      max_tokens = (IsPositive-iff _ _).0 h;
      generation_n_ctx = (IsPositive-iff _ _).0 i;
      generation_n_threads = (IsPositive-iff _ _).0 j;
      generation_n_gpu_layers = (nonneg_iff _ _).0 k;
      batch_size = (IsPositive-iff _ _).0 l;
      n_gpu_layers = (nonneg_iff _ _).0 m;
      poll_interval_ms = (IsPositive-iff _ _).0 n;
      purge_after = (purge_iff _).0 o;
      log_level = (level_iff _).0 p;
      max_size_mb = (IsPositive-iff _ _).0 q;
      max_files = (IsPositive-iff _ _).0 r;
    }

checks_of_IsRunnable :
    (fs : FileSystem) (c : AppConfig) → IsRunnable fs c → All IsNone (checks fs c)
unfolding checks
checks_of_IsRunnable fs c v = (
  (given_iff _ _).1 v.conninfo,
  (
    (embedding_model_iff fs _).1 (v.model_given, v.model),
    (
      (IsPositive-iff _ _).1 v.dimensions,
      (
        (IsPositive-iff _ _).1 v.n_threads,
        (
          (IsPositive-iff _ _).1 v.n_ctx,
          (
            (generation_model_iff fs _).1 v.generation_model,
            (
              (IsPositive-iff _ _).1 v.max_tokens,
              (
                (IsPositive-iff _ _).1 v.generation_n_ctx,
                (
                  (IsPositive-iff _ _).1 v.generation_n_threads,
                  (
                    (nonneg_iff _ _).1 v.generation_n_gpu_layers,
                    (
                      (IsPositive-iff _ _).1 v.batch_size,
                      (
                        (nonneg_iff _ _).1 v.n_gpu_layers,
                        (
                          (IsPositive-iff _ _).1 v.poll_interval_ms,
                          (
                            (purge_iff _).1 v.purge_after,
                            (
                              (level_iff _).1 v.log_level,
                              (
                                (IsPositive-iff _ _).1 v.max_size_mb,
                                ((IsPositive-iff _ _).1 v.max_files, tt),
                              ),
                            ),
                          ),
                        ),
                      ),
                    ),
                  ),
                ),
              ),
            ),
          ),
        ),
      ),
    ),
  ),
)

-- `validate` reports no error exactly when the connection string and the model path are given, the
-- model file is a readable, non-empty regular file (the generation model too, where one is
-- configured), every size, count and interval is in its range, the retention period is a
-- `Duration` and the log level is one of the seven names.
pub validate_accepts : (fs : FileSystem) (c : AppConfig) → (validate fs c ≡ []) ↔ IsRunnable fs c
unfolding validate
validate_accepts fs c = (
  λ h. IsRunnable-of_checks fs c ((collect-nil (checks fs c)).0 h),
  λ r. (collect-nil (checks fs c)).1 (checks_of_IsRunnable fs c r),
)
