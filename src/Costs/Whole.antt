-- ===== src/Costs/Whole.antt =====
-- engine/cost_estimator.py, estimate_run: the tiers compared over the stages of an estimate.
use Prim.Native.Nat.{◌<◌}
use native.Mathlib.Nat.{min-le_right, max-le}
use autonomy_engine.Base.{
  ℕ, ◌+◌, ◌*◌, ◌≤◌, String, ◌≡◌, refl, sym, subst, ap, List, [], ◌∷◌, arith, All, ◌∙◌, or_default,
  Option-cases, inl, inr, Option, none, some, ◌/◌,
}
use autonomy_engine.World.{Platform, World, ok, lift}
use autonomy_engine.Context.{ensure_init, ensure_found, get_state_dir, get_prompts_dir}
use autonomy_engine.World.Returned.{bind-values, ok-injective}
use autonomy_engine.Models.{Registry, get_model_limit}
use Prim.Native.String.{count}
use autonomy_engine.Base.Dict.{lookup}
use autonomy_engine.Base.Floats.{of_nat, times, int}
use autonomy_engine.Costs.{
  premium, mvp, StageEstimate, RunEstimate, sum_llm, total_output_tokens, estimate_tokens,
  LlmConfig, resolve_model, design_multiplier, verify_multiplier,
}
use autonomy_engine.Costs.Estimate.{
  Lengths, read_length, read_lengths, premium_output, single_call, budget, design_estimate,
  implement_estimate, verify_estimate, with_stages, idle_stage, estimate_stages, estimate_run,
}
use autonomy_engine.Costs.Cheaper.{IsCheaper, single_call-IsCheaper}
use autonomy_engine.Costs.Bounds.{implement_stage-IsCheaper}

-- A file is shorter than 2 ^ 45 characters.
abbrev pub AreShort : World → Type 0
AreShort w = (path : String) → read_length path w < 35184372088832

-- The limit of a model is below 2 ^ 45.
abbrev pub AreSmall : Registry → Type 0
AreSmall reg = (model : String) → get_model_limit reg model < 35184372088832

-- Each stage is cheaper in the MVP tier.
unfoldable pub AreCheaper : Registry → List StageEstimate → Type 0
AreCheaper reg stages = All (λ s. IsCheaper (get_model_limit reg s.model) s) stages

pub record ShortLengths (len : Lengths) : Type 0 where
  requirements : len.requirements < 35184372088832
  constraints : len.constraints < 35184372088832
  non_goals : len.non_goals < 35184372088832
  acceptance : len.acceptance < 35184372088832
  design_template : len.design_template < 35184372088832
  implement_template : len.implement_template < 35184372088832
  plan_template : len.plan_template < 35184372088832
  verify_template : len.verify_template < 35184372088832

estimate_tokens-le : (n : ℕ) → estimate_tokens n ≤ n / 4 + 1
unfolding estimate_tokens
estimate_tokens-le n = max-le (omega arith) (omega arith)

sum_llm-le :
    (reg : Registry) (stages : List StageEstimate)
    → AreCheaper reg stages
    → sum_llm (λ s. s.output_tokens_mvp) stages ≤ sum_llm (λ s. s.output_tokens_premium) stages
unfolding sum_llm AreCheaper IsCheaper
sum_llm-le reg [] h = omega arith
sum_llm-le reg (s ∷ stages) (h, hs) = ground (arith, sum_llm-le reg stages hs)

idle-IsCheaper : (hard_limit : ℕ) (stage : String) → IsCheaper hard_limit (idle_stage stage)
unfolding IsCheaper
idle-IsCheaper hard_limit stage = (omega arith, omega arith)

module _ (reg : Registry) (small : AreSmall reg) (cfg : LlmConfig) (len : Lengths)
    (short : ShortLengths len) where
  design_estimate-IsCheaper :
      (model : String) → IsCheaper (get_model_limit reg model) (design_estimate reg cfg len model)
  unfolding design_estimate
  design_estimate-IsCheaper model =
      let n = len.design_template + len.requirements + len.constraints + len.non_goals in
      let few : estimate_tokens n < 70368744177664 = omega (arith, estimate_tokens-le n, short) in
      single_call-IsCheaper "design" design_multiplier (estimate_tokens n) model
        (get_model_limit reg model) (budget reg cfg len) (omega arith) (omega arith)
        (omega (arith, small model))

  verify_estimate-IsCheaper :
      (model : String) → IsCheaper (get_model_limit reg model) (verify_estimate reg cfg len model)
  unfolding verify_estimate
  verify_estimate-IsCheaper model =
      let n = len.verify_template + 2000 + len.acceptance + len.requirements in
      let few : estimate_tokens n < 70368744177664 = omega (arith, estimate_tokens-le n, short) in
      single_call-IsCheaper "verify" verify_multiplier (estimate_tokens n) model
        (get_model_limit reg model) (budget reg cfg len) (omega arith) (omega arith)
        (omega (arith, small model))

  implement_estimate-IsCheaper :
      (arch_size : ℕ) (model : String) (s : StageEstimate)
      → arch_size < 140737488355328
      → implement_estimate reg cfg len arch_size model ≡ ok s
      → IsCheaper (get_model_limit reg model) s × (s.model ≡ model)
  unfolding implement_estimate
  implement_estimate-IsCheaper arch_size model s arch e =
      let n = len.implement_template + arch_size + len.requirements + len.constraints in
      let few : estimate_tokens n * 6 < 1125899906842624 =
        omega (arith, estimate_tokens-le n, short) in
      implement_stage-IsCheaper (estimate_tokens n) (len.plan_template + arch_size) model
        (get_model_limit reg model) (budget reg cfg len) s few (omega (arith, small model)) e

  -- the size of the architecture that is guessed
  arch_small :
      (model : String)
      → (design_estimate reg cfg len model).output_tokens_premium * 4 < 140737488355328
  unfolding design_estimate single_call premium_output
  arch_small model =
      let n = len.design_template + len.requirements + len.constraints + len.non_goals in
      omega (
        arith,
        small model,
        min-le_right (int (times (of_nat (estimate_tokens n)) design_multiplier))
            (get_model_limit reg model),
      )

  with_stages-AreCheaper :
      (design implement verify : StageEstimate)
      → IsCheaper (get_model_limit reg design.model) design
      → IsCheaper (get_model_limit reg implement.model) implement
      → IsCheaper (get_model_limit reg verify.model) verify
      → AreCheaper reg (with_stages reg cfg len design implement verify).stages
  unfolding AreCheaper
  with_stages-AreCheaper design implement verify d i v =
      let idle = idle-IsCheaper (get_model_limit reg "") in
      (d, (i, (v, (idle "bootstrap", (idle "extract", (idle "test", tt))))))

  pub estimate_stages-AreCheaper :
      (w : World) (e : RunEstimate) (w' : World)
      → estimate_stages reg cfg len w ≡ (ok e, w')
      → AreCheaper reg e.stages
  unfolding estimate_stages AreCheaper
  estimate_stages-AreCheaper w e w' h =
      let (dm, d, h1) = bind-values (lift (resolve_model cfg "design")) _ w h in
      let (im, i, h2) = bind-values (lift (resolve_model cfg "implement")) _ w h1 in
      let arch = (design_estimate reg cfg len dm).output_tokens_premium * 4 in
      let (s, made, h3) = bind-values (lift (implement_estimate reg cfg len arch im)) _ w h2 in
      let (vm, v, h4) = bind-values (lift (resolve_model cfg "verify")) _ w h3 in
      let found = implement_estimate-IsCheaper arch im s (arch_small dm) (ap (λ p. p.0) made) in
      subst (λ r. AreCheaper reg r.stages) (ok-injective h4)
        (with_stages-AreCheaper (design_estimate reg cfg len dm) s (verify_estimate reg cfg len vm)
          (design_estimate-IsCheaper dm)
          (subst (λ m. IsCheaper (get_model_limit reg m) s) (sym found.1) found.0)
          (verify_estimate-IsCheaper vm))

kept_short : (v w : World) → v.files ≡ w.files → AreShort w → AreShort v
unfolding read_length
kept_short v w same short path =
    subst (λ files. count (or_default "" (lookup path files)) < 35184372088832) (sym same)
      (short path)

short_lengths :
    (state prompts : String) (w : World) → AreShort w → ShortLengths (read_lengths state prompts w)
short_lengths state prompts w short = record {
  requirements = short _;
  constraints = short _;
  non_goals = short _;
  acceptance = short _;
  design_template = short _;
  implement_template = short _;
  plan_template = short _;
  verify_template = short _;
}

module _ (P : Platform) where
  ensure_found-files : (o : Option String) (w : World) → (ensure_found P o w).1.files ≡ w.files
  unfolding ensure_found
  ensure_found-files none w = refl
  ensure_found-files (some dir) w = refl

  prompts_dir-files : (w : World) → (get_prompts_dir P w).1.files ≡ w.files
  unfolding get_prompts_dir ensure_init ensure_found
  prompts_dir-files w = elim (Option-cases w.project_dir) [ inl e ↦ rw e | inr (d, e) ↦ rw e ]

  state_dir-files : (w : World) → (get_state_dir P w).1.files ≡ w.files
  unfolding get_state_dir ensure_init ensure_found
  state_dir-files w = elim (Option-cases w.project_dir) [ inl e ↦ rw e | inr (d, e) ↦ rw e ]

  -- When `estimate_run` returns, then in every stage the MVP tier takes no more output tokens
  -- than Premium and Premium no more than the calls can give by the limit of the model, and
  -- so in total; in doubles, for files shorter and limits lower than 2 ^ 45.
  pub estimate_run_cheaper :
      (reg : Registry) (cfg : LlmConfig) (w : World) (e : RunEstimate) (w' : World)
      → AreSmall reg
      → AreShort w
      → estimate_run P reg cfg w ≡ (ok e, w')
      → AreCheaper reg e.stages × (total_output_tokens mvp e ≤ total_output_tokens premium e)
  unfolding estimate_run total_output_tokens
  estimate_run_cheaper reg cfg w e w' small short h =
      let (state, a, h1) = bind-values (get_state_dir P) _ w h in
      let v1 = (get_state_dir P w).1 in
      let (prompts, b, h2) = bind-values (get_prompts_dir P) _ v1 h1 in
      let v2 = (get_prompts_dir P v1).1 in
      let same : v2.files ≡ w.files = prompts_dir-files v1 ∙ state_dir-files w in
      let cheaper =
        estimate_stages-AreCheaper reg small cfg (read_lengths state prompts v2)
          (short_lengths state prompts v2 (kept_short v2 w same short)) v2 e w' h2 in
      (cheaper, sum_llm-le reg e.stages cheaper)
