-- ===== src/Engine/Chain/Results.antt =====
-- internal/core/scanner/engine/chain.go: the results of a chain as a function of its addresses.
use bgscan.Base.{ℕ, ◌≡◌, refl, ap, ◌∙◌, List, [], ◌∷◌, ◌++◌, All}
use bgscan.Result.{ScanResult}
use bgscan.Engine.Stage.{Attempt, ProbeRun, passes, fails, Executor, new_executor}
use bgscan.Engine.Stage.Limit.{Clean, results, survivors, add_result, add_survivor}
use bgscan.Engine.Chain.{Stage}

-- What the last stage reports of the addresses that pass all stages before it.
abbrev pub chain_results : {A : Type 0} → List (Stage A) → List A → List ScanResult
chain_results [] ips = []
chain_results (s ∷ []) ips = results s.world ips
chain_results (s ∷ t ∷ stages) ips = chain_results (t ∷ stages) (survivors s.world ips)

-- The executor of the last stage.
abbrev pub last_executor : {A : Type 0} → List (Stage A) → Executor
last_executor [] = new_executor 0
last_executor (s ∷ []) = s.executor
last_executor (s ∷ t ∷ stages) = last_executor (t ∷ stages)

-- No stage but the last has a limit, and no limiter or writer fails.
abbrev pub Limited : {A : Type 0} → ℕ → List (Stage A) → Type 0
Limited limit [] = ⊥
Limited limit (s ∷ []) = s.config.result_limit ≡ limit
Limited limit (s ∷ t ∷ stages) = (s.config.result_limit ≡ 0) × Limited limit (t ∷ stages)

abbrev pub Sound : {A : Type 0} → List (Stage A) → Type 0
Sound {A} stages = All (λ s. (ip : A) → Clean (s.world ip)) stages

pub add_result-append :
    (p : ProbeRun) (rs ss : List ScanResult) → add_result p (rs ++ ss) ≡ add_result p rs ++ ss
add_result-append (passes r) rs ss = refl
add_result-append (fails err) rs ss = refl

pub add_survivor-append :
    {A : Type 0} (p : ProbeRun) (ip : A) (xs ys : List A)
    → add_survivor p ip (xs ++ ys) ≡ add_survivor p ip xs ++ ys
add_survivor-append (passes r) ip xs ys = refl
add_survivor-append (fails err) ip xs ys = refl

pub results-append :
    {A : Type 0} (world : A → Attempt) (xs ys : List A)
    → results world (xs ++ ys) ≡ results world xs ++ results world ys
results-append world [] ys = refl
results-append world (x ∷ xs) ys =
    ap (add_result (world x).probe) (results-append world xs ys)
    ∙ add_result-append (world x).probe (results world xs) (results world ys)

pub survivors-append :
    {A : Type 0} (world : A → Attempt) (xs ys : List A)
    → survivors world (xs ++ ys) ≡ survivors world xs ++ survivors world ys
survivors-append world [] ys = refl
survivors-append world (x ∷ xs) ys =
    ap (add_survivor (world x).probe x) (survivors-append world xs ys)
    ∙ add_survivor-append (world x).probe x (survivors world xs) (survivors world ys)

pub chain_results-append :
    {A : Type 0} (stages : List (Stage A)) (xs ys : List A)
    → chain_results stages (xs ++ ys) ≡ chain_results stages xs ++ chain_results stages ys
chain_results-append [] xs ys = refl
chain_results-append (s ∷ []) xs ys = results-append s.world xs ys
chain_results-append (s ∷ t ∷ stages) xs ys =
    ap (chain_results (t ∷ stages)) (survivors-append s.world xs ys)
    ∙ chain_results-append (t ∷ stages) (survivors s.world xs) (survivors s.world ys)

pub chain_results-nil : {A : Type 0} (stages : List (Stage A)) → chain_results stages [] ≡ []
chain_results-nil [] = refl
chain_results-nil (s ∷ []) = refl
chain_results-nil (s ∷ t ∷ stages) = chain_results-nil (t ∷ stages)
