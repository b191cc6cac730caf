-- ===== src/Engine/Chain/Batches.antt =====
-- internal/core/scanner/engine/chain.go: the batches of streamBatches.
use bgscan.Base.{
  ℕ, ◌≤◌, ◌<◌, ◌≡◌, refl, ap, ◌∙◌, ◌==◌, List, [], ◌∷◌, ◌++◌, length, length-append, arith, if-elim,
}
use mathlib.Core.List.{append_assoc}
use bgscan.Engine.Chain.{batch_size, stream_batches}

abbrev pub joined : {A : Type 0} → List (List A) → List A
joined [] = []
joined (b ∷ bs) = b ++ joined bs

-- Every list but the last is full, and none is longer or empty.
abbrev pub Filled : {A : Type 0} → ℕ → List (List A) → Type 0
Filled size [] = Unit {0}
Filled size (b ∷ []) = (0 < length b) × (length b ≤ size)
Filled size (b ∷ c ∷ bs) = (length b ≡ size) × Filled size (c ∷ bs)

pub stream_batches-joined :
    {A : Type 0} (size : ℕ) (batch ips : List A)
    → joined (stream_batches size batch ips) ≡ batch ++ ips
unfolding stream_batches
stream_batches-joined size [] [] = refl
stream_batches-joined size (x ∷ batch) [] = refl
stream_batches-joined size batch (ip ∷ ips) =
    if-elim (λ bs. joined bs ≡ batch ++ ip ∷ ips) (length (batch ++ ip ∷ []) == size)
      (λ full.
        ap (λ x. (batch ++ ip ∷ []) ++ x) (stream_batches-joined size [] ips)
        ∙ append_assoc batch (ip ∷ []) ips)
      (λ more. stream_batches-joined size (batch ++ ip ∷ []) ips ∙ append_assoc batch (ip ∷ []) ips)

Filled-cons :
    {A : Type 0} (size : ℕ) (b : List A) (bs : List (List A))
    → 0 < size
    → length b ≡ size
    → Filled size bs
    → Filled size (b ∷ bs)
Filled-cons size b [] pos h f = (omega (arith, h, pos), omega (arith, h))
Filled-cons size b (c ∷ bs) pos h f = (h, f)

stream_batches-Filled :
    {A : Type 0} (size : ℕ) (batch ips : List A)
    → length batch < size
    → Filled size (stream_batches size batch ips)
unfolding stream_batches
stream_batches-Filled size [] [] h = tt
stream_batches-Filled size (x ∷ batch) [] h = (omega arith, omega (arith, h))
stream_batches-Filled size batch (ip ∷ ips) h =
    let longer = length-append batch (ip ∷ []) in
    if-elim (Filled size) (length (batch ++ ip ∷ []) == size)
      (λ full.
        Filled-cons size (batch ++ ip ∷ []) _ (omega (arith, h)) (ground (arith, full))
          (stream_batches-Filled size [] ips (omega (arith, h))))
      (λ more. stream_batches-Filled size (batch ++ ip ∷ []) ips (ground (arith, h, longer, more)))

batch_size-positive : (size : ℕ) (workers : List ℕ) → 0 < batch_size size workers
unfolding batch_size
batch_size-positive size [] = ground arith
batch_size-positive size (w ∷ workers) = ground arith

-- For every configured size and all numbers of workers: the batches one after another are the addresses
-- in their order, every batch but the last has the size that batchSize returns, and the last is neither
-- empty nor longer.
pub stream_batches-round :
    {A : Type 0} (configured : ℕ) (workers : List ℕ) (ips : List A)
    → let batches = stream_batches (batch_size configured workers) [] ips in
      (joined batches ≡ ips) × Filled (batch_size configured workers) batches
stream_batches-round configured workers ips =
    let size = batch_size configured workers in
    (
      stream_batches-joined size [] ips,
      stream_batches-Filled size [] ips (batch_size-positive configured workers),
    )
