-- ===== src/Engine/Chain/Wiring.antt =====
-- internal/core/scanner/engine/chain.go: the channels between the stages, and the sizes.
use bgscan.Base.{
  ℕ, zero, suc, ◌+◌, max, ◌≤◌, ◌<◌, ◌≡◌, refl, ◌==◌, List, [], ◌∷◌, length, Option, some, get_elem?,
  if◌then◌else◌, arith, if-elim, leb,
}
use mathlib.Core.Option.{some-injective}
use bgscan.Engine.Chain.{
  default_stage_chan_buf, get_worker_count, create_stage_channels, get_input_channel,
  get_output_channel,
}

-- The channel of a stage, where it is not the last.
create_stage_channels-at :
    (buffer : ℕ) (workers : List ℕ) (i v : ℕ)
    → get_elem? workers (suc i) ≡ some v
    → get_elem? (create_stage_channels buffer workers) i
      ≡ some (max (if buffer == 0 then default_stage_chan_buf else buffer) (get_worker_count v))
unfolding create_stage_channels
create_stage_channels-at buffer [] i v h = cc
create_stage_channels-at buffer (w ∷ []) i v h = cc
create_stage_channels-at buffer (w ∷ u ∷ workers) zero v h =
    let same : u ≡ v = some-injective u v h in rw same refl
create_stage_channels-at buffer (w ∷ u ∷ workers) (suc i) v h =
    create_stage_channels-at buffer (u ∷ workers) i v h

get_elem?-length : (workers : List ℕ) (i v : ℕ) → get_elem? workers i ≡ some v → i < length workers
get_elem?-length [] i v h = cc
get_elem?-length (w ∷ ws) zero v h = omega arith
get_elem?-length (w ∷ ws) (suc i) v h = omega (arith, get_elem?-length ws i v h)

-- For a stage that another follows, which has v workers: the channel that it sends to is there and is
-- the one that the next receives from, it holds at least one address for each of these workers, at
-- least the configured number, and at least one.
pub create_stage_channels-wired :
    (buffer : ℕ) (workers : List ℕ) (i v : ℕ)
    → get_elem? workers (suc i) ≡ some v
    → (get_output_channel i (length workers) ≡ get_input_channel (suc i))
      × ((size : ℕ) × (get_elem? (create_stage_channels buffer workers) i ≡ some size)
          × (v ≤ size)
          × (buffer ≤ size)
          × (0 < size))
create_stage_channels-wired buffer workers i v h =
    let later = get_elem?-length workers (suc i) v h in
    (
      if-elim (λ (o : Option ℕ). o ≡ some i) (leb (length workers) (i + 1))
          (λ last. absurd (ground (arith, last, later))) (λ _. refl),
      (
        max (if buffer == 0 then default_stage_chan_buf else buffer) (get_worker_count v),
        create_stage_channels-at buffer workers i v h,
        ground arith,
        ground arith,
        ground arith,
      ),
    )
