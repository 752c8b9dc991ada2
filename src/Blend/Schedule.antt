-- ===== src/Blend/Schedule.antt =====
-- Which status every layer runs under in `LlamaModel.forward` of
-- vllm_blend/vllm/model_executor/models/llama.py, with one check layer.
use cache_blend.Prelude.{
  ℕ, zero, suc, ◌+◌, ◌<◌, ◌≡◌, refl, true, Option, none, some, List, [], ◌∷◌, Result, ok, ◌>>=◌,
  inl, inr, Result-cases, arith,
}
use cache_blend.Blend.Attention.{FuseStatus, full_prefill, checking, after_check, FuseMetadata}
use cache_blend.Blend.Layers.{next_status, next_positions, start_metadata, run_layers, forward}

-- The check is on, with layer `c` as the only check layer.
abbrev pub ChecksOnly : ℕ → FuseMetadata → Type 0
ChecksOnly c meta = (meta.check ≡ true) × (meta.check_layers ≡ c ∷ [])

start_on :
    (meta : FuseMetadata)
    → meta.check ≡ true
    → start_metadata meta ≡ record meta { imp_indices = none }
unfolding start_metadata
start_on meta on = rw on

next_before :
    (c i : ℕ) (meta : FuseMetadata)
    → ChecksOnly c meta
    → i < c
    → next_status meta full_prefill (some 0) i ≡ ok (full_prefill, some 0)
unfolding next_status
next_before c i meta (on, only) lt = rw (on, only) (ground arith)

next_at :
    (c : ℕ) (meta : FuseMetadata)
    → ChecksOnly c meta
    → next_status meta full_prefill (some 0) c ≡ ok (checking, some 1)
unfolding next_status
next_at c meta (on, only) = rw (on, only) (ground arith)

next_past :
    (c i : ℕ) (st : FuseStatus) (idx : Option ℕ) (meta : FuseMetadata)
    → ChecksOnly c meta
    → c < i
    → next_status meta st idx i ≡ ok (after_check, idx)
unfolding next_status
next_past c i st idx meta (on, only) lt = rw (on, only) (ground arith)

module _ {ℓ κ} {P : Type ℓ} {X : Type κ}
    (layer : ℕ → FuseStatus → List P → X → FuseMetadata → Result (X × FuseMetadata)) where
  -- `n` layers from layer `i` on, all under one status and over the same positions.
  unfoldable pub uniform :
      FuseStatus → ℕ → ℕ → List P → X → FuseMetadata → Result (X × FuseMetadata)
  uniform st zero i positions x meta = ok (x, meta)
  uniform st (suc n) i positions x meta = do
    (x', meta') ← layer i st positions x meta
    uniform st n (suc i) positions x' meta'

  -- The layers from the check layer `c` on.
  unfoldable pub blended_from :
      ℕ → ℕ → List P → X → FuseMetadata → Result (X × FuseMetadata × List P)
  unfolding uniform
  blended_from k c positions x meta = do
    (x', meta') ← layer c checking positions x meta
    kept ← next_positions checking meta' positions
    (x'', meta'') ← uniform after_check k (suc c) kept x' meta'
    ok (x'', meta'', kept)

  -- A full prefill below the check layer, the check, and the chosen rows alone after it.
  unfoldable pub blended :
      ℕ → ℕ → ℕ → ℕ → List P → X → FuseMetadata → Result (X × FuseMetadata × List P)
  unfolding uniform blended_from
  blended n i k c positions x meta = do
    (x', meta') ← uniform full_prefill n i positions x meta
    blended_from k c positions x' meta'

  module _ (c : ℕ)
      (keeps : (i : ℕ) (st : FuseStatus) (positions : List P) (x : X) (meta : FuseMetadata) (x' : X)
          (meta' : FuseMetadata)
        → ChecksOnly c meta
        → layer i st positions x meta ≡ ok (x', meta')
        → ChecksOnly c meta') where
    run_layers-past :
        (k i : ℕ) (st : FuseStatus) (idx : Option ℕ) (positions : List P) (x : X)
        (meta : FuseMetadata)
        → ChecksOnly c meta
        → c < i
        → run_layers layer k i st idx positions x meta
          ≡ (uniform after_check k i positions x meta >>= λ (x', meta'). ok (x', meta', positions))
    unfolding run_layers uniform next_positions
    run_layers-past zero i st idx positions x meta only lt = refl
    run_layers-past (suc k) i st idx positions x meta only lt =
        elim (Result-cases (layer i after_check positions x meta)) [
          | inl (e, r) ↦ rw (next_past c i st idx meta only lt, r)
          | inr ((x', meta'), r) ↦ rw (
            next_past c i st idx meta only lt,
            r,
            run_layers-past k (suc i) after_check idx positions x' meta'
                (keeps i after_check positions x meta x' meta' only r) (omega arith),
          )
        ]

    run_layers-check :
        (k : ℕ) (positions : List P) (x : X) (meta : FuseMetadata)
        → ChecksOnly c meta
        → run_layers layer (suc k) c full_prefill (some 0) positions x meta
          ≡ blended_from k c positions x meta
    unfolding run_layers blended_from
    run_layers-check k positions x meta only =
        elim (Result-cases (layer c checking positions x meta)) [
          | inl (e, r) ↦ rw (next_at c meta only, r)
          | inr ((x', meta'), r) ↦ elim (Result-cases (next_positions checking meta' positions)) [
            | inl (e, q) ↦ rw (next_at c meta only, r, q)
            | inr (kept, q) ↦ rw (
              next_at c meta only,
              r,
              q,
              run_layers-past k (suc c) checking (some 1) kept x' meta'
                  (keeps c checking positions x meta x' meta' only r) (omega arith),
            )
          ]
        ]

    run_layers-blended :
        (n i k : ℕ) (positions : List P) (x : X) (meta : FuseMetadata)
        → ChecksOnly c meta
        → n + i ≡ c
        → run_layers layer (n + suc k) i full_prefill (some 0) positions x meta
          ≡ blended n i k c positions x meta
    unfolding run_layers blended uniform next_positions
    run_layers-blended zero i k positions x meta only e =
        let at : i ≡ c = omega arith in
        let rest : 0 + suc k ≡ suc k = omega arith in
        rw (at, rest) (run_layers-check k positions x meta only)
    run_layers-blended (suc n) i k positions x meta only e =
        let more : suc n + suc k ≡ suc (n + suc k) = omega arith in
        elim (Result-cases (layer i full_prefill positions x meta)) [
          | inl (error, r) ↦ rw (more, next_before c i meta only (omega arith), r)
          | inr ((x', meta'), r) ↦ rw (
            more,
            next_before c i meta only (omega arith),
            r,
            run_layers-blended n (suc i) k positions x' meta'
                (keeps i full_prefill positions x meta x' meta' only r) (omega arith),
          )
        ]

    -- With a single check layer `c`, a prefill over `c + 1 + k` layers runs the first `c` of them in full,
    -- checks layer `c`, and runs the other `k` over the positions of the chosen rows alone. The layers
    -- must leave the check and its list of layers as they are.
    pub forward-blended :
        (k : ℕ) (positions : List P) (x : X) (meta : FuseMetadata)
        → ChecksOnly c meta
        → forward layer (c + suc k) true positions x meta
          ≡ blended c 0 k c positions x (record meta { imp_indices = none })
    unfolding forward
    forward-blended k positions x meta (on, only) = rw (
      start_on meta on,
      run_layers-blended c 0 k positions x (record meta { imp_indices = none }) (on, only)
          (omega arith),
    )
