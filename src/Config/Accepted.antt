-- ===== src/Config/Accepted.antt =====
-- src/daemon/config.cpp, src/daemon/daemon.cpp: what load_config accepts, build_slot_plan can place.
use state_spectre.Prelude.{
  ℕ, ◌^◌, ◌<◌, ◌≡◌, subst, [], ◌∷◌, true, Option, none, some, arith, inl, inr, Bool-cases,
}
use state_spectre.State.{Slot}
use state_spectre.Plan.{config_valid, arenas_valid, arena_valid, window_total, build_slot_plan}
use state_spectre.Plan.Bounds.{SumsFit, slots_in, IsPlaced, build_slot_plan-IsPlaced}
use state_spectre.Config.{Text, Outcome, error, no_fuel, result, ◌>>=◌}
use state_spectre.Config.Daemon.{DaemonConfig, default_smoke_config, smoke_arena}
use state_spectre.Config.Load.{load_config, load_file, validate}

-- what holds of a result, if there is one
abbrev pub Yields {ℓ κ} : {A : Type ℓ} → (A → Type κ) → Outcome A → Type κ
Yields P (error line) = Unit
Yields P no_fuel = Unit
Yields P (result a) = P a

Yields-bind {κ} :
    {A : Type 0} {B : Type 0} (P : B → Type κ) (r : Outcome A) (k : A → Outcome B)
    → ((a : A) → Yields P (k a))
    → Yields P (r >>= k)
unfolding ◌>>=◌
Yields-bind P (error line) k h = tt
Yields-bind P no_fuel k h = tt
Yields-bind P (result a) k h = h a

-- `hundredths`, `stod` and `scaled` are those of Daemon and Values.
module _ (Double : Type 0) (hundredths : ℕ → Double) (stod : Text → Option (Double × ℕ))
    (scaled : Double → ℕ → ℕ) where
  abbrev Accepted : DaemonConfig Double → Type 0
  Accepted c = config_valid c.allocation_granularity_bytes c.per_numa ≡ true

  smoke-valid :
      (arena_bytes numa gpu : ℕ)
      → 0 < arena_bytes
      → arena_bytes < 2 ^ 64
      → config_valid (2 ^ 21) (smoke_arena Double hundredths arena_bytes numa gpu ∷ []) ≡ true
  unfolding config_valid arenas_valid arena_valid window_total smoke_arena
  smoke-valid arena_bytes numa gpu h h' = ground arith

  validate-valid :
      (c : DaemonConfig Double) → Yields Accepted (validate Double hundredths stod scaled c)
  unfolding validate
  validate-valid c = elim (Bool-cases (config_valid c.allocation_granularity_bytes c.per_numa)) [
    | inl valid ↦ rw (Yields, valid) valid
    | inr refused ↦ rw (Yields, refused) tt
  ]

  load_config-valid :
      (path : Text) (file : Option Text)
      → Yields Accepted (load_config Double hundredths stod scaled path file)
  unfolding load_config load_file default_smoke_config
  load_config-valid [] file = smoke-valid (2 ^ 28) 0 0 (omega arith) (omega arith)
  load_config-valid (c ∷ path) none = tt
  load_config-valid (c ∷ path) (some content) =
      Yields-bind Accepted _ _ (λ root. Yields-bind Accepted _ _ validate-valid)

-- the parser's recursion is given enough fuel
Yields-result :
    {A : Type 0} (P : A → Type 0) (o : Outcome A) (a : A) → Yields P o → o ≡ result a → P a
Yields-result P o a h e = subst (Yields P) e h

-- Whatever load_config accepts, from any file or for an empty path, the slot plan built from it has
-- no more slots than the slot table has room for; each slot is FREE, has its own id and lies inside
-- its arena, and no two slots of one arena overlap; provided that the 64-bit sums of the windows'
-- sizes do not wrap and that the arenas have room for fewer than 2^32 slots.
pub load_config-IsPlaced :
    (Double : Type 0) (hundredths : ℕ → Double) (stod : Text → Option (Double × ℕ))
    (scaled : Double → ℕ → ℕ) (path : Text) (file : Option Text) (cfg : DaemonConfig Double)
    (zeroed : ℕ → Slot)
    → load_config Double hundredths stod scaled path file ≡ result cfg
    → SumsFit cfg.per_numa
    → slots_in cfg.allocation_granularity_bytes cfg.per_numa < 2 ^ 32
    → IsPlaced cfg.allocation_granularity_bytes cfg.per_numa
        (build_slot_plan cfg.allocation_granularity_bytes cfg.per_numa zeroed)
load_config-IsPlaced Double hundredths stod scaled path file cfg zeroed loaded fit below =
    build_slot_plan-IsPlaced cfg.allocation_granularity_bytes cfg.per_numa zeroed
      (Yields-result (Accepted Double hundredths stod scaled) _ cfg
        (load_config-valid Double hundredths stod scaled path file) loaded)
      fit below
