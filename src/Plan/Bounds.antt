-- ===== src/Plan/Bounds.antt =====
-- src/daemon/daemon.cpp: where build_slot_plan puts the slots.
use state_spectre.Prelude.{
  ℕ, zero, suc, ◌+◌, ◌*◌, ◌/◌, ◌^◌, ◌≤◌, ◌<◌, ◌≡◌, refl, ap, ◌∙◌, inl, inr, Bool, true, false, List,
  [], ◌∷◌, ◌==◌, if◌then◌else◌, arith, Bool-cases,
}
use native.Mathlib.Decide.{dec_lt}
use native.Mathlib.Nat.{div-add-mod, mod-lt}
use state_spectre.State.{Slot, is_free}
use state_spectre.Slots.{overflow_gpu}
use state_spectre.Plan.{
  GpuWindowConfig, NumaArenaConfig, window_total, arena_valid, arenas_valid, config_valid,
  total_slots, Carving, add_window, carve_window, carve_gpu_windows, carve_arena, carve_arenas,
  build_slot_plan,
}
use state_spectre.Plan.Windows.{mul_add, mul_mono, div_mul_le, suc_mul, Carved, add_window-Carved}

-- the sum of the windows' bytes, without wrapping
abbrev pub bytes_of : List GpuWindowConfig → ℕ
bytes_of [] = 0
bytes_of (w ∷ ws) = w.size_bytes + bytes_of ws

abbrev pub size_at : List NumaArenaConfig → ℕ → ℕ
size_at [] i = 0
size_at (a ∷ rest) zero = a.size_bytes
size_at (a ∷ rest) (suc i) = size_at rest i

-- The 64-bit sums of the validation do not wrap.
abbrev pub SumsFit : List NumaArenaConfig → Type 0
SumsFit [] = Unit {0}
SumsFit (a ∷ rest) = (bytes_of a.gpu_windows + a.overflow_bytes < 2 ^ 64) × SumsFit rest

window_total-bytes_of :
    (ws : List GpuWindowConfig) → bytes_of ws < 2 ^ 64 → window_total ws ≡ bytes_of ws
unfolding window_total
window_total-bytes_of [] h = refl
window_total-bytes_of (w ∷ ws) h = omega (arith, window_total-bytes_of ws (omega arith))

arena_fits :
    (a : NumaArenaConfig)
    → arena_valid a ≡ true
    → bytes_of a.gpu_windows + a.overflow_bytes < 2 ^ 64
    → bytes_of a.gpu_windows + a.overflow_bytes ≤ a.size_bytes
unfolding arena_valid
arena_fits a v h = ground (arith, window_total-bytes_of a.gpu_windows)

le_div : (k g s : ℕ) → 0 < g → k * g ≤ s → k ≤ s / g
le_div k g s pos h = elim (dec_lt (s / g) k) [
  | yes less ↦ absurd (
      omega (
        arith,
        mul_mono (suc (s / g)) k g (omega arith),
        suc_mul g (λ i. 0) (s / g),
        div-add-mod s g,
        mod-lt s pos,
      ))
  | no more ↦ omega arith
]

module _ (granularity : ℕ) where
  -- the slots of a window, of the windows of an arena and of an arena, without wrapping
  abbrev window_slots : List GpuWindowConfig → ℕ
  window_slots [] = 0
  window_slots (w ∷ ws) = w.size_bytes / granularity + window_slots ws

  abbrev arena_slots : NumaArenaConfig → ℕ
  arena_slots a = window_slots a.gpu_windows + a.overflow_bytes / granularity

  -- the number of slots that the arenas have room for, without wrapping
  abbrev pub slots_in : List NumaArenaConfig → ℕ
  slots_in [] = 0
  slots_in (a ∷ rest) = a.size_bytes / granularity + slots_in rest

  total_slots-slots_in :
      (arenas : List NumaArenaConfig)
      → slots_in arenas < 2 ^ 32
      → total_slots granularity arenas ≡ slots_in arenas
  unfolding total_slots
  total_slots-slots_in [] h = refl
  total_slots-slots_in (a ∷ rest) h = omega (arith, total_slots-slots_in rest (omega arith))

  window_slots-bytes_of : (ws : List GpuWindowConfig) → window_slots ws * granularity ≤ bytes_of ws
  window_slots-bytes_of [] = omega arith
  window_slots-bytes_of (w ∷ ws) = omega (
    arith,
    window_slots-bytes_of ws,
    div_mul_le w.size_bytes granularity,
    mul_add (w.size_bytes / granularity) (window_slots ws) granularity,
  )

  arena_slots-fit :
      (a : NumaArenaConfig) (size : ℕ)
      → 0 < granularity
      → bytes_of a.gpu_windows + a.overflow_bytes ≤ size
      → arena_slots a ≤ size / granularity
  arena_slots-fit a size pos h = le_div (arena_slots a) granularity size pos (
      omega (
        arith,
        window_slots-bytes_of a.gpu_windows,
        div_mul_le a.overflow_bytes granularity,
        mul_add (window_slots a.gpu_windows) (a.overflow_bytes / granularity) granularity,
      ))

  carve_window-cursor :
      (arena numa gpu bytes : ℕ) (is_overflow : Bool) (c : Carving)
      → (carve_window granularity arena numa gpu is_overflow bytes c).cursor ≤ c.cursor + bytes
  unfolding carve_window add_window
  carve_window-cursor arena numa gpu bytes is_overflow c =
      elim (Bool-cases (bytes / granularity == 0)) [
        | inl e ↦ simp e (omega arith)
        | inr e ↦ simp e (omega (arith, div_mul_le bytes granularity))
      ]

  gpu_windows-cursor :
      (arena numa : ℕ) (ws : List GpuWindowConfig) (c : Carving)
      → (carve_gpu_windows granularity arena numa ws c).cursor ≤ c.cursor + bytes_of ws
  unfolding carve_gpu_windows
  gpu_windows-cursor arena numa [] c = omega arith
  gpu_windows-cursor arena numa (w ∷ ws) c = omega (
    arith,
    gpu_windows-cursor arena numa ws
        (carve_window granularity arena numa w.gpu false w.size_bytes c),
    carve_window-cursor arena numa w.gpu w.size_bytes false c,
  )

  carve_window-count :
      (arena numa gpu bytes : ℕ) (is_overflow : Bool) (c : Carving)
      → c.global_slot + bytes / granularity < 2 ^ 32
      → (carve_window granularity arena numa gpu is_overflow bytes c).global_slot
        ≡ c.global_slot + bytes / granularity
  unfolding carve_window add_window
  carve_window-count arena numa gpu bytes is_overflow c h =
      elim (Bool-cases (bytes / granularity == 0)) [
        | inl e ↦ simp e (ground (arith, e))
        | inr e ↦ simp e (omega arith)
      ]

  gpu_windows-count :
      (arena numa : ℕ) (ws : List GpuWindowConfig) (c : Carving)
      → c.global_slot + window_slots ws < 2 ^ 32
      → (carve_gpu_windows granularity arena numa ws c).global_slot
        ≡ c.global_slot + window_slots ws
  unfolding carve_gpu_windows
  gpu_windows-count arena numa [] c h = omega arith
  gpu_windows-count arena numa (w ∷ ws) c h =
      let c' = carve_window granularity arena numa w.gpu false w.size_bytes c in
      let one = carve_window-count arena numa w.gpu w.size_bytes false c (omega arith) in
      omega (arith, one, gpu_windows-count arena numa ws c' (omega (arith, one)))

module _ (granularity : ℕ) (sizes : ℕ → ℕ) where
  carve_window-Carved :
      (arena start numa gpu bytes : ℕ) (is_overflow : Bool) (c : Carving)
      → c.global_slot + bytes / granularity < 2 ^ 32
      → Carved granularity sizes arena start c
      → Carved granularity sizes arena start
          (carve_window granularity arena numa gpu is_overflow bytes c)
  unfolding carve_window
  carve_window-Carved arena start numa gpu bytes is_overflow c below v =
      elim (Bool-cases (bytes / granularity == 0)) [
        | inl e ↦ simp e v
        | inr e ↦ simp e (
            add_window-Carved granularity sizes arena numa
              (if is_overflow then overflow_gpu else gpu) (bytes / granularity) is_overflow c below
              start v)
      ]

  gpu_windows-Carved :
      (arena start numa : ℕ) (ws : List GpuWindowConfig) (c : Carving)
      → c.global_slot + window_slots granularity ws < 2 ^ 32
      → Carved granularity sizes arena start c
      → Carved granularity sizes arena start (carve_gpu_windows granularity arena numa ws c)
  unfolding carve_gpu_windows
  gpu_windows-Carved arena start numa [] c below v = v
  gpu_windows-Carved arena start numa (w ∷ ws) c below v =
      let one =
        carve_window-count granularity arena numa w.gpu w.size_bytes false c (omega arith) in
      gpu_windows-Carved arena start numa ws _ (omega (arith, one))
        (carve_window-Carved arena start numa w.gpu w.size_bytes false c (omega arith) v)

  -- nothing is carved in arena number `arena` yet
  abbrev Ready : ℕ → Carving → Type 0
  Ready arena c = Carved granularity sizes arena c.global_slot (record c { cursor = 0 })

  finished :
      (arena start : ℕ) (c : Carving)
      → Carved granularity sizes arena start c
      → c.cursor ≤ sizes arena
      → Ready (suc arena) c
  finished arena start c v h = record {
    ahead = omega arith;
    at_cursor = omega arith;
    earlier = λ id g. elim (dec_lt id start) [
      | yes before ↦ omega (arith, v.earlier id before)
      | no after ↦ omega (arith, v.here id (omega arith) g)
    ];
    here = λ id g k. absurd (omega arith);
    free = v.free;
    apart = v.apart;
    inside = λ id g. elim (dec_lt id start) [
      | yes before ↦ v.inside id before
      | no after ↦
          let (arena_e, offset_e) = v.here id (omega arith) g in
          rw arena_e (
            omega (
              arith,
              offset_e,
              v.at_cursor,
              h,
              mul_mono (suc id) c.global_slot granularity g,
              suc_mul granularity sizes id,
            ))
    ];
  }

  module _ (arena : ℕ) (a : NumaArenaConfig)
      (fits : bytes_of a.gpu_windows + a.overflow_bytes ≤ sizes arena) (pos : 0 < granularity)
      (c : Carving) (below : c.global_slot + sizes arena / granularity < 2 ^ 32)
      (ready : Ready arena c) where
    abbrev carved : Carving
    carved = carve_arena granularity arena a c

    abbrev begun : Carving
    begun = record c { cursor = 0 }

    counted :
        (carve_gpu_windows granularity arena a.numa_node a.gpu_windows begun).global_slot
        ≡ c.global_slot + window_slots granularity a.gpu_windows
    counted =
        gpu_windows-count granularity arena a.numa_node a.gpu_windows begun
          (omega (arith, below, arena_slots-fit granularity a (sizes arena) pos fits))

    carve_arena-Carved : Carved granularity sizes arena c.global_slot carved
    unfolding carve_arena
    carve_arena-Carved =
        let few = arena_slots-fit granularity a (sizes arena) pos fits in
        carve_window-Carved arena c.global_slot a.numa_node overflow_gpu a.overflow_bytes true _
          (omega (arith, below, few, counted))
          (gpu_windows-Carved arena c.global_slot a.numa_node a.gpu_windows begun
            (omega (arith, below, few)) ready)

    carve_arena-count : carved.global_slot ≤ c.global_slot + sizes arena / granularity
    unfolding carve_arena
    carve_arena-count =
        let few = arena_slots-fit granularity a (sizes arena) pos fits in
        omega (
          arith,
          few,
          counted,
          carve_window-count granularity arena a.numa_node overflow_gpu a.overflow_bytes true
              (carve_gpu_windows granularity arena a.numa_node a.gpu_windows begun)
              (omega (arith, below, few, counted)),
        )

    carve_arena-cursor : carved.cursor ≤ sizes arena
    unfolding carve_arena
    carve_arena-cursor = omega (
      arith,
      fits,
      carve_window-cursor granularity arena a.numa_node overflow_gpu a.overflow_bytes true
          (carve_gpu_windows granularity arena a.numa_node a.gpu_windows begun),
      gpu_windows-cursor granularity arena a.numa_node a.gpu_windows begun,
    )

  -- the arenas of the list have the sizes from number `arena` on
  abbrev Sizes : ℕ → List NumaArenaConfig → Type 0
  Sizes arena [] = Unit {0}
  Sizes arena (a ∷ rest) = (sizes arena ≡ a.size_bytes) × Sizes (suc arena) rest

  carve_arenas-Carved :
      (arena : ℕ) (arenas : List NumaArenaConfig) (c : Carving)
      → 0 < granularity
      → Sizes arena arenas
      → arenas_valid arenas ≡ true
      → SumsFit arenas
      → c.global_slot + slots_in granularity arenas < 2 ^ 32
      → Ready arena c
      → ((last : ℕ) × Ready last (carve_arenas granularity arena arenas c))
        × ((carve_arenas granularity arena arenas c).global_slot
            ≤ c.global_slot + slots_in granularity arenas)
  unfolding carve_arenas arenas_valid
  carve_arenas-Carved arena [] c pos sized valid fit below ready = ((arena, ready), omega arith)
  carve_arenas-Carved arena (a ∷ rest) c pos sized valid fit below ready =
      let within : bytes_of a.gpu_windows + a.overflow_bytes ≤ sizes arena =
        omega (arith, arena_fits a (ground arith) fit.0, sized) in
      let c' = carve_arena granularity arena a c in
      let same = ap (λ t. t / granularity) sized.0 in
      let here : c.global_slot + sizes arena / granularity < 2 ^ 32 = omega (arith, same) in
      let few = carve_arena-count arena a within pos c here ready in
      let done =
        finished arena c.global_slot c' (carve_arena-Carved arena a within pos c here ready)
          (carve_arena-cursor arena a within pos c here ready) in
      let (last, count) =
        carve_arenas-Carved (suc arena) rest c' pos sized.1 (ground arith) fit.1
          (omega (arith, few, same)) done in
      (last, omega (arith, count, few, same))

Sizes-size_at :
    (sizes : ℕ → ℕ) (granularity arena : ℕ) (arenas : List NumaArenaConfig)
    → ((i : ℕ) → sizes (arena + i) ≡ size_at arenas i)
    → Sizes granularity sizes arena arenas
Sizes-size_at sizes granularity arena [] e = tt
Sizes-size_at sizes granularity arena (a ∷ rest) e = (
  ap sizes (let z : arena ≡ arena + 0 = omega arith in z) ∙ e 0,
  Sizes-size_at sizes granularity (suc arena) rest
      (λ i. ap sizes (let z : suc arena + i ≡ arena + suc i = omega arith in z) ∙ e (suc i)),
)

-- The slots have room in the slot table, each is FREE and lies inside its arena, and no two of one
-- arena overlap.
pub record IsPlaced (granularity : ℕ) (arenas : List NumaArenaConfig) (c : Carving) : Type 0 where
  pub room : c.global_slot ≤ total_slots granularity arenas
  pub placed :
      (id : ℕ)
      → id < c.global_slot
      → (is_free (c.slots id).state ≡ true)
        × ((c.slots id).slot_id ≡ id)
        × ((c.slots id).capacity ≡ granularity)
        × ((c.slots id).arena_offset + granularity ≤ size_at arenas (c.slots id).arena_id)
  pub disjoint :
      (id j : ℕ)
      → id < j
      → j < c.global_slot
      → (c.slots id).arena_id ≡ (c.slots j).arena_id
      → (c.slots id).arena_offset + granularity ≤ (c.slots j).arena_offset

-- The plan of a configuration that load_config accepts has no more slots than the slot table has
-- room for; each slot is FREE, has its own id and lies inside its arena, and no two slots of one
-- arena overlap; provided that the 64-bit sums of the windows' sizes do not wrap and that the arenas have
-- room for fewer than 2^32 slots.
pub build_slot_plan-IsPlaced :
    (granularity : ℕ) (arenas : List NumaArenaConfig) (zeroed : ℕ → Slot)
    → config_valid granularity arenas ≡ true
    → SumsFit arenas
    → slots_in granularity arenas < 2 ^ 32
    → IsPlaced granularity arenas (build_slot_plan granularity arenas zeroed)
unfolding build_slot_plan config_valid
build_slot_plan-IsPlaced granularity [] zeroed valid fit below = absurd (ground arith)
build_slot_plan-IsPlaced granularity (a ∷ rest) zeroed valid fit below =
    let arenas : List NumaArenaConfig = a ∷ rest in
    let start : Carving = record {
      global_slot = 0;
      cursor = 0;
      windows = [];
      window_index = [];
      slots = zeroed;
    } in
    let ready : Ready granularity (size_at arenas) 0 start = record {
      ahead = omega arith;
      at_cursor = omega arith;
      earlier = λ id h. absurd (omega arith);
      here = λ id h g. absurd (omega arith);
      free = λ id h. absurd (omega arith);
      apart = λ id j h g e. absurd (omega arith);
      inside = λ id h. absurd (omega arith);
    } in
    let ((last, v), count) =
      carve_arenas-Carved granularity (size_at arenas) 0 arenas start (ground arith)
        (Sizes-size_at (size_at arenas) granularity 0 arenas
          (λ i. ap (size_at arenas) (let z : 0 + i ≡ i = omega arith in z)))
        (ground arith) fit (omega (arith, below)) ready in
    record {
      room = omega (arith, count, total_slots-slots_in granularity arenas below);
      placed = λ id h. let f = v.free id h in (f.0, f.1, f.2, v.inside id h);
      disjoint = v.apart;
    }
