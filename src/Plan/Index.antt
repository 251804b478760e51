-- ===== src/Plan/Index.antt =====
-- src/daemon/daemon.cpp: under what key build_slot_plan enters the windows.
use state_spectre.Prelude.{
  ◌⊎◌, ℕ, zero, suc, ◌/◌, ◌≡◌, refl, sym, ap, ◌∙◌, inl, inr, Bool, true, false, ◌&&◌, not, some,
  List, [], ◌∷◌, ◌++◌, length, ◌==◌, if◌then◌else◌, mem, arith, nat_eq, Bool-cases,
}
use mathlib.Core.Option.{some-injective}
use state_spectre.Prelude.Table.{find, insert, find-insert}
use state_spectre.State.{Daemon, Slot, Window}
use state_spectre.Slots.{overflow_gpu, window_key, window_at}
use state_spectre.Slots.Alloc.{WellIndexed}
use state_spectre.Plan.{
  GpuWindowConfig, NumaArenaConfig, Carving, add_window, carve_window, carve_gpu_windows,
  carve_arena, carve_arenas, build_slot_plan, planned, ids_from,
}

abbrev pub distinct : List ℕ → Bool
distinct [] = true
distinct (k ∷ ks) = not (mem k ks) && distinct ks

-- The keys of the windows that have a slot, in the order in which they are carved.
module _ (granularity : ℕ) where
  abbrev pub key_if : ℕ → ℕ → List ℕ → List ℕ
  key_if bytes key ks = if bytes / granularity == 0 then ks else key ∷ ks

  abbrev pub gpu_keys : ℕ → List GpuWindowConfig → List ℕ → List ℕ
  gpu_keys numa [] ks = ks
  gpu_keys numa (w ∷ ws) ks = key_if w.size_bytes (window_key numa w.gpu) (gpu_keys numa ws ks)

  abbrev pub window_keys : List NumaArenaConfig → List ℕ
  window_keys [] = []
  window_keys (a ∷ rest) =
      gpu_keys a.numa_node a.gpu_windows
        (key_if a.overflow_bytes (window_key a.numa_node overflow_gpu) (window_keys rest))

-- The windows so far are indexed, and none has a key that is still to come.
record Indexed (ks : List ℕ) (c : Carving) : Type 0 where
  to_come : distinct ks ≡ true
  other :
      (x : ℕ) (w : Window)
      → window_at c.windows x ≡ some w
      → mem (window_key w.numa_node w.gpu) ks ≡ false
  indexed :
      (x : ℕ) (w : Window)
      → window_at c.windows x ≡ some w
      → find (window_key w.numa_node w.gpu) c.window_index ≡ some x
  overflow :
      (x : ℕ) (w : Window)
      → window_at c.windows x ≡ some w
      → w.is_overflow ≡ true
      → w.gpu ≡ overflow_gpu

-- the windows with one more at the end
window_at-snoc :
    (ws : List Window) (w : Window) (x : ℕ) (u : Window)
    → window_at (ws ++ (w ∷ [])) x ≡ some u
    → (window_at ws x ≡ some u) ⊎ ((x ≡ length ws) × (w ≡ u))
window_at-snoc [] w zero u e = inr (refl, some-injective _ _ e)
window_at-snoc [] w (suc x) u e = cc
window_at-snoc (v ∷ ws) w zero u e = inl e
window_at-snoc (v ∷ ws) w (suc x) u e = elim (window_at-snoc ws w x u e) [
  | inl old ↦ inl old
  | inr (last, same) ↦ inr (omega (arith, last), same)
]

add_window-Indexed :
    (granularity arena numa gpu n : ℕ) (is_overflow : Bool) (ks : List ℕ) (c : Carving)
    → (is_overflow ≡ true → gpu ≡ overflow_gpu)
    → Indexed (window_key numa gpu ∷ ks) c
    → Indexed ks (add_window granularity arena numa gpu is_overflow n c)
unfolding add_window
add_window-Indexed granularity arena numa gpu n is_overflow ks c marked v =
    let key = window_key numa gpu in
    let w : Window = record {
      numa_node = numa;
      gpu = gpu;
      is_overflow = is_overflow;
      slot_ids = ids_from c.global_slot n;
    } in
    record {
      to_come = ground (arith, v.to_come);
      other = λ x u e. elim (window_at-snoc c.windows w x u e) [
        | inl old ↦ ground (arith, v.other x u old)
        | inr (last, same) ↦
            ap (λ (t : Window). mem (window_key t.numa_node t.gpu) ks) (sym same)
            ∙ ground (arith, v.to_come)
      ];
      indexed = λ x u e. elim (window_at-snoc c.windows w x u e) [
        | inl old ↦
            find-insert key (window_key u.numa_node u.gpu) (length c.windows) c.window_index
            ∙ ground (arith, v.other x u old, v.indexed x u old)
        | inr (last, same) ↦
            ap
              (λ (t : Window).
                find (window_key t.numa_node t.gpu) (insert key (length c.windows) c.window_index))
              (sym same)
            ∙ find-insert key key (length c.windows) c.window_index
            ∙ ground (arith, last)
      ];
      overflow = λ x u e h. elim (window_at-snoc c.windows w x u e) [
        | inl old ↦ v.overflow x u old h
        | inr (last, same) ↦
            ap (λ (t : Window). t.gpu) (sym same)
            ∙ marked (ap (λ (t : Window). t.is_overflow) same ∙ h)
      ];
    }

carve_window-Indexed :
    (granularity arena numa gpu bytes : ℕ) (is_overflow : Bool) (ks : List ℕ) (c : Carving)
    → Indexed
        (key_if granularity bytes (window_key numa (if is_overflow then overflow_gpu else gpu)) ks)
        c
    → Indexed ks (carve_window granularity arena numa gpu is_overflow bytes c)
unfolding carve_window
carve_window-Indexed granularity arena numa gpu bytes is_overflow ks c v =
    let g = if is_overflow then overflow_gpu else gpu in
    elim (Bool-cases (bytes / granularity == 0)) [
      | inl e ↦ simp e (simp e at v)
      | inr e ↦ simp e (
          add_window-Indexed granularity arena numa g (bytes / granularity) is_overflow ks c
            (λ h. ground (arith, h)) (simp e at v))
    ]

gpu_windows-Indexed :
    (granularity arena numa : ℕ) (ws : List GpuWindowConfig) (ks : List ℕ) (c : Carving)
    → Indexed (gpu_keys granularity numa ws ks) c
    → Indexed ks (carve_gpu_windows granularity arena numa ws c)
unfolding carve_gpu_windows
gpu_windows-Indexed granularity arena numa [] ks c v = v
gpu_windows-Indexed granularity arena numa (w ∷ ws) ks c v =
    gpu_windows-Indexed granularity arena numa ws ks _
      (carve_window-Indexed granularity arena numa w.gpu w.size_bytes false _ c v)

carve_arenas-Indexed :
    (granularity arena : ℕ) (arenas : List NumaArenaConfig) (c : Carving)
    → Indexed (window_keys granularity arenas) c
    → Indexed [] (carve_arenas granularity arena arenas c)
unfolding carve_arenas carve_arena
carve_arenas-Indexed granularity arena [] c v = v
carve_arenas-Indexed granularity arena (a ∷ rest) c v =
    let begun : Carving = record c { cursor = 0 } in
    let v' : Indexed (window_keys granularity (a ∷ rest)) begun = record {
      to_come = v.to_come;
      other = v.other;
      indexed = v.indexed;
      overflow = v.overflow;
    } in
    carve_arenas-Indexed granularity (suc arena) rest _ (
      carve_window-Indexed granularity arena a.numa_node overflow_gpu a.overflow_bytes true _ _
        (gpu_windows-Indexed granularity arena a.numa_node a.gpu_windows _ begun v'))

-- If no two windows with a slot are for the same NUMA node and GPU, the index that the plan builds
-- leads to every window, which is what the completeness of the allocator asks for.
pub build_slot_plan-WellIndexed :
    (granularity : ℕ) (arenas : List NumaArenaConfig) (zeroed : ℕ → Slot) (d : Daemon)
    → distinct (window_keys granularity arenas) ≡ true
    → WellIndexed (planned d (build_slot_plan granularity arenas zeroed))
unfolding build_slot_plan
build_slot_plan-WellIndexed granularity arenas zeroed d h =
    let start : Carving = record {
      global_slot = 0;
      cursor = 0;
      windows = [];
      window_index = [];
      slots = zeroed;
    } in
    let v = carve_arenas-Indexed granularity 0 arenas start (record {
      to_come = h;
      other = λ x w e. cc;
      indexed = λ x w e. cc;
      overflow = λ x w e g. cc;
    }) in
    record { indexed = v.indexed; overflow = v.overflow }
