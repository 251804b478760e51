-- ===== src/Slots/Alloc.antt =====
-- src/daemon/daemon.cpp: try_alloc_in_window and allocate_slots against the runs of FREE slots that there are.
use state_spectre.Prelude.{
  ℕ, zero, suc, ◌+◌, ◌-◌, ◌≤◌, ◌<◌, ◌≡◌, refl, sym, ◌∙◌, ◌⊎◌, inl, inr, Bool, true, false, Option,
  none, some, List, [], ◌∷◌, leb, ltb, implies, ◌==◌, arith, length, get_or, Option-cases,
  Bool-cases, nat_eq,
}
use native.Mathlib.Decide.{dec_lt}
use state_spectre.State.{is_free, Daemon, Window, has_allow_remote_numa}
use state_spectre.Prelude.Table.{find}
use state_spectre.Slots.{
  slot_state, busy_at, alloc_scan, try_alloc_in_window, first_window, or_else, window_at,
  window_key, overflow_gpu, try_win, local_slots, remote_slots, slots_for_bytes, allocate_slots,
  not_peer,
}

abbrev pub id_at : Window → ℕ → ℕ
id_at w i = get_or w.slot_ids i 0

-- `count` slots of the window from position i on are FREE.
pub record FreeRun (d : Daemon) (w : Window) (count i : ℕ) : Type 0 where
  pub inside : i + count ≤ length w.slot_ids
  pub all_free : (k : ℕ) → implies (ltb k count) (is_free (slot_state d (id_at w (i + k)))) ≡ true

module _ (d : Daemon) (ids : List ℕ) where
  busy_at-none :
      (i k n j : ℕ)
      → busy_at d ids i k n ≡ none
      → k ≤ j
      → j < k + n
      → is_free (slot_state d (get_or ids (i + j) 0)) ≡ true
  unfolding busy_at
  busy_at-none i k zero j h p q = absurd (omega arith)
  busy_at-none i k (suc n) j h p q = elim (Bool-cases (k == j)) [
    | inl here ↦ ground arith
    | inr later ↦ ground (arith, busy_at-none i (suc k) n j)
  ]

  busy_at-some :
      (i k n : ℕ) {j : ℕ}
      → busy_at d ids i k n ≡ some j
      → (k ≤ j) × (j < k + n) × (is_free (slot_state d (get_or ids (i + j) 0)) ≡ false)
  unfolding busy_at
  busy_at-some i k zero h = ground arith
  busy_at-some i k (suc n) {j} h = ground (arith, busy_at-some i (suc k) n {j = j})

  abbrev pub RunAt : ℕ → ℕ → Type 0
  RunAt count i =
      (i + count ≤ length ids)
      × ((k : ℕ) → k < count → is_free (slot_state d (get_or ids (i + k) 0)) ≡ true)

  alloc_scan_sound :
      (count fuel i : ℕ) {b : ℕ}
      → alloc_scan d ids count fuel i ≡ some b
      → (j : ℕ) × (b ≡ get_or ids j 0) × RunAt count j
  unfolding alloc_scan
  alloc_scan_sound count zero i h = cc
  alloc_scan_sound count (suc fuel) i h = elim (Bool-cases (leb (i + count) (length ids))) [
    | inl fits ↦ elim (Option-cases (busy_at d ids i 0 count)) [
      | inl clear ↦ (
        i,
        ground arith,
        (ground arith, λ k p. busy_at-none i 0 count k clear (omega arith) (omega arith)),
      )
      | inr (k, busy) ↦ alloc_scan_sound count fuel (i + k + 1) (rw (fits, busy, alloc_scan) at h)
    ]
    | inr out ↦ cc (rw (out, alloc_scan) at h)
  ]

  -- Every start that the scan passes over has a busy slot in its run.
  alloc_scan_complete :
      (count fuel i : ℕ)
      → length ids < i + fuel
      → alloc_scan d ids count fuel i ≡ none
      → (j : ℕ) → i ≤ j
      → ¬ RunAt count j
  unfolding alloc_scan
  alloc_scan_complete count zero i enough h j p run = absurd (omega (arith, run.0))
  alloc_scan_complete count (suc fuel) i enough h j p run =
      elim (Bool-cases (leb (i + count) (length ids))) [
        | inl fits ↦ elim (Option-cases (busy_at d ids i 0 count)) [
          | inl clear ↦ cc (rw (fits, clear, alloc_scan) at h)
          | inr (k, busy) ↦ elim (dec_lt (i + k) j) [
            | yes past ↦
                alloc_scan_complete count fuel (i + k + 1) (omega arith)
                  (rw (fits, busy, alloc_scan) at h) j (omega arith) run
            | no before ↦
                let found = busy_at-some i 0 count busy in
                let same : j + (i + k - j) ≡ i + k = omega arith in
                let free = run.1 (i + k - j) (omega arith) in cc (found.2, rw same at free)
          ]
        ]
        | inr out ↦ absurd (ground (arith, run.0))
      ]

-- A slot that the window search returns starts a run of free slots of the window.
try_alloc_sound :
    (d : Daemon) (w : Window) (count : ℕ) {b : ℕ}
    → try_alloc_in_window d w count ≡ some b
    → (i : ℕ) × (b ≡ id_at w i) × FreeRun d w count i
unfolding try_alloc_in_window
try_alloc_sound d w count {b} h =
    let found =
      alloc_scan_sound d w.slot_ids count (suc (length w.slot_ids)) 0 {b = b} (ground arith) in
    (found.0, found.1, record { inside = found.2.0; all_free = λ k. ground (arith, found.2.1 k) })

-- If it returns nothing, the window has no free run of that length.
try_alloc_complete :
    (d : Daemon) (w : Window) (count i : ℕ)
    → try_alloc_in_window d w count ≡ none
    → ¬ FreeRun d w count i
unfolding try_alloc_in_window
try_alloc_complete d w count i h run = elim (Bool-cases (ltb (length w.slot_ids) count)) [
  | inl small ↦ absurd (ground (arith, run.inside))
  | inr room ↦
      alloc_scan_complete d w.slot_ids count (suc (length w.slot_ids)) 0 (omega arith)
        (rw (room, try_alloc_in_window) at h) i (omega arith)
        (run.inside, λ k p. ground (arith, run.all_free k))
]

-- A window of the daemon has a free run, which starts at slot `b`.
abbrev pub Offers : Daemon → ℕ → ℕ → Type 0
Offers d count b =
    (x : ℕ) × (w : Window) × (window_at d.windows x ≡ some w)
    × (i : ℕ) × (b ≡ id_at w i)
    × FreeRun d w count i

first_window_sound :
    (d : Daemon) (count : ℕ) (skip : Window → Bool) (ws : List Window) {b : ℕ}
    → first_window d count skip ws ≡ some b
    → (x : ℕ) × (w : Window) × (window_at ws x ≡ some w) × (try_alloc_in_window d w count ≡ some b)
unfolding first_window
first_window_sound d count skip [] h = cc
first_window_sound d count skip (w ∷ ws) {b} h = elim (Bool-cases (skip w)) [
  | inl skipped ↦ later (first_window_sound d count skip ws (rw (skipped) at h))
  | inr tried ↦ elim (Option-cases (try_alloc_in_window d w count)) [
    | inl full ↦ later (first_window_sound d count skip ws (rw (tried, full) at h))
    | inr (a, got) ↦ (0, w, refl, ground arith)
  ]
]
  where
    later :
        (x : ℕ) × (v : Window) × (window_at ws x ≡ some v)
          × (try_alloc_in_window d v count ≡ some b)
        → (x : ℕ) × (v : Window) × (window_at (w ∷ ws) x ≡ some v)
          × (try_alloc_in_window d v count ≡ some b)
    later (x, v, at, got) = (suc x, v, at, got)

first_window_complete :
    (d : Daemon) (count : ℕ) (skip : Window → Bool) (ws : List Window)
    → first_window d count skip ws ≡ none
    → (x : ℕ) (w : Window) → window_at ws x ≡ some w
    → skip w ≡ false
    → try_alloc_in_window d w count ≡ none
unfolding first_window
first_window_complete d count skip [] h x w at s = cc
first_window_complete d count skip (v ∷ ws) h zero w at s = ground arith
first_window_complete d count skip (v ∷ ws) h (suc x) w at s =
    ground (arith, first_window_complete d count skip ws (ground arith) x w)

-- `window_index_` has every window under its NUMA node and GPU, and an overflow window has no GPU.
pub record WellIndexed (d : Daemon) : Type 0 where
  pub indexed :
      (x : ℕ) (w : Window)
      → window_at d.windows x ≡ some w
      → find (window_key w.numa_node w.gpu) d.window_index ≡ some x
  pub overflow :
      (x : ℕ) (w : Window)
      → window_at d.windows x ≡ some w
      → w.is_overflow ≡ true
      → w.gpu ≡ overflow_gpu

try_win_sound :
    (d : Daemon) (count numa gpu : ℕ) {b : ℕ}
    → try_win d count numa gpu ≡ some b
    → (x : ℕ) × (w : Window) × (window_at d.windows x ≡ some w)
      × (try_alloc_in_window d w count ≡ some b)
try_win_sound d count numa gpu h = elim (Option-cases (find (window_key numa gpu) d.window_index)) [
  | inl missing ↦ cc (rw (missing, try_win) at h)
  | inr (x, at) ↦ elim (Option-cases (window_at d.windows x)) [
    | inl out ↦ cc (rw (at, out, try_win) at h)
    | inr (w, here) ↦ (x, w, here, rw (at, here, try_win) at h)
  ]
]

try_win_complete :
    (d : Daemon) (count x : ℕ) (w : Window)
    → WellIndexed d
    → window_at d.windows x ≡ some w
    → try_win d count w.numa_node w.gpu ≡ none
    → try_alloc_in_window d w count ≡ none
try_win_complete d count x w v at h = rw (v.indexed x w at, at, try_win) at h

or_else-some {ℓ} :
    {A : Type ℓ} (o p : Option A) {b : A} → or_else o p ≡ some b → (o ≡ some b) ⊎ (p ≡ some b)
or_else-some none p h = inr h
or_else-some (some a) p h = inl h

or_else-none {ℓ} : {A : Type ℓ} (o p : Option A) → or_else o p ≡ none → (o ≡ none) × (p ≡ none)
or_else-none none p h = (refl, h)
or_else-none (some a) p h = cc

module _ (d : Daemon) (gpu numa nbytes flags : ℕ) where
  -- what the search found, or none
  searched :
      (allocate_slots gpu numa nbytes flags d).0
      ≡ or_else
          (local_slots d (slots_for_bytes d nbytes) gpu numa)
          (remote_slots d (slots_for_bytes d nbytes) numa flags)
  unfolding allocate_slots
  searched = ground arith

  found_in :
      {b : ℕ}
      → or_else
          (local_slots d (slots_for_bytes d nbytes) gpu numa)
          (remote_slots d (slots_for_bytes d nbytes) numa flags)
        ≡ some b
      → (x : ℕ) × (w : Window) × (window_at d.windows x ≡ some w)
        × (try_alloc_in_window d w (slots_for_bytes d nbytes) ≡ some b)
  unfolding local_slots remote_slots
  found_in h =
      elim (or_else-some (local_slots d count gpu numa) (remote_slots d count numa flags) h) [
        | inl near ↦ elim (or_else-some (try_win d count numa gpu) _ near) [
          | inl own ↦ try_win_sound d count numa gpu own
          | inr other ↦ elim (or_else-some (try_win d count numa overflow_gpu) _ other) [
            | inl spare ↦ try_win_sound d count numa overflow_gpu spare
            | inr peer ↦ first_window_sound d count (not_peer numa gpu) d.windows peer
          ]
        ]
        | inr far ↦ elim (Bool-cases (has_allow_remote_numa flags)) [
          | inl allowed ↦
              first_window_sound d count (λ w. w.numa_node == numa) d.windows (rw (allowed) at far)
          | inr not_allowed ↦ cc (rw (not_allowed) at far)
        ]
      ]
    where
      count : ℕ
      count = slots_for_bytes d nbytes

  -- The slot that allocate_slots returns starts a run of enough FREE slots of one window.
  pub allocate_slots_sound :
      {b : ℕ}
      → (allocate_slots gpu numa nbytes flags d).0 ≡ some b
      → Offers d (slots_for_bytes d nbytes) b
  allocate_slots_sound {b} h =
      let (x, w, at, got) = found_in (sym searched ∙ h) in
      let (i, e, run) = try_alloc_sound d w (slots_for_bytes d nbytes) got in (x, w, at, i, e, run)

  -- If the allocator refuses a request that may go to remote NUMA nodes, no window of a well-indexed
  -- daemon has a run of enough FREE slots.
  pub allocate_slots_complete :
      WellIndexed d
      → has_allow_remote_numa flags ≡ true
      → (allocate_slots gpu numa nbytes flags d).0 ≡ none
      → (x i : ℕ) (w : Window) → window_at d.windows x ≡ some w
      → ¬ FreeRun d w (slots_for_bytes d nbytes) i
  unfolding local_slots remote_slots
  allocate_slots_complete v remote h x i w at =
      let count = slots_for_bytes d nbytes in
      let (near, far) =
        or_else-none (local_slots d count gpu numa) (remote_slots d count numa flags)
          (sym searched ∙ h) in
      let (own, other) = or_else-none (try_win d count numa gpu) _ near in
      let (spare, peer) = or_else-none (try_win d count numa overflow_gpu) _ other in
      let left = first_window_complete d count (not_peer numa gpu) d.windows peer x w at in
      let away =
        first_window_complete d count (λ u. u.numa_node == numa) d.windows (rw remote at far) x w
          at in
      let own_full = λ (e : (w.numa_node ≡ numa) × (w.gpu ≡ gpu)).
        try_win_complete d count x w v at (rw (e.0, e.1) own) in
      let spare_full = λ (e : (w.numa_node ≡ numa) × (w.gpu ≡ overflow_gpu)).
        try_win_complete d count x w v at (rw (e.0, e.1) spare) in
      try_alloc_complete d w count i
        (ground (arith, left, away, own_full, spare_full, v.overflow x w at))
