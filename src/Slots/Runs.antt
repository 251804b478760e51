-- ===== src/Slots/Runs.antt =====
-- src/daemon/daemon.cpp: what the loops over runs of slots write, and what they leave alone.
use state_spectre.Prelude.{ℕ, zero, suc, ◌+◌, ◌-◌, ◌≡◌, ◌&&◌, Bool, leb, ltb, if◌then◌else◌, arith}
use state_spectre.State.{Slot}
use state_spectre.Slots.{for_run, put}

abbrev pub in_run : ℕ → ℕ → ℕ → Bool
in_run base count id = leb base id && ltb id (base + count)

for_run_from :
    (f : ℕ → Slot → Slot) (base k n : ℕ) (s : ℕ → Slot) (id : ℕ)
    → for_run f base k n s id ≡ (if in_run (base + k) n id then f (id - base) (s id) else s id)
unfolding for_run
for_run_from f base k zero s id = ground arith
for_run_from f base k (suc n) s id =
    ground (arith, for_run_from f base (suc k) n (put s (base + k) (f k (s (base + k)))) id)

-- The loop writes each slot of the run once, and no other.
pub for_run_lem :
    (f : ℕ → Slot → Slot) (base n : ℕ) (s : ℕ → Slot) (id : ℕ)
    → for_run f base 0 n s id ≡ (if in_run base n id then f (id - base) (s id) else s id)
for_run_lem f base n s id = ground (arith, for_run_from f base 0 n s id)
