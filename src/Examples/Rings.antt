-- ===== src/Examples/Rings.antt =====
-- The ring theorem on a ring of four places whose counters wrap.
use state_spectre.Prelude.{◌++◌, ℕ, ◌-◌, ◌^◌, ◌≡◌, refl, List, [], ◌∷◌, arith}
use state_spectre.Ring.{Completion, Ring, place, put_at}
use state_spectre.Ring.Spsc.{
  Spsc, Producer, Consumer, Steps, done, then_step, push_check, push_write, pop_check,
}
use state_spectre.Ring.Spsc.Fifo.{spsc_fifo}
use state_spectre.Ring.Refine.{
  IsValid, contents, RingOp, push, pop, run_ring, run_queue, run_refines,
}

abbrev entry : ℕ → Completion
entry n = record {
  lease_id = n;
  tensor_id = 0;
  version = 0;
  slot_id = 0;
  event_type = 1;
  timestamp_ns = 0;
}

-- one entry is pending, and the tail is about to wrap
abbrev about_to_wrap : Ring
about_to_wrap = record {
  capacity = 4;
  owner_rank = 0;
  rank_epoch = 1;
  head = 2 ^ 64 - 2;
  tail = 2 ^ 64 - 1;
  entries = entry;
}

about_to_wrap-IsValid : IsValid about_to_wrap
about_to_wrap-IsValid = record {
  log_cap = 2;
  pow = refl;
  small = omega arith;
  head_u64 = omega arith;
  tail_u64 = omega arith;
  fits = omega arith;
}

abbrev calls : List RingOp
calls =
    push (entry 8)
    ∷ push (entry 9)
    ∷ push (entry 10)
    ∷ push (entry 11)
    ∷ pop
    ∷ pop
    ∷ pop
    ∷ pop
    ∷ pop
    ∷ []

run_refines_example : run_ring about_to_wrap calls ≡ run_queue 4 (contents about_to_wrap) calls
run_refines_example = run_refines calls about_to_wrap-IsValid

-- the consumer starts while the producer has written but not published
abbrev start : Spsc
start = record {
  ring = about_to_wrap;
  producer = Producer.idle;
  consumer = Consumer.idle;
  pushed = entry 2 ∷ [];
  popped = [];
}

abbrev after_check : Spsc
after_check = record start { producer = Producer.checked (entry 8) }

abbrev after_write : Spsc
after_write = record after_check {
  producer = Producer.written (entry 8);
  ring = record about_to_wrap {
    entries = put_at entry (place about_to_wrap (2 ^ 64 - 1)) (entry 8);
  };
}

abbrev after_pop_check : Spsc
after_pop_check = record after_write { consumer = Consumer.checked }

abbrev interleaving : Steps start after_pop_check
interleaving =
    then_step
      (then_step (then_step (done start) (push_check start (entry 8) refl refl))
        (push_write after_check (entry 8) refl))
      (pop_check after_write refl refl)

start-fifo : start.pushed ≡ start.popped ++ contents start.ring
start-fifo = refl

spsc_fifo_example :
    (after_pop_check.pushed ≡ after_pop_check.popped ++ contents after_pop_check.ring)
    × IsValid after_pop_check.ring
spsc_fifo_example = spsc_fifo interleaving about_to_wrap-IsValid refl refl start-fifo
