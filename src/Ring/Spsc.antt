-- ===== src/Ring/Spsc.antt =====
-- src/common/completion_ring.h: one producer and one consumer at the same time. A step is one access to
-- the shared ring: the load of the other side's index with its test, the entry, the store of the own index.
-- The acquire and release orders of the code make the accesses of a side appear in program order.
pub mod Fifo
use state_spectre.Prelude.{
  ℕ, zero, suc, ◌+◌, ◌-◌, ◌%◌, ◌^◌, ◌≤◌, ◌<◌, ◌≡◌, ◌≢◌, refl, sym, ap, subst, ◌∙◌, Bool, true,
  false, List, [], ◌∷◌, ◌++◌, Option, none, some, arith, length, ltb, ◌==◌, if◌then◌else◌,
  Bool-cases, inl, inr, nat_eq,
}
use state_spectre.Ring.{Ring, Completion, u64, sub_u64, place, put_at, ring_pop}
use state_spectre.Ring.Refine.{
  IsValid, contents, window, place_lem, tail-mod, place-ne, capacity_pos, capacity-le, pending-suc,
  pending-pred, pop_refines, pop-IsValid, queue_pop,
}

-- Where ring_push stands: before it, after the test, after the entry is written.
pub data Producer : Type 0 where
  idle : Producer
  checked written : Completion → Producer

-- Where ring_pop stands.
pub data Consumer : Type 0 where
  idle checked : Consumer
  has_read : Completion → Consumer

-- The ring with the two sides, what was pushed and what was popped so far.
pub record Spsc : Type 0 where
  pub ring : Ring
  pub producer : Producer
  pub consumer : Consumer
  pub pushed : List Completion
  pub popped : List Completion

pub data Step : Spsc → Spsc → Type 0 where
  push_check :
      (s : Spsc) (e : Completion)
      → s.producer ≡ Producer.idle
      → ltb (sub_u64 s.ring.tail s.ring.head) s.ring.capacity ≡ true
      → Step s (record s { producer = Producer.checked e })
  push_write :
      (s : Spsc) (e : Completion)
      → s.producer ≡ Producer.checked e
      → Step s (record s {
        producer = Producer.written e;
        ring = record s.ring { entries = put_at s.ring.entries (place s.ring s.ring.tail) e };
      })
  push_publish :
      (s : Spsc) (e : Completion)
      → s.producer ≡ Producer.written e
      → Step s (record s {
        producer = Producer.idle;
        ring = record s.ring { tail = (s.ring.tail + 1) % u64 };
        pushed = s.pushed ++ (e ∷ []);
      })
  pop_check :
      (s : Spsc)
      → s.consumer ≡ Consumer.idle
      → (s.ring.head == s.ring.tail) ≡ false
      → Step s (record s { consumer = Consumer.checked })
  pop_read :
      (s : Spsc)
      → s.consumer ≡ Consumer.checked
      → Step s
          (record s { consumer = Consumer.has_read (s.ring.entries (place s.ring s.ring.head)) })
  pop_publish :
      (s : Spsc) (e : Completion)
      → s.consumer ≡ Consumer.has_read e
      → Step s (record s {
        consumer = Consumer.idle;
        ring = record s.ring { head = (s.ring.head + 1) % u64 };
        popped = s.popped ++ (e ∷ []);
      })

-- any interleaving
pub data Steps : Spsc → Spsc → Type 0 where
  done : (s : Spsc) → Steps s s
  then_step : {s t u : Spsc} → Steps s t → Step t u → Steps s u
