-- ===== src/Examples/Layouts.antt =====
-- The arithmetic theorems at small sizes.
use state_spectre.Prelude.{◌+◌, ◌*◌, ◌%◌, ◌≤◌, ◌≡◌, arith, length}
use state_spectre.Layout.{
  compute_control_layout, layout_disjoint, header_size, arena_desc_size, slot_entry_size, cacheline,
}
use state_spectre.Stripes.{stripe_segments, stripe_segments_cover, sum}

layout_disjoint_example :
    let l = compute_control_layout 2 10 300 in
    (l.header_offset + header_size ≤ l.arena_desc_offset)
    × (l.arena_desc_offset + 2 * arena_desc_size ≤ l.slot_entries_offset)
    × (l.slot_entries_offset + 10 * slot_entry_size ≤ l.control_ring_offset)
    × (l.control_ring_offset + 300 ≤ l.total_bytes)
    × (l.arena_desc_offset % cacheline ≡ 0)
    × (l.slot_entries_offset % cacheline ≡ 0)
    × (l.control_ring_offset % cacheline ≡ 0)
    × (l.total_bytes % 4096 ≡ 0)
layout_disjoint_example = layout_disjoint 2 10 300 (omega arith) (omega arith) (omega arith)

stripe_segments_cover_example :
    (length (stripe_segments 3 100) ≡ 3) × (sum (stripe_segments 3 100) ≡ 100)
stripe_segments_cover_example = stripe_segments_cover 3 100 (omega arith)
