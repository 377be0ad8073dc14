-- ===== src/Netpack/Tests.antt =====
-- Packets at concrete inputs.
use jump.Base.{
  ℕ, ◌≤◌, ◌<◌, ◌≡◌, arith, refl, none, some, List, [], ◌∷◌, ◌++◌, length-replicate, ◌==◌,
  if◌then◌else◌,
}
use jump.Netpack.{
  Netpack, Queue, Message, new_queue, blank, queue_size, filter_data, pack, copy_ring,
}
use jump.Netpack.Ring.{contents}
use jump.Netpack.Chain.{pending, pending_in}
use jump.Netpack.Frames.{split, frames, packet_first}
use jump.Netpack.Filter.{IsValid}
use jump.Netpack.Stream.{Filters, filter_data_lem}
use jump.Netpack.Delivery.{deliver_all, deliver_all_lem, Delivers}
use jump.Netpack.Pack.{pack_lem}

new-IsValid : IsValid new_queue
new-IsValid = record {
  ring = record { len = length-replicate queue_size blank; head = omega arith; tail = omega arith };
  table = λ h. tt;
}

new-empty : contents new_queue ≡ []
unfolding contents copy_ring
new-empty = refl

-- A packet of two bytes and the first byte of a header
abbrev bytes : List ℕ
bytes = 0 ∷ 2 ∷ 7 ∷ 8 ∷ 1 ∷ []

frames_compute : frames bytes ≡ record { packets = (7 ∷ 8 ∷ []) ∷ []; rest = 1 ∷ [] }
unfolding split
frames_compute = refl

filter_data_lem_example :
    (m : Message) × (r : Queue) × (filter_data new_queue 5 bytes ≡ some (m, r))
    × Filters new_queue 5 (frames bytes) m r
unfolding pending pending_in
filter_data_lem_example =
    filter_data_lem new_queue 5 bytes new-IsValid
      (omega arith, (omega arith, (omega arith, (omega arith, (omega arith, tt))))) (λ e. cc)

-- The packet of descriptor 5 comes in two pieces, with data of descriptor 6 between them.
abbrev events : List (ℕ × List ℕ)
events = (5, 0 ∷ []) ∷ (6, 0 ∷ 1 ∷ 9 ∷ []) ∷ (5, 2 ∷ 7 ∷ 8 ∷ 1 ∷ []) ∷ []

deliver_all_lem_example :
    (xs : List Netpack) × (r : Queue) × (deliver_all new_queue events ≡ some (xs, r))
    × Delivers new_queue events xs r
    × IsValid r
    × (contents r ≡ [])
deliver_all_lem_example = deliver_all_lem new_queue events new-IsValid new-empty (
  λ e. cc,
  (omega arith, tt),
  (
    λ e. cc,
    (omega arith, (omega arith, (omega arith, tt))),
    (λ e. cc, (omega arith, (omega arith, (omega arith, (omega arith, tt)))), tt),
  ),
)

pack_lem_example :
    (0x10000 < 2 → pack (7 ∷ 8 ∷ []) ≡ none)
    × (2 ≤ 0x10000
        → (p : List ℕ) × (pack (7 ∷ 8 ∷ []) ≡ some p)
          × (frames (p ++ (1 ∷ [])) ≡ (
              if 2 == 0x10000
              then packet_first [] (frames (7 ∷ 8 ∷ 1 ∷ []))
              else packet_first (7 ∷ 8 ∷ []) (frames (1 ∷ [])))))
pack_lem_example = pack_lem (7 ∷ 8 ∷ []) (1 ∷ [])
