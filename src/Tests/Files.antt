-- ===== src/Tests/Files.antt =====
-- The descriptor cache on two files with a limit of one.
use immulog.Prelude.{◌≡◌, refl, none, some, List, [], ◌∷◌}
use immulog.Api.Errors.{ok}
use immulog.SegmentFiles.{SegmentFileEntry, SegmentFileCache, find, victim, better, evict}
use immulog.SegmentFiles.Entries.{IsDistinct}
use immulog.SegmentFiles.Victim.{victim_lem, In, IsLeast}
use immulog.SegmentFiles.Eviction.{Evicted, evict-Evicted}
use immulog.SegmentFiles.Operations.{acquire_pins, release_unpins, IsAcquired, IsReleased}
use immulog.SegmentFiles.Trace.{
  Operation, acquiring, releasing, closing_all, run-handles, IsCounted,
}

abbrev one : SegmentFileEntry
one = record { path = "1.log"; file = 3; refs = 1; used = 5 }

abbrev two : SegmentFileEntry
two = record { path = "2.log"; file = 4; refs = 0; used = 2 }

abbrev files : SegmentFileCache
files = record { limit = 1; clock = 5; entries = one ∷ two ∷ [] }

distinct : IsDistinct files.entries
unfolding find
distinct = (refl, (refl, tt))

evict-Evicted_example : Evicted 1 (one ∷ two ∷ []) [] (evict files).0.entries (evict files).1
evict-Evicted_example = evict-Evicted files distinct

two_found : victim none (one ∷ two ∷ []) ≡ some two
unfolding victim better
two_found = refl

victim_lem_example : In two (one ∷ two ∷ []) × (two.refs ≡ 0) × IsLeast two (one ∷ two ∷ [])
victim_lem_example = victim_lem (one ∷ two ∷ []) two two_found

acquire_pins_example : IsAcquired files "2.log" (ok 9)
acquire_pins_example = acquire_pins files "2.log" (ok 9) distinct

release_unpins_example : IsReleased files "1.log"
release_unpins_example = release_unpins files "1.log" distinct

abbrev operations : List Operation
operations =
    acquiring "1.log" (ok 3) ∷ acquiring "2.log" (ok 4) ∷ releasing "1.log" ∷ closing_all ∷ []

run-handles_example : IsCounted 1 operations
run-handles_example = run-handles 1 operations
