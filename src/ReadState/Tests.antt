-- ===== src/ReadState/Tests.antt =====
-- One user who reads two messages of a channel.
use cse356_discord.Common.{
  ◌≤◌, ◌<◌, ◌≡◌, none, arith, refl, String, Bool, true, false, some, List, [], ◌∷◌, contains,
  string_eq, map_get,
}
use cse356_discord.ReadState.{Stores, Batching, pending_of, flush_batch}
use cse356_discord.ReadState.Upserts.{time_at}
use cse356_discord.ReadState.Advance.{ReadEvent, read_events, cursor_at, latest, read_events-latest}
use cse356_discord.ReadState.Flush.{
  overtaken, flush_batch-persists, flush_batch-drops_failed, flush-loses_mark,
}

abbrev no_reads : Stores
no_reads = record { cursors = []; locks = []; pending = []; dirty = []; read_states = [] }

abbrev reads : List ReadEvent
reads =
    ReadEvent.reads "u|ch:c" 7 "m7"
    ∷ ReadEvent.cursor_ends "u|ch:c"
    ∷ ReadEvent.reads "u|ch:c" 4 "m4"
    ∷ ReadEvent.lock_ends "u|ch:c"
    ∷ ReadEvent.reads "u|ch:c" 5 "m5"
    ∷ []

read_events-latest_example :
    cursor_at "u|ch:c" (read_events reads no_reads)
    ≡ latest "u|ch:c" reads (cursor_at "u|ch:c" no_reads)
read_events-latest_example = read_events-latest "u|ch:c" reads no_reads

abbrev every : String → Bool
every m = true

abbrev one_pending : Stores
one_pending = record no_reads {
  pending = ("u|ch:c", pending_of "m5" 5) ∷ [];
  dirty = "u|ch:c" ∷ [];
}

-- The key is asked for twice, and one of the two commands fails.
abbrev smooth : Batching
smooth = record {
  commands = ("u|ch:c", true) ∷ ("u|ch:c", false) ∷ [];
  pipeline_succeeds = true;
  query_succeeds = true;
  removes = every;
}

flush_batch-persists_example :
    (5 ≤ time_at "u|ch:c" (flush_batch every smooth one_pending).read_states)
    × (contains (flush_batch every smooth one_pending).dirty "u|ch:c" ≡ false)
flush_batch-persists_example =
    flush_batch-persists every smooth "u|ch:c" (pending_of "m5" 5) one_pending refl refl refl refl
      refl refl

abbrev broken : Batching
broken = record smooth { commands = ("u|ch:c", true) ∷ [] }

flush_batch-drops_failed_example :
    (map_get "u|ch:c" (flush_batch every broken one_pending).read_states ≡ none)
    × (map_get "u|ch:c" (flush_batch every broken one_pending).pending ≡ some (pending_of "m5" 5))
    × (contains (flush_batch every broken one_pending).dirty "u|ch:c" ≡ false)
flush_batch-drops_failed_example =
    flush_batch-drops_failed every broken "u|ch:c" one_pending refl refl refl refl refl

flush-loses_mark_example :
    (5
      ≤ time_at "u|ch:c"
          (overtaken every smooth "u|ch:c" (pending_of "m7" 7) one_pending).read_states)
    × (time_at "u|ch:c"
          (overtaken every smooth "u|ch:c" (pending_of "m7" 7) one_pending).read_states
        < 7)
    × (map_get "u|ch:c" (overtaken every smooth "u|ch:c" (pending_of "m7" 7) one_pending).pending
        ≡ some (pending_of "m7" 7))
    × (contains (overtaken every smooth "u|ch:c" (pending_of "m7" 7) one_pending).dirty "u|ch:c"
        ≡ false)
flush-loses_mark_example =
    flush-loses_mark every smooth "u|ch:c" (pending_of "m5" 5) (pending_of "m7" 7) one_pending refl
      refl refl refl refl (omega arith) (omega arith)
