-- ===== src/Realtime/Tests.antt =====
-- An alias event of realtimeEventAliases.ts.
use cse356_discord.Common.{List, [], ◌∷◌, All}
use cse356_discord.Value.{str, obj, field, end}
use cse356_discord.Realtime.Fanout.{FanoutBatchEntry, expand_fanout_batch_entries_with_aliases}
use cse356_discord.Realtime.Copies.{ComesFrom, expand_fanout_batch-ComesFrom}

abbrev batch : List FanoutBatchEntry
batch =
    record {
      channel = "channel:1";
      payload = obj (field "event" (str "message:created") (field "data" (str "d") end));
    }
    ∷ []

expand_fanout_batch-ComesFrom_example :
    All (ComesFrom batch) (expand_fanout_batch_entries_with_aliases "1" batch)
expand_fanout_batch-ComesFrom_example = expand_fanout_batch-ComesFrom "1" batch
