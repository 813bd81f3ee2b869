-- ===== src/Acl/Tests.antt =====
-- One user and one channel, allowed in the caches and no longer by the database.
use text.Mathlib.TextEquality.{eq_iff}
use cse356_discord.Common.{some, true, false, List, [], ◌∷◌, arith, nat_eq, ℕ}
use cse356_discord.Acl.{Config, Store, Database, is_allowed_channel, invalidate_ws_acl_cache}
use cse356_discord.Acl.Decisions.{Event, IsBounded, happen_all, happen_all-IsBounded}

abbrev config : Config
config = record { acl_cache_ttl_ms = 30000; acl_cache_max_entries = 1; ws_acl_redis_ttl_secs = 60 }

abbrev warm_store : Store
warm_store = record {
  acl_cache = ("u:channel:c", record { allowed = true; expires_at = 9000 }) ∷ [];
  acl_check_in_flight = ("u:channel:c", 1) ∷ [];
  shared = ("ws:acl:u:channel:c", "1") ∷ [];
}

abbrev nobody : Database
nobody = record {
  has_community_member = λ id user_id. false;
  has_conversation_participant = λ id user_id. false;
  has_visible_channel = λ id user_id. false;
}

abbrev revoked : Store
revoked =
    (is_allowed_channel 50 2 "u" "channel:c"
      (invalidate_ws_acl_cache config true "u" "channel:c" warm_store)).0

abbrev events : List (ℕ × Event)
events =
    (1, Event.asked 1 "u" "channel:c")
    ∷ (2, Event.database_said "u" "channel:c" (some true))
    ∷ (3, Event.warmed "u" ("channel:d" ∷ []))
    ∷ (4, Event.invalidated false "u" "channel:d")
    ∷ []

happen_all-IsBounded_example : IsBounded 1 (happen_all config events warm_store).acl_cache
happen_all-IsBounded_example = happen_all-IsBounded config events warm_store (omega arith) (record {
  named = (λ e. absurd (ground (arith, (eq_iff "u:channel:c" "").1 e)), tt);
  within = omega arith;
})
