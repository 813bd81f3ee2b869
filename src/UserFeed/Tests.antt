-- ===== src/UserFeed/Tests.antt =====
-- Two users, one of them with two workers.
use cse356_discord.Common.{
  ◌≡◌, String, false, ◌&&◌, List, [], ◌∷◌, contains, string_eq, ◌==◌, if◌then◌else◌,
}
use cse356_discord.UserFeed.{Runtime, Directory, split_user_targets, publish_groups, users_at}
use cse356_discord.UserFeed.Routing.{is_reached_over, owners_at, publish_groups-reaches}

abbrev runtime : Runtime
runtime = record {
  trim = λ s. s;
  char_codes = λ s. if s == "ann" then 97 ∷ 110 ∷ 110 ∷ [] else 98 ∷ [];
  text_of = λ n. "7";
}

abbrev owners : String → List String
owners user = if user == "ann" then "vm:1" ∷ "" ∷ "vm:2" ∷ "vm:1" ∷ [] else []

abbrev directory : Directory
directory = record { hash_keys = owners; connections_of = λ user. [] }

abbrev targets : List String
targets = "user:ann" ∷ "bob" ∷ "ann" ∷ "channel:9" ∷ []

publish_groups-reaches_example :
    contains
      (users_at "userfeed_worker:vm:2" (publish_groups runtime directory 64 0 false targets))
      "ann"
    ≡ (contains (split_user_targets runtime targets).user_ids "ann"
        && is_reached_over runtime 64
            (owners_at directory 0 false (split_user_targets runtime targets).user_ids "ann")
            "userfeed_worker:vm:2"
            "ann")
publish_groups-reaches_example =
    publish_groups-reaches runtime directory 64 0 "userfeed_worker:vm:2" "ann" false targets
