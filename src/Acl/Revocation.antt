-- ===== src/Acl/Revocation.antt =====
-- What aclCacheStore.ts and channelAcl.ts remember when access is taken away.
use cse356_discord.Common.{String, Bool, true, false, Option, none, some, nat_eq, string_eq}
use cse356_discord.Acl.{Config, Store, read_acl_shared_cache_entry, Database, is_allowed_channel_db}

-- What Redis still answers after an invalidation of the key.
abbrev pub left_shared : Config → Bool → String → String → Store → Option Bool
left_shared c true user_id channel s = none
left_shared c false user_id channel s = read_acl_shared_cache_entry c user_id channel s

-- The decision that a check comes to, from what Redis answers.
abbrev pub decision : Database → String → String → Option Bool → Bool
decision db user_id channel none = is_allowed_channel_db db user_id channel
decision db user_id channel (some allowed) = allowed
