-- ===== src/InsertLock/Bypass.antt =====
-- backend/src/messages/channelInsertConcurrency.ts: when the lock is bypassed, and the path that
-- `runChannelMessageInsertSerialized` reports. The two variables are given trimmed and in lower case.
use cse356_discord.Common.{
  String, Bool, true, false, ◌||◌, Option, none, some, if◌then◌else◌, ◌==◌, string_eq, nat_eq,
}
use cse356_discord.InsertLock.Release.{Lease}

pub data BypassReason : Type 0 where
  env_optimistic env_mode_off env_lock_disabled : BypassReason

abbrev is_off_mode : String → Bool
is_off_mode mode = mode == "off" || mode == "false" || mode == "none"

abbrev is_disabled : Option String → Bool
is_disabled none = false
is_disabled (some enabled) =
    enabled == "0" || enabled == "false" || enabled == "off" || enabled == "no"

unfoldable pub should_bypass_channel_insert_lock : String → Option String → Bool
should_bypass_channel_insert_lock mode enabled =
    if mode == "optimistic" || is_off_mode mode then true else is_disabled enabled

unfoldable pub classify_channel_insert_bypass_reason_detail : String → Option String → BypassReason
classify_channel_insert_bypass_reason_detail mode enabled =
    if mode == "optimistic"
    then env_optimistic
    else (if is_off_mode mode
        then env_mode_off
        else (if is_disabled enabled then env_lock_disabled else env_mode_off))

pub data LockPath : Type 0 where
  direct_message : LockPath
  optimistic_bypass : BypassReason → LockPath
  acquired_immediate acquired_after_wait redis_fallback_null_lease : LockPath

abbrev pub path_of_lease : Option Lease → LockPath
path_of_lease none = redis_fallback_null_lease
path_of_lease (some lease) = if lease.wait_ms == 0 then acquired_immediate else acquired_after_wait

-- The branches of `runChannelMessageInsertSerialized`; `lease` is what acquiring gave.
unfoldable pub lock_path : Option String → String → Option String → Option Lease → LockPath
unfolding should_bypass_channel_insert_lock classify_channel_insert_bypass_reason_detail
lock_path none mode enabled lease = direct_message
lock_path (some channel) mode enabled lease =
    if channel == ""
    then direct_message
    else (if should_bypass_channel_insert_lock mode enabled
        then optimistic_bypass (classify_channel_insert_bypass_reason_detail mode enabled)
        else path_of_lease lease)
