-- ===== src/AccessCache.antt =====
-- Cached access decisions with a version: backend/src/utils/accessVersionCache.ts and
-- backend/src/utils/versionedAccessCache.ts. Redis, JSON and `Number` are parameters; versions are whole.
pub mod Freshness
pub mod Tests
use Prim.Native.String
use cse356_discord.Common.{
  ℕ, ◌≡◌, String, Bool, true, false, not, ◌&&◌, ◌||◌, Option, none, some, List, [], ◌∷◌,
  if◌then◌else◌, ◌==◌, nat_eq, string_eq,
}
use cse356_discord.Value.{
  Value, undefined, null, bool, num, str, obj, arr, Fields, field, end, lookup_field, get_field,
  set_field, is_truthy, is_object,
}

-- The commands used, on a store `S`. A `get` that fails is caught as no answer.
pub record Redis (S : Type 0) : Type 0 where
  pub get : String → S → Option String
  pub set : String → String → S → S
  pub del : String → S → S

-- `JSON.parse` (`none` where it throws), `JSON.stringify`, `Number` of a value where that is a whole number,
-- and the test of `Number.isFinite(Number(v))`.
pub record Runtime : Type 0 where
  pub parse : String → Option Value
  pub stringify : Value → String
  pub number : Value → Option ℕ
  pub is_finite : Value → Bool

unfoldable pub channel_access_version_key : String → String
channel_access_version_key channel_id =
    String.◌++◌ "channel:" (String.◌++◌ channel_id ":user_fanout_targets_v")

unfoldable pub conversation_access_version_key : String → String
conversation_access_version_key conversation_id =
    String.◌++◌ "conversation:" (String.◌++◌ conversation_id ":fanout_targets_v")

abbrev or_zero : Option ℕ → ℕ
or_zero none = 0
or_zero (some n) = n

-- `Number(raw || 0)`, where that is finite and not negative, and 0 otherwise.
unfoldable pub to_access_version : Runtime → Value → ℕ
unfolding is_truthy
to_access_version r raw = if is_truthy raw then or_zero (r.number raw) else 0

abbrev pub text_of : Value → String
text_of (str s) = s
text_of _ = ""

abbrev pub is_text : Value → Bool
is_text (str _) = true
is_text _ = false

abbrev pub is_str : String → Value → Bool
is_str s (str t) = t == s
is_str s _ = false

abbrev pub is_true : Value → Bool
is_true (bool b) = b
is_true _ = false

-- The id of a scope is a text, as its type says.
unfoldable pub scope_version_key : Value → String
unfolding get_field
scope_version_key scope =
    if is_str "channel" (get_field "kind" scope)
    then channel_access_version_key (text_of (get_field "id" scope))
    else conversation_access_version_key (text_of (get_field "id" scope))

abbrev pub scope_of : String → String → Value
scope_of kind id = obj (field "kind" (str kind) (field "id" (str id) end))

-- The ids of a row are texts.
unfoldable pub row_access_scope : Value → Option Value
unfolding get_field is_truthy
row_access_scope row =
    if is_truthy (get_field "channel_id" row)
    then some (scope_of "channel" (text_of (get_field "channel_id" row)))
    else (if is_truthy (get_field "conversation_id" row)
        then some (scope_of "conversation" (text_of (get_field "conversation_id" row)))
        else none)

abbrev reply_value : Option String → Value
reply_value none = null
reply_value (some s) = str s

-- `Object.prototype.hasOwnProperty.call(payload, name)`
unfoldable pub has_own_field : String → Fields → Bool
has_own_field name end = false
has_own_field name (field k v fs) = if k == name then true else has_own_field name fs

unfoldable pub has_own : String → Value → Bool
unfolding has_own_field
has_own name (obj fs) = has_own_field name fs
has_own name _ = false

unfoldable pub is_access_scope : Value → Bool
unfolding get_field is_truthy
is_access_scope scope =
    is_truthy scope
    && is_text (get_field "id" scope)
    && (is_str "channel" (get_field "kind" scope) || is_str "conversation" (get_field "kind" scope))

abbrev is_null : Value → Bool
is_null null = true
is_null _ = false

abbrev is_undefined : Value → Bool
is_undefined undefined = true
is_undefined _ = false

unfoldable pub is_compat_cache_payload : Runtime → Value → Bool
unfolding get_field is_truthy has_own
is_compat_cache_payload r payload =
    is_truthy payload
    && has_own "channelId" payload
    && not (is_undefined (get_field "channelId" payload))
    && (is_null (get_field "channelId" payload) || is_text (get_field "channelId" payload))
    && r.is_finite (get_field "version" payload)

unfoldable pub is_message_target_cache_payload : Runtime → Value → Bool
unfolding get_field is_truthy has_own is_access_scope
is_message_target_cache_payload r payload =
    is_truthy payload
    && has_own "data" payload
    && is_access_scope (get_field "scope" payload)
    && r.is_finite (get_field "version" payload)

unfoldable pub is_attachment_access_cache_payload : Runtime → Value → Bool
unfolding get_field is_truthy has_own is_access_scope
is_attachment_access_cache_payload r payload =
    is_truthy payload
    && is_true (get_field "found" payload)
    && is_true (get_field "allowed" payload)
    && has_own "attachment" payload
    && is_access_scope (get_field "scope" payload)
    && r.is_finite (get_field "version" payload)

-- `{ ...payloadWithoutVersion, scope, version }`
unfoldable pub versioned : Fields → Value → ℕ → Value
versioned payload scope version =
    obj (set_field "version" (num version) (set_field "scope" scope payload))

module _ {S : Type 0} (d : Redis S) (r : Runtime) where
  unfoldable pub read_access_version : String → S → ℕ
  unfolding to_access_version
  read_access_version version_key s = to_access_version r (reply_value (d.get version_key s))

  -- What follows the JSON text of the entry.
  unfoldable pub read_parsed : String → (Value → Bool) → Option Value → S → S × Option Value
  unfolding read_access_version scope_version_key
  read_parsed cache_key is_payload none s = (d.del cache_key s, none)
  read_parsed cache_key is_payload (some parsed) s =
      if not (is_truthy parsed) || not (is_payload parsed)
      then (d.del cache_key s, none)
      else (let current = read_access_version (scope_version_key (get_field "scope" parsed)) s in
          if not (to_access_version r (get_field "version" parsed) == current)
          then (d.del cache_key s, none)
          else (s, some parsed))

  unfoldable pub read_reply : String → (Value → Bool) → Option String → S → S × Option Value
  unfolding read_parsed
  read_reply cache_key is_payload none s = (s, none)
  read_reply cache_key is_payload (some raw) s =
      if raw == "" then (s, none) else read_parsed cache_key is_payload (r.parse raw) s

  unfoldable pub read_scoped_versioned_json_cache : String → (Value → Bool) → S → S × Option Value
  unfolding read_reply
  read_scoped_versioned_json_cache cache_key is_payload s =
      read_reply cache_key is_payload (d.get cache_key s) s

  -- The lifetime of the entry is left to Redis.
  unfoldable pub write_scoped_versioned_json_cache : String → Value → Fields → S → S
  unfolding versioned
  write_scoped_versioned_json_cache cache_key scope payload s =
      d.set cache_key
        (r.stringify (versioned payload scope (read_access_version (scope_version_key scope) s))) s
