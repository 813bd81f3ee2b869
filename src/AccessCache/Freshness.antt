-- ===== src/AccessCache/Freshness.antt =====
-- A cached access decision of versionedAccessCache.ts is served just while its version stands.
use cse356_discord.Common.{
  ℕ, ◌≡◌, refl, ◌∙◌, String, Bool, true, false, not, ◌||◌, Option, none, some, arith, if◌then◌else◌,
  ◌==◌, nat_eq, string_eq, ==_refl, nat_beq_iff,
}
use text.Mathlib.TextEquality.{eq_iff}
use cse356_discord.Value.{
  Value, num, str, Fields, get_field, set_field, lookup_field-set_field, is_truthy,
}
use cse356_discord.AccessCache.{
  Redis, Runtime, to_access_version, scope_version_key, read_access_version, read_parsed,
  read_reply, read_scoped_versioned_json_cache, versioned, write_scoped_versioned_json_cache,
}

-- What Redis documents of GET, SET and DEL.
pub record IsRedis {S : Type 0} (d : Redis S) : Type 0 where
  pub get_set :
      (k j v : String) (s : S) → d.get j (d.set k v s) ≡ (if k == j then some v else d.get j s)
  pub get_del : (k j : String) (s : S) → d.get j (d.del k s) ≡ (if k == j then none else d.get j s)

-- An entry as it may be served: accepted, and of the version that now stands for its scope.
pub record IsCurrent {S : Type 0} (d : Redis S) (r : Runtime) (is_payload : Value → Bool) (s : S)
    (p : Value) : Type 0 where
  pub accepted : is_payload p ≡ true
  pub current :
      to_access_version r (get_field "version" p)
      ≡ read_access_version d r (scope_version_key (get_field "scope" p)) s

-- Two guards before an answer.
served_if :
    {S : Type 0} (a b : Bool) (x s s' : S) (q p : Value)
    → ◌≡◌ {A = S × Option Value}
        (if a then (x, none) else (if b then (x, none) else (s, some q)))
        (s', some p)
    → (a ≡ false) × (b ≡ false) × (s' ≡ s) × (p ≡ q)
served_if true b x s s' q p h = cc
served_if false true x s s' q p h = cc
served_if false false x s s' q p h = (refl, refl, cc, cc)

module _ {S : Type 0} (d : Redis S) (r : Runtime) (is_payload : Value → Bool)
    (cache_key : String) where
  read_parsed-IsCurrent :
      (o : Option Value) (s s' : S) (p : Value)
      → read_parsed d r cache_key is_payload o s ≡ (s', some p)
      → (s' ≡ s) × IsCurrent d r is_payload s p
  unfolding read_parsed
  read_parsed-IsCurrent none s s' p h = cc
  read_parsed-IsCurrent (some parsed) s s' p h =
      let version : ℕ = to_access_version r (get_field "version" parsed) in
      let now : ℕ = read_access_version d r (scope_version_key (get_field "scope" parsed)) s in
      let (good, fresh, same, is_parsed) =
        served_if (not (is_truthy parsed) || not (is_payload parsed)) (not (version == now)) _ s s'
          parsed p h in
      (
        same,
        rw is_parsed (record {
          accepted = ground (arith, good);
          current = (nat_beq_iff version now).0 (ground (arith, fresh));
        }),
      )

  read_reply-IsCurrent :
      (o : Option String) (s s' : S) (p : Value)
      → read_reply d r cache_key is_payload o s ≡ (s', some p)
      → (s' ≡ s) × IsCurrent d r is_payload s p
  unfolding read_reply
  read_reply-IsCurrent none s s' p h = cc
  read_reply-IsCurrent (some raw) s s' p h =
      ground (arith, read_parsed-IsCurrent (r.parse raw) s s' p)

  -- Whatever stands in the cache, what a read returns passed the test of its kind and has the version
  -- that the scope has now, and reading it changed nothing.
  pub read-IsCurrent :
      (s s' : S) (p : Value)
      → read_scoped_versioned_json_cache d r cache_key is_payload s ≡ (s', some p)
      → (s' ≡ s) × IsCurrent d r is_payload s p
  unfolding read_scoped_versioned_json_cache
  read-IsCurrent s s' p h = read_reply-IsCurrent (d.get cache_key s) s s' p h

-- A decision is written for `scope`, and what follows of JSON, of `Number` and of the key names.
module _ {S : Type 0} (d : Redis S) (laws : IsRedis d) (r : Runtime) (is_payload : Value → Bool)
    (cache_key : String) (scope : Value) (payload : Fields) (s : S) where
  abbrev version_now : ℕ
  version_now = read_access_version d r (scope_version_key scope) s

  abbrev pub written : Value
  written = versioned payload scope version_now

  -- The text parses back to the entry, which its kind's test accepts; a version is read as itself; and
  -- the cache does not use the key of the version.
  pub record IsWritable : Type 0 where
    pub parses : r.parse (r.stringify written) ≡ some written
    pub has_text : (r.stringify written == "") ≡ false
    pub numeric : r.number (num version_now) ≡ some version_now
    pub accepted : is_payload written ≡ true
    pub apart : (cache_key == scope_version_key scope) ≡ false

  version-written : get_field "version" written ≡ num version_now
  unfolding versioned get_field
  version-written =
      lookup_field-set_field "version" "version" (num version_now) (set_field "scope" scope payload)

  scope-written : get_field "scope" written ≡ scope
  unfolding versioned get_field
  scope-written =
      lookup_field-set_field "scope" "version" (num version_now) (set_field "scope" scope payload)
      ∙ lookup_field-set_field "scope" "scope" scope payload

  truthy-written : is_truthy written ≡ true
  unfolding versioned is_truthy
  truthy-written = refl

  module _ (h : IsWritable) where
    version_read : to_access_version r (get_field "version" written) ≡ version_now
    unfolding to_access_version is_truthy
    version_read = rw version-written (ground (arith, h.numeric))

    -- What a read makes of the entry in a store whose version is `now`.
    read_written :
        (t : S) (now : ℕ)
        → d.get cache_key t ≡ some (r.stringify written)
        → read_access_version d r (scope_version_key scope) t ≡ now
        → read_scoped_versioned_json_cache d r cache_key is_payload t
          ≡ (if not (version_now == now) then (d.del cache_key t, none) else (t, some written))
    unfolding read_scoped_versioned_json_cache read_reply read_parsed
    read_written t now there v =
        rw (there, h.has_text, h.parses, truthy-written, h.accepted, scope-written, v, version_read)
          refl

  version_apart :
      (t : S)
      → d.get (scope_version_key scope) t ≡ d.get (scope_version_key scope) s
      → read_access_version d r (scope_version_key scope) t ≡ version_now
  unfolding read_access_version
  version_apart t same = rw same refl

  version_of :
      (t : S) (raw : String)
      → d.get (scope_version_key scope) t ≡ some raw
      → read_access_version d r (scope_version_key scope) t ≡ to_access_version r (str raw)
  unfolding read_access_version
  version_of t raw found = rw found refl

  -- A decision that was written is read back, while the version of its scope stands.
  pub read-write :
      IsWritable
      → read_scoped_versioned_json_cache d r cache_key is_payload
          (write_scoped_versioned_json_cache d r cache_key scope payload s)
        ≡ (write_scoped_versioned_json_cache d r cache_key scope payload s, some written)
  unfolding write_scoped_versioned_json_cache
  read-write h =
      let t : S = d.set cache_key (r.stringify written) s in
      let there : d.get cache_key t ≡ some (r.stringify written) =
        rw (laws.get_set cache_key cache_key (r.stringify written) s, ==_refl cache_key) refl in
      let same : read_access_version d r (scope_version_key scope) t ≡ version_now =
        version_apart t (
          rw (laws.get_set cache_key (scope_version_key scope) (r.stringify written) s, h.apart)
            refl) in
      rw (read_written h t version_now there same, ==_refl version_now) refl

  abbrev pub after_bump : String → S
  after_bump bumped =
      d.set (scope_version_key scope) bumped
        (write_scoped_versioned_json_cache d r cache_key scope payload s)

  -- After the version of the scope was set to something else, the decision is not served, and the
  -- entry is gone.
  pub read-bump :
      (bumped : String)
      → IsWritable
      → (version_now == to_access_version r (str bumped)) ≡ false
      → ((read_scoped_versioned_json_cache d r cache_key is_payload (after_bump bumped)).1 ≡ none)
        × (d.get cache_key
              (read_scoped_versioned_json_cache d r cache_key is_payload (after_bump bumped)).0
            ≡ none)
  unfolding write_scoped_versioned_json_cache
  read-bump bumped h other =
      let vk : String = scope_version_key scope in
      let w : S = d.set cache_key (r.stringify written) s in
      let t : S = d.set vk bumped w in
      let sides : (vk == cache_key) ≡ false =
        ground (arith, h.apart, eq_iff vk cache_key, eq_iff cache_key vk) in
      let there : d.get cache_key t ≡ some (r.stringify written) =
        rw
          (
            laws.get_set vk cache_key bumped w,
            sides,
            laws.get_set cache_key cache_key (r.stringify written) s,
            ==_refl cache_key,
          )
          refl in
      let found : d.get vk t ≡ some bumped = rw (laws.get_set vk vk bumped w, ==_refl vk) refl in
      rw (read_written h t _ there (version_of t bumped found), other)
        (refl, rw (laws.get_del cache_key cache_key t, ==_refl cache_key) refl)
