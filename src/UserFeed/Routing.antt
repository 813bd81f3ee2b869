-- ===== src/UserFeed/Routing.antt =====
-- Whom a publish of userFeed.ts reaches, and over which channels.
use text.Mathlib.TextEquality.{eq_iff}
use cse356_discord.Common.{
  ℕ, ◌≡◌, refl, ◌∙◌, String, Bool, true, false, not, ◌&&◌, ◌||◌, inl, inr, Option, none, some, List,
  [], ◌∷◌, ◌++◌, arith, ltb, leb, if◌then◌else◌, ◌==◌, string_eq, contains, contains-append, any,
  Bool-cases, length,
}
use cse356_discord.UserFeed.{
  Runtime, Directory, Owned, Targets, user_feed_redis_channel_for_user_id, distinct_owners,
  live_owners, group_by_owner, user_feed_worker_channel_for_owner, resolve_worker_owned_users,
  resolve_live_worker_owned_users, user_id_from_target, add_target, split_from, split_user_targets,
  workers_of, push_shards, publish_groups, users_at,
}
use cse356_discord.UserFeed.Groups.{is_of, is_empty, grouped, grouped_unmatched, sharded}

any-append {ℓ} :
    {A : Type ℓ} (p : A → Bool) (xs ys : List A) → any p (xs ++ ys) ≡ (any p xs || any p ys)
any-append p [] ys = refl
any-append p (x ∷ xs) ys = ground (arith, any-append p xs ys)

any-contains :
    (p : String → Bool) (x : String) (xs : List String)
    → contains xs x ≡ true
    → p x ≡ true
    → any p xs ≡ true
any-contains p x [] h k = cc
any-contains p x (y ∷ xs) h k = elim (Bool-cases (x == y)) [
  | inl same ↦ rw (← (eq_iff x y).0 same, k) refl
  | inr other ↦ rw (any-contains p x xs (rw other at h) k) (ground arith)
]

-- Leaving out repetitions and empty texts changes no test that fails on the empty text.
any-distinct_owners :
    (p : String → Bool) (seen raw : List String)
    → p "" ≡ false
    → any p (distinct_owners seen raw) ≡ (any p seen || any p raw)
unfolding distinct_owners
any-distinct_owners p seen [] h = ground arith
any-distinct_owners p seen (o ∷ raw) h = elim (Bool-cases (o == "")) [
  | inl blank ↦ rw ((eq_iff o "").0 blank, any-distinct_owners p seen raw h, h) refl
  | inr named ↦ elim (Bool-cases (contains seen o)) [
    | inl there ↦
        rw (named, there)
          (any-distinct_owners p seen raw h ∙ ground (arith, any-contains p o seen there))
    | inr new ↦
        rw (named, new)
          (any-distinct_owners p (seen ++ o ∷ []) raw h
            ∙ ground (arith, any-append p seen (o ∷ [])))
  ]
]

abbrev pub is_owner : String → Bool
is_owner o = not (o == "")

is_empty-append : (xs : List String) (y : String) → is_empty (xs ++ y ∷ []) ≡ false
is_empty-append [] y = refl
is_empty-append (x ∷ xs) y = refl

is_empty-contains : (xs : List String) (y : String) → contains xs y ≡ true → is_empty xs ≡ false
is_empty-contains [] y h = cc
is_empty-contains (x ∷ xs) y h = refl

is_empty-distinct_owners :
    (seen raw : List String)
    → is_empty (distinct_owners seen raw) ≡ (is_empty seen && not (any is_owner raw))
unfolding distinct_owners
is_empty-distinct_owners seen [] = ground arith
is_empty-distinct_owners seen (o ∷ raw) = ground (
  arith,
  is_empty-distinct_owners seen raw,
  is_empty-distinct_owners (seen ++ o ∷ []) raw,
  is_empty-append seen o,
  is_empty-contains seen o,
)

is_of-blank : (channel : String) → is_of channel "" ≡ false
unfolding user_feed_worker_channel_for_owner
is_of-blank channel = refl

-- The owners that a publish goes by: of the connections that are alive, or of the user's hash.
abbrev pub owners_at : Directory → ℕ → Bool → List String → String → List String
owners_at d most prefer_live_owners user_ids user =
    if prefer_live_owners || (ltb 0 most && leb (length user_ids) most)
    then live_owners (d.connections_of user)
    else d.hash_keys user

-- A user is reached over the channels of all owners, or, if there is none, over that of the shard.
abbrev pub is_reached_over : Runtime → ℕ → List String → String → String → Bool
is_reached_over r count owners channel user =
    any (is_of channel) owners
    || (not (any is_owner owners) && user_feed_redis_channel_for_user_id r count user == channel)

module _ (r : Runtime) (d : Directory) (count most : ℕ) (channel user : String) where
  group_reaches :
      (raw : String → List String) (us : List String)
      → let o : Owned =
          group_by_owner
            (λ v. distinct_owners [] (raw v))
            us
            (record { by_channel = []; unmatched = [] }) in
        contains (users_at channel (push_shards r count o.unmatched o.by_channel)) user
        ≡ (contains us user && is_reached_over r count (raw user) channel user)
  group_reaches raw us =
      let start : Owned = record { by_channel = []; unmatched = [] } in
      let owners_of : String → List String = λ v. distinct_owners [] (raw v) in
      let o : Owned = group_by_owner owners_of us start in
      rw
        (
          sharded channel user r count o.unmatched o.by_channel,
          grouped channel user owners_of us start,
          grouped_unmatched channel user owners_of us start,
          any-distinct_owners (is_of channel) [] (raw user) (is_of-blank channel),
          is_empty-distinct_owners [] (raw user),
        )
        (ground arith)

  -- A publish puts a user into the group of a channel just if the user is among the targets and is
  -- reached over that channel: those of the user's owners, or the shard's if the user has none.
  pub publish_groups-reaches :
      (prefer_live_owners : Bool) (targets : List String)
      → let us : List String = (split_user_targets r targets).user_ids in
        contains (users_at channel (publish_groups r d count most prefer_live_owners targets)) user
        ≡ (contains us user
            && is_reached_over r count (owners_at d most prefer_live_owners us user) channel user)
  unfolding publish_groups workers_of resolve_worker_owned_users resolve_live_worker_owned_users
  publish_groups-reaches prefer_live_owners targets =
      let us : List String = (split_user_targets r targets).user_ids in
      elim (Bool-cases (prefer_live_owners || (ltb 0 most && leb (length us) most))) [
        | inl live ↦ rw live (group_reaches (λ v. live_owners (d.connections_of v)) us)
        | inr hashed ↦ rw hashed (group_reaches d.hash_keys us)
      ]

abbrev pub is_id : String → Option String → Bool
is_id user none = false
is_id user (some id) = user == id

abbrev pub is_none : Option String → Bool
is_none none = true
is_none (some _) = false

-- What a target adds to the two lists.
module _ (r : Runtime) (x : String) where
  add_target-user_ids :
      (target : String) (o : Option String) (t : Targets)
      → contains (add_target r target o t).user_ids x ≡ (contains t.user_ids x || is_id x o)
  unfolding add_target
  add_target-user_ids target none t = ground arith
  add_target-user_ids target (some id) t = elim (Bool-cases (contains t.user_ids id)) [
    | inl there ↦ rw there (elim (Bool-cases (x == id)) [
      | inl same ↦ rw ((eq_iff x id).0 same, there) refl
      | inr other ↦ rw other (ground arith)
    ])
    | inr new ↦ rw new (contains-append t.user_ids (id ∷ []) x ∙ ground arith)
  ]

  add_target-passthrough :
      (target : String) (o : Option String) (t : Targets)
      → contains (add_target r target o t).passthrough_targets x ≡ (
          contains t.passthrough_targets x
          || (is_none o && not (r.trim target == "") && x == target))
  unfolding add_target
  add_target-passthrough target (some id) t = ground arith
  add_target-passthrough target none t = elim (Bool-cases (r.trim target == "")) [
    | inl blank ↦ rw blank (ground arith)
    | inr named ↦ elim (Bool-cases (contains t.passthrough_targets target)) [
      | inl there ↦
          rw (named, there)
            (elim (Bool-cases (x == target)) [
              | inl same ↦ rw ((eq_iff x target).0 same, there) refl
              | inr other ↦ rw other (ground arith)
            ])
      | inr new ↦
          rw (named, new) (contains-append t.passthrough_targets (target ∷ []) x ∙ ground arith)
    ]
  ]

  split_from-user_ids :
      (targets : List String) (t : Targets)
      → contains (split_from r targets t).user_ids x
        ≡ (contains t.user_ids x || any (λ target. is_id x (user_id_from_target r target)) targets)
  unfolding split_from
  split_from-user_ids [] t = ground arith
  split_from-user_ids (target ∷ targets) t =
      rw
        (
          split_from-user_ids targets (add_target r target (user_id_from_target r target) t),
          add_target-user_ids target (user_id_from_target r target) t,
        )
        (ground arith)

  split_from-passthrough :
      (targets : List String) (t : Targets)
      → contains (split_from r targets t).passthrough_targets x ≡ (
          contains t.passthrough_targets x
          || (contains targets x && is_none (user_id_from_target r x) && not (r.trim x == "")))
  unfolding split_from
  split_from-passthrough [] t = ground arith
  split_from-passthrough (target ∷ targets) t =
      rw
        (
          split_from-passthrough targets (add_target r target (user_id_from_target r target) t),
          add_target-passthrough target (user_id_from_target r target) t,
        )
        (elim (Bool-cases (x == target)) [
          | inl same ↦ rw (same, (eq_iff x target).0 same) (ground arith)
          | inr other ↦ rw other (ground arith)
        ])

  -- The users of a split are the users that the targets name, and what it passes through are the targets
  -- that name none and are not blank.
  pub split_user_targets-members :
      (targets : List String)
      → (contains (split_user_targets r targets).user_ids x
          ≡ any (λ target. is_id x (user_id_from_target r target)) targets)
        × (contains (split_user_targets r targets).passthrough_targets x
            ≡ (contains targets x && is_none (user_id_from_target r x) && not (r.trim x == "")))
  unfolding split_user_targets
  split_user_targets-members targets = (
    split_from-user_ids targets (record { user_ids = []; passthrough_targets = [] }),
    split_from-passthrough targets (record { user_ids = []; passthrough_targets = [] }),
  )
