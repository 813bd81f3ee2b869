-- ===== src/UserFeed/Groups.antt =====
-- Who stands in which group of userFeed.ts.
use text.Mathlib.TextEquality.{eq_iff}
use cse356_discord.Common.{
  ℕ, ◌≡◌, String, Bool, true, false, ◌&&◌, ◌||◌, inl, inr, Option, none, some, List, [], ◌∷◌, ◌++◌,
  arith, ◌==◌, string_eq, contains, contains-append, any, map_get-map_set, Bool-cases,
}
use cse356_discord.UserFeed.{
  users_at, push_user, push_to, push_owned, user_feed_worker_channel_for_owner, Owned, place_user,
  group_by_owner, push_shards, user_feed_redis_channel_for_user_id, Runtime,
}

abbrev is_channel : String → Option String → Bool
is_channel channel none = false
is_channel channel (some c) = c == channel

-- Whether a channel is that of an owner.
abbrev pub is_of : String → String → Bool
is_of channel owner = is_channel channel (user_feed_worker_channel_for_owner owner)

abbrev pub is_empty : List String → Bool
is_empty [] = true
is_empty (_ ∷ _) = false

module _ (channel user : String) where
  users_at-push_user :
      (c v : String) (g : List (String × List String))
      → contains (users_at channel (push_user c v g)) user
        ≡ (contains (users_at channel g) user || (c == channel && user == v))
  unfolding push_user
  users_at-push_user c v g = elim (Bool-cases (c == channel)) [
    | inl same ↦
        rw (map_get-map_set c channel (users_at c g ++ v ∷ []) g, same, (eq_iff c channel).0 same)
          (ground (arith, contains-append (users_at channel g) (v ∷ []) user))
    | inr other ↦ rw (map_get-map_set c channel (users_at c g ++ v ∷ []) g, other) (ground arith)
  ]

  users_at-push_to :
      (o : Option String) (v : String) (g : List (String × List String))
      → contains (users_at channel (push_to o v g)) user
        ≡ (contains (users_at channel g) user || (is_channel channel o && user == v))
  unfolding push_to
  users_at-push_to none v g = ground arith
  users_at-push_to (some c) v g = users_at-push_user c v g

  users_at-push_owned :
      (owners : List String) (v : String) (g : List (String × List String))
      → contains (users_at channel (push_owned owners v g)) user
        ≡ (contains (users_at channel g) user || (any (is_of channel) owners && user == v))
  unfolding push_owned
  users_at-push_owned [] v g = ground arith
  users_at-push_owned (owner ∷ owners) v g =
      let o : Option String = user_feed_worker_channel_for_owner owner in
      let here : contains (users_at channel (push_to o v g)) user
          ≡ (contains (users_at channel g) user || (is_channel channel o && user == v)) =
        users_at-push_to o v g in
      let rest : contains (users_at channel (push_owned owners v (push_to o v g))) user ≡ (
          contains (users_at channel (push_to o v g)) user
          || (any (is_of channel) owners && user == v)) =
        users_at-push_owned owners v (push_to o v g) in
      rw (rest, here) (ground arith)

  -- The groups after the loop over the users.
  module _ (owners_of : String → List String) where
    placed :
        (owners : List String) (v : String) (o : Owned)
        → contains (users_at channel (place_user owners v o).by_channel) user ≡ (
            contains (users_at channel o.by_channel) user
            || (any (is_of channel) owners && user == v))
    unfolding place_user
    placed [] v o = ground arith
    placed (owner ∷ owners) v o = users_at-push_owned (owner ∷ owners) v o.by_channel

    placed_unmatched :
        (owners : List String) (v : String) (o : Owned)
        → contains (place_user owners v o).unmatched user
          ≡ (contains o.unmatched user || (is_empty owners && user == v))
    unfolding place_user
    placed_unmatched [] v o = ground (arith, contains-append o.unmatched (v ∷ []) user)
    placed_unmatched (owner ∷ owners) v o = ground arith

    pub grouped :
        (us : List String) (o : Owned)
        → contains (users_at channel (group_by_owner owners_of us o).by_channel) user ≡ (
            contains (users_at channel o.by_channel) user
            || (contains us user && any (is_of channel) (owners_of user)))
    unfolding group_by_owner
    grouped [] o = ground arith
    grouped (v ∷ us) o =
        let next : Owned = place_user (owners_of v) v o in
        rw (grouped us next, placed (owners_of v) v o)
          (elim (Bool-cases (user == v)) [
            | inl same ↦ rw (same, (eq_iff user v).0 same) (ground arith)
            | inr other ↦ rw other (ground arith)
          ])

    pub grouped_unmatched :
        (us : List String) (o : Owned)
        → contains (group_by_owner owners_of us o).unmatched user
          ≡ (contains o.unmatched user || (contains us user && is_empty (owners_of user)))
    unfolding group_by_owner
    grouped_unmatched [] o = ground arith
    grouped_unmatched (v ∷ us) o =
        let next : Owned = place_user (owners_of v) v o in
        rw (grouped_unmatched us next, placed_unmatched (owners_of v) v o)
          (elim (Bool-cases (user == v)) [
            | inl same ↦ rw (same, (eq_iff user v).0 same) (ground arith)
            | inr other ↦ rw other (ground arith)
          ])

  pub sharded :
      (r : Runtime) (count : ℕ) (us : List String) (g : List (String × List String))
      → contains (users_at channel (push_shards r count us g)) user ≡ (
          contains (users_at channel g) user
          || (contains us user && user_feed_redis_channel_for_user_id r count user == channel))
  unfolding push_shards
  sharded r count [] g = ground arith
  sharded r count (v ∷ us) g =
      rw
        (
          sharded r count us (push_user (user_feed_redis_channel_for_user_id r count v) v g),
          users_at-push_user (user_feed_redis_channel_for_user_id r count v) v g,
        )
        (elim (Bool-cases (user == v)) [
          | inl same ↦ rw (same, (eq_iff user v).0 same) (ground arith)
          | inr other ↦ rw other (ground arith)
        ])
