-- ===== src/Realtime/Copies.antt =====
-- What an alias publish of realtimeEventAliases.ts shares with the publish that it copies.
use text.Mathlib.TextEquality.{eq_iff}
use cse356_discord.Common.{
  ◌≡◌, refl, ◌≢◌, ◌⊎◌, inl, inr, String, true, List, [], ◌∷◌, map, arith, if◌then◌else◌, ◌==◌, Eq,
  ==_refl, string_eq, contains, Bool-cases, All, All-append, ap,
}
use cse356_discord.Value.{
  Value, undefined, null, bool, num, str, obj, arr, Fields, field, end, lookup_field, set_field,
  lookup_field-set_field, get_field, is_object,
}
use cse356_discord.Realtime.Aliases.{
  alias_event_names_for_canonical, canonical_to_aliases, aliases_of,
  is_reliable_realtime_event_name,
}
use cse356_discord.Realtime.Fanout.{
  FanoutBatchEntry, alias_copies, is_routed, with_event_field, with_inner_event, names_of,
  at_channel, expand_entries, expand_fanout_batch_entries_with_aliases,
  is_realtime_event_alias_fanout_enabled,
}

-- The event that a publish announces: the inner payload's, if the publish has a route.
unfoldable pub event_of : Value → Value
unfolding is_routed get_field
event_of (obj fs) =
    if is_routed fs then get_field "event" (lookup_field "payload" fs) else lookup_field "event" fs
event_of _ = undefined

-- The publish with another event in that place.
unfoldable pub with_event : Value → Value → Value
unfolding is_routed with_event_field with_inner_event
with_event v (obj fs) = if is_routed fs then with_inner_event v fs else with_event_field v (obj fs)
with_event v p = p

pub set_field_back :
    (name : String) (v : Value) (fs : Fields)
    → lookup_field name fs ≢ undefined
    → set_field name (lookup_field name fs) (set_field name v fs) ≡ fs
unfolding lookup_field set_field
set_field_back name v end h = absurd (h refl)
set_field_back name v (field k w fs) h =
    ground (arith, set_field_back name v fs, eq_iff k name, eq_iff name name)

-- `out` is `ent` under the alias `alias` of its event `event`: the same channel, and the same payload
-- but for the event.
pub record IsAliasOf (ent out : FanoutBatchEntry) : Type 0 where
  pub event : String
  pub alias : String
  pub announced : event_of ent.payload ≡ str event
  pub renames : event_of out.payload ≡ str alias
  pub listed : contains (alias_event_names_for_canonical event) alias ≡ true
  pub reliable : is_reliable_realtime_event_name alias ≡ true
  pub same_channel : out.channel ≡ ent.channel
  pub same_rest : with_event (str event) out.payload ≡ ent.payload

All-map {ℓ κ μ} :
    {A : Type ℓ} {B : Type κ} (P : B → Type μ) (f : A → B) (xs : List A)
    → All (λ x. P (f x)) xs
    → All P (map f xs)
All-map P f [] h = tt
All-map P f (x ∷ xs) (p, h) = (p, All-map P f xs h)

All-contains {ℓ} :
    {A : Type ℓ} ⦃e : Eq A⦄ (xs ys : List A)
    → ((a : A) → contains ys a ≡ true → contains xs a ≡ true)
    → All (λ a. contains xs a ≡ true) ys
All-contains xs [] h = tt
All-contains ⦃e⦄ xs (y ∷ ys) h =
    (h y (rw (==_refl y) refl), All-contains xs ys (λ a c. h a (ground (arith, c))))

aliases_of-All :
    (P : String → Type 0) (event : String) (rows : List (String × List String))
    → All (λ row. All P row.1) rows
    → All P (aliases_of event rows)
unfolding aliases_of
aliases_of-All P event [] h = tt
aliases_of-All P event ((canonical, aliases) ∷ rows) (p, h) =
    elim (Bool-cases (canonical == event)) [
      | inl same ↦ rw same p
      | inr other ↦ rw other (aliases_of-All P event rows h)
    ]

-- Every alias of an event is an event that backpressure does not drop.
aliases-reliable :
    (event : String)
    → All
        (λ alias. is_reliable_realtime_event_name alias ≡ true)
        (alias_event_names_for_canonical event)
unfolding alias_event_names_for_canonical is_reliable_realtime_event_name
aliases-reliable event = elim (Bool-cases (event == "")) [
  | inl blank ↦ rw blank tt
  | inr named ↦ rw named (
      aliases_of-All (λ alias. is_reliable_realtime_event_name alias ≡ true) event
        canonical_to_aliases
        (
          (refl, tt),
          (
            (refl, (refl, tt)),
            ((refl, tt), ((refl, (refl, tt)), ((refl, (refl, (refl, tt))), tt))),
          ),
        ))
]

-- The copies of a payload are under way if each alias of its event gives one.
module _ (ent : FanoutBatchEntry) (copy : String → FanoutBatchEntry) where
  aliases-IsAliasOf :
      (event : String)
      → event_of ent.payload ≡ str event
      → ((alias : String)
          → (event_of (copy alias).payload ≡ str alias)
            × ((copy alias).channel ≡ ent.channel)
            × (with_event (str event) (copy alias).payload ≡ ent.payload))
      → All (IsAliasOf ent) (map copy (alias_event_names_for_canonical event))
  aliases-IsAliasOf event announced h =
      All-map (IsAliasOf ent) copy _ (go _ (aliases-reliable event) (All-contains _ _ (λ a c. c)))
    where
      go :
          (names : List String)
          → All (λ alias. is_reliable_realtime_event_name alias ≡ true) names
          → All (λ alias. contains (alias_event_names_for_canonical event) alias ≡ true) names
          → All (λ alias. IsAliasOf ent (copy alias)) names
      go [] r l = tt
      go (alias ∷ names) (r, rs) (l, ls) = (
        record {
          event = event;
          alias = alias;
          announced = announced;
          renames = (h alias).0;
          listed = l;
          reliable = r;
          same_channel = (h alias).1;
          same_rest = (h alias).2;
        },
        go names rs ls,
      )

-- A publish whose announced event is changed announces the new one, and changed back it is what it was.
module _ (v : Value) (fs : Fields) where
  is_routed-flat : is_routed (set_field "event" v fs) ≡ is_routed fs
  unfolding is_routed
  is_routed-flat =
      rw (lookup_field-set_field "__wsRoute" "event" v fs)
        (rw (lookup_field-set_field "payload" "event" v fs) refl)

  is_object-with_event_field : (p : Value) → is_object (with_event_field v p) ≡ is_object p
  unfolding is_object with_event_field
  is_object-with_event_field (obj _) = refl
  is_object-with_event_field undefined = refl
  is_object-with_event_field null = refl
  is_object-with_event_field (bool _) = refl
  is_object-with_event_field (num _) = refl
  is_object-with_event_field (str _) = refl
  is_object-with_event_field (arr _) = refl

  is_routed-inner :
      (p : Value)
      → is_object p ≡ is_object (lookup_field "payload" fs)
      → is_routed (set_field "payload" p fs) ≡ is_routed fs
  unfolding is_routed
  is_routed-inner p h =
      rw (lookup_field-set_field "__wsRoute" "payload" p fs)
        (rw (lookup_field-set_field "payload" "payload" p fs) (rw h refl))

  get_event : (p : Value) → is_object p ≡ true → get_field "event" (with_event_field v p) ≡ v
  unfolding get_field with_event_field is_object
  get_event (obj gs) h = rw (lookup_field-set_field "event" "event" v gs) refl
  get_event undefined h = cc
  get_event null h = cc
  get_event (bool _) h = cc
  get_event (num _) h = cc
  get_event (str _) h = cc
  get_event (arr _) h = cc

  back :
      (p : Value)
      → get_field "event" p ≢ undefined
      → with_event_field (get_field "event" p) (with_event_field v p) ≡ p
  unfolding get_field with_event_field
  back (obj gs) h = ap obj (set_field_back "event" v gs h)
  back undefined h = refl
  back null h = refl
  back (bool _) h = refl
  back (num _) h = refl
  back (str _) h = refl
  back (arr _) h = refl

  defined : (p : Value) → is_object p ≡ true → p ≢ undefined
  unfolding is_object
  defined p h e = let k : is_object undefined ≡ true = rw e at h in cc

  inner_same :
      is_object (with_event_field v (lookup_field "payload" fs))
      ≡ is_object (lookup_field "payload" fs)
  inner_same = is_object-with_event_field (lookup_field "payload" fs)

  is_routed-object : is_routed fs ≡ true → is_object (lookup_field "payload" fs) ≡ true
  unfolding is_routed
  is_routed-object h = ground arith

  event_of-with_event : event_of (with_event v (obj fs)) ≡ v
  unfolding event_of with_event
  event_of-with_event = elim (Bool-cases (is_routed fs)) [
    | inl routed ↦
        rw
          (
            routed,
            is_routed-inner _ inner_same,
            routed,
            lookup_field-set_field "payload" "payload"
                (with_event_field v (lookup_field "payload" fs)) fs,
          )
          (get_event (lookup_field "payload" fs) (is_routed-object routed))
    | inr flat ↦
        rw (flat, is_routed-flat, flat) (rw (lookup_field-set_field "event" "event" v fs) refl)
  ]

  with_event_back :
      event_of (obj fs) ≢ undefined
      → with_event (event_of (obj fs)) (with_event v (obj fs)) ≡ obj fs
  unfolding event_of with_event
  with_event_back h = elim (Bool-cases (is_routed fs)) [
    | inl routed ↦
        let p : Value = lookup_field "payload" fs in
        let changed : Value = with_event_field v p in
        rw
          (
            routed,
            is_routed-inner _ inner_same,
            routed,
            lookup_field-set_field "payload" "payload" changed fs,
          )
          (rw (back p (rw routed at h))
            (ap obj (set_field_back "payload" changed fs (defined p (is_routed-object routed)))))
    | inr flat ↦
        rw (flat, is_routed-flat, flat) (ap obj (set_field_back "event" v fs (rw flat at h)))
  ]

alias_copies-by_event :
    (channel : String) (fs : Fields)
    → alias_copies channel (obj fs)
      ≡ map
          (λ alias. at_channel channel (with_event (str alias) (obj fs)))
          (names_of (event_of (obj fs)))
unfolding alias_copies event_of with_event
alias_copies-by_event channel fs = elim (Bool-cases (is_routed fs)) [
  | inl routed ↦ simp routed
  | inr flat ↦ simp flat
]

with_event-IsAliasOf :
    (channel : String) (fs : Fields) (v : Value)
    → event_of (obj fs) ≡ v
    → All
        (IsAliasOf (at_channel channel (obj fs)))
        (map (λ alias. at_channel channel (with_event (str alias) (obj fs))) (names_of v))
with_event-IsAliasOf channel fs (str event) h = aliases-IsAliasOf _ _ event h (λ alias.
    (event_of-with_event (str alias) fs, refl, rw h at (with_event_back (str alias) fs (λ e. cc))))
with_event-IsAliasOf channel fs undefined h = tt
with_event-IsAliasOf channel fs null h = tt
with_event-IsAliasOf channel fs (bool _) h = tt
with_event-IsAliasOf channel fs (num _) h = tt
with_event-IsAliasOf channel fs (obj _) h = tt
with_event-IsAliasOf channel fs (arr _) h = tt

copies-IsAliasOf :
    (channel : String) (payload : Value)
    → All (IsAliasOf (at_channel channel payload)) (alias_copies channel payload)
unfolding alias_copies
copies-IsAliasOf channel (obj fs) =
    rw (alias_copies-by_event channel fs) (with_event-IsAliasOf channel fs _ refl)
copies-IsAliasOf channel undefined = tt
copies-IsAliasOf channel null = tt
copies-IsAliasOf channel (bool _) = tt
copies-IsAliasOf channel (num _) = tt
copies-IsAliasOf channel (str _) = tt
copies-IsAliasOf channel (arr _) = tt

-- `out` is an entry of the batch, or an entry of the batch under an alias of its event.
abbrev pub ComesFrom : List FanoutBatchEntry → FanoutBatchEntry → Type 0
ComesFrom [] out = ⊥
ComesFrom (ent ∷ entries) out = (out ≡ ent) ⊎ (IsAliasOf ent out) ⊎ ComesFrom entries out

All-mono {ℓ κ μ} :
    {A : Type ℓ} (P : A → Type κ) (Q : A → Type μ) (xs : List A)
    → ((x : A) → P x → Q x)
    → All P xs
    → All Q xs
All-mono P Q [] f h = tt
All-mono P Q (x ∷ xs) f (p, h) = (f x p, All-mono P Q xs f h)

expand_entries-ComesFrom :
    (entries : List FanoutBatchEntry) → All (ComesFrom entries) (expand_entries entries)
unfolding expand_entries
expand_entries-ComesFrom [] = tt
expand_entries-ComesFrom (ent ∷ entries) =
    let rest : All (ComesFrom (ent ∷ entries)) (expand_entries entries) =
      All-mono _ _ _ (λ x h. inr (inr h)) (expand_entries-ComesFrom entries) in
    elim (Bool-cases (ent.channel == "")) [
      | inl blank ↦ rw blank rest
      | inr named ↦ rw named (
        inl refl,
        All-append (ComesFrom (ent ∷ entries)) _ _
            (All-mono _ _ _ (λ x h. inr (inl h)) (copies-IsAliasOf ent.channel ent.payload)) rest,
      )
    ]

All-ComesFrom : (entries : List FanoutBatchEntry) → All (ComesFrom entries) entries
All-ComesFrom [] = tt
All-ComesFrom (ent ∷ entries) =
    (inl refl, All-mono _ _ _ (λ x h. inr (inr h)) (All-ComesFrom entries))

-- Whether aliases are published or not, each entry of the expanded batch is an entry of the batch, or
-- one under an alias: an event of the table of its event, which backpressure does not drop, to the same
-- channel, and with a payload that is the original's once the event is set back.
pub expand_fanout_batch-ComesFrom :
    (v : String) (entries : List FanoutBatchEntry)
    → All (ComesFrom entries) (expand_fanout_batch_entries_with_aliases v entries)
unfolding expand_fanout_batch_entries_with_aliases
expand_fanout_batch-ComesFrom v entries =
    elim (Bool-cases (is_realtime_event_alias_fanout_enabled v)) [
      | inl enabled ↦ rw enabled (expand_entries-ComesFrom entries)
      | inr disabled ↦ rw disabled (All-ComesFrom entries)
    ]
