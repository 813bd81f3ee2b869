-- ===== src/MessageList/Merge.antt =====
-- chatStoreMessageList.ts: dedupeMessages keeps one message of each id, and the merge of a page is sorted.
use cse356_discord.Common.{
  ◌≡◌, refl, ◌∙◌, String, true, false, inl, inr, List, [], ◌∷◌, ◌++◌, contains, contains-append,
  arith, ◌==◌, ==_refl, string_eq, Bool-cases,
}
use cse356_discord.MessageList.{Message, id_of, dedupe_from, dedupe_messages}

abbrev pub ids : List Message → List String
ids [] = []
ids (m ∷ ms) = id_of m ∷ ids ms

-- No id stands twice, and none is blank.
abbrev pub HasOwnIds : List Message → Type 0
HasOwnIds [] = Unit
HasOwnIds (m ∷ ms) =
    ((id_of m == "") ≡ false) × (contains (ids ms) (id_of m) ≡ false) × HasOwnIds ms

dedupe_from-skips :
    (seen : List String) (ms : List Message) (id : String)
    → contains seen id ≡ true
    → contains (ids (dedupe_from seen ms)) id ≡ false
unfolding dedupe_from
dedupe_from-skips seen [] id h = refl
dedupe_from-skips seen (m ∷ ms) id h = elim (Bool-cases (id_of m == "")) [
  | inl blank ↦ rw blank (dedupe_from-skips seen ms id h)
  | inr named ↦ elim (Bool-cases (contains seen (id_of m))) [
    | inl old ↦ rw (named, old) (dedupe_from-skips seen ms id h)
    | inr new ↦
        rw (named, new)
          (ground (
            arith,
            dedupe_from-skips (seen ++ id_of m ∷ []) ms id
                (contains-append seen (id_of m ∷ []) id ∙ rw h refl),
            new,
            h,
            string_eq.beq_iff id (id_of m),
          ))
  ]
]

added : (seen : List String) (id : String) → contains (seen ++ id ∷ []) id ≡ true
added seen id = contains-append seen (id ∷ []) id ∙ ground (arith, ==_refl id)

dedupe_from-HasOwnIds : (seen : List String) (ms : List Message) → HasOwnIds (dedupe_from seen ms)
unfolding dedupe_from
dedupe_from-HasOwnIds seen [] = tt
dedupe_from-HasOwnIds seen (m ∷ ms) = elim (Bool-cases (id_of m == "")) [
  | inl blank ↦ rw blank (dedupe_from-HasOwnIds seen ms)
  | inr named ↦ elim (Bool-cases (contains seen (id_of m))) [
    | inl old ↦ rw (named, old) (dedupe_from-HasOwnIds seen ms)
    | inr new ↦
        rw (named, new)
          (
            named,
            dedupe_from-skips (seen ++ id_of m ∷ []) ms (id_of m) (added seen (id_of m)),
            dedupe_from-HasOwnIds (seen ++ id_of m ∷ []) ms,
          )
  ]
]

dedupe_from-ids :
    (seen : List String) (ms : List Message) (id : String)
    → (id == "") ≡ false
    → contains seen id ≡ false
    → contains (ids (dedupe_from seen ms)) id ≡ contains (ids ms) id
unfolding dedupe_from
dedupe_from-ids seen [] id real fresh = refl
dedupe_from-ids seen (m ∷ ms) id real fresh =
    let ih : contains (ids (dedupe_from seen ms)) id ≡ contains (ids ms) id =
      dedupe_from-ids seen ms id real fresh in
    elim (Bool-cases (id_of m == "")) [
      | inl blank ↦ rw blank (ih ∙ ground (arith, blank, real, string_eq.beq_iff id (id_of m)))
      | inr named ↦ elim (Bool-cases (contains seen (id_of m))) [
        | inl old ↦
            rw (named, old) (ih ∙ ground (arith, old, fresh, string_eq.beq_iff id (id_of m)))
        | inr new ↦
            rw (named, new)
              (elim (Bool-cases (id == id_of m)) [
                | inl same ↦ rw same refl
                | inr other ↦ rw other (
                    dedupe_from-ids (seen ++ id_of m ∷ []) ms id real
                      (contains-append seen (id_of m ∷ []) id ∙ ground (arith, fresh, other)))
              ])
      ]
    ]

-- After dedupeMessages no id stands twice and none is blank, and an id that is not blank is there
-- just when it was before.
pub dedupe_messages-ids :
    (ms : List Message) (id : String)
    → (id == "") ≡ false
    → HasOwnIds (dedupe_messages ms)
      × (contains (ids (dedupe_messages ms)) id ≡ contains (ids ms) id)
unfolding dedupe_messages
dedupe_messages-ids ms id real = (dedupe_from-HasOwnIds [] ms, dedupe_from-ids [] ms id real refl)
