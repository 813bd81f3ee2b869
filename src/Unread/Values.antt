-- ===== src/Unread/Values.antt =====
-- Objects that are spread and compared, as unread.ts and chatStoreUnreadModel.ts use them.
use text.Mathlib.TextEquality.{eq_iff}
use cse356_discord.Common.{
  ℕ, ◌≡◌, refl, String, Bool, true, false, arith, if◌then◌else◌, ◌==◌, string_eq, nat_eq, sym, inl,
  inr, Bool-cases,
}
use cse356_discord.Value.{
  Value, undefined, null, bool, num, str, obj, arr, get_field, is_truthy, or_else, lookup_field,
  lookup_field-set_field,
}
use cse356_discord.Unread.{strict_eq, with_field, with_metadata}

pub get_field-with_field :
    (k name : String) (v e : Value)
    → get_field k (with_field name v e) ≡ (if name == k then v else get_field k e)
unfolding get_field with_field lookup_field
get_field-with_field k name v (obj fs) = lookup_field-set_field k name v fs
get_field-with_field k name v undefined = refl
get_field-with_field k name v null = refl
get_field-with_field k name v (bool b) = refl
get_field-with_field k name v (num n) = refl
get_field-with_field k name v (str s) = refl
get_field-with_field k name v (arr items) = refl

null_falsy : is_truthy null ≡ false
unfolding is_truthy
null_falsy = refl

-- Equal values are both truthy or both falsy.
pub strict_eq-is_truthy : (a b : Value) → strict_eq a b ≡ true → is_truthy a ≡ is_truthy b
unfolding strict_eq is_truthy
strict_eq-is_truthy undefined undefined h = refl
strict_eq-is_truthy null null h = refl
strict_eq-is_truthy (bool true) (bool b) h = sym h
strict_eq-is_truthy (bool false) (bool b) h = ground arith
strict_eq-is_truthy (num m) (num n) h = ground arith
strict_eq-is_truthy (str s) (str t) h = ground (arith, eq_iff s t)
strict_eq-is_truthy _ _ h = ground arith

-- `v || null` compares with a truthy value as `v` does.
pub strict_eq-or_null :
    (v w : Value) → is_truthy w ≡ true → strict_eq (or_else v null) w ≡ strict_eq v w
unfolding or_else
strict_eq-or_null v w h = elim (Bool-cases (is_truthy v)) [
  | inl truthy ↦ ground (arith, truthy)
  | inr falsy ↦ rw (falsy, null_differs w h) (sym (falsy_differs v w falsy h))
]
  where
    falsy_differs : (a b : Value) → is_truthy a ≡ false → is_truthy b ≡ true → strict_eq a b ≡ false
    falsy_differs a b l r = ground (arith, l, r, strict_eq-is_truthy a b)

    null_differs : (b : Value) → is_truthy b ≡ true → strict_eq null b ≡ false
    null_differs b r = falsy_differs null b null_falsy r

pub or_null-truthy : (v : Value) → is_truthy v ≡ true → or_else v null ≡ v
unfolding or_else
or_null-truthy v h = ground (arith, h)

pub is_truthy-or_null : (v : Value) → is_truthy (or_else v null) ≡ is_truthy v
unfolding or_else
is_truthy-or_null v = ground (arith, null_falsy)

-- What an object with new metadata still has.
pub get_field-with_metadata :
    (k : String) (c : Value) (n : ℕ) (flag : Bool)
    → ("unread_message_count" == k) ≡ false
    → ("has_new_activity" == k) ≡ false
    → ("hasNewActivity" == k) ≡ false
    → get_field k (with_metadata c n flag) ≡ get_field k c
unfolding with_metadata
get_field-with_metadata k c n flag h1 h2 h3 = ground (
  arith,
  h1,
  h2,
  h3,
  get_field-with_field k "hasNewActivity" (bool flag)
      (with_field "has_new_activity" (bool flag) (with_field "unread_message_count" (num n) c)),
  get_field-with_field k "has_new_activity" (bool flag)
      (with_field "unread_message_count" (num n) c),
  get_field-with_field k "unread_message_count" (num n) c,
)
