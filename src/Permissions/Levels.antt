-- ===== src/Permissions/Levels.antt =====
-- What level each principal has after `update_permissions`.
use minilake.Prelude.{
  String, ◌≡◌, inl, inr, Option-cases, refl, Option, none, some, List, [], ◌∷◌, arith, string_eq,
  option_eq, get_or, if◌then◌else◌,
}
use minilake.Prelude.Dict.{get-put_text}
use minilake.Permissions.{
  Principal, Entry, State, same_principal, upsert, upsert_all, update_permissions, get_permissions,
  acl_of, object_key,
}

-- The level of the principal's first entry.
abbrev pub level_of : List Entry → Principal → Option String
level_of [] who = none
level_of (e ∷ es) who =
    if same_principal who e.principal then some e.permission_level else level_of es who

-- The level of the principal's last entry in a request.
abbrev pub requested : List Entry → Principal → Option String
requested [] who = none
requested (e ∷ es) who = elim (requested es who) [
  | some level ↦ some level
  | none ↦ if same_principal who e.principal then some e.permission_level else none
]

level_of-upsert :
    (es : List Entry) (e : Entry) (who : Principal)
    → level_of (upsert es e) who
      ≡ (if same_principal who e.principal then some e.permission_level else level_of es who)
unfolding upsert
level_of-upsert [] e who = refl
level_of-upsert (x ∷ xs) e who = ground (arith, level_of-upsert xs e who)

abbrev pub or_held : Option String → Option String → Option String
or_held none held = held
or_held (some level) held = some level

level_of-upsert_all :
    (existing es : List Entry) (who : Principal)
    → level_of (upsert_all existing es) who ≡ or_held (requested es who) (level_of existing who)
unfolding upsert_all
level_of-upsert_all existing [] who = refl
level_of-upsert_all existing (e ∷ es) who = elim (Option-cases (requested es who)) [
  | inl h ↦
      ground
        (arith, h, level_of-upsert_all (upsert existing e) es who, level_of-upsert existing e who)
  | inr (l, h) ↦
      ground
        (arith, h, level_of-upsert_all (upsert existing e) es who, level_of-upsert existing e who)
]

-- The level of each principal after a merge: the last one that the request gives, else the last one
-- that the list had before.
pub level_of-update :
    (object_type object_id : String) (acl : Option (List Entry)) (s : State) (who : Principal)
    → level_of (acl_of (update_permissions object_type object_id acl s).1 object_type object_id) who
      ≡ or_held (requested (get_or acl []) who) (requested (acl_of s object_type object_id) who)
unfolding update_permissions get_permissions acl_of
level_of-update object_type object_id acl s who = ground (
  arith,
  get-put_text s (object_key object_type object_id)
      (upsert_all (upsert_all [] (acl_of s object_type object_id)) (get_or acl []))
      (object_key object_type object_id),
  level_of-upsert_all (upsert_all [] (acl_of s object_type object_id)) (get_or acl []) who,
  level_of-upsert_all [] (acl_of s object_type object_id) who,
)
