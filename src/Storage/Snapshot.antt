-- ===== src/Storage/Snapshot.antt =====
-- storage/fake.py: the state of the in-memory adapter without its faults, and the body of each
-- operation, which stands inside `_fault_scope` in the source.
use civ4_turn_relay.Prelude.{
  ltb, ◌==◌, if◌then◌else◌, Bool, true, false, not, ◌&&◌, Option, none, some, List, [], ◌∷◌, map,
  ◌++◌, Text, Bytes, codes, text_eq, contains,
}
use civ4_turn_relay.Prelude.Dict.{Dict, lookup, insert, remove, discard}
use civ4_turn_relay.Domain.Paths.{any_char}
use civ4_turn_relay.Storage.Port.{
  not_found, already_exists, wrong_kind, not_empty, Reply, ok, err, StorageEntryKind, StorageEntry,
}

-- `_directories` and `_files`: what `snapshot` copies.
pub record StorageSnapshot : Type 0 where
  pub directories : List Text
  pub files : Dict Bytes

-- The part of a path before its last separator.
unfoldable pub parent_path : Text → Option Text
parent_path [] = none
parent_path (c ∷ cs) = elim (parent_path cs) [
  | some parent ↦ some (c ∷ parent)
  | none ↦ if c == b'/' then some [] else none
]

-- What the dictionary and the set say of a path, and the checks on them.
unfoldable pub file_at : StorageSnapshot → Text → Option Bytes
file_at t path = lookup path t.files

unfoldable pub directory_at : StorageSnapshot → Text → Bool
directory_at t path = contains t.directories path

unfoldable pub ensure_parent : StorageSnapshot → Text → Reply (Unit {0})
ensure_parent t path = elim (parent_path path) [
  | none ↦ ok tt
  | some parent ↦ elim (file_at t parent) [
    | some _ ↦ err wrong_kind
    | none ↦ if directory_at t parent then ok tt else err not_found
  ]
]

-- `path[len(prefix):]`, if `path.startswith(prefix)`
after_prefix : Text → Text → Option Text
after_prefix [] path = some path
after_prefix (c ∷ cs) [] = none
after_prefix (c ∷ cs) (d ∷ ds) = let rest = after_prefix cs ds in if c == d then rest else none

child_name : Text → Text → Option Text
child_name prefix path = elim (after_prefix prefix path) [
  | none ↦ none
  | some rest ↦
      if not (text_eq rest []) && not (any_char (λ c. c == b'/') rest) then some rest else none
]

add_children : Text → StorageEntryKind → List Text → Dict StorageEntryKind → Dict StorageEntryKind
add_children prefix kind [] children = children
add_children prefix kind (path ∷ paths) children =
    add_children prefix kind paths
      (elim (child_name prefix path) [ none ↦ children | some name ↦ insert name kind children ])

-- The order of texts, by code points.
unfoldable pub text_le : Text → Text → Bool
text_le [] b = true
text_le (a ∷ as') [] = false
text_le (a ∷ as') (b ∷ bs) = if ltb a b then true else (a == b && text_le as' bs)

insert_entry : StorageEntry → List StorageEntry → List StorageEntry
insert_entry e [] = e ∷ []
insert_entry e (x ∷ xs) =
    let rest = insert_entry e xs in if text_le e.name x.name then e ∷ x ∷ xs else x ∷ rest

-- `sorted(children)`
sort_entries : List StorageEntry → List StorageEntry
sort_entries [] = []
sort_entries (e ∷ es) = insert_entry e (sort_entries es)

unfoldable pub list_children : StorageSnapshot → Text → List StorageEntry
unfolding add_children child_name after_prefix sort_entries insert_entry text_le
list_children t path =
    let prefix = path ++ codes "/" in
    let directories = add_children prefix StorageEntryKind.directory t.directories [] in
    let children =
      add_children prefix StorageEntryKind.file (map (λ (e : Text × Bytes). e.0) t.files)
        directories in
    sort_entries (map (λ (e : Text × StorageEntryKind). record { name = e.0; kind = e.1 }) children)

-- The bodies of the operations, inside `_fault_scope`.
abbrev pub Body : Type 0 → Type 0
Body A = StorageSnapshot → Reply A × StorageSnapshot

unfoldable pub mkdir_body : Text → Body (Unit {0})
unfolding ensure_parent
mkdir_body path t = elim (ensure_parent t path) [
  | err e ↦ (err e, t)
  | ok _ ↦ elim (file_at t path) [
    | some _ ↦ (err wrong_kind, t)
    | none ↦
        if directory_at t path
        then (err already_exists, t)
        else (ok tt, record t { directories = path ∷ t.directories })
  ]
]

unfoldable pub write_body : Text → Bytes → Bool → Body (Unit {0})
unfolding ensure_parent
write_body path content overwrite t = elim (ensure_parent t path) [
  | err e ↦ (err e, t)
  | ok _ ↦ if directory_at t path then (err wrong_kind, t) else elim (file_at t path) [
    | some _ ↦
        if overwrite
        then (ok tt, record t { files = insert path content t.files })
        else (err already_exists, t)
    | none ↦ (ok tt, record t { files = insert path content t.files })
  ]
]

unfoldable pub list_body : Text → Body (List StorageEntry)
list_body path t = elim (file_at t path) [
  | some _ ↦ (err wrong_kind, t)
  | none ↦ if directory_at t path then (ok (list_children t path), t) else (err not_found, t)
]

unfoldable pub remove_file_body : Text → Body (Unit {0})
remove_file_body path t =
    if directory_at t path then (err wrong_kind, t) else elim (file_at t path) [
      | none ↦ (err not_found, t)
      | some _ ↦ (ok tt, record t { files = remove path t.files })
    ]

unfoldable pub remove_dir_body : Text → Body (Unit {0})
remove_dir_body path t = elim (file_at t path) [
  | some _ ↦ (err wrong_kind, t)
  | none ↦
      if directory_at t path
      then elim (list_children t path) [
        | [] ↦ (ok tt, record t { directories = discard path t.directories })
        | _ ∷ _ ↦ (err not_empty, t)
      ]
      else (err not_found, t)
]

-- `_require_file`: the content, or the error.
unfoldable pub require_file : StorageSnapshot → Text → Reply Bytes
require_file t path =
    if directory_at t path
    then err wrong_kind
    else elim (file_at t path) [ some content ↦ ok content | none ↦ err not_found ]

unfoldable pub publish_body : Text → Text → Body (Unit {0})
unfolding require_file ensure_parent
publish_body source destination t = elim (require_file t source) [
  | err e ↦ (err e, t)
  | ok content ↦ elim (ensure_parent t destination) [
    | err e ↦ (err e, t)
    | ok _ ↦
        if directory_at t destination then (err wrong_kind, t) else elim (file_at t destination) [
          | some _ ↦ (err already_exists, t)
          | none ↦
              if text_eq source destination
              then (err already_exists, t)
              else (ok tt, record t { files = insert destination content (remove source t.files) })
        ]
  ]
]

unfoldable pub replace_body : Text → Text → Body (Unit {0})
unfolding require_file ensure_parent
replace_body source destination t = elim (require_file t source) [
  | err e ↦ (err e, t)
  | ok content ↦ elim (ensure_parent t destination) [
    | err e ↦ (err e, t)
    | ok _ ↦
        if directory_at t destination
        then (err wrong_kind, t)
        else if text_eq source destination
        then (ok tt, t)
        else (ok tt, record t { files = insert destination content (remove source t.files) })
  ]
]
