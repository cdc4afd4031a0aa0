-- ===== src/Dataset/GeoparquetTree.antt =====
-- webapp/src/components/dataset/geoparquetTree.ts: the files of a partitioned GeoParquet source as a
-- tree of folders.
pub mod Leaves
use Prim.Native.Nat.{Ordering}
use Prim.Native.String
use hifld_next.Common.{
  String, Bool, true, false, not, ◌||◌, ◌&&◌, ◌==◌, if◌then◌else◌, List, [], ◌∷◌, includes, join,
  concat, Option, none, some,
}
use hifld_next.Js.{Js}
use hifld_next.Js.Patterns.{has_code, has_part}
use hifld_next.Js.Paths.{segments, after_part}
use hifld_next.Dataset.Sources.{DatasetSource}
use hifld_next.Dataset.ParquetPreview.{path_of, last_or}

-- `GeoparquetTreeNode`: a folder with its path and its children, or a file with its path and source.
mutual
  pub data Node : Type 0 where
    folder : String → String → Nodes → Node
    leaf : String → String → DatasetSource → Node

  pub data Nodes : Type 0 where
    nil : Nodes
    cons : Node → Nodes → Nodes

abbrev pub name_of : Node → String
name_of (folder name path children) = name
name_of (leaf name path source) = name

abbrev not_empty : Option String → Option String
not_empty none = none
not_empty (some path) = if path == "" then none else some path

unfoldable pub get_source_path : DatasetSource → Option String
get_source_path source = not_empty (path_of source.location)

unfoldable pub format_geoparquet_glob_label : String → String
unfolding has_part
format_geoparquet_glob_label glob_pattern =
    if has_part glob_pattern "**/" then "**/*.parquet (glob)" else "*.parquet (glob)"

-- What follows the first segment "geoparquet".
abbrev after_format : List String → Option (List String)
after_format [] = none
after_format (part ∷ parts) =
    let rest = after_format parts in if part == "geoparquet" then some parts else rest

unfoldable pub relative_geoparquet_path : String → String
unfolding segments after_part
relative_geoparquet_path path = elim (after_part "/geoparquet/" path) [
  | some rest ↦ rest
  | none ↦ elim (after_format (segments path)) [
    | some parts ↦ join "/" parts
    | none ↦ last_or (segments path) path
  ]
]

-- `siblings.push(node)`
unfoldable pub push : Node → Nodes → Nodes
push node nil = cons node nil
push node (cons sibling siblings) = cons sibling (push node siblings)

module _ (js : Js) where
  abbrev pub after : Node → Node → Bool
  after a b = elim (js.locale_compare (name_of a) (name_of b)) [ Ordering.gt ↦ true | _ ↦ false ]

  unfoldable pub insert_node : Node → Nodes → Nodes
  insert_node node nil = cons node nil
  insert_node node (cons sibling siblings) =
      if after node sibling
      then cons sibling (insert_node node siblings)
      else cons node (cons sibling siblings)

  -- `siblings.sort((a, b) => a.name.localeCompare(b.name))`
  unfoldable pub sort_nodes : Nodes → Nodes
  unfolding insert_node
  sort_nodes nil = nil
  sort_nodes (cons sibling siblings) = insert_node sibling (sort_nodes siblings)

-- `node.type === "folder" && node.name === name`
abbrev pub is_folder : String → Node → Bool
is_folder name (folder given path children) = given == name
is_folder name (leaf given path source) = false

unfoldable pub has_folder : String → Nodes → Bool
has_folder name nil = false
has_folder name (cons sibling siblings) = is_folder name sibling || has_folder name siblings

-- A write into the children of a folder.
abbrev in_folder : (Nodes → Nodes) → Node → Node
in_folder write (folder name path children) = folder name path (write children)
in_folder write (leaf name path source) = leaf name path source

-- The same into the first folder of the name, which is the object that `find` returns.
unfoldable pub update_folder : String → (Nodes → Nodes) → Nodes → Nodes
update_folder name write nil = nil
update_folder name write (cons sibling siblings) =
    let rest = update_folder name write siblings in
    if is_folder name sibling then cons (in_folder write sibling) siblings else cons sibling rest

-- `${currentPath}/${name}`
abbrev pub below : String → String → String
below current_path name =
    if current_path == "" then name else concat (current_path ∷ "/" ∷ name ∷ [])

-- `parts.slice(0, -1)` and `parts.at(-1)`
abbrev pub parents : String → List String → List String
parents part [] = []
parents part (next ∷ parts) = part ∷ parents next parts

-- What the loop does not pass over: a path of its own, with no wild card.
unfoldable pub new_path : List String → Option String → Option String
new_path seen none = none
new_path seen (some path) = if has_code b'*' path || includes seen path then none else some path

module _ (js : Js) where
  -- The siblings after `getOrCreateFolder`.
  unfoldable pub get_or_create_folder : String → String → Nodes → Nodes
  unfolding has_folder push sort_nodes
  get_or_create_folder name path siblings =
      if has_folder name siblings
      then siblings
      else sort_nodes js (push (folder name path nil) siblings)

  -- The walk down the folders, and the file at its end. `source` is at `file_name`.
  unfoldable pub add_file : String → DatasetSource → List String → String → Nodes → Nodes
  unfolding push sort_nodes get_or_create_folder update_folder
  add_file file_name source [] current_path siblings =
      sort_nodes js (push (leaf file_name (below current_path file_name) source) siblings)
  add_file file_name source (folder_name ∷ folders) current_path siblings =
      let path = below current_path folder_name in
      update_folder folder_name (add_file file_name source folders path)
        (get_or_create_folder folder_name path siblings)

  -- A part is not empty, so the other names that the code has for the file are not read.
  abbrev pub file_at : DatasetSource → List String → Nodes → Nodes
  file_at source [] root = root
  file_at source (part ∷ parts) root =
      add_file (last_or parts part) source (parents part parts) "" root

  -- The loop.
  unfoldable pub add_sources : List String → Nodes → List DatasetSource → Nodes
  unfolding add_file
  add_sources seen root [] = root
  add_sources seen root (source ∷ sources) = elim (new_path seen (get_source_path source)) [
    | none ↦ add_sources seen root sources
    | some path ↦
        add_sources (path ∷ seen) (file_at source (segments (relative_geoparquet_path path)) root)
          sources
  ]

  unfoldable pub build_geoparquet_source_tree : List DatasetSource → Nodes
  unfolding add_sources
  build_geoparquet_source_tree sources = add_sources [] nil sources
