-- ===== src/Dataset/GeoparquetTree/Leaves.antt =====
-- The files of the tree, against the paths of the sources.
use mathlib.Core.List.{Perm, perm_append_comm, perm_middle}
use mathlib.Core.List.Perm
use hifld_next.Common.{
  String, true, ◌||◌, ◌==◌, List, [], ◌∷◌, ◌++◌, map, append_assoc, append-nil, prepend, Option,
  none, some, Bool-cases, eq_refl, eq_iff, inl, inr, ◌≡◌, refl, ap, subst, arith,
}
use hifld_next.Js.{Js}
use hifld_next.Js.Paths.{segments}
use hifld_next.Dataset.Sources.{DatasetSource}
use hifld_next.Dataset.ParquetPreview.{last_or}
use hifld_next.Dataset.GeoparquetTree.{
  Node, folder, leaf, Nodes, nil, cons, get_source_path, relative_geoparquet_path, push,
  insert_node, sort_nodes, after, is_folder, has_folder, update_folder, below, get_or_create_folder,
  add_file, parents, file_at, new_path, add_sources, build_geoparquet_source_tree,
}

-- A file of a tree: the names on the way down to it, the path that it shows, and its source.
pub record Leaf : Type 0 where
  pub place : List String
  pub path : String
  pub source : DatasetSource

abbrev pub under : String → Leaf → Leaf
under name l = record l { place = name ∷ l.place }

abbrev mutual
  pub leaves_of : Node → List Leaf
  leaves_of (folder name path children) = map (under name) (leaves children)
  leaves_of (leaf name path source) =
      record { place = name ∷ []; path = path; source = source } ∷ []

  pub leaves : Nodes → List Leaf
  leaves nil = []
  leaves (cons node nodes) = leaves_of node ++ leaves nodes

-- `${currentPath}/${name}` along the names of a way.
abbrev pub path_along : String → List String → String
path_along current_path [] = current_path
path_along current_path (name ∷ names) = path_along (below current_path name) names

swap_front {ℓ} : {A : Type ℓ} (xs ys zs : List A) → Perm (xs ++ (ys ++ zs)) (ys ++ (xs ++ zs))
swap_front xs ys zs =
    subst (λ l. Perm l (ys ++ (xs ++ zs))) (append_assoc xs ys zs)
      (subst (λ l. Perm ((xs ++ ys) ++ zs) l) (append_assoc ys xs zs)
        (Perm.append_right zs (perm_append_comm xs ys)))

-- A new sibling adds its own files.
leaves-push :
    (node : Node) (nodes : Nodes) → Perm (leaves (push node nodes)) (leaves_of node ++ leaves nodes)
unfolding push
leaves-push node nil = Perm.refl _
leaves-push node (cons n nodes) =
    Perm.trans (Perm.append_left (leaves_of n) (leaves-push node nodes))
      (swap_front (leaves_of n) (leaves_of node) (leaves nodes))

module _ (js : Js) where
  leaves-insert_node :
      (node : Node) (nodes : Nodes)
      → Perm (leaves (insert_node js node nodes)) (leaves_of node ++ leaves nodes)
  unfolding insert_node
  leaves-insert_node node nil = Perm.refl _
  leaves-insert_node node (cons n nodes) = elim (Bool-cases (after js node n)) [
    | inl later ↦ rw later (
        Perm.trans (Perm.append_left (leaves_of n) (leaves-insert_node node nodes))
          (swap_front (leaves_of n) (leaves_of node) (leaves nodes)))
    | inr first ↦ rw first (Perm.refl _)
  ]

  leaves-sort_nodes : (nodes : Nodes) → Perm (leaves (sort_nodes js nodes)) (leaves nodes)
  unfolding sort_nodes
  leaves-sort_nodes nil = Perm.refl _
  leaves-sort_nodes (cons n nodes) =
      Perm.trans (leaves-insert_node n (sort_nodes js nodes))
        (Perm.append_left (leaves_of n) (leaves-sort_nodes nodes))

  has_folder-push :
      (name : String) (node : Node) (nodes : Nodes)
      → has_folder name (push node nodes) ≡ (is_folder name node || has_folder name nodes)
  unfolding has_folder push
  has_folder-push name node nil = refl
  has_folder-push name node (cons n nodes) = ground (arith, has_folder-push name node nodes)

  has_folder-insert_node :
      (name : String) (node : Node) (nodes : Nodes)
      → has_folder name (insert_node js node nodes) ≡ (is_folder name node || has_folder name nodes)
  unfolding has_folder insert_node
  has_folder-insert_node name node nil = refl
  has_folder-insert_node name node (cons n nodes) =
      ground (arith, has_folder-insert_node name node nodes)

  has_folder-sort_nodes :
      (name : String) (nodes : Nodes)
      → has_folder name (sort_nodes js nodes) ≡ has_folder name nodes
  unfolding has_folder sort_nodes
  has_folder-sort_nodes name nil = refl
  has_folder-sort_nodes name (cons n nodes) =
      ground (
        arith,
        has_folder-insert_node name n (sort_nodes js nodes),
        has_folder-sort_nodes name nodes,
      )

  has_folder-get_or_create_folder :
      (name path : String) (nodes : Nodes)
      → has_folder name (get_or_create_folder js name path nodes) ≡ true
  unfolding get_or_create_folder
  has_folder-get_or_create_folder name path nodes = ground (
    arith,
    has_folder-sort_nodes name (push (folder name path nil) nodes),
    has_folder-push name (folder name path nil) nodes,
    eq_refl name,
  )

  leaves-get_or_create_folder :
      (name path : String) (nodes : Nodes)
      → Perm (leaves (get_or_create_folder js name path nodes)) (leaves nodes)
  unfolding get_or_create_folder
  leaves-get_or_create_folder name path nodes = elim (Bool-cases (has_folder name nodes)) [
    | inl old ↦ rw old (Perm.refl _)
    | inr new ↦ rw new (
        Perm.trans (leaves-sort_nodes (push (folder name path nil) nodes))
          (leaves-push (folder name path nil) nodes))
  ]

-- A write into a folder that adds a file adds it below the folder.
leaves-update_folder :
    (name : String) (write : Nodes → Nodes) (new : Leaf)
    → ((children : Nodes) → Perm (leaves (write children)) (new ∷ leaves children))
    → (nodes : Nodes) → has_folder name nodes ≡ true
    → Perm (leaves (update_folder name write nodes)) (under name new ∷ leaves nodes)
unfolding has_folder update_folder
leaves-update_folder name write new added nil h = cc
leaves-update_folder name write new added (cons (leaf n path source) nodes) h =
    Perm.trans (Perm.cons _ (leaves-update_folder name write new added nodes h)) (Perm.swap _ _ _)
leaves-update_folder name write new added (cons (folder n path children) nodes) h =
    elim (Bool-cases (n == name)) [
      | inl same ↦ rw same (
          subst
            (λ k.
              Perm (map (under n) (leaves (write children)) ++ leaves nodes)
                (under k new ∷ (map (under n) (leaves children) ++ leaves nodes)))
            ((eq_iff n name).0 same)
            (Perm.append_right (leaves nodes) (Perm.map (under n) (added children))))
      | inr other ↦ rw other (
          Perm.trans
            (Perm.append_left (map (under n) (leaves children))
              (leaves-update_folder name write new added nodes (ground (arith, h, other))))
            (perm_middle (map (under n) (leaves children)) (leaves nodes)))
    ]

module _ (js : Js) (file_name : String) (source : DatasetSource) where
  -- The file at the end of a way from the folder at `current_path`.
  abbrev file_leaf : List String → String → Leaf
  file_leaf folders current_path = record {
    place = folders ++ file_name ∷ [];
    path = path_along current_path (folders ++ file_name ∷ []);
    source = source;
  }

  leaves-add_file :
      (folders : List String) (current_path : String) (nodes : Nodes)
      → Perm
          (leaves (add_file js file_name source folders current_path nodes))
          (file_leaf folders current_path ∷ leaves nodes)
  unfolding add_file
  leaves-add_file [] current_path nodes =
      let node = leaf file_name (below current_path file_name) source in
      Perm.trans (leaves-sort_nodes js (push node nodes)) (leaves-push node nodes)
  leaves-add_file (name ∷ folders) current_path nodes =
      let path = below current_path name in
      Perm.trans
        (leaves-update_folder name (add_file js file_name source folders path)
          (file_leaf folders path) (leaves-add_file folders path)
          (get_or_create_folder js name path nodes)
          (has_folder-get_or_create_folder js name path nodes))
        (Perm.cons _ (leaves-get_or_create_folder js name path nodes))

-- The file that a source with these names on its way should be, and none without a name.
abbrev pub leaf_at : DatasetSource → List String → Option Leaf
leaf_at source [] = none
leaf_at source (name ∷ names) =
    some (record { place = name ∷ names; path = path_along name names; source = source })

-- The files that a tree of the sources should have: one for each path with no wild card, of the
-- first source that has it, at the place that the path below the format's folder names.
abbrev pub files_of : List String → List DatasetSource → List Leaf
files_of seen [] = []
files_of seen (source ∷ sources) = elim (new_path seen (get_source_path source)) [
  | none ↦ files_of seen sources
  | some path ↦
      prepend (leaf_at source (segments (relative_geoparquet_path path)))
        (files_of (path ∷ seen) sources)
]

parents-last_or :
    (name : String) (names : List String)
    → parents name names ++ last_or names name ∷ [] ≡ name ∷ names
parents-last_or name [] = refl
parents-last_or name (next ∷ names) = ap (λ l. name ∷ l) (parents-last_or next names)

module _ (js : Js) where
  leaves-file_at :
      (source : DatasetSource) (parts : List String) (nodes : Nodes)
      → Perm
          (leaves (file_at js source parts nodes))
          (prepend (leaf_at source parts) (leaves nodes))
  leaves-file_at source [] nodes = Perm.refl _
  leaves-file_at source (name ∷ names) nodes =
      subst
        (λ way.
          Perm (leaves (file_at js source (name ∷ names) nodes))
            (record { place = way; path = path_along "" way; source = source } ∷ leaves nodes))
        (parents-last_or name names)
        (leaves-add_file js (last_or names name) source (parents name names) "" nodes)

  prepend_middle :
      (o : Option Leaf) (xs ys : List Leaf) → Perm (xs ++ prepend o ys) (prepend o xs ++ ys)
  prepend_middle none xs ys = Perm.refl _
  prepend_middle (some l) xs ys = perm_middle xs ys

  leaves-add_sources :
      (seen : List String) (nodes : Nodes) (sources : List DatasetSource)
      → Perm (leaves (add_sources js seen nodes sources)) (files_of seen sources ++ leaves nodes)
  unfolding add_sources
  leaves-add_sources seen nodes [] = Perm.refl _
  leaves-add_sources seen nodes (source ∷ sources) =
      elim (new_path seen (get_source_path source))
        as (λ o.
          Perm
            (leaves (elim o [
              | none ↦ add_sources js seen nodes sources
              | some path ↦
                  add_sources js (path ∷ seen)
                    (file_at js source (segments (relative_geoparquet_path path)) nodes) sources
            ]))
            (elim o [
              | none ↦ files_of seen sources
              | some path ↦
                  prepend (leaf_at source (segments (relative_geoparquet_path path)))
                    (files_of (path ∷ seen) sources)
            ]
              ++ leaves nodes)) [
                | none ↦ leaves-add_sources seen nodes sources
                | some path ↦
                    let parts = segments (relative_geoparquet_path path) in
                    Perm.trans
                      (leaves-add_sources (path ∷ seen) (file_at js source parts nodes) sources)
                      (Perm.trans
                        (Perm.append_left (files_of (path ∷ seen) sources)
                          (leaves-file_at source parts nodes))
                        (prepend_middle (leaf_at source parts) (files_of (path ∷ seen) sources)
                          (leaves nodes)))
              ]

  -- The files of the tree of a source list are, but for their order, one for each path without a
  -- wild card that has a name below the format's folder: the first source that has the path, under
  -- folders with the names of that path and with the path that they spell.
  pub build_geoparquet_source_tree_files :
      (sources : List DatasetSource)
      → Perm (leaves (build_geoparquet_source_tree js sources)) (files_of [] sources)
  unfolding build_geoparquet_source_tree
  build_geoparquet_source_tree_files sources =
      subst (Perm (leaves (add_sources js [] nil sources))) (append-nil (files_of [] sources))
        (leaves-add_sources [] nil sources)
