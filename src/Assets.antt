-- ===== src/Assets.antt =====
-- src/asset_store.py: `ImageAssetStore`, the manifest of the images that documents hold. The file is shared
-- by several workers; a method that writes it holds the asset lock, so it is one step on the file. A batch
-- works on a copy in memory, and `commit_batch` merges it into the file. A flag says whether the
-- lock is acquired and the file written. The image files are not modelled.
pub mod Merge
mod Tests
use rag_pipeline_windows.Base.{
  ℕ, zero, suc, ◌+◌, ◌-◌, ◌==◌, nat_eq, String, Bool, true, false, Option, none, some, List, [],
  ◌∷◌, ◌++◌, if◌then◌else◌, is_some, length, not, ◌||◌,
}
use rag_pipeline_windows.Base.Dict.{Dict, lookup, insert, remove, has}
use rag_pipeline_windows.Base.Updates.{
  changed_entries, missing_keys, update_all, remove_all, select,
}

pub record Asset : Type 0 where
  pub asset_id : String
  pub source_hash : String
  pub source_pdf_name : String
  pub page_no : ℕ
  pub description : String
  pub mime_type : String
  pub relative_path : String
  pub image_sha : String
  pub created_at : String

-- The open batch: the manifest in memory, and its snapshot at the start.
pub record Batch : Type 0 where
  pub manifest : Dict Asset
  pub base : Dict Asset

pub record AssetStore : Type 0 where
  pub disk : Dict Asset
  pub batch : Option Batch
  pub depth : ℕ

-- `load_manifest`
abbrev pub load_manifest : AssetStore → Dict Asset
load_manifest s = elim s.batch [ none ↦ s.disk | some b ↦ b.manifest ]

-- `begin_batch`
unfoldable pub begin_batch : AssetStore → AssetStore
begin_batch s = elim s.batch [
  | none ↦ record s {
    batch = some (record { manifest = s.disk; base = s.disk });
    depth = suc s.depth;
  }
  | some _ ↦ record s { depth = suc s.depth }
]

-- `same` is Python's `==` on two entries.
module _ (same : Asset → Asset → Bool) where
  -- `merged_assets` over the manifest that is on disk now
  unfoldable pub merge_batch : Batch → Dict Asset → Dict Asset
  unfolding missing_keys remove_all update_all changed_entries
  merge_batch b fresh =
      update_all (changed_entries same b.base b.manifest)
        (remove_all (missing_keys b.base b.manifest) fresh)

  -- The flush of the outermost `commit_batch`. When it cannot write, the batch stays armed, at depth 0.
  unfoldable pub flush_batch : Bool → Batch → AssetStore → Bool × AssetStore
  unfolding merge_batch
  flush_batch true b s =
      (true, record s { disk = merge_batch b s.disk; batch = none; depth = zero })
  flush_batch false b s = (false, record s { depth = zero })

  unfoldable pub commit_at : Bool → ℕ → AssetStore → Bool × AssetStore
  unfolding flush_batch
  commit_at ok zero s = (true, s)
  commit_at ok (suc zero) s = elim s.batch [
    | none ↦ (true, record s { depth = zero })
    | some b ↦ flush_batch ok b s
  ]
  commit_at ok (suc (suc n)) s = (true, record s { depth = suc n })

  -- `commit_batch`: False is the exception of the lock or of the write.
  unfoldable pub commit_batch : Bool → AssetStore → Bool × AssetStore
  unfolding commit_at
  commit_batch ok s = commit_at ok s.depth s

-- `abort_batch`
unfoldable pub abort_batch : AssetStore → AssetStore
abort_batch s = record s { batch = none; depth = zero }

abbrev pub created : String → Option Asset → String
created now none = now
created now (some a) = if a.created_at == "" then now else a.created_at

-- `save_image`, from the entry whose time of creation is still open
unfoldable pub save_image : String → Asset → AssetStore → AssetStore
save_image now asset s = elim s.batch [
  | none ↦ record s {
    disk =
        insert asset.asset_id
          (record asset { created_at = created now (lookup asset.asset_id s.disk) }) s.disk;
  }
  | some b ↦ record s {
    batch = some (record b {
      manifest =
          insert asset.asset_id
            (record asset { created_at = created now (lookup asset.asset_id b.manifest) })
            b.manifest;
    });
  }
]

-- The entries that `remove_source_assets` keeps.
unfoldable pub without_source : String → Dict Asset → Dict Asset
unfolding select
without_source hash = select (λ id a. not (a.source_hash == hash))

-- `removed_paths` is not empty: one of the entries of the source has a path, and `inside` says that `pathlib` finds
-- it in the directory of the assets.
unfoldable pub has_paths : (String → Bool) → String → Dict Asset → Bool
has_paths inside hash [] = false
has_paths inside hash ((_, a) ∷ assets) =
    let rest = has_paths inside hash assets in
    if a.source_hash == hash
    then (if a.relative_path == "" then rest else inside a.relative_path || rest)
    else rest

-- `remove_source_assets`. Outside a batch the manifest is left alone when there is no path to remove.
unfoldable pub remove_source_assets : (String → Bool) → String → AssetStore → AssetStore
unfolding without_source has_paths
remove_source_assets inside hash s = if hash == "" then s else elim s.batch [
  | none ↦
      if has_paths inside hash s.disk then record s { disk = without_source hash s.disk } else s
  | some b ↦ record s { batch = some (record b { manifest = without_source hash b.manifest }) }
]

-- `get_asset`, for an id of the safe form
abbrev pub get_asset : String → AssetStore → Option Asset
get_asset id s = lookup id s.disk
