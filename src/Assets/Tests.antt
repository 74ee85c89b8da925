-- ===== src/Assets/Tests.antt =====
-- The theorems on the image assets at a concrete store.
use rag_pipeline_windows.Base.{
  ◌==◌, ◌&&◌, nat_eq, String, Bool, true, some, [], ◌∷◌, ◌≡◌, refl, arith, eq_iff,
}
use rag_pipeline_windows.Base.Dict.{lookup}
use rag_pipeline_windows.Assets.{Asset, Batch, AssetStore, commit_batch}
use rag_pipeline_windows.Assets.Merge.{commit_batch_keeps_foreign, commit_batch_publishes}

abbrev asset_named : String → Asset
asset_named id = record {
  asset_id = id;
  source_hash = "h";
  source_pdf_name = "notes.pdf";
  page_no = 1;
  description = "";
  mime_type = "image/png";
  relative_path = "h/1.png";
  image_sha = "s";
  created_at = "t0";
}

abbrev same_asset : Asset → Asset → Bool
same_asset a c =
    (a.asset_id == c.asset_id)
    && (a.source_hash == c.source_hash)
    && (a.source_pdf_name == c.source_pdf_name)
    && nat_eq a.page_no c.page_no
    && (a.description == c.description)
    && (a.mime_type == c.mime_type)
    && (a.relative_path == c.relative_path)
    && (a.image_sha == c.image_sha)
    && (a.created_at == c.created_at)

same_asset_refl : (a : Asset) → same_asset a a ≡ true
same_asset_refl a = ground (
  arith,
  eq_iff a.asset_id a.asset_id,
  eq_iff a.source_hash a.source_hash,
  eq_iff a.source_pdf_name a.source_pdf_name,
  eq_iff a.description a.description,
  eq_iff a.mime_type a.mime_type,
  eq_iff a.relative_path a.relative_path,
  eq_iff a.image_sha a.image_sha,
  eq_iff a.created_at a.created_at,
)

same_asset_law : (a c : Asset) → same_asset a c ≡ true → a ≡ c
same_asset_law a c h = ground (
  arith,
  h,
  eq_iff a.asset_id c.asset_id,
  eq_iff a.source_hash c.source_hash,
  eq_iff a.source_pdf_name c.source_pdf_name,
  eq_iff a.description c.description,
  eq_iff a.mime_type c.mime_type,
  eq_iff a.relative_path c.relative_path,
  eq_iff a.image_sha c.image_sha,
  eq_iff a.created_at c.created_at,
)

-- The batch has added "b"; another worker has written "c" meanwhile.
abbrev batch : Batch
batch = record {
  manifest = ("a", asset_named "a") ∷ ("b", asset_named "b") ∷ [];
  base = ("a", asset_named "a") ∷ [];
}

abbrev store : AssetStore
store = record {
  disk = ("a", asset_named "a") ∷ ("c", asset_named "c") ∷ [];
  batch = some batch;
  depth = 1;
}

abbrev id_b : String
id_b = "b"

abbrev id_c : String
id_c = "c"

commit_batch_keeps_foreign_example :
    lookup id_c (commit_batch same_asset true store).1.disk ≡ lookup id_c store.disk
commit_batch_keeps_foreign_example =
    commit_batch_keeps_foreign same_asset store batch id_c same_asset_refl refl refl refl
      (unfold lookup in refl)

commit_batch_publishes_example :
    lookup id_b (commit_batch same_asset true store).1.disk ≡ lookup id_b batch.manifest
commit_batch_publishes_example =
    commit_batch_publishes same_asset store batch id_b same_asset_law refl refl refl
      (unfold lookup in refl)
