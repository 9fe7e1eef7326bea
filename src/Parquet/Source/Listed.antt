-- ===== src/Parquet/Source/Listed.antt =====
-- Which of the files below a directory the snapshot of its table has.
use mathlib.Core.List.{Perm}
use xtable_go.Prelude.{
  String, true, false, ◌||◌, not, List, [], ◌∷◌, ◌⊎◌, ◌≡◌, refl, sym, ap, ◌∙◌, inl, inr, arith, map,
  Bool-cases, All,
}
use xtable_go.Prelude.Results.{Result, ok, err, >>=-eq-ok, map_err, map_err-eq-ok, ok-injective}
use xtable_go.Prelude.Text.{str_lt_asym, str_lt_co_trans, concat}
use xtable_go.Prelude.Sort.{sort, sort-perm, IsOrder, IsSorted, sort-IsSorted}
use xtable_go.Prelude.Keyed.{is_some}
use xtable_go.Prelude.Dict.{Dict}
use xtable_go.Model.Schema.{Schema, SchemaRef, PartitionField}
use xtable_go.Model.Table.{DataFile, Snapshot}
use xtable_go.Parquet.Footer.{parquet_schema_to_model}
use xtable_go.Io.{cut_suffix}
use xtable_go.Io.Relativize.{relativize_path}
use xtable_go.Io.Metadata.{is_metadata_path, split_slashes}
use xtable_go.Io.Metadata.Visible.{IsVisible, is_metadata_path-IsVisible}
use xtable_go.Io.Storage.{FileInfo}
use xtable_go.Parquet.Source.{
  Source, path_order, keep_data_files, list_data_files, crawl_file, crawl, layout_of,
  get_current_snapshot,
}
use xtable_go.Parquet.Crawled.{CrawledFile, files_of, data_files_of}

module _ {S : Type 0} (s : Source S) where
  -- a Parquet file that no component of its relative path, its own name included, hides
  abbrev pub IsDataFile : FileInfo → Type 0
  IsDataFile f =
      (f.is_dir ≡ false)
      × (is_some (cut_suffix ".parquet" f.path) ≡ true)
      × (rel : String) × (relativize_path s.clean f.path s.base_path ≡ ok rel)
      × (let (part, parts) = split_slashes rel in All IsVisible (part ∷ parts))

  -- the data files among those of a listing, in its order
  abbrev pub AreDataFilesOf : List FileInfo → List FileInfo → Type 0
  AreDataFilesOf [] files = files ≡ []
  AreDataFilesOf (f ∷ fs) files =
      (IsDataFile f × (later : List FileInfo) × (files ≡ f ∷ later) × AreDataFilesOf fs later)
      ⊎ (¬ IsDataFile f × AreDataFilesOf fs files)

  keep_data_files-AreDataFilesOf :
      (all files : List FileInfo) → keep_data_files s all ≡ ok files → AreDataFilesOf all files
  unfolding keep_data_files
  keep_data_files-AreDataFilesOf [] files h = sym (ok-injective h)
  keep_data_files-AreDataFilesOf (f ∷ fs) files h =
      elim (Bool-cases (f.is_dir || not (is_some (cut_suffix ".parquet" f.path)))) [
        | inl skipped ↦ inr (
          λ d. ground (arith, d.0, d.1),
          keep_data_files-AreDataFilesOf fs files (rw skipped at h),
        )
        | inr taken ↦
            let (rel, told, h1) =
              >>=-eq-ok (map_err _ (relativize_path s.clean f.path s.base_path)) _
                (rw taken at h) in
            let under = map_err-eq-ok _ _ told in
            elim (Bool-cases (is_metadata_path rel)) [
              | inl hidden ↦ inr (
                λ d.
                    let one : rel ≡ d.2 = ok-injective (sym under ∙ d.3) in
                    let shown : is_metadata_path rel ≡ false =
                      rw one ((is_metadata_path-IsVisible d.2).1 d.4) in
                    cc,
                keep_data_files-AreDataFilesOf fs files (rw hidden at h1),
              )
              | inr shown ↦
                  let (later, rest, made) = >>=-eq-ok (keep_data_files s fs) _ (rw shown at h1) in
                  inl (
                    (
                      ground arith,
                      ground arith,
                      rel,
                      under,
                      (is_metadata_path-IsVisible rel).0 shown,
                    ),
                    later,
                    sym (ok-injective made),
                    keep_data_files-AreDataFilesOf fs later rest,
                  )
            ]
      ]

  paths-data_files_of :
      (fields : Dict PartitionField) (sch : Schema) (files : List CrawledFile)
      → map (λ (f : DataFile). f.physical_path) (data_files_of fields sch files)
        ≡ map (λ (f : CrawledFile). f.info.path) files
  unfolding data_files_of
  paths-data_files_of fields sch [] = refl
  paths-data_files_of fields sch (file ∷ files) =
      ap (file.info.path ∷◌) (paths-data_files_of fields sch files)

  info-crawl_file :
      (f : FileInfo) (st : S) (file : CrawledFile × SchemaRef)
      → crawl_file s f st ≡ ok file
      → file.0.info ≡ f
  unfolding crawl_file
  info-crawl_file f st file h =
      let (contents, read, h1) = >>=-eq-ok (map_err _ (s.storage.read f.path st)) _ h in
      let (opened, parsed, h2) = >>=-eq-ok (map_err _ (s.open_file contents)) _ h1 in
      let (sch, converted, made) =
        >>=-eq-ok (map_err _ (parquet_schema_to_model opened.file_schema)) _ h2 in
      ap (λ (x : CrawledFile × SchemaRef). x.0.info) (sym (ok-injective made))

  paths-crawl :
      (infos : List FileInfo) (st : S) (crawled : List (CrawledFile × SchemaRef))
      → crawl s infos st ≡ ok crawled
      → map (λ (f : CrawledFile). f.info.path) (files_of crawled)
        ≡ map (λ (f : FileInfo). f.path) infos
  unfolding crawl files_of
  paths-crawl [] st crawled h = rw (← ok-injective h) refl
  paths-crawl (f ∷ fs) st crawled h =
      let (file, read, h1) = >>=-eq-ok (crawl_file s f st) _ h in
      let (files, rest, made) = >>=-eq-ok (crawl s fs st) _ h1 in
      rw (← ok-injective made)
        (ground (arith, info-crawl_file f st file read, paths-crawl fs st files rest))

path_order-IsOrder : IsOrder path_order
path_order-IsOrder = record {
  asym = λ x y. str_lt_asym x.path y.path;
  co_trans = λ x y z. str_lt_co_trans x.path y.path z.path;
}

module _ {S : Type 0} (s : Source S) where
  -- The snapshot of a directory that can be had has those Parquet files of the listing in whose
  -- relative path no component, the file's own name included, begins with `_` or `.` or is metadata,
  -- schema, snapshot or manifest, each as often as the listing has it, in the order of the paths.
  pub get_current_snapshot-AreDataFilesOf :
      (st : S) (snap : Snapshot)
      → get_current_snapshot s st ≡ ok snap
      → (all kept infos : List FileInfo) × (s.storage.list s.base_path st ≡ ok all)
        × AreDataFilesOf s all kept
        × Perm infos kept
        × IsSorted path_order infos
        × (map (λ (f : DataFile). f.physical_path) snap.data_files
            ≡ map (λ (f : FileInfo). f.path) infos)
  unfolding get_current_snapshot list_data_files
  get_current_snapshot-AreDataFilesOf st snap h =
      let (infos, listed, h1) = >>=-eq-ok (list_data_files s st) _ h in
      let (crawled, read, h2) = >>=-eq-ok (crawl s infos st) _ h1 in
      let (layout, laid, made) = >>=-eq-ok (layout_of s crawled) _ h2 in
      let (all, found, h3) = >>=-eq-ok (map_err _ (s.storage.list s.base_path st)) _ listed in
      let (kept, taken, h4) = >>=-eq-ok (keep_data_files s all) _ h3 in
      let (permuted, sorted) = in_order kept infos h4 in
      (
        all,
        kept,
        infos,
        map_err-eq-ok _ _ found,
        keep_data_files-AreDataFilesOf s all kept taken,
        permuted,
        sorted,
        rw (← ok-injective made)
            (paths-data_files_of s _ _ (files_of crawled) ∙ paths-crawl s infos st crawled read),
      )
    where
      in_order :
          (kept infos : List FileInfo)
          → elim kept as (λ x. Result (List FileInfo)) [
            | [] ↦ err (concat ("no parquet files found under " ∷ s.base_path ∷ []))
            | f ∷ fs ↦ ok (sort path_order (f ∷ fs))
          ]
            ≡ ok infos
          → Perm infos kept × IsSorted path_order infos
      in_order [] infos h = cc
      in_order (f ∷ fs) infos h =
          rw (← ok-injective h)
            (sort-perm path_order (f ∷ fs), sort-IsSorted path_order-IsOrder (f ∷ fs))
