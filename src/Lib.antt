-- ===== src/Lib.antt =====
-- Verification library of polytable (slachiewicz/xtable-go), which translates the metadata of a data
-- lake table from one table format to others. A source reads a format into a canonical model; the
-- controller asks it for the changes since the last sync, or for a snapshot, and gives these to a
-- target; catalogs are then brought in line with the table.
--
-- The parts of the program and the files that model them:
--   pkg/model                         Model: values, schemas, tables, data files, the diff of two
--                                     listings (DiffFiles is diff_files)
--   pkg/model/metadata.go             Model.SyncMetadata: writing the sync metadata to table
--                                     properties and reading it back
--   pkg/io/storage.go                 Io: JoinPath and TrimScheme (join_path, trim_scheme);
--                                     Io.Relativize: RelativizePath (relativize_path);
--                                     Io.Storage: the interface of a storage
--   pkg/io/memory.go                  Io.Memory: the storage in memory
--   pkg/conversion/config.go,         Config: validation, the look-up of a source catalog and
--   pkg/conversion/discovery.go       DiscoverDatasets; Config.Options: the options of a storage;
--                                     Config.Sync: Controller.Sync as a whole
--   pkg/daemon/server.go, types.go    Daemon: the handlers and the table of jobs; Daemon.Steps:
--                                     the states that jobs bring it to
--   pkg/spi                           Spi: sources, targets, results and verdicts
--   pkg/conversion/controller.go      Conversion: syncToTarget (sync_to_target), split into the
--                                     plan (incremental or full) and its two branches; the loop
--                                     of Sync and syncTargetToCatalogs (sync_targets,
--                                     sync_target_to_catalogs) in Conversion.Targets
--   pkg/catalog/partition.go          Catalog: DiffPartitions, inBatches, SyncPartitions,
--                                     PartitionsFromSnapshot (diff_partitions, in_batches, …)
--   pkg/catalog/conversion.go         Catalog.Sync (identifiers), Catalog.Properties (formats and
--                                     locations from a table's properties)
--   pkg/formats/delta/actions.go      Delta.Actions, and Delta.Stats for the statistics
--   pkg/formats/delta/checkpoint.go   Delta.Checkpoint
--   pkg/formats/delta/source.go       Delta.Log (listing and reading of commits, logState),
--                                     Delta.Files (conversion of metadata and adds), Delta.Source
--                                     (tables and snapshots), Delta.Changes (GetChangesSince,
--                                     IsIncrementalSyncSafeFrom)
--   pkg/formats/delta/schema.go       Delta.Schema: schemas to schemaString and back
--   pkg/formats/delta/target.go       Delta.Writer (add actions and their statistics) and
--                                     Delta.Target (commits, and GetTableMetadata)
--   pkg/formats/paimon                Paimon: Types and Parser (schema.go, to and from a schema
--                                     file), Manifest (manifest.go, snapshot.go), Source; Writer
--                                     and Target (target.go)
--   pkg/formats/parquet               Parquet: Footer (schema.go), Stats, Signature and Merge
--                                     (merge.go), Partitions (partition.go), Crawled and Source
--                                     (source.go), Target;
--                                     pkg/io/metadata.go is Io.Metadata
--   pkg/formats/hudi                  Hudi: Properties, Avro (schema.go), Timeline, Active and Source
--                                     (source.go), Target
-- Names are those of the source in the library's spelling. A loop with several results is a function
-- of what it has gathered so far, or gives its results back as a tuple or a record.
--
-- Parameters, since they are not code of the repository: storage, the decoders of JSON and Parquet,
-- bufio.Scanner, filepath.Join, the conversion of a float to an integer, the verb %v of fmt, a
-- catalog's calls, the clock, and the order in which a Go map gives its values.
--
-- Conventions: an int64 is the integer it stands for, and the one addition on it wraps at 2^63; a
-- pointer that the source never leaves nil is a plain value; an error is its message; sort.Slice is
-- insertion sort; strings.EqualFold folds ASCII letters; a float is its bit pattern. A storage
-- tells times in nanoseconds, which unix_milli rounds down as Time.UnixMilli does. The slices of a
-- batched call recurse on fuel, for which the length of the list is enough, since each slice takes
-- an element off at least; numerals are written with fuel one above their value; the
-- merge of Parquet schemas recurses on fuel, for which the depth of nesting is enough. All other
-- recursion is structural. The quotes that %q puts around a name are left out of errors.
--
-- A nil pointer that the source follows is an error here, where Go panics. ToLower and TrimSpace are
-- those of ASCII. In GetTableMetadata an empty configuration counts as a nil one. A background
-- conversion of the daemon is a step with an arbitrary outcome; the locks make each step one.
--
-- In Paimon and Hudi a JSON document is the tree that it decodes to, where a part that is not of the
-- expected kind keeps its error; a name of a new file comes from a new id of the state.
--
-- Not modelled: Iceberg, the storage backends other than that in memory and the choice of
-- one, the HTTP client among the options of a storage, the clients and the authentication of catalogs, the
-- health handler and the process of the daemon, the command line and the bindings, since they have
-- their own files and share only the interfaces, or do input and output alone.
pub mod Prelude
pub mod Model
pub mod Io
pub mod Delta
pub mod Catalog
pub mod Config
pub mod Daemon
pub mod Paimon
pub mod Hudi
pub mod Parquet
pub mod Examples
pub mod Spi
pub mod Conversion
