-- ===== src/Domain/Ingestion/Tests.antt =====
-- A run and a manifest that pass their guards.
use data_center.Prelude.{ℕ, ◌≡◌, refl, false, none, some, List, [], ◌∷◌}
use data_center.Prelude.Codes.{codes, codes_eq, strip}
use data_center.Prelude.Int.{pos, ◌+ℤ◌}
use data_center.Domain.Ingestion
use data_center.Domain.Ingestion.{
  IngestionRun, RawManifest, check_run, check_manifest, ok, err, parts, split_path, keep_parts,
  is_part, is_absolute, unsafe_path,
}
use data_center.Domain.Ingestion.Guards.{IsUnder, descend, check_manifest-IsUnder}

abbrev run : IngestionRun
run = record {
  ingestion_id = 1;
  provider_code = Ingestion.tushare;
  dataset_code = Ingestion.security;
  status = Ingestion.partial;
  requested_at = 10;
  started_at = some 11;
  finished_at = some 15;
  request_params = [];
  fetched_rows = pos 9;
  accepted_rows = pos 6;
  rejected_rows = pos 2;
  error_summary = none;
  replayed_from_raw_id = none;
}

abbrev digest : List ℕ
digest = codes "0123456789abcdef0123456789abcdef0123456789abcdef0123456789abcdef"

abbrev manifest : List ℕ → RawManifest
manifest path = record {
  raw_id = 2;
  ingestion_id = 1;
  object_path = path;
  file_format = Ingestion.jsonl;
  content_sha256 = digest;
  byte_size = pos 120;
  row_count = pos 9;
  schema_version = codes "v1";
  storage_backend = codes "local";
}

program : Unit {0}
unfolding check_run check_manifest parts split_path keep_parts is_part is_absolute codes_eq strip
    ◌+ℤ◌
program = tt

check_manifest-accepted :
    check_manifest (manifest (codes "raw/./a//b.jsonl")) ≡ ok (manifest (codes "raw/./a//b.jsonl"))
unfolding program
check_manifest-accepted = refl

check_manifest-parent : check_manifest (manifest (codes "raw/../../b")) ≡ err unsafe_path
unfolding program
check_manifest-parent = refl

check_manifest-IsUnder_example :
    (is_absolute (codes "raw/./a//b.jsonl") ≡ false)
    × IsUnder (codes "data" ∷ []) (descend (codes "data" ∷ []) (parts (codes "raw/./a//b.jsonl")))
check_manifest-IsUnder_example =
    check_manifest-IsUnder (manifest (codes "raw/./a//b.jsonl"))
      (manifest (codes "raw/./a//b.jsonl")) (codes "data" ∷ []) check_manifest-accepted
