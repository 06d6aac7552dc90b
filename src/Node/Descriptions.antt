-- ===== src/Node/Descriptions.antt =====
-- node/src/prom/server.rs: what the metrics server describes.
use sahya_net.Prelude.{Option, none, some, List, [], ◌∷◌}
use Prim.Native.String.{String}

-- `describe_gauge!` and `describe_counter!`: the name of the metric, its unit if there is one, the text
pub data MetricUnit : Type 0 where
  bytes : MetricUnit

pub record Description : Type 0 where
  pub metric : String
  pub unit : Option MetricUnit
  pub text : String

abbrev describes : String → Option MetricUnit → String → Description
describes metric unit text = record { metric = metric; unit = unit; text = text }

abbrev pub describe_db_metrics : List Description
describe_db_metrics =
    describes "db.table_size" (some bytes) "The size of a database table (in bytes)"
    ∷ describes "db.table_pages" none "The number of database pages for a table"
    ∷ describes "db.table_entries" none "The number of entries for a table"
    ∷ describes "db.freelist" none "The number of pages on the freelist"
    ∷ describes "db.page_size" (some bytes) "The size of a database page (in bytes)"
    ∷ describes "db.timed_out_not_aborted_transactions" none
        "Number of timed out transactions that were not aborted by the user yet"
    ∷ []

abbrev pub describe_static_file_metrics : List Description
describe_static_file_metrics =
    describes "static_files.segment_size" (some bytes) "The size of a static file segment"
    ∷ describes "static_files.segment_files" none "The number of files for a static file segment"
    ∷ describes "static_files.segment_entries" none
        "The number of entries for a static file segment"
    ∷ []

-- On unix with the feature `jemalloc`.
abbrev pub describe_memory_stats : List Description
describe_memory_stats =
    describes "jemalloc.active" (some bytes)
      "Total number of bytes in active pages allocated by the application"
    ∷ describes "jemalloc.allocated" (some bytes)
        "Total number of bytes allocated by the application"
    ∷ describes "jemalloc.mapped" (some bytes)
        "Total number of bytes in active extents mapped by the allocator"
    ∷ describes "jemalloc.metadata" (some bytes)
        "Total number of bytes dedicated to jemalloc metadata"
    ∷ describes "jemalloc.resident" (some bytes)
        "Total number of bytes in physically resident data pages mapped by the allocator"
    ∷ describes "jemalloc.retained" (some bytes)
        "Total number of bytes in virtual memory mappings that were retained rather than being returned to the operating system via e.g. munmap(2)"
    ∷ []

-- On Linux.
abbrev pub describe_io_stats : List Description
describe_io_stats =
    describes "io.rchar" none "Characters read"
    ∷ describes "io.wchar" none "Characters written"
    ∷ describes "io.syscr" none "Read syscalls"
    ∷ describes "io.syscw" none "Write syscalls"
    ∷ describes "io.read_bytes" (some bytes) "Bytes read"
    ∷ describes "io.write_bytes" (some bytes) "Bytes written"
    ∷ describes "io.cancelled_write_bytes" none "Cancelled write bytes"
    ∷ []
