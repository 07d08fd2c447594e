-- ===== src/Examples/Files.antt =====
-- The writer of the file sink and its loop, on concrete files.
use evm_tools.Base.{
  ◌≡◌, refl, true, false, some, none, List, [], ◌∷◌, ◌++◌, Text, codes, trim_suffix, text_eq,
}
use evm_tools.Base.Exec.{failed}
use evm_tools.Sink.Filter.{FilterOptions}
use evm_tools.Sink.Loop.{Input, read}
use evm_tools.Sink.Loop.Wanted.{messages, IsWhole}
use evm_tools.Sink.Loop.AtLeastOnce.{IsDelivered}
use evm_tools.Sink.File.Disk.{find, remove, path_exists, FileEntry, plain}
use evm_tools.Sink.File.Names.{
  rotated_name, is_fresh, search_name, extension, base_name, last_dot, candidate,
}
use evm_tools.Sink.File.Writer.{
  IoError, RotateConfig, Writer, Os, not_compressed, rotate, close_handle, write, closed_error,
  active,
}
use evm_tools.Sink.File.Archive.{IsArchive, IsWritten, write-IsWritten}
use evm_tools.Sink.File.Run.{to_line, run_file}
use evm_tools.Sink.File.Run.Delivered.{file_contract, run_file_at_least_once}
use evm_tools.Sink.File.Run.Closed.{after_writes, rotate_failed_lem}
use evm_tools.Examples.SinkData.{event_3, options, world, attempt}

abbrev old_lines : Text
old_lines = codes "old"

abbrev active_file : FileEntry
active_file = record {
  name = codes "e.jsonl";
  content = plain old_lines;
  modified = 1;
  is_dir = false;
}

abbrev config : RotateConfig
config = record {
  name = codes "e.jsonl";
  max_size = 4;
  max_age = 0;
  max_backups = 0;
  compress = false;
  fsync = true;
}

abbrev writer : Writer
writer = record { disk = active_file ∷ []; is_open = true; size = 3; opened_at = 1 }

writer-IsArchive : IsArchive config old_lines writer
unfolding active find remove path_exists text_eq
writer-IsArchive = record { whole = refl; on_disk = λ _. refl; sized = λ _. refl }

-- An operating system that works.
abbrev well : Os
well = record {
  now = 5;
  stamp = codes "t";
  closing = none;
  renaming = none;
  compressing = not_compressed;
  making_dir = none;
  opening = none;
  stating = none;
  listing_fails = false;
  writing = none;
  truncating = none;
  syncing = none;
}

abbrev full : IoError
full = record { full_disk = true; text = codes "no space left on device" }

-- A disk that is full behind two bytes of the line.
abbrev too_full : Os
too_full = record well { writing = some (2, full) }

write-IsWritten_example :
    IsWritten config old_lines
      (codes "line" ++ codes "\n")
      too_full
      (write config too_full (codes "line") writer)
write-IsWritten_example =
    write-IsWritten config refl old_lines (codes "line") too_full writer (λ h. cc h)
      writer-IsArchive

abbrev no_rename : Os
no_rename = record well { renaming = some full }

rotation_fails : (rotate config no_rename writer).0 ≡ failed full
unfolding rotate close_handle rotated_name search_name is_fresh path_exists find extension base_name
    last_dot text_eq candidate trim_suffix
rotation_fails = refl

rotate_failed_lem_example :
    (write config well
      (codes "line")
      (after_writes config ((well, codes "line") ∷ []) (rotate config no_rename writer).1)).0
    ≡ failed closed_error
rotate_failed_lem_example =
    rotate_failed_lem config no_rename well (codes "line") ((well, codes "line") ∷ []) writer full
      rotation_fails

abbrev no_filter : FilterOptions
no_filter = record {
  include_types = [];
  exclude_types = [];
  include_names = [];
  exclude_names = [];
}

-- A full disk, and then room for the record.
abbrev inputs : List (Input Text Os)
inputs = read event_3 (codes "line") (attempt too_full ∷ attempt well ∷ []) ∷ []

run_file_at_least_once_example :
    IsDelivered
      (file_contract config options refl old_lines)
      (IsWhole (to_line no_filter) inputs)
      (messages (to_line no_filter) inputs)
      []
      0
      (run_file config options no_filter inputs (world writer))
run_file_at_least_once_example =
    run_file_at_least_once config options refl old_lines no_filter inputs (world writer)
      ((((λ e h. cc h), λ h. cc h), (((λ e h. cc h), λ h. cc h), tt)), tt) writer-IsArchive
