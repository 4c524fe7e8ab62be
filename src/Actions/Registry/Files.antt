-- ===== src/Actions/Registry/Files.antt =====
-- packages/action-registry/src/index.ts: entries of `REGISTRY`, in its order within each list.
use clawthority.Base.{none, some, List, [], ◌∷◌}
use clawthority.Enforcement.Types.{low, medium, high, no_hitl, per_request}
use clawthority.Actions.Types.{ActionRegistryEntry}

abbrev pub filesystem_entries : List ActionRegistryEntry
filesystem_entries =
    record {
      action_class = "filesystem.read";
      default_risk = low;
      default_hitl_mode = no_hitl;
      aliases =
          "read" ∷ "read_file" ∷ "readfile" ∷ "read_files" ∷ "read_files_batch" ∷ "cat_file"
          ∷ "view_file" ∷ "open_file" ∷ "get_file_contents" ∷ "find_files" ∷ "find_file"
          ∷ "search_files" ∷ "grep_files" ∷ "grep_file" ∷ "grep" ∷ "search_in_files"
          ∷ "check_exists" ∷ "exists" ∷ "file_exists" ∷ "path_exists" ∷ "cat" ∷ "head" ∷ "tail"
          ∷ "less" ∷ "more" ∷ "diff" ∷ "find" ∷ "locate" ∷ [];
      intent_group = none;
    }
    ∷ record {
      action_class = "filesystem.write";
      default_risk = medium;
      default_hitl_mode = per_request;
      aliases =
          "write" ∷ "edit" ∷ "apply_patch" ∷ "write_file" ∷ "writefile" ∷ "create_file"
          ∷ "save_file" ∷ "update_file" ∷ "edit_file" ∷ "patch_file" ∷ "make_dir" ∷ "mkdir"
          ∷ "create_dir" ∷ "create_directory" ∷ "copy_file" ∷ "copy" ∷ "cp" ∷ "duplicate_file"
          ∷ "copy_file_to" ∷ "move_file" ∷ "mv" ∷ "move" ∷ "rename_file" ∷ "rename" ∷ "tee"
          ∷ "touch" ∷ "install" ∷ [];
      intent_group = none;
    }
    ∷ record {
      action_class = "filesystem.delete";
      default_risk = high;
      default_hitl_mode = per_request;
      aliases =
          "delete_file" ∷ "deletefile" ∷ "remove_file" ∷ "rm_file" ∷ "unlink_file" ∷ "rm" ∷ "rm_rf"
          ∷ "unlink" ∷ "delete" ∷ "remove" ∷ "move_to_trash" ∷ "trash" ∷ "shred" ∷ "rmdir"
          ∷ "format" ∷ "empty_trash" ∷ "purge" ∷ [];
      intent_group = some "destructive_fs";
    }
    ∷ record {
      action_class = "filesystem.list";
      default_risk = low;
      default_hitl_mode = no_hitl;
      aliases =
          "list" ∷ "list_files" ∷ "listfiles" ∷ "list_directory" ∷ "list_dir" ∷ "read_directory"
          ∷ "ls" ∷ "tree" ∷ [];
      intent_group = none;
    }
    ∷ []

abbrev pub archives_entries : List ActionRegistryEntry
archives_entries =
    record {
      action_class = "archive.create";
      default_risk = medium;
      default_hitl_mode = per_request;
      aliases =
          "archive_create" ∷ "create_archive" ∷ "tar_create" ∷ "tar_czf" ∷ "tar_compress"
          ∷ "zip_create" ∷ "create_zip" ∷ "compress" ∷ "compress_files" ∷ "gzip" ∷ "bzip2"
          ∷ "zstd_compress" ∷ "tar" ∷ "zip" ∷ "xz" ∷ "7z" ∷ [];
      intent_group = none;
    }
    ∷ record {
      action_class = "archive.extract";
      default_risk = medium;
      default_hitl_mode = per_request;
      aliases =
          "archive_extract" ∷ "extract_archive" ∷ "unarchive" ∷ "tar_extract" ∷ "tar_xzf"
          ∷ "tar_decompress" ∷ "unzip" ∷ "gunzip" ∷ "bunzip2" ∷ "decompress" ∷ "extract_files"
          ∷ "zstd_decompress" ∷ "unxz" ∷ [];
      intent_group = none;
    }
    ∷ record {
      action_class = "archive.read";
      default_risk = low;
      default_hitl_mode = no_hitl;
      aliases =
          "archive_list" ∷ "archive_read" ∷ "list_archive" ∷ "read_archive" ∷ "tar_list" ∷ "tar_tf"
          ∷ "zip_list" ∷ "list_zip" ∷ "inspect_archive" ∷ "peek_archive" ∷ [];
      intent_group = none;
    }
    ∷ []
