-- ===== src/File/Tests.antt =====
-- A table with one file that has two references.
use os.Prelude.{refl, false, update, arith}
use os.File.{fd_none, File, filealloc, filedup, set_ref, alloc_loop}
use os.File.Refs.{Users, IsNew, Reach, start, step, alloc, dup, Sound, fileclose-Sound}

abbrev unused_file : File
unused_file = record {
  type = fd_none;
  ref = 0;
  readable = false;
  writable = false;
  pipe = 0;
  ip = 0;
  off = 0;
  major = 0;
}

abbrev new_table : Users
new_table = record { table = λ _. unused_file; held = λ _. 0 }

new_table-IsNew : IsNew new_table
new_table-IsNew k = (refl, refl)

abbrev opened : Users
opened = record { table = (filealloc new_table.table).1; held = update new_table.held 0 1 }

opened-Reach : Reach new_table opened
unfolding filealloc alloc_loop
opened-Reach = step start (alloc 0 refl)

abbrev shared : Users
shared = record { table = set_ref 0 2 opened.table; held = update opened.held 0 2 }

shared-Reach : Reach new_table shared
unfolding filealloc alloc_loop filedup
shared-Reach = step opened-Reach (dup 0 (set_ref 0 2 opened.table) (omega arith) (omega arith) refl)

fileclose-Sound_example : Sound shared
fileclose-Sound_example = fileclose-Sound new_table shared new_table-IsNew shared-Reach
