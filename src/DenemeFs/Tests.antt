-- ===== src/DenemeFs/Tests.antt =====
-- Runs of kernel/fs/denemefs on a small table, and the theorems at its inputs.
use makarna_x.Base.{
  ℕ, ◌≡◌, ◌≢◌, refl, List, [], ◌∷◌, arith, replicate, length, if◌then◌else◌, ◌==◌, take,
  length-replicate,
}
use makarna_x.DenemeFs.Store.{
  Name, ft_dir, ft_regular, null, entries, bytes, blank, Table, Inode, dir_inode_op, file_inode_op,
  done, fails, stop, subdentry_size,
}
use makarna_x.DenemeFs.Dir.{
  find_from, find_entry, denemefs_lookup, denemefs_add_entry, denemefs_mkdir, denemefs_create,
  denemefs_unlink, denemefs_rmdir, denemefs_new_inode, new_entry, push_entry, denemefs_remove_entry,
  denemefs_free_inode,
}
use makarna_x.DenemeFs.Entries.{name_eq_iff}
use makarna_x.DenemeFs.File.{File, denemefs_read, denemefs_write}
use makarna_x.DenemeFs.ReadWrite.{IsFile, read-write}
use makarna_x.DenemeFs.Invariant.{Owner, WellFormed}
use makarna_x.DenemeFs.Remove.{Links}
use makarna_x.DenemeFs.Calls.{IsDir, mkdir, create, perform}
use makarna_x.DenemeFs.Kept.{perform_fails, perform-WellFormed}
use makarna_x.DenemeFs.Lookups.{lookup-create, lookup-unlink, rmdir-unlink}

-- The table that holds the root directory only.
abbrev root_table : Table
root_table i =
    if i == 0
    then record {
      mode = record { read = 1; write = 1; type = ft_dir };
      nlinks = 1;
      size = subdentry_size;
      dev = 0;
      content = entries [];
    }
    else blank

abbrev pub root : Inode
root = record {
  ino = 0;
  op = dir_inode_op;
  size = subdentry_size;
  mode = record { read = 1; write = 1; type = ft_dir };
  superblock = 0;
}

abbrev nobody : Owner
nobody i = (0, [])

root_table-WellFormed : WellFormed nobody root_table
unfolding find_entry
root_table-WellFormed = record {
  free = λ i e. ground arith;
  kind = λ d es c. ground arith;
  linked = λ d es name ino c plain found. absurd (ground arith);
}

abbrev a_name : Name
a_name = b'a' ∷ []

abbrev b_name : Name
b_name = b'b' ∷ []

abbrev a_inode : Inode
a_inode = record {
  ino = 1;
  op = file_inode_op;
  size = 1000;
  mode = record { read = 1; write = 1; type = ft_regular };
  superblock = 0;
}

-- The table after `create(root, "a", 3)`.
abbrev pub one_file : Table
one_file i =
    if i == 0
    then record {
      mode = record { read = 1; write = 1; type = ft_dir };
      nlinks = 1;
      size = subdentry_size;
      dev = 0;
      content = entries (record { no = 1; name = a_name } ∷ []);
    }
    else (if i == 1
        then record {
          mode = record { read = 1; write = 1; type = ft_regular };
          nlinks = 1;
          size = 1000;
          dev = 0;
          content = bytes (replicate 1000 0);
        }
        else blank)

abbrev a_owner : Owner
a_owner i = (0, a_name)

root_here : IsDir root root_table
root_here = record { used = omega arith; is_dir = refl }

one_file-WellFormed : WellFormed a_owner one_file
unfolding find_entry
one_file-WellFormed = record {
  free = λ i e. ground arith;
  kind = λ d es c. ground arith;
  linked = λ d es name ino c plain found. ground (arith, name_eq_iff a_name name);
}

create_runs : (denemefs_create root a_name 3 root_table).0 ≡ done a_inode
unfolding denemefs_create new_entry denemefs_new_inode denemefs_add_entry denemefs_lookup find_from
    push_entry
create_runs = refl

mkdir_refused : (perform root (mkdir a_name 3) one_file).0 ≡ fails 1
unfolding perform denemefs_mkdir new_entry denemefs_new_inode denemefs_add_entry denemefs_lookup
    denemefs_free_inode find_from push_entry
mkdir_refused = refl

unlink_runs : (denemefs_unlink root a_name one_file).0 ≡ done tt
unfolding denemefs_unlink denemefs_lookup denemefs_remove_entry denemefs_free_inode
unlink_runs = refl

a_found : (denemefs_lookup root a_name one_file).0 ≡ done a_inode
unfolding denemefs_lookup
a_found = refl

a_not_b : b_name ≢ a_name
a_not_b e = absurd (ground (arith, name_eq_iff b_name a_name))

a_plain : a_name ≢ []
a_plain e = ground arith

b_plain : b_name ≢ []
b_plain e = ground arith

perform-WellFormed_example :
    (owner : Owner) × WellFormed owner (perform root (create a_name 3) root_table).1
unfolding perform
perform-WellFormed_example =
    perform-WellFormed nobody root (create a_name 3) root_table root_table-WellFormed root_here
      a_plain (ground (arith, create_runs))

perform_fails_example : (perform root (mkdir a_name 3) one_file).1 ≡ one_file
perform_fails_example =
    perform_fails a_owner root (mkdir a_name 3) 1 one_file one_file-WellFormed mkdir_refused

lookup-create_example :
    let after = (denemefs_create root a_name 3 root_table).1 in
    ((denemefs_lookup root a_name after).0 ≡ done a_inode)
    × ((denemefs_lookup root b_name after).0 ≡ (denemefs_lookup root b_name root_table).0)
lookup-create_example =
    lookup-create nobody root a_name b_name 3 a_inode root_table root_table-WellFormed root_here
      create_runs a_not_b b_plain

lookup-unlink_example :
    let after = (denemefs_unlink root a_name one_file).1 in
    ((denemefs_lookup root a_name after).0 ≡ fails 1)
    × ((denemefs_lookup root b_name after).0 ≡ (denemefs_lookup root b_name one_file).0)
    × (after 1 ≡ blank)
lookup-unlink_example =
    lookup-unlink a_owner root a_name b_name a_inode one_file one_file-WellFormed a_plain
      unlink_runs a_found a_not_b b_plain

-- A node that `denemefs_mknod` made, of type 3.
abbrev with_node : Table
with_node i =
    if i == 1
    then record {
      mode = record { read = 1; write = 1; type = 3 };
      nlinks = 1;
      size = 0;
      dev = 5;
      content = null;
    }
    else one_file i

with_node-WellFormed : WellFormed a_owner with_node
unfolding find_entry
with_node-WellFormed = record {
  free = λ i e. ground arith;
  kind = λ d es c. ground arith;
  linked = λ d es name ino c plain found. ground (arith, name_eq_iff a_name name);
}

node_stops : (denemefs_lookup root a_name with_node).0 ≡ stop
unfolding denemefs_lookup
node_stops = refl

-- The directory 0 with its file "a", under the name "b" in the directory 2.
abbrev nested : Table
nested i =
    if i == 2
    then record {
      mode = record { read = 1; write = 1; type = ft_dir };
      nlinks = 1;
      size = subdentry_size;
      dev = 0;
      content = entries (record { no = 0; name = b_name } ∷ []);
    }
    else one_file i

abbrev parent : Inode
parent = record root { ino = 2 }

nested_runs : (denemefs_unlink root a_name nested).0 ≡ done tt
unfolding denemefs_unlink denemefs_lookup denemefs_remove_entry denemefs_free_inode
nested_runs = refl

nested-Links :
    Links 2 (record { no = 0; name = b_name } ∷ []) b_name 0 (denemefs_unlink root a_name nested).1
unfolding denemefs_unlink denemefs_lookup denemefs_remove_entry denemefs_free_inode
nested-Links = record { is_dir = refl; slots = refl; found = refl; used = λ e. ground arith }

rmdir-unlink_example :
    (denemefs_rmdir parent b_name (denemefs_unlink root a_name nested).1).0 ≡ fails 3
rmdir-unlink_example =
    rmdir-unlink root parent a_name b_name (record { no = 0; name = b_name } ∷ []) nested
      nested_runs nested-Links

abbrev opened : File
opened = record { inode = a_inode; fpos = 10 }

opened-IsFile : IsFile 1 (replicate 1000 0) one_file
opened-IsFile = record {
  regular = refl;
  content = refl;
  size = rw (length-replicate {A = ℕ} 1000 0) (omega arith);
}

read-write_example :
    let after = (denemefs_write opened (b'h' ∷ b'i' ∷ []) one_file).1 in
    (r : List ℕ) × ((denemefs_write opened (b'h' ∷ b'i' ∷ []) one_file).0 ≡ done 2)
    × (denemefs_read opened 2 after ≡ (done r, after))
    × (length r ≡ 2)
    × (r ≡ take 2 (b'h' ∷ b'i' ∷ []))
read-write_example = read-write opened (b'h' ∷ b'i' ∷ []) (replicate 1000 0) one_file opened-IsFile
