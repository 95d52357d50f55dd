-- ===== src/Config/Tests.antt =====
-- A configuration of two settings: the theorems at it.
use nexus_task.Prelude.{◌≡◌, some, none, [], ◌∷◌, arith, pos, negsuc, lookup}
use nexus_task.Text.{bytes_eq, codes}
use nexus_task.Config.{empty, set, get, get_int, show_int, load_from_file}
use nexus_task.Config.Integers.{get_int-set}
use nexus_task.Config.Load.{Entry, IsEntry, file, last_value, load-file}

abbrev threads : Entry
threads = record {
  before_key = codes "  ";
  key = codes "threads";
  after_key = codes " ";
  before_value = codes "\t";
  value = codes "8";
  after_value = [];
}

abbrev name : Entry
name = record {
  before_key = [];
  key = codes "name";
  after_key = [];
  before_value = codes " ";
  value = codes "a = b # c";
  after_value = codes " ";
}

threads-IsEntry : IsEntry threads
threads-IsEntry = ground arith

name-IsEntry : IsEntry name
name-IsEntry = ground arith

load-file_example :
    get (codes "name") [] (load_from_file (some (file (threads ∷ name ∷ []))))
    ≡ last_value (codes "name") [] (threads ∷ name ∷ [])
load-file_example =
    load-file (codes "name") [] (threads ∷ name ∷ []) (threads-IsEntry, (name-IsEntry, tt))

get_int-set_example :
    (get_int (codes "n") (pos 7) (set (codes "n") (show_int (negsuc 41)) empty) ≡ negsuc 41)
    × (lookup (codes "n") (empty.values) ≡ none → get_int (codes "n") (pos 7) empty ≡ pos 7)
get_int-set_example = get_int-set (codes "n") (negsuc 41) (pos 7) empty (omega arith) (omega arith)
