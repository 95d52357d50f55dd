-- ===== src/Config/Load.antt =====
-- Loading a configuration that was written as lines `key = value`.
use nexus_task.Prelude.{
  ℕ, ◌≡◌, refl, ap, ◌∙◌, arith, false, some, List, [], ◌∷◌, ◌++◌, if◌then◌else◌, ◌==◌,
  lookup-insert,
}
use nexus_task.Text.{Bytes, bytes_eq}
use nexus_task.Config.{
  Config, empty, set, get, load_line, load_lines, load_from_file, get_lines, is_comment, is_empty,
}
use nexus_task.Config.Trim.{
  AllBlank, BeginsSolid, EndsSolid, Lacks, Lacks-append, AllBlank-Lacks, trim-blank, find-first,
  take-append_self, drop_past,
}

-- A key and a value with blanks around them.
pub record Entry : Type 0 where
  pub before_key : Bytes
  pub key : Bytes
  pub after_key : Bytes
  pub before_value : Bytes
  pub value : Bytes
  pub after_value : Bytes

abbrev key_part : Entry → Bytes
key_part e = e.before_key ++ (e.key ++ e.after_key)

abbrev pub written : Entry → Bytes
written e = key_part e ++ b'=' ∷ (e.before_value ++ (e.value ++ e.after_value))

-- What the format can express: the value may hold `=` and `#`, the key no `=`, and the line is no
-- comment.
pub record IsEntry (e : Entry) : Type 0 where
  pub blank_before_key : AllBlank e.before_key
  pub blank_after_key : AllBlank e.after_key
  pub blank_before_value : AllBlank e.before_value
  pub blank_after_value : AllBlank e.after_value
  pub key_begins : BeginsSolid e.key
  pub key_ends : EndsSolid e.key
  pub value_begins : BeginsSolid e.value
  pub value_ends : EndsSolid e.value
  pub key_apart : Lacks b'=' e.key
  pub no_comment : is_comment (written e) ≡ false
  pub one_line : Lacks b'\n' (written e)

abbrev pub AllEntries : List Entry → Type 0
AllEntries [] = Unit
AllEntries (e ∷ es) = IsEntry e × AllEntries es

is_empty_not : (s t : Bytes) (c : ℕ) → is_empty (s ++ c ∷ t) ≡ false
is_empty_not [] t c = refl
is_empty_not (d ∷ s) t c = refl

-- One line sets the key to the value, without the blanks.
load_line-written :
    (e : Entry) (c : Config) → IsEntry e → load_line (written e) c ≡ set e.key e.value c
unfolding load_line
load_line-written e c v =
    let rest = e.before_value ++ (e.value ++ e.after_value) in
    let lacks =
      Lacks-append b'=' e.before_key (e.key ++ e.after_key)
        (AllBlank-Lacks e.before_key v.blank_before_key)
        (Lacks-append b'=' e.key e.after_key v.key_apart
          (AllBlank-Lacks e.after_key v.blank_after_key)) in
    let at = find-first b'=' (key_part e) rest lacks in
    let trimmed_key =
      trim-blank e.before_key e.key e.after_key v.blank_before_key v.key_begins v.key_ends
        v.blank_after_key in
    let trimmed_value =
      trim-blank e.before_value e.value e.after_value v.blank_before_value v.value_begins
        v.value_ends v.blank_after_value in
    rw (is_empty_not (key_part e) rest b'=', v.no_comment, at, load_line)
      (rw (take-append_self (key_part e) (b'=' ∷ rest), drop_past b'=' (key_part e) rest)
        (rw (trimmed_key, trimmed_value) refl))

-- The file that holds the entries, each in a line of its own.
abbrev pub file : List Entry → Bytes
file [] = []
file (e ∷ es) = written e ++ b'\n' ∷ file es

get_lines-append :
    (line text : Bytes)
    → Lacks b'\n' line
    → get_lines (line ++ b'\n' ∷ text) ≡ line ∷ get_lines text
unfolding get_lines
get_lines-append [] text h = refl
get_lines-append (c ∷ line) text h = rw (h.0, get_lines-append line text h.1, get_lines) refl

-- The value that the last entry for a key gives it.
abbrev pub last_value : Bytes → Bytes → List Entry → Bytes
last_value key default_value [] = default_value
last_value key default_value (e ∷ es) =
    last_value key (if e.key == key then e.value else default_value) es

get-set :
    (key other value default_value : Bytes) (c : Config)
    → get other default_value (set key value c)
      ≡ (if key == other then value else get other default_value c)
unfolding get set
get-set key other value default_value c =
    rw (lookup-insert key other value c.values, get) (ground arith)

load-get :
    (key default_value : Bytes) (es : List Entry) (c : Config)
    → AllEntries es
    → get key default_value (load_lines (get_lines (file es)) c)
      ≡ last_value key (get key default_value c) es
unfolding load_lines
load-get key default_value [] c v = unfold get_lines in refl
load-get key default_value (e ∷ es) c v =
    let set_one = set e.key e.value c in
    rw (get_lines-append (written e) (file es) v.0.one_line, load_lines)
      (rw (load_line-written e c v.0) (
        load-get key default_value es set_one v.1
        ∙ ap (λ d. last_value key d es) (get-set e.key key e.value default_value c)))

-- A file of lines `key=value`, with any blanks around the keys and the values, is loaded so that
-- each key has the value of its last line, and any other key the default of the one who asks.
pub load-file :
    (key default_value : Bytes) (es : List Entry)
    → AllEntries es
    → get key default_value (load_from_file (some (file es))) ≡ last_value key default_value es
unfolding load_from_file get
load-file key default_value es v = load-get key default_value es empty v
