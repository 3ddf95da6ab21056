-- ===== src/Segconf/Load.antt =====
-- The loader of src/reac_segconf.c: the hand-written file, the drop-ins behind it in byte order, and the
-- refresh by stamps. The directory of the configuration is a record of what the system answers about it,
-- under labels as the source prints them; the home it lies in is fixed. The 17 stamps are a function of
-- their index, and the words of `strerror` are left out.
pub mod Order
pub mod Names
pub mod Files
pub mod Refresh
pub mod Sound
mod Tests
use reac_pw.Prelude.{
  ℕ, suc, ◌+◌, ◌-◌, ◌*◌, Bool, true, false, not, ◌&&◌, ◌||◌, Option, none, some, List, [], ◌∷◌,
  ◌++◌, ltb, leb, ◌==◌, if◌then◌else◌, length, take, drop,
}
use Prim.Native.Nat.{Ordering}
use reac_pw.Prelude.Words.{u32}
use reac_pw.Prelude.Bytes.{CString, codes, str_eq}
use reac_pw.Prelude.Text.{strcmp}
use reac_pw.Segconf.{
  Conf, Intent, init, refuse, conf_file, file_len, out_of_memory, larger_than_room, not_readable,
  files_past_bound,
}
use reac_pw.Segconf.Parse.{parse_file, cross_check}

abbrev pub dropin_dir : CString
dropin_dir = codes "reac-pw.conf.d"

abbrev pub max_files : ℕ
max_files = 17

-- What a file looked like when it was read (`struct reac_segconf_stamp`); one that was not there has none.
pub record Stamp : Type 0 where
  pub mtime_ns : ℕ
  pub size : ℕ
  pub ino : ℕ

-- What comes of opening a file: nothing, no memory for its text, or its bytes.
pub data Opened : Type 0 where
  missing starved : Opened
  holds : List ℕ → Opened

-- What the system answers: `stat` and `fopen` of a label, and the names in the drop-in directory.
pub record Disk : Type 0 where
  pub stat : CString → Option Stamp
  pub fopen : CString → Opened
  pub entries : Option (List CString)

-- `struct reac_segconf` with the fields of its loader.
pub record Store : Type 0 where
  pub conf : Conf
  pub present : Bool
  pub files : List CString
  pub files_overflow : ℕ
  pub stamps : ℕ → Option Stamp
  pub stamp_dir : Option Stamp
  pub based : Bool

abbrev pub blank_store : Store
blank_store = record {
  conf = init;
  present = false;
  files = [];
  files_overflow = 0;
  stamps = λ i. none;
  stamp_dir = none;
  based = false;
}

abbrev pub started : Store
started = record blank_store { based = true }

abbrev pub stamps_with : (ℕ → Option Stamp) → ℕ → Option Stamp → ℕ → Option Stamp
stamps_with stamps slot s i = if i == slot then s else stamps i

abbrev pub to_nul : List ℕ → CString
to_nul [] = []
to_nul (b ∷ bs) = let rest = to_nul bs in if b == 0 then [] else b ∷ rest

abbrev pub text_room : ℕ
text_room = 64 * 1024

abbrev pub reading_at : CString → Conf → Conf
reading_at label c = record c { reading = take (file_len - 1) label }

-- `*.conf`, and nothing hidden.
abbrev pub is_dropin : CString → Bool
is_dropin [] = false
is_dropin (b ∷ name) =
    not (b == b'.')
    && leb 6 (length (b ∷ name))
    && str_eq (drop (length (b ∷ name) - 5) (b ∷ name)) (codes ".conf")

abbrev pub prints : CString → Bool
prints name = ltb (length name + 16) file_len

-- The names to read, and how many more there are than are read.
unfoldable pub collect : List CString → List CString → ℕ → List CString × ℕ
collect [] names over = (names, over)
collect (name ∷ entries) names over =
    if not (is_dropin name)
    then collect entries names over
    else if not (prints name)
    then collect entries names (u32 (over + 1))
    else if leb (max_files - 1) (length names)
    then collect entries names (u32 (over + 1))
    else collect entries (names ++ name ∷ []) over

-- `qsort` by `strcmp`: the names of a directory are all different, so that its order is the only one.
abbrev pub place : CString → List CString → List CString
place name [] = name ∷ []
place name (n ∷ names) =
    let more = place name names in
    elim (strcmp name n) [
      | Ordering.lt ↦ name ∷ n ∷ names
      | Ordering.eq ↦ name ∷ n ∷ names
      | Ordering.gt ↦ n ∷ more
    ]

unfoldable pub sort : List CString → List CString
sort [] = []
sort (name ∷ names) = place name (sort names)

abbrev pub label_of : CString → CString
label_of name = dropin_dir ++ b'/' ∷ name

abbrev pub listed : CString → Store → Store
listed label st =
    if ltb (length st.files) max_files
    then record st { files = st.files ++ take (file_len - 1) label ∷ [] }
    else st

abbrev pub told_unread : CString → Store × Bool → Store
told_unread label (st, true) = st
told_unread label (st, false) = record st {
  conf = refuse (reading_at label st.conf) 0 not_readable;
}

abbrev pub overflowed : Store → Store
overflowed st = record st { files_overflow = u32 (st.files_overflow + 1) }

abbrev pub say_overflow : Store → Store
say_overflow st =
    if st.files_overflow == 0
    then st
    else record st { conf = refuse st.conf 0 (files_past_bound st.files_overflow) }

abbrev pub checked_store : Store → Store
checked_store st = record st { conf = cross_check st.conf }

module _ (intent_parse : CString → Option Intent) (known_model : CString → Bool) where
  abbrev pub parsed : CString → List ℕ → Conf → Conf
  parsed label bytes c =
      let named = reading_at label c in
      let told = if leb text_room (length bytes) then refuse named 0 larger_than_room else named in
      parse_file intent_parse known_model told (to_nul (take (text_room - 1) bytes)) label

  -- The store after a file, and whether it was read.
  abbrev pub opened_as : CString → Opened → Store → Store × Bool
  opened_as label missing st = (st, false)
  opened_as label starved st =
      let st' = listed label st in
      (record st' { conf = refuse (reading_at label st'.conf) 0 out_of_memory }, false)
  opened_as label (holds bytes) st =
      let st' = listed label st in (record st' { conf = parsed label bytes st'.conf }, true)

  unfoldable pub read_one : Disk → CString → ℕ → Store → Store × Bool
  read_one d label slot st =
      opened_as label (d.fopen label)
        (record st { stamps = stamps_with st.stamps slot (d.stat label) })

  unfoldable pub read_dropin : Disk → CString → Store → Store
  read_dropin d name st =
      if leb max_files (length st.files)
      then overflowed st
      else told_unread (label_of name) (read_one d (label_of name) (length st.files) st)

  unfoldable pub read_dropins : Disk → List CString → Store → Store
  read_dropins d [] st = st
  read_dropins d (name ∷ names) st = read_dropins d names (read_dropin d name st)

  abbrev pub load_entries : Disk → Option (List CString) → Store → Store
  load_entries d none st = st
  load_entries d (some entries) st =
      let (names, over) = collect entries [] st.files_overflow in
      say_overflow (read_dropins d (sort names) (record st { files_overflow = over }))

  unfoldable pub load_dropins : Disk → Store → Store
  load_dropins d st = load_entries d d.entries (record st { stamp_dir = d.stat dropin_dir })

  unfoldable pub load : Disk → Store
  load d =
      let (st, read) = read_one d conf_file 0 started in
      checked_store (load_dropins d (record st { present = read }))

abbrev pub differs : Option Stamp → Option Stamp → Bool
differs none none = false
differs none (some s) = true
differs (some s) none = true
differs (some s) (some t) =
    not (s.mtime_ns == t.mtime_ns) || not (s.size == t.size) || not (s.ino == t.ino)

-- Whether a label looks otherwise than its stamp.
unfoldable pub moved : Disk → CString → Option Stamp → Bool
moved d label stamp = differs (d.stat label) stamp

unfoldable pub any_moved : Disk → (ℕ → Option Stamp) → ℕ → List CString → Bool
any_moved d stamps i [] = false
any_moved d stamps i (file ∷ files) =
    not (str_eq file conf_file) && moved d file (stamps i) || any_moved d stamps (suc i) files

abbrev pub has_moved : Disk → Store → Bool
has_moved d st =
    moved d conf_file (st.stamps 0)
    || moved d dropin_dir st.stamp_dir
    || any_moved d st.stamps 0 st.files

module _ (intent_parse : CString → Option Intent) (known_model : CString → Bool) where
  -- The store, and whether it was loaded anew.
  unfoldable pub refresh : Disk → Store → Store × Bool
  refresh d st =
      if not st.based
      then (st, false)
      else if has_moved d st
      then (load intent_parse known_model d, true)
      else (st, false)
