-- ===== src/Segconf/Load/Refresh.antt =====
-- When a refresh loads the configuration anew (src/reac_segconf.c).
pub mod Still
pub mod Anew
pub mod Fresh
use reac_pw.Prelude.{
  ℕ, suc, ◌+◌, ◌≤◌, ◌<◌, ◌≡◌, refl, sym, ap, ◌∙◌, inl, inr, Bool, true, false, not, ◌&&◌, ◌||◌,
  Option, none, some, List, [], ◌∷◌, ◌++◌, arith, length, length-append, take, take-short, leb, ltb,
  ◌==◌, ltb→lt, lt→ltb, Bool-cases, All, if◌then◌else◌,
}
use mathlib.Core.List.{append-nil}
use reac_pw.Prelude.Bytes.{CString, codes, str_eq}
use reac_pw.Segconf.{Conf, Intent, conf_file, file_len}
use reac_pw.Segconf.Load.{
  Stamp, Disk, Store, Opened, missing, starved, holds, max_files, dropin_dir, started, stamps_with,
  prints, label_of, listed, collect, sort, opened_as, read_one, told_unread, overflowed,
  read_dropin, read_dropins, say_overflow, load_entries, load_dropins, checked_store, load, differs,
  moved, any_moved, has_moved, refresh,
}
use reac_pw.Segconf.Load.Order.{IsRead}
use reac_pw.Segconf.Load.Files.{
  opens, label_if, Read, label_if-few, longer-few, read_one-Read, read_dropin-Read, first-Read,
}

abbrev pub is_there : Option Stamp → Bool
is_there none = false
is_there (some s) = true

-- Each file's stamp is what the disk says of it.
abbrev pub Seen : Disk → (ℕ → Option Stamp) → ℕ → List CString → Type 0
Seen d stamps i [] = Unit
Seen d stamps i (f ∷ fs) = (stamps i ≡ d.stat f) × Seen d stamps (suc i) fs

pub differs-same : (s : Option Stamp) → differs s s ≡ false
differs-same none = refl
differs-same (some s) = ground arith

pub differs-there : (s : Option Stamp) → is_there s ≡ true → differs none s ≡ true
differs-there none h = absurd cc
differs-there (some s) h = refl

pub moved-same :
    (d : Disk) (label : CString) (s : Option Stamp) → s ≡ d.stat label → moved d label s ≡ false
unfolding moved
moved-same d label s e = rw e (differs-same (d.stat label))

pub any_moved-Seen :
    (d : Disk) (stamps : ℕ → Option Stamp) (i : ℕ) (files : List CString)
    → Seen d stamps i files
    → any_moved d stamps i files ≡ false
unfolding any_moved
any_moved-Seen d stamps i [] s = refl
any_moved-Seen d stamps i (f ∷ fs) s =
    ground (arith, moved-same d f (stamps i) s.0, any_moved-Seen d stamps (suc i) fs s.1)

pub Seen-with :
    (d : Disk) (stamps : ℕ → Option Stamp) (i slot : ℕ) (s : Option Stamp) (files : List CString)
    → i + length files ≤ slot
    → Seen d stamps i files
    → Seen d (stamps_with stamps slot s) i files
Seen-with d stamps i slot s [] h v = tt
Seen-with d stamps i slot s (f ∷ fs) h v =
    let other : (i == slot) ≡ false = ground arith in
    (rw other v.0, Seen-with d stamps (suc i) slot s fs (omega arith) v.1)

pub Seen-append :
    (d : Disk) (stamps : ℕ → Option Stamp) (i j : ℕ) (files : List CString) (f : CString)
    → j ≡ i + length files
    → stamps j ≡ d.stat f
    → Seen d stamps i files
    → Seen d stamps i (files ++ f ∷ [])
Seen-append d stamps i j [] f e h v = let same : i ≡ j = omega arith in (ap stamps same ∙ h, tt)
Seen-append d stamps i j (g ∷ gs) f e h v =
    (v.0, Seen-append d stamps (suc i) j gs f (omega arith) h v.1)
