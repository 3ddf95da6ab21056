-- ===== src/Knobs/Argv.antt =====
-- The command line's settings in src/reac_knobs.c: never refused for room, and the last one wins.
use reac_pw.Prelude.{
  ℕ, ◌-◌, ◌<◌, ◌≡◌, refl, ap, inl, inr, Bool, true, false, not, ◌&&◌, Option, none, some, List, [],
  ◌∷◌, ◌++◌, arith, leb, ◌==◌, if◌then◌else◌, length, take, Bool-cases,
}
use reac_pw.Prelude.Bytes.{CString, str_eq}
use reac_pw.Prelude.Members.{
  member, Distinct, all_in, length-Distinct, Distinct-append, all_in-append, str_eq-clash,
  str_eq-same,
}
use reac_pw.Knobs.{
  Setting, keys, knob_keys, knob_known, store, set_argv, argv_max, value_len, argv_lookup, Found,
  argv, from_argv, resolve,
}

pub record IsArgv (tab : List Setting) : Type 0 where
  pub distinct : Distinct (keys tab)
  pub known : all_in (keys tab) knob_keys ≡ true

pub keys-store : (tab : List Setting) (key value : CString) → keys (store tab key value) ≡ keys tab
keys-store [] key value = refl
keys-store (s ∷ tab) key value = ground (arith, keys-store tab key value)

pub keys-append : (tab : List Setting) (s : Setting) → keys (tab ++ s ∷ []) ≡ keys tab ++ s.key ∷ []
keys-append [] s = refl
keys-append (t ∷ tab) s = rw (keys-append tab s)

pub length-keys : (tab : List Setting) → length (keys tab) ≡ length tab
length-keys [] = refl
length-keys (s ∷ tab) = rw (length-keys tab)

-- The table's room of 32 is more than there are knobs.
pub length-knob_keys : length knob_keys < argv_max
unfolding knob_keys
length-knob_keys = omega arith

pub IsArgv-length : (tab : List Setting) → IsArgv tab → length tab < argv_max
IsArgv-length tab i = omega (
  arith,
  length-keys tab,
  length-knob_keys,
  length-Distinct (keys tab) knob_keys i.distinct i.known,
)

pub IsArgv-leb : (tab : List Setting) → IsArgv tab → leb argv_max (length tab) ≡ false
IsArgv-leb tab i = ground (arith, IsArgv-length tab i)

abbrev pub accepts : CString → Bool
accepts key = not (length key == 0) && knob_known key

-- What a setting does where its key is a knob's, and where it is not.
abbrev pub stored : List Setting → CString → CString → List Setting
stored tab key value =
    if member key (keys tab)
    then store tab key (take (value_len - 1) value)
    else tab ++ record { key = key; value = take (value_len - 1) value } ∷ []

pub set_argv-stored :
    (tab : List Setting) (key value : CString)
    → IsArgv tab
    → set_argv tab key value ≡ ((if accepts key then stored tab key value else tab), accepts key)
unfolding set_argv
set_argv-stored tab key value i = ground (arith, IsArgv-leb tab i)

pub store-IsArgv :
    (tab : List Setting) (key value : CString) → IsArgv tab → IsArgv (store tab key value)
store-IsArgv tab key value i = record {
  distinct = rw (keys-store tab key value) i.distinct;
  known = rw (keys-store tab key value) i.known;
}

pub append-IsArgv :
    (tab : List Setting) (s : Setting)
    → IsArgv tab
    → member s.key (keys tab) ≡ false
    → member s.key knob_keys ≡ true
    → IsArgv (tab ++ s ∷ [])
append-IsArgv tab s i n k = record {
  distinct = rw (keys-append tab s) (Distinct-append (keys tab) s.key i.distinct n);
  known = rw (keys-append tab s) (all_in-append (keys tab) s.key knob_keys i.known k);
}

pub stored-IsArgv :
    (tab : List Setting) (key value : CString)
    → knob_known key ≡ true
    → IsArgv tab
    → IsArgv (stored tab key value)
unfolding knob_known
stored-IsArgv tab key value k i = elim (Bool-cases (member key (keys tab))) [
  | inl e ↦ rw e (store-IsArgv tab key (take (value_len - 1) value) i)
  | inr e ↦
      rw e (append-IsArgv tab (record { key = key; value = take (value_len - 1) value }) i e k)
]

pub set_argv-IsArgv :
    (tab : List Setting) (key value : CString) → IsArgv tab → IsArgv (set_argv tab key value).0
set_argv-IsArgv tab key value i = elim (Bool-cases (accepts key)) [
  | inl e ↦ rw (set_argv-stored tab key value i, e) (stored-IsArgv tab key value (ground arith) i)
  | inr e ↦ rw (set_argv-stored tab key value i, e) i
]

-- The table after a command line's settings.
abbrev pub sets : List Setting → List (CString × CString) → List Setting
sets tab [] = tab
sets tab ((key, value) ∷ calls) = sets (set_argv tab key value).0 calls

pub sets-IsArgv :
    (calls : List (CString × CString)) (tab : List Setting) → IsArgv tab → IsArgv (sets tab calls)
sets-IsArgv [] tab i = i
sets-IsArgv ((key, value) ∷ calls) tab i =
    sets-IsArgv calls (set_argv tab key value).0 (set_argv-IsArgv tab key value i)

pub nil-IsArgv : IsArgv []
nil-IsArgv = record { distinct = tt; known = refl }

-- However many settings a command line has given before, a setting is taken exactly when its key is a
-- knob's: the guard on the table's room never refuses one, since the keys stay different.
pub set_argv-accepts :
    (calls : List (CString × CString)) (key value : CString)
    → (set_argv (sets [] calls) key value).1 ≡ accepts key
set_argv-accepts calls key value =
    ap (λ p. p.1) (set_argv-stored (sets [] calls) key value (sets-IsArgv calls [] nil-IsArgv))

pub argv_lookup-store :
    (tab : List Setting) (key value asked : CString)
    → member key (keys tab) ≡ true
    → argv_lookup (store tab key value) asked
      ≡ (if str_eq key asked then some value else argv_lookup tab asked)
unfolding argv_lookup
argv_lookup-store [] key value asked h = absurd cc
argv_lookup-store (s ∷ tab) key value asked h = elim (Bool-cases (str_eq s.key key)) [
  | inl e ↦ rw e (ground (arith, str_eq-same key s.key asked e))
  | inr e ↦
      rw e (ground (arith, argv_lookup-store tab key value asked, str_eq-clash key s.key asked e))
]

pub argv_lookup-append :
    (tab : List Setting) (s : Setting) (asked : CString)
    → member s.key (keys tab) ≡ false
    → argv_lookup (tab ++ s ∷ []) asked
      ≡ (if str_eq s.key asked then some s.value else argv_lookup tab asked)
unfolding argv_lookup
argv_lookup-append [] s asked h = refl
argv_lookup-append (t ∷ tab) s asked h =
    ground (arith, argv_lookup-append tab s asked, str_eq-clash s.key t.key asked)

pub argv_lookup-stored :
    (tab : List Setting) (key value asked : CString)
    → argv_lookup (stored tab key value) asked
      ≡ (if str_eq key asked then some (take (value_len - 1) value) else argv_lookup tab asked)
argv_lookup-stored tab key value asked = elim (Bool-cases (member key (keys tab))) [
  | inl e ↦ rw e (argv_lookup-store tab key (take (value_len - 1) value) asked e)
  | inr e ↦
      rw e
        (argv_lookup-append tab (record { key = key; value = take (value_len - 1) value }) asked e)
]

pub from_argv-pick :
    (b : Bool) (cap : ℕ) (v : CString) (o : Option CString) (below : Found)
    → from_argv cap (if b then some v else o) below
      ≡ (if b then record { layer = argv; value = take (cap - 1) v } else from_argv cap o below)
from_argv-pick true cap v o below = refl
from_argv-pick false cap v o below = refl

-- A setting on the command line stands above every layer, and the last one for a key wins: asking for
-- that key then answers its value, cut to the two buffers, and asking for any other answers as before.
pub resolve-set_argv :
    (conf_lookup : CString → Option CString → ℕ → Found) (calls : List (CString × CString))
    (key value asked : CString) (cap : ℕ)
    → accepts key ≡ true
    → resolve conf_lookup (set_argv (sets [] calls) key value).0 asked cap ≡ (
        if str_eq key asked
        then record { layer = argv; value = take (cap - 1) (take (value_len - 1) value) }
        else resolve conf_lookup (sets [] calls) asked cap)
unfolding resolve
resolve-set_argv conf_lookup calls key value asked cap a = rw (
  set_argv-stored (sets [] calls) key value (sets-IsArgv calls [] nil-IsArgv),
  a,
  argv_lookup-stored (sets [] calls) key value asked,
  from_argv-pick (str_eq key asked) cap (take (value_len - 1) value)
      (argv_lookup (sets [] calls) asked) (conf_lookup asked none cap),
)
