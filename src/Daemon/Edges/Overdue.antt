-- ===== src/Daemon/Edges/Overdue.antt =====
-- Every link that was taken down is asked up again in its time (`hearing_knock_wake` in src/main.c).
use reac_pw.Prelude.{
  ℕ, ◌+◌, ◌<◌, ◌≤◌, map, ◌^◌, ◌≡◌, refl, Bool, true, not, ◌||◌, Option, none, some, List, [], ◌∷◌,
  ◌++◌, arith, ltb, ◌==◌, all, Bool-cases, inl, inr,
}
use reac_pw.Prelude.Bytes.{CString}
use reac_pw.Wake
use reac_pw.KnockWire.Interface.{Libreac}
use reac_pw.KnockWire.{set_host}
use reac_pw.KnockWire.Ladder.{KnockLadder, ladder_step}
use reac_pw.Daemon.Edges.{
  Entry, down_ns, fresh_entry, find, found_or, knock_ladder_of, store, finish, Sniffed, is_knocking,
  acted, turned, turn, turns,
}

-- No edge is in flight on the link, or its time is still to come.
abbrev pub ahead : ℕ → Entry → Bool
ahead now e = e.up_at_ns == 0 || ltb now e.up_at_ns

abbrev pub all_ahead : ℕ → List Entry → Bool
all_ahead now table = all (ahead now) table

-- The names of the links whose edge is in flight and whose time has come.
pub data Over (now : ℕ) : List Entry → List CString → Type 0 where
  nothing_more : Over now [] []
  over :
      {e : Entry} {table : List Entry} {names : List CString}
      → 0 < e.up_at_ns
      → e.up_at_ns ≤ now
      → Over now table names
      → Over now (e ∷ table) (e.name ∷ names)
  standing :
      {e : Entry} {table : List Entry} {names : List CString}
      → e.up_at_ns ≡ 0
      → Over now table names
      → Over now (e ∷ table) names
  to_come :
      {e : Entry} {table : List Entry} {names : List CString}
      → now < e.up_at_ns
      → Over now table names
      → Over now (e ∷ table) names

-- The links asked up, with the answers, are the ones whose time has come.
pub Asked : (CString → Bool) → ℕ → List Entry → List (CString × Bool) → Type 0
Asked link_up now table ups =
    (names : List CString) × Over now table names × (ups ≡ map (λ n. (n, link_up n)) names)

pub finish-ahead :
    (link_up : CString → Bool) (now : ℕ) (table : List Entry)
    → all_ahead now (finish link_up now table).0 ≡ true
unfolding finish
finish-ahead link_up now [] = refl
finish-ahead link_up now (e ∷ table) = ground (arith, finish-ahead link_up now table)

pub append-ahead :
    (now : ℕ) (table : List Entry) (e : Entry)
    → all_ahead now table ≡ true
    → ahead now e ≡ true
    → all_ahead now (table ++ e ∷ []) ≡ true
append-ahead now [] e h k = ground arith
append-ahead now (t ∷ table) e h k = ground (arith, append-ahead now table e)

pub store-ahead :
    (now : ℕ) (table : List Entry) (name : CString) (e : Entry)
    → all_ahead now table ≡ true
    → ahead now e ≡ true
    → all_ahead now (store table name e) ≡ true
store-ahead now [] name e h k = refl
store-ahead now (t ∷ table) name e h k = ground (arith, store-ahead now table name e)

pub found_or-ahead :
    (now max : ℕ) (table : List Entry) (name : CString) (o : Option Entry)
    → all_ahead now table ≡ true
    → all_ahead now (found_or max table name o).0 ≡ true
found_or-ahead now max table name (some e) h = h
found_or-ahead now max table name none h =
    ground (arith, append-ahead now table (fresh_entry name) h refl)

module _ (lib : Libreac) (max : ℕ) (link_down link_up : CString → Bool) where
  pub acted-ahead :
      (now : ℕ) (e : Entry) (name : CString) (kl : KnockLadder) (act : Wake.Act)
      → now + down_ns < 2 ^ 64
      → ahead now e ≡ true
      → ahead now (acted lib max link_down link_up now e name kl act) ≡ true
  acted-ahead now e name kl Wake.none lt h = h
  acted-ahead now e name kl Wake.exhausted lt h = h
  acted-ahead now e name kl Wake.bounce lt h = ground arith

  pub turned-ahead :
      (now : ℕ) (sn : Sniffed lib) (table : List Entry) (o : Option Entry)
      → now + down_ns < 2 ^ 64
      → all_ahead now table ≡ true
      → all_ahead now (turned lib max link_down link_up now sn (table, o)) ≡ true
  turned-ahead now sn table none lt h = h
  turned-ahead now sn table (some e) lt h = elim (Bool-cases (e.up_at_ns == 0)) [
    | inl up ↦
        let (kl, act, o) =
          ladder_step lib e.kl (set_host lib sn.kw sn.hosts) now sn.frames sn.carrier
            sn.siblings_served sn.hosts in
        rw up (
          store-ahead now table sn.name (acted lib max link_down link_up now e sn.name kl act) h
            (acted-ahead now e sn.name kl act lt (ground arith)))
    | inr down ↦ rw down h
  ]

  pub turn-ahead :
      (now : ℕ) (sn : Sniffed lib) (table : List Entry)
      → now + down_ns < 2 ^ 64
      → all_ahead now table ≡ true
      → all_ahead now (turn lib max link_down link_up now sn table) ≡ true
  unfolding turn knock_ladder_of
  turn-ahead now sn table lt h =
      elim (Bool-cases (not sn.knock_tx_open || not (is_knocking lib sn.kw.state))) [
        | inl idle ↦ rw idle h
        | inr knocks ↦
            let found = found_or max table sn.name (find table sn.name) in
            rw knocks (
              turned-ahead now sn found.0 found.1 lt
                (found_or-ahead now max table sn.name (find table sn.name) h))
      ]

  pub turns-ahead :
      (now : ℕ) (sniff : List (Sniffed lib)) (table : List Entry)
      → now + down_ns < 2 ^ 64
      → all_ahead now table ≡ true
      → all_ahead now (turns lib max link_down link_up now sniff table) ≡ true
  unfolding turns
  turns-ahead now [] table lt h = h
  turns-ahead now (sn ∷ sniff) table lt h =
      turns-ahead now sniff (turn lib max link_down link_up now sn table) lt
        (turn-ahead now sn table lt h)
