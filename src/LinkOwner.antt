-- ===== src/LinkOwner.antt =====
-- src/reac_link_owner.c and src/reac_link_owner.h: whether an interface is the host's. The kernel's
-- answers (`nl_dump`, its sockets and its message layout) are a parameter: a dump is a list of messages
-- with the fields that the source reads, or an error number. Attributes stand in the message's order,
-- decoded; a payload too short for its integer is `short`.
pub mod Bare
mod Tests
use reac_pw.Prelude.{
  ℕ, suc, Bool, true, false, not, ◌&&◌, ◌||◌, List, [], ◌∷◌, ltb, ◌==◌, if◌then◌else◌,
}
use reac_pw.Prelude.Bytes.{CString, codes, str_eq}

-- `struct reac_link_owner_facts` without its error, which is a dump's own.
pub record Facts : Type 0 where
  pub addrs : ℕ
  pub stacked : ℕ
  pub default_routes : ℕ

pub data Owner : Type 0 where
  bare addr stacked route unread : Owner

unfoldable pub verdict : Facts → Owner
verdict f =
    if ltb 0 f.addrs
    then addr
    else if ltb 0 f.stacked
    then stacked
    else if ltb 0 f.default_routes
    then route
    else bare

unfoldable pub is_hosts : Owner → Bool
is_hosts bare = false
is_hosts addr = true
is_hosts stacked = true
is_hosts route = true
is_hosts unread = true

-- A message of the address dump; `new` where its type is RTM_NEWADDR (so below).
pub record AddrMsg : Type 0 where
  pub new : Bool
  pub index : ℕ
  pub scope : ℕ

pub data LinkAttr : Type 0 where
  lower : ℕ → LinkAttr
  netns master other short : LinkAttr
  kind : CString → LinkAttr

pub record LinkMsg : Type 0 where
  pub new : Bool
  pub index : ℕ
  pub attrs : List LinkAttr

pub data RouteAttr : Type 0 where
  oif : ℕ → RouteAttr
  other short : RouteAttr

pub record RouteMsg : Type 0 where
  pub new : Bool
  pub dst_len : ℕ
  pub unicast : Bool
  pub attrs : List RouteAttr

-- RT_SCOPE_LINK.
abbrev pub scope_link : ℕ
scope_link = 253

unfoldable pub on_addr : ℕ → AddrMsg → Facts → Facts
on_addr idx m f =
    if not m.new
    then f
    else if not (m.index == idx)
    then f
    else if ltb m.scope scope_link
    then record f { addrs = suc f.addrs }
    else f

-- What a link's attributes say; a later one overrides.
pub record LinkSays : Type 0 where
  pub lower : ℕ
  pub other_ns : Bool
  pub enslaved : Bool
  pub kind : CString

unfoldable pub says : LinkSays → List LinkAttr → LinkSays
says s [] = s
says s (lower i ∷ attrs) = says (record s { lower = i }) attrs
says s (netns ∷ attrs) = says (record s { other_ns = true }) attrs
says s (master ∷ attrs) = says (record s { enslaved = true }) attrs
says s (other ∷ attrs) = says s attrs
says s (short ∷ attrs) = says s attrs
says s (kind k ∷ attrs) = says (record s { kind = k }) attrs

abbrev pub silent : LinkSays
silent = record { lower = 0; other_ns = false; enslaved = false; kind = [] }

-- The kinds that stack on their lower link; a veth names its peer there and stacks on nothing.
abbrev pub stacks : CString → Bool
stacks k =
    str_eq k (codes "vlan")
    || str_eq k (codes "macvlan")
    || str_eq k (codes "macvtap")
    || str_eq k (codes "ipvlan")

abbrev pub on_link_says : ℕ → ℕ → LinkSays → Facts → Facts
on_link_says idx index s f =
    if index == idx
    then (if s.enslaved then record f { stacked = suc f.stacked } else f)
    else if not (s.lower == idx) || s.other_ns
    then f
    else if stacks s.kind
    then record f { stacked = suc f.stacked }
    else f

unfoldable pub on_link : ℕ → LinkMsg → Facts → Facts
on_link idx m f = if not m.new then f else on_link_says idx m.index (says silent m.attrs) f

abbrev pub count_oif : ℕ → List RouteAttr → Facts → Facts
count_oif idx [] f = f
count_oif idx (oif i ∷ attrs) f =
    count_oif idx attrs (if i == idx then record f { default_routes = suc f.default_routes } else f)
count_oif idx (other ∷ attrs) f = count_oif idx attrs f
count_oif idx (short ∷ attrs) f = count_oif idx attrs f

unfoldable pub on_route : ℕ → RouteMsg → Facts → Facts
on_route idx m f =
    if not m.new
    then f
    else if not (m.dst_len == 0) || not m.unicast
    then f
    else count_oif idx m.attrs f

-- A dump handed to its callback message by message.
unfoldable pub dump : {M : Type 0} → (M → Facts → Facts) → List M → Facts → Facts
dump fn [] f = f
dump fn (m ∷ ms) f = dump fn ms (fn m f)

pub data Dumped (M : Type 0) : Type 0 where
  failed : ℕ → Dumped M
  messages : List M → Dumped M

-- The kernel's three dumps, and the index of a name (0 where there is none).
pub record Kernel : Type 0 where
  pub nametoindex : CString → ℕ
  pub addrs : Dumped AddrMsg
  pub links : Dumped LinkMsg
  pub routes : Dumped RouteMsg

abbrev pub then_dump :
    {M : Type 0} → (M → Facts → Facts) → Dumped M → Facts → (Facts → Owner) → Owner
then_dump fn (failed e) f go = unread
then_dump fn (messages ms) f go = go (dump fn ms f)

abbrev pub no_facts : Facts
no_facts = record { addrs = 0; stacked = 0; default_routes = 0 }

abbrev pub read_at : Kernel → ℕ → Owner
read_at k idx =
    if idx == 0
    then unread
    else then_dump (on_addr idx) k.addrs no_facts
        (λ f. then_dump (on_link idx) k.links f (λ g. then_dump (on_route idx) k.routes g verdict))

abbrev pub read_named : Kernel → CString → Owner
read_named k [] = unread
read_named k (c ∷ name) = read_at k (k.nametoindex (c ∷ name))

unfoldable pub owner_read : Kernel → CString → Owner
owner_read k ifname = read_named k ifname
