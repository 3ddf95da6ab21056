-- ===== src/LinkOwner/Bare.antt =====
-- Which interfaces src/reac_link_owner.c leaves to the daemon.
use reac_pw.Prelude.{
  ℕ, suc, ◌≡◌, Bool, true, false, not, ◌&&◌, ◌||◌, List, [], ◌∷◌, arith, ltb, ◌==◌, if◌then◌else◌,
}
use reac_pw.Prelude.Bytes.{CString}
use reac_pw.LinkOwner.{
  Facts, verdict, is_hosts, AddrMsg, LinkMsg, RouteMsg, RouteAttr, oif, other, short, scope_link,
  on_addr, LinkSays, says, silent, stacks, on_link, on_link_says, count_oif, on_route, dump,
  then_dump, Owner, Dumped, failed, messages, Kernel, no_facts, read_at,
}

abbrev pub any : {M : Type 0} → (M → Bool) → List M → Bool
any p [] = false
any p (m ∷ ms) = p m || any p ms

-- An address on the interface, of a scope wider than the link's.
abbrev pub claims_addr : ℕ → AddrMsg → Bool
claims_addr idx m = m.new && m.index == idx && ltb m.scope scope_link

-- The interface itself enslaved, or another link of our namespace stacked on it.
abbrev pub says_claim : ℕ → ℕ → LinkSays → Bool
says_claim idx index s =
    if index == idx then s.enslaved else s.lower == idx && not s.other_ns && stacks s.kind

abbrev pub claims_link : ℕ → LinkMsg → Bool
claims_link idx m = m.new && says_claim idx m.index (says silent m.attrs)

abbrev pub leaves : ℕ → RouteAttr → Bool
leaves idx (oif i) = i == idx
leaves idx other = false
leaves idx short = false

-- A unicast route to everything that leaves by the interface.
abbrev pub claims_route : ℕ → RouteMsg → Bool
claims_route idx m = m.new && m.dst_len == 0 && m.unicast && any (leaves idx) m.attrs

abbrev pub claimed : {M : Type 0} → (M → Bool) → Dumped M → Bool
claimed p (failed e) = true
claimed p (messages ms) = any p ms

abbrev pub held_at : Kernel → ℕ → Bool
held_at k idx =
    idx == 0
    || claimed (claims_addr idx) k.addrs
    || claimed (claims_link idx) k.links
    || claimed (claims_route idx) k.routes

abbrev pub held : Kernel → CString → Bool
held k [] = true
held k (c ∷ name) = held_at k (k.nametoindex (c ∷ name))

abbrev pub counted : Facts → Bool
counted f = ltb 0 f.addrs || ltb 0 f.stacked || ltb 0 f.default_routes

pub verdict-counted : (f : Facts) → is_hosts (verdict f) ≡ counted f
unfolding verdict is_hosts
verdict-counted f = ground arith

pub on_addr-counted :
    (idx : ℕ) (m : AddrMsg) (f : Facts)
    → counted (on_addr idx m f) ≡ (counted f || claims_addr idx m)
unfolding on_addr
on_addr-counted idx m f = ground arith

pub on_link_says-counted :
    (idx index : ℕ) (s : LinkSays) (f : Facts)
    → counted (on_link_says idx index s f) ≡ (counted f || says_claim idx index s)
on_link_says-counted idx index s f = ground arith

pub on_link-counted :
    (idx : ℕ) (m : LinkMsg) (f : Facts)
    → counted (on_link idx m f) ≡ (counted f || claims_link idx m)
unfolding on_link
on_link-counted idx m f = ground (arith, on_link_says-counted idx m.index (says silent m.attrs) f)

pub count_oif-counted :
    (idx : ℕ) (attrs : List RouteAttr) (f : Facts)
    → counted (count_oif idx attrs f) ≡ (counted f || any (leaves idx) attrs)
count_oif-counted idx [] f = ground arith
count_oif-counted idx (oif i ∷ attrs) f = ground (
  arith,
  count_oif-counted idx attrs
      (if i == idx then record f { default_routes = suc f.default_routes } else f),
)
count_oif-counted idx (other ∷ attrs) f = count_oif-counted idx attrs f
count_oif-counted idx (short ∷ attrs) f = count_oif-counted idx attrs f

pub on_route-counted :
    (idx : ℕ) (m : RouteMsg) (f : Facts)
    → counted (on_route idx m f) ≡ (counted f || claims_route idx m)
unfolding on_route
on_route-counted idx m f = ground (arith, count_oif-counted idx m.attrs f)

pub dump-counted :
    {M : Type 0} (fn : M → Facts → Facts) (p : M → Bool)
    → ((m : M) (f : Facts) → counted (fn m f) ≡ (counted f || p m))
    → (ms : List M) (f : Facts) → counted (dump fn ms f) ≡ (counted f || any p ms)
unfolding dump
dump-counted fn p each [] f = ground arith
dump-counted fn p each (m ∷ ms) f = ground (arith, each m f, dump-counted fn p each ms (fn m f))

pub then_dump-held :
    {M : Type 0} (fn : M → Facts → Facts) (p : M → Bool) (d : Dumped M) (f : Facts)
    (go : Facts → Owner) (later : Bool)
    → ((m : M) (f : Facts) → counted (fn m f) ≡ (counted f || p m))
    → ((g : Facts) → is_hosts (go g) ≡ (counted g || later))
    → is_hosts (then_dump fn d f go) ≡ (counted f || (claimed p d || later))
unfolding is_hosts
then_dump-held fn p (failed e) f go later each after = ground arith
then_dump-held fn p (messages ms) f go later each after =
    ground (arith, after (dump fn ms f), dump-counted fn p each ms f)

-- The dumps one after another, each with what is left to do.
pub routes-held :
    (k : Kernel) (idx : ℕ) (f : Facts)
    → is_hosts (then_dump (on_route idx) k.routes f verdict)
      ≡ (counted f || (claimed (claims_route idx) k.routes || false))
routes-held k idx f =
    then_dump-held (on_route idx) (claims_route idx) k.routes f verdict false (on_route-counted idx)
      (λ g. ground (arith, verdict-counted g))

pub links-held :
    (k : Kernel) (idx : ℕ) (f : Facts)
    → is_hosts
        (then_dump (on_link idx) k.links f (λ g. then_dump (on_route idx) k.routes g verdict))
      ≡ (counted f
          || (claimed (claims_link idx) k.links || (claimed (claims_route idx) k.routes || false)))
links-held k idx f =
    then_dump-held (on_link idx) (claims_link idx) k.links f
      (λ g. then_dump (on_route idx) k.routes g verdict)
      (claimed (claims_route idx) k.routes || false) (on_link-counted idx) (routes-held k idx)

pub addrs-held :
    (k : Kernel) (idx : ℕ)
    → is_hosts (
        then_dump (on_addr idx) k.addrs no_facts (λ f.
          then_dump (on_link idx) k.links f (λ g. then_dump (on_route idx) k.routes g verdict)))
      ≡ (claimed (claims_addr idx) k.addrs
          || (claimed (claims_link idx) k.links || (claimed (claims_route idx) k.routes || false)))
addrs-held k idx =
    then_dump-held (on_addr idx) (claims_addr idx) k.addrs no_facts
      (λ f. then_dump (on_link idx) k.links f (λ g. then_dump (on_route idx) k.routes g verdict))
      (claimed (claims_link idx) k.links || (claimed (claims_route idx) k.routes || false))
      (on_addr-counted idx) (links-held k idx)

pub read_at-held : (k : Kernel) (idx : ℕ) → is_hosts (read_at k idx) ≡ held_at k idx
unfolding is_hosts
read_at-held k idx = ground (arith, addrs-held k idx)
