-- ===== src/LinkOwner/Tests.antt =====
-- A port under a macvlan of the host's, and its link-local address (src/reac_link_owner.c).
use reac_pw.Prelude.{true, [], ◌∷◌}
use reac_pw.Prelude.Bytes.{codes}
use reac_pw.LinkOwner.{lower, kind, other, Kernel, messages}

abbrev stacked_port : Kernel
stacked_port = record {
  nametoindex = λ name. 3;
  addrs = messages (record { new = true; index = 3; scope = 253 } ∷ []);
  links = messages (
      record { new = true; index = 4; attrs = other ∷ lower 3 ∷ kind (codes "macvlan") ∷ [] } ∷ []);
  routes = messages [];
}
